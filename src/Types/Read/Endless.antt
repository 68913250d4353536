-- ===== src/Types/Read/Endless.antt =====
-- mbus_list_read where a list inside ends too early.
use libgmbus.Base.{ℕ, zero, suc, [], ◌∷◌, Option, none, some, ◌≡◌, refl, Bytes, fault, Fault}
use libgmbus.Platform.{Platform}
use libgmbus.Util.{find_char}
use libgmbus.Types.{Object, Objects, nil, mlist, append}
use libgmbus.Types.Read.{
  failed, read_string, after_step, after_list, step_on, whole_text, skip_blanks, kind_of,
  read_round, go_on, read_at, read_opened, read_closed, read_elements, list_read,
}

-- A list in which a list begins with a string that has no end, from behind the first '(' on.
abbrev broken : Bytes → Bytes
broken s = b' ' ∷ b'(' ∷ b'"' ∷ s

read_string_endless :
    (before s : Bytes) → find_char s b'"' ≡ none → read_string (before, s) ≡ failed (before, s)
unfolding read_string
read_string_endless before s h = rw (read_string, h) refl

read_elements_endless :
    (p : Platform) (fuel : ℕ) (list : Objects) (last : Option Object) (s : Bytes)
    → find_char s b'"' ≡ none
    → read_elements p fuel list last (b'(' ∷ [], broken s) ≡ fault Fault.endless
unfolding read_elements read_at read_round kind_of read_opened read_closed go_on after_list
    after_step step_on whole_text skip_blanks
read_elements_endless p zero list last s h = refl
read_elements_endless p (suc zero) list last s h = refl
read_elements_endless p (suc (suc fuel)) list last s h =
    rw (read_string_endless (b'"' ∷ b'(' ∷ b' ' ∷ b'(' ∷ []) s h)
      (read_elements_endless p (suc fuel) (append list (mlist nil)) (some (mlist nil)) s h)

-- The text of a list that has, behind one blank, a list as its first object, which begins with a string
-- that has no second quote before the end of the text or a NUL: its reading never ends, whatever number of
-- rounds it is given.
pub list_read-endless :
    (p : Platform) (fuel : ℕ) (s : Bytes)
    → find_char s b'"' ≡ none
    → list_read p fuel nil ([], b'(' ∷ broken s) ≡ fault Fault.endless
unfolding list_read read_opened skip_blanks
list_read-endless p fuel s h = rw (read_elements_endless p fuel nil none s h) refl
