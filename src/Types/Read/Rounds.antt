-- ===== src/Types/Read/Rounds.antt =====
-- The rounds of mbus_list_read over the texts that mbus_list_as_string prints.
use libgmbus.Base.{
  ℕ, ◌+◌, ◌^◌, ◌<◌, true, [], ◌∷◌, ◌++◌, Option, some, ◌≡◌, refl, sym, arith, Bytes, length,
  take-append, take-append, ok, Outcome, g_ascii_isupper, ◌>>=◌,
}
use libgmbus.Platform.{Platform}
use libgmbus.Base64.{base64encode, base64decode}
use libgmbus.Util.{find_char, peek}
use libgmbus.Types.{
  Object, Objects, null, minteger, mfloat, mstring, msymbol, mdata, mlist, nil, cons, symbol_new,
  data_new, is_valid_char, is_valid_symbol,
}
use libgmbus.Types.Read.{
  Cursor, Round, Reading, step_on, skip_blanks, kind_of, Kind, read_string, read_symbol,
  read_number, number_object, read_data, after_step, read_round,
}
use libgmbus.Types.Read.Tokens.{
  onto, length-onto, move-append, Without, nul_or, find_char-append, number_end-append, IsSolid,
  skip_blanks-solid, skip_blanks_blank, IsNumeral,
}

-- The text of a double is a numeral with a dot that strtod reads as the double.
abbrev pub IsFloat : Platform → ℕ → Type 0
IsFloat p number =
    (c : ℕ) × (s : Bytes) × (p.print_double number ≡ c ∷ s)
    × IsNumeral c s
    × ((n : ℕ) × (find_char s b'.' ≡ some n))
    × (p.strtod (c ∷ s) ≡ number)

-- A symbol that begins with a capital letter.
abbrev pub IsName : Bytes → Type 0
IsName sym = (g_ascii_isupper (peek sym) ≡ true) × (is_valid_symbol sym ≡ true)

-- Data whose base64 text decodes to it.
abbrev pub IsData : Platform → Bytes → Type 0
IsData p array =
    (text : Bytes) × (base64encode p array ≡ ok text)
    × (base64decode p text ≡ ok array)
    × Without (nul_or b'>') text

-- What can be printed and read: no NULL, no quote or NUL byte in a string, names as symbols.
unfoldable mutual
  pub IsReadable : Platform → Object → Type 0
  IsReadable p null = ⊥
  IsReadable p (minteger number) = number < 2 ^ 64
  IsReadable p (mfloat number) = IsFloat p number
  IsReadable p (mstring str) = Without (nul_or b'"') str
  IsReadable p (msymbol str) = IsName str
  IsReadable p (mdata array) = IsData p array
  IsReadable p (mlist list) = AreReadable p list

  pub AreReadable : Platform → Objects → Type 0
  AreReadable p nil = Unit
  AreReadable p (cons x xs) = IsReadable p x × AreReadable p xs

pub kind_of_upper : (c : ℕ) → g_ascii_isupper c ≡ true → kind_of c ≡ Kind.a_symbol
unfolding kind_of
kind_of_upper c h = ground arith

valid_within : (sym : Bytes) → is_valid_symbol sym ≡ true → Without (nul_or b' ') sym
unfolding is_valid_symbol is_valid_char
valid_within [] h = tt
valid_within (c ∷ sym) h = ground (arith, valid_within sym)

symbol_new_valid : (sym : Bytes) → is_valid_symbol sym ≡ true → symbol_new (some sym) ≡ msymbol sym
unfolding symbol_new
symbol_new_valid sym h = rw h

data_new_decoded :
    (p : Platform) (text : Bytes)
    → data_new p (some text) true ≡ (base64decode p text >>= λ array. ok (mdata array))
unfolding data_new
data_new_decoded p text = refl

-- A round has taken an object of `size` bytes and the blank behind it: R is what comes next.
abbrev pub Takes : Outcome Round → Object → Bytes → ℕ → Bytes → Type 0
Takes round x before size R =
    (pos : Cursor) × (B : Bytes) × (round ≡ ok (some x, pos))
    × (skip_blanks pos.0 pos.1 ≡ (B, R))
    × (length B ≡ length before + size + 1)

-- Where a round ends, with one byte more behind the token or a blank.
Takes-at :
    (round : Outcome Round) (x : Object) (before : Bytes) (size : ℕ) (R passed : Bytes)
    → IsSolid R
    → round ≡ ok (some x, (passed, R))
    → length passed ≡ length before + size + 1
    → Takes round x before size R
Takes-at round x before size R passed solid e l =
    ((passed, R), passed, e, skip_blanks-solid passed R solid, l)

pub Takes-blank :
    (round : Outcome Round) (x : Object) (before : Bytes) (size : ℕ) (R passed : Bytes)
    → IsSolid R
    → round ≡ ok (some x, (passed, b' ' ∷ R))
    → length passed ≡ length before + size
    → Takes round x before size R
Takes-blank round x before size R passed solid e l =
    ((passed, b' ' ∷ R), b' ' ∷ passed, e, skip_blanks_blank passed R solid, omega arith)

read_string-append :
    (str before rest : Bytes)
    → Without (nul_or b'"') str
    → after_step (read_string (before, str ++ b'"' ∷ rest))
      ≡ ok (some (mstring str), (0 ∷ onto str before, rest))
unfolding read_string after_step step_on
read_string-append str before rest h =
    rw
      (
        read_string,
        find_char-append str 33 rest h,
        move-append str before (b'"' ∷ rest),
        take-append str (b'"' ∷ rest),
      )
      refl

read_data-append :
    (p : Platform) (array text before rest : Bytes)
    → base64decode p text ≡ ok array
    → Without (nul_or b'>') text
    → (read_data p (before, text ++ b'>' ∷ rest) >>= after_step)
      ≡ ok (some (mdata array), (0 ∷ onto text before, rest))
unfolding read_data after_step step_on
read_data-append p array text before rest e h =
    rw
      (
        read_data,
        find_char-append text 61 rest h,
        move-append text before (b'>' ∷ rest),
        take-append text (b'>' ∷ rest),
        data_new_decoded p text,
        e,
      )
      refl

read_number-append :
    (p : Platform) (c : ℕ) (s before rest : Bytes)
    → IsNumeral c s
    → after_step (read_number p (before, c ∷ (s ++ b' ' ∷ rest)))
      ≡ ok (some (number_object p (c ∷ s)), (0 ∷ onto s (c ∷ before), rest))
unfolding read_number after_step step_on
read_number-append p c s before rest h =
    rw
      (
        number_end-append s rest h.goes_on,
        take-append s (b' ' ∷ rest),
        move-append s (c ∷ before) (b' ' ∷ rest),
      )
      refl

read_symbol-append :
    (sym before rest : Bytes)
    → is_valid_symbol sym ≡ true
    → after_step (read_symbol (before, sym ++ b' ' ∷ rest))
      ≡ ok (some (msymbol sym), (0 ∷ onto sym before, rest))
unfolding read_symbol after_step step_on
read_symbol-append sym before rest h =
    rw
      (
        read_symbol,
        find_char-append sym 31 rest (valid_within sym h),
        take-append sym (b' ' ∷ rest),
        symbol_new_valid sym h,
        move-append sym before (b' ' ∷ rest),
      )
      refl

module _ (p : Platform) (inside : Cursor → Outcome Reading) (last : Option Object) (top : Cursor)
    (before R : Bytes) (solid : IsSolid R) where
  pub Takes-string :
      (str : Bytes)
      → Without (nul_or b'"') str
      → Takes
          (read_round p inside last top (before, b'"' ∷ (str ++ b'"' ∷ b' ' ∷ R)))
          (mstring str)
          before
          (length str + 2)
          R
  Takes-string str h =
      Takes-blank _ (mstring str) before (length str + 2) R (0 ∷ onto str (b'"' ∷ before)) solid
        (unfold read_round kind_of in read_string-append str (b'"' ∷ before) (b' ' ∷ R) h)
        (omega (arith, length-onto str (b'"' ∷ before)))

  pub Takes-data :
      (array text : Bytes)
      → base64decode p text ≡ ok array
      → Without (nul_or b'>') text
      → Takes
          (read_round p inside last top (before, b'<' ∷ (text ++ b'>' ∷ b' ' ∷ R)))
          (mdata array)
          before
          (length text + 2)
          R
  Takes-data array text e h =
      Takes-blank _ (mdata array) before (length text + 2) R (0 ∷ onto text (b'<' ∷ before)) solid
        (unfold read_round kind_of in read_data-append p array text (b'<' ∷ before) (b' ' ∷ R) e h)
        (omega (arith, length-onto text (b'<' ∷ before)))

  pub Takes-number :
      (c : ℕ) (s : Bytes)
      → IsNumeral c s
      → Takes
          (read_round p inside last top (before, c ∷ (s ++ b' ' ∷ R)))
          (number_object p (c ∷ s))
          before
          (length (c ∷ s))
          R
  Takes-number c s h =
      Takes-at _ (number_object p (c ∷ s)) before (length (c ∷ s)) R (0 ∷ onto s (c ∷ before)) solid
        (unfold read_round in rw (read_round, h.begins) (read_number-append p c s before R h))
        (omega (arith, length-onto s (c ∷ before)))

  pub Takes-symbol :
      (sym : Bytes)
      → IsName sym
      → Takes
          (read_round p inside last top (before, sym ++ b' ' ∷ R))
          (msymbol sym)
          before
          (length sym)
          R
  Takes-symbol [] h = absurd (ground (arith, h.0))
  Takes-symbol (c ∷ s) h =
      Takes-at _ (msymbol (c ∷ s)) before (length (c ∷ s)) R (0 ∷ onto (c ∷ s) before) solid
        (unfold read_round in
          rw (read_round, kind_of_upper c h.0) (read_symbol-append (c ∷ s) before R h.1))
        (omega (arith, length-onto (c ∷ s) before))
