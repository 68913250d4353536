-- ===== src/Types/Read/Flat.antt =====
-- The objects other than lists, between mbus_list_as_string and mbus_list_read.
use libgmbus.Base.{
  ℕ, ◌+◌, ◌^◌, subst, ◌<◌, true, false, ◌||◌, [], ◌∷◌, ◌++◌, Option, none, some, ◌≡◌, ◌≢◌, refl, ap,
  ◌∙◌, sym, arith, Bytes, ◌==◌, length, length-append, append_assoc, ok, ok_injective, Outcome,
  ◌>>=◌,
}
use libgmbus.Platform.{Platform}
use libgmbus.Base64.{base64decode}
use libgmbus.Util.{peek, int64_to_str, find_char}
use libgmbus.Util.Decimal.{strtoull-int64_to_str}
use libgmbus.Types.{Object, null, minteger, mfloat, mstring, msymbol, mdata, mlist, nil, as_string}
use libgmbus.Types.Read.{
  Cursor, Reading, kind_of, Kind, read_round, read_opened, number_object, read_elements,
}
use libgmbus.Types.Read.Tokens.{IsSolid, int64_to_str_numeral, IsNumeral, Without, nul_or}
use libgmbus.Types.Read.Rounds.{
  IsReadable, kind_of_upper, Takes, Takes-string, Takes-data, Takes-number, Takes-symbol,
}

-- A text that begins an object.
abbrev pub Begins : Bytes → Type 0
Begins text = kind_of (peek text) ≢ Kind.unknown

pub Begins-IsSolid :
    (text : Bytes) → Begins text → IsSolid text × ((peek text == 0 || peek text == b')') ≡ false)
unfolding kind_of
Begins-IsSolid text h = (ground arith, ground arith)

number_object_int :
    (p : Platform) (number c : ℕ) (s : Bytes)
    → number < 2 ^ 64
    → int64_to_str number true ≡ c ∷ s
    → find_char s b'.' ≡ none
    → number_object p (c ∷ s) ≡ minteger number
unfolding number_object
number_object_int p number c s h e no_dot =
    rw (number_object, no_dot, ← e, strtoull-int64_to_str number true h) refl

number_object_float :
    (p : Platform) (c : ℕ) (s : Bytes) (n : ℕ)
    → find_char s b'.' ≡ some n
    → number_object p (c ∷ s) ≡ mfloat (p.strtod (c ∷ s))
unfolding number_object
number_object_float p c s n dot = rw (number_object, dot) refl

-- The lists inside, on that fuel.
abbrev pub inside : Platform → ℕ → Cursor → Outcome Reading
inside p fuel = read_opened (read_elements p fuel nil none) nil

-- The text begins an object, and a round over it and a blank takes the object.
abbrev pub Reads : Platform → ℕ → Object → Bytes → Type 0
Reads p fuel x text =
    ((tail : Bytes) → Begins (text ++ tail))
    × ((last : Option Object) (top : Cursor) (before R : Bytes)
        → IsSolid R
        → Takes (read_round p (inside p fuel) last top (before, text ++ b' ' ∷ R)) x before
            (length text) R)

module _ (p : Platform) (fuel : ℕ) where
  Reads-string :
      (str : Bytes)
      → IsReadable p (mstring str)
      → Reads p fuel (mstring str) (b'"' ∷ (str ++ b'"' ∷ []))
  unfolding IsReadable
  Reads-string str h = (
    (λ tail. unfold kind_of in λ e. cc),
    (λ last top before R solid.
        let n : length (b'"' ∷ (str ++ b'"' ∷ [])) ≡ length str + 2 =
          omega (arith, length-append str (b'"' ∷ [])) in
        rw (n, append_assoc str (b'"' ∷ []) (b' ' ∷ R))
          (Takes-string p (inside p fuel) last top before R solid str h)),
  )

  Reads-data :
      (array text : Bytes)
      → base64decode p text ≡ ok array
      → Without (nul_or b'>') text
      → Reads p fuel (mdata array) (b'<' ∷ (text ++ b'>' ∷ []))
  Reads-data array text e h = (
    (λ tail. unfold kind_of in λ e. cc),
    (λ last top before R solid.
        let n : length (b'<' ∷ (text ++ b'>' ∷ [])) ≡ length text + 2 =
          omega (arith, length-append text (b'>' ∷ [])) in
        rw (n, append_assoc text (b'>' ∷ []) (b' ' ∷ R))
          (Takes-data p (inside p fuel) last top before R solid array text e h)),
  )

  Reads-number :
      (x : Object) (c : ℕ) (s : Bytes)
      → IsNumeral c s
      → number_object p (c ∷ s) ≡ x
      → Reads p fuel x (c ∷ s)
  Reads-number x c s h e = (
    (λ tail. rw h.begins (λ e. cc)),
    (λ last top before R solid.
        rw (← e) (Takes-number p (inside p fuel) last top before R solid c s h)),
  )

  Reads-symbol : (str : Bytes) → IsReadable p (msymbol str) → Reads p fuel (msymbol str) str
  unfolding IsReadable
  Reads-symbol [] h = absurd (ground (arith, h.0))
  Reads-symbol (c ∷ str) h = (
    (λ tail. rw (kind_of_upper c h.0) (λ e. cc)),
    (λ last top before R solid. Takes-symbol p (inside p fuel) last top before R solid (c ∷ str) h),
  )

-- Every object but a list.
abbrev pub IsFlat : Object → Type 0
IsFlat (mlist list) = ⊥
IsFlat x = Unit

pub Reads-flat :
    (p : Platform) (fuel : ℕ) (x : Object) (text : Bytes)
    → IsFlat x
    → IsReadable p x
    → as_string p x ≡ ok text
    → Reads p fuel x text
unfolding as_string IsReadable
Reads-flat p fuel null text f h e = absurd h
Reads-flat p fuel (minteger number) text f h e =
    let (c, s, t, n, dot) = int64_to_str_numeral number in
    subst (Reads p fuel (minteger number)) (sym t ∙ ok_injective e)
      (Reads-number p fuel (minteger number) c s n (number_object_int p number c s h t dot))
Reads-flat p fuel (mfloat number) text f (c, s, t, n, (k, dot), value) e =
    subst (Reads p fuel (mfloat number)) (sym t ∙ ok_injective e) (
      Reads-number p fuel (mfloat number) c s n (number_object_float p c s k dot ∙ ap mfloat value))
Reads-flat p fuel (mstring str) text f h e =
    subst (Reads p fuel (mstring str)) (ok_injective e) (Reads-string p fuel str h)
Reads-flat p fuel (msymbol str) text f h e =
    subst (Reads p fuel (msymbol str)) (ok_injective e) (Reads-symbol p fuel str h)
Reads-flat p fuel (mdata array) text f (t, encoded, decoded, within) e =
    subst (Reads p fuel (mdata array))
      (ok_injective
        (sym (ap (λ (o : Outcome Bytes). o >>= λ u. ok (b'<' ∷ (u ++ b'>' ∷ []))) encoded) ∙ e))
      (Reads-data p fuel array t decoded within)
Reads-flat p fuel (mlist list) text f h e = absurd f
