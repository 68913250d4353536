-- ===== src/Types/Read/Tokens.antt =====
-- The tokens of mbus_list_read, at the place where they begin.
use libgmbus.Base.{
  inl, inr, ◌<◌, ℕ, suc, ◌+◌, Bool, true, false, ◌||◌, [], ◌∷◌, ◌++◌, none, some, ◌≡◌, refl, arith,
  Bytes, ◌==◌, All, length, drop,
}
use libgmbus.Util.{find_char, peek, int64_to_str}
use libgmbus.Util.Decimal.{IsDigit, int64_to_str_signed}
use libgmbus.Types.Read.{move, whole_text, skip_blanks, number_end, kind_of, Kind}

-- The bytes of a text, put in front of others one by one.
abbrev pub onto : Bytes → Bytes → Bytes
onto [] before = before
onto (c ∷ s) before = onto s (c ∷ before)

pub length-onto : (s before : Bytes) → length (onto s before) ≡ length s + length before
length-onto [] before = omega arith
length-onto (c ∷ s) before = omega (arith, length-onto s (c ∷ before))

pub move-append :
    (s before rest : Bytes) → move (length s) before (s ++ rest) ≡ (onto s before, rest)
move-append [] before rest = refl
move-append (c ∷ s) before rest = move-append s (c ∷ before) rest

-- A text is as long as its two parts, and what lies behind the place is its end.
pub drop-whole_text :
    (before here : Bytes) (n : ℕ) → drop (length before + n) (whole_text before here) ≡ drop n here
unfolding whole_text
drop-whole_text [] here n = let e : 0 + n ≡ n = omega arith in rw e refl
drop-whole_text (c ∷ before) here n =
    let e : length (c ∷ before) + n ≡ length before + suc n = omega arith in
    rw e (drop-whole_text before (c ∷ here) (suc n))

-- No byte of the text ends it.
abbrev pub Without : (ℕ → Bool) → Bytes → Type 0
Without test = All (λ c. test c ≡ false)

abbrev pub nul_or : ℕ → ℕ → Bool
nul_or d c = c == 0 || c == d

pub find_char-append :
    (s : Bytes) (d : ℕ) (rest : Bytes)
    → Without (nul_or (suc d)) s
    → find_char (s ++ suc d ∷ rest) (suc d) ≡ some (length s)
unfolding find_char
find_char-append [] d rest h = ground arith
find_char-append (c ∷ s) d rest h = ground (arith, find_char-append s d rest h.1)

pub find_char_digits : (s : Bytes) → All IsDigit s → find_char s b'.' ≡ none
unfolding find_char
find_char_digits [] h = refl
find_char_digits (c ∷ s) h = ground (arith, find_char_digits s h.1)

abbrev pub ends_number : ℕ → Bool
ends_number c = c == b' ' || c == b'\n' || c == 0

pub number_end-append :
    (s : Bytes) (rest : Bytes) → Without ends_number s → number_end (s ++ b' ' ∷ rest) ≡ length s
unfolding number_end
number_end-append [] rest h = refl
number_end-append (c ∷ s) rest h = ground (arith, number_end-append s rest h.1)

digit_within : (s : Bytes) → All IsDigit s → Without ends_number s
digit_within [] h = tt
digit_within (c ∷ s) h = (ground arith, digit_within s h.1)

-- A place with no blank.
abbrev pub IsSolid : Bytes → Type 0
IsSolid s = (peek s == b' ' || peek s == b'\t') ≡ false

pub skip_blanks-solid :
    (before here : Bytes) → IsSolid here → skip_blanks before here ≡ (before, here)
unfolding skip_blanks
skip_blanks-solid before [] h = refl
skip_blanks-solid before (c ∷ here) h = rw h

pub skip_blanks_blank :
    (before here : Bytes) → IsSolid here → skip_blanks before (b' ' ∷ here) ≡ (b' ' ∷ before, here)
unfolding skip_blanks
skip_blanks_blank before here h = skip_blanks-solid (b' ' ∷ before) here h

-- The text of a number: its first byte says so, and no other one ends it.
pub record IsNumeral (c : ℕ) (s : Bytes) : Type 0 where
  pub begins : kind_of c ≡ Kind.a_number
  pub goes_on : Without ends_number s

kind_of_digit : (c : ℕ) → IsDigit c → kind_of c ≡ Kind.a_number
unfolding kind_of
kind_of_digit c h = ground arith

kind_of_minus : kind_of b'-' ≡ Kind.a_number
unfolding kind_of
kind_of_minus = refl

-- The text of an integer is a numeral with no dot behind its first byte.
abbrev pub IsWholeNumeral : Bytes → Type 0
IsWholeNumeral text =
    (c : ℕ) × (s : Bytes) × (text ≡ c ∷ s) × IsNumeral c s × (find_char s b'.' ≡ none)

numeral_digits : (s : Bytes) → All IsDigit s → 0 < length s → IsWholeNumeral s
numeral_digits [] h l = absurd (omega arith)
numeral_digits (c ∷ s) h l =
    let n : IsNumeral c s = record { begins = kind_of_digit c h.0; goes_on = digit_within s h.1 } in
    (c, s, refl, n, find_char_digits s h.1)

numeral_minus : (s : Bytes) → All IsDigit s → IsWholeNumeral (b'-' ∷ s)
numeral_minus s h =
    let n : IsNumeral b'-' s = record { begins = kind_of_minus; goes_on = digit_within s h } in
    (b'-', s, refl, n, find_char_digits s h)

pub int64_to_str_numeral : (number : ℕ) → IsWholeNumeral (int64_to_str number true)
int64_to_str_numeral number =
    let (s, e, h, l) = int64_to_str_signed number in
    elim e [ inl e ↦ rw e (numeral_digits s h l) | inr e ↦ rw e (numeral_minus s h) ]
