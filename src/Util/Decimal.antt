-- ===== src/Util/Decimal.antt =====
-- Numbers as decimal text: mbus_util_int64_to_str against strtoull.
use native.Mathlib.Nat.{pow-suc}
use mathlib.Core.Bool.{◌&&◌}
use libgmbus.Base.{
  ◌⊎◌, ℕ, zero, suc, ◌+◌, ◌-◌, ◌*◌, ◌/◌, ◌%◌, ◌^◌, ◌≤◌, ◌<◌, Bool, true, false, [], ◌∷◌, ◌≡◌, refl,
  arith, Bytes, ◌==◌, ==_iff, isdigit, All, length, all_below, all_below_sound, ap, ◌∙◌, Bool-cases,
  inl, inr,
}
use libgmbus.Util.{
  digit, digits_value, skip_spaces, signed_number, saturate, strtoull, str_to_uint64, build_number,
  is_negative, int64_to_str, peek,
}

digit_table : all_below 10 (λ n. digit n == b'0' + n) ≡ true
unfolding all_below digit
digit_table = refl

digit_lem : (n : ℕ) → n < 10 → digit n ≡ b'0' + n
digit_lem n h = (==_iff _ _).0 (all_below_sound 10 _ n digit_table h)

abbrev pub IsDigit : ℕ → Type 0
IsDigit c = (b'0' ≤ c) × (c ≤ b'9')

pub isdigit_of_IsDigit : (c : ℕ) → IsDigit c → isdigit c ≡ true
isdigit_of_IsDigit c h = ground arith

digit-IsDigit : (d : ℕ) → d < 10 → IsDigit (digit d)
digit-IsDigit d h = rw (digit_lem d h) (omega arith)

digits_value-digit :
    (n d : ℕ) (out : Bytes)
    → d < 10
    → digits_value n (digit d ∷ out) ≡ digits_value (n * 10 + d) out
unfolding digits_value
digits_value-digit n d out h =
    rw (isdigit_of_IsDigit (digit d) (digit-IsDigit d h))
      (ap (λ (m : ℕ). digits_value m out) (omega (arith, digit_lem d h)))

digits_value-nondigit : (n : ℕ) (s : Bytes) → isdigit (peek s) ≡ false → digits_value n s ≡ n
unfolding digits_value
digits_value-nondigit n [] h = refl
digits_value-nondigit n (c ∷ s) h = rw h

build_number-IsDigit :
    (rounds number : ℕ) (out : Bytes)
    → All IsDigit out
    → All IsDigit (build_number rounds number out)
unfolding build_number
build_number-IsDigit zero number out h = h
build_number-IsDigit (suc rounds) number out h =
    let new = digit-IsDigit (number % 10) (omega arith) in
    elim (Bool-cases (number / 10 == 0)) [
      | inl e ↦ rw e (new, h)
      | inr e ↦ rw e (build_number-IsDigit rounds (number / 10) _ (new, h))
    ]

-- The digits built for `number` in front of `out` are read as `number` in front of `out`.
digits_value-build_number :
    (rounds number : ℕ) (out : Bytes)
    → number < 10 ^ rounds
    → digits_value 0 (build_number rounds number out) ≡ digits_value number out
unfolding build_number
digits_value-build_number zero number out h = let e : number ≡ 0 = omega arith in rw e
digits_value-build_number (suc rounds) number out h = elim (Bool-cases (number / 10 == 0)) [
  | inl e ↦ rw e (
      digits_value-digit 0 (number % 10) out (omega arith)
      ∙ ap (λ (m : ℕ). digits_value m out) (ground arith))
  | inr e ↦ rw e (
      digits_value-build_number rounds (number / 10) _ (omega (arith, pow-suc 10 rounds))
      ∙ digits_value-digit (number / 10) (number % 10) out (omega arith)
      ∙ ap (λ (m : ℕ). digits_value m out) (omega arith))
]

build_number-length :
    (k rounds number : ℕ) (out : Bytes)
    → number < 10 ^ suc k
    → length (build_number rounds number out) ≤ suc k + length out
unfolding build_number
build_number-length k zero number out h = omega arith
build_number-length zero (suc rounds) number out h =
    let e : number / 10 ≡ 0 = omega (arith, pow-suc 10 0) in rw e (omega arith)
build_number-length (suc k) (suc rounds) number out h =
    let ih =
      build_number-length k rounds (number / 10) (digit (number % 10) ∷ out)
        (omega (arith, pow-suc 10 (suc k))) in
    ground (arith, ih)

build_number-longer :
    (rounds number : ℕ) (out : Bytes) → length out ≤ length (build_number rounds number out)
unfolding build_number
build_number-longer zero number out = omega arith
build_number-longer (suc rounds) number out =
    ground (arith, build_number-longer rounds (number / 10) (digit (number % 10) ∷ out))

build_number-nonempty :
    (rounds number : ℕ) (out : Bytes) → length out < length (build_number (suc rounds) number out)
unfolding build_number
build_number-nonempty rounds number out =
    ground (arith, build_number-longer rounds (number / 10) (digit (number % 10) ∷ out))

-- The text of an unsigned number below 2^64: between one and twenty digits, which spell the number.
pub int64_to_str_unsigned :
    (number : ℕ)
    → number < 2 ^ 64
    → All IsDigit (int64_to_str number false)
      × (0 < length (int64_to_str number false))
      × (length (int64_to_str number false) ≤ 20)
      × (digits_value 0 (int64_to_str number false) ≡ number)
unfolding int64_to_str digits_value
int64_to_str_unsigned number h = (
  build_number-IsDigit 127 number [] tt,
  build_number-nonempty 126 number [],
  build_number-length 19 127 number [] (omega arith),
  digits_value-build_number 127 number [] (omega arith),
)

-- What strtoull makes of a text that begins with a digit, behind a sign or not.
strtoull-digits :
    (s : Bytes)
    → IsDigit (peek s)
    → (strtoull s ≡ saturate false (digits_value 0 s))
      × (strtoull (b'-' ∷ s) ≡ saturate true (digits_value 0 s))
unfolding strtoull
strtoull-digits [] h = absurd (omega arith)
strtoull-digits (c ∷ s) h = ground arith

peek-IsDigit : (s : Bytes) → All IsDigit s → 0 < length s → IsDigit (peek s)
peek-IsDigit [] h l = absurd (omega arith)
peek-IsDigit (c ∷ s) h l = h.0

strtoull-build_number :
    (number : ℕ)
    → number < 2 ^ 64
    → (strtoull (build_number 127 number []) ≡ saturate false number)
      × (strtoull (b'-' ∷ build_number 127 number []) ≡ saturate true number)
unfolding digits_value
strtoull-build_number number h =
    let out = build_number 127 number [] in
    let first =
      peek-IsDigit out (build_number-IsDigit 127 number [] tt)
        (build_number-nonempty 126 number []) in
    let value = digits_value-build_number 127 number [] (omega arith) in
    let spelled = strtoull-digits out first in
    (spelled.0 ∙ ap (saturate false) value, spelled.1 ∙ ap (saturate true) value)

-- Any 64-bit pattern, printed as signed or as unsigned, is read back by strtoull without a range
-- error.
pub strtoull-int64_to_str :
    (number : ℕ) (sign : Bool)
    → number < 2 ^ 64
    → strtoull (int64_to_str number sign) ≡ (number, false)
unfolding int64_to_str saturate
strtoull-int64_to_str number sign h = elim (Bool-cases (sign && is_negative number)) [
  | inl e ↦
      rw (e, (strtoull-build_number ((2 ^ 64 - number) % 2 ^ 64) (omega arith)).1) (ground arith)
  | inr e ↦ rw (e, (strtoull-build_number number h).0) (ground arith)
]

pub str_to_uint64-int64_to_str :
    (number : ℕ) → number < 2 ^ 64 → str_to_uint64 (int64_to_str number false) ≡ (number, true)
unfolding str_to_uint64
str_to_uint64-int64_to_str number h = rw (strtoull-int64_to_str number false h)

-- A signed number is digits, behind a '-' or not.
pub int64_to_str_signed :
    (number : ℕ)
    → (s : Bytes) × ((int64_to_str number true ≡ s) ⊎ (int64_to_str number true ≡ b'-' ∷ s))
      × All IsDigit s
      × (0 < length s)
unfolding int64_to_str
int64_to_str_signed number = elim (Bool-cases (is_negative number)) [
  | inl e ↦ rw e (
    build_number 127 ((2 ^ 64 - number) % 2 ^ 64) [],
    inr refl,
    build_number-IsDigit 127 ((2 ^ 64 - number) % 2 ^ 64) [] tt,
    build_number-nonempty 126 ((2 ^ 64 - number) % 2 ^ 64) [],
  )
  | inr e ↦ rw e (
    build_number 127 number [],
    inl refl,
    build_number-IsDigit 127 number [] tt,
    build_number-nonempty 126 number [],
  )
]

-- A number that is not negative is printed alike in both ways.
pub int64_to_str_positive :
    (number : ℕ) → number < 2 ^ 63 → int64_to_str number true ≡ int64_to_str number false
unfolding int64_to_str
int64_to_str_positive number h = ground arith

pub str_to_uint64_empty : str_to_uint64 [] ≡ (0, true)
unfolding str_to_uint64 strtoull skip_spaces signed_number
str_to_uint64_empty = refl
