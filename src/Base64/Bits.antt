-- ===== src/Base64/Bits.antt =====
-- The shifts and masks of base64.c as arithmetic on bytes, and its two tables.
use libgmbus.Base.{
  ℕ, ◌+◌, ◌*◌, ◌/◌, ◌%◌, ◌<◌, bit_and, bit_or, true, [], ◌∷◌, none, some, ◌≡◌, ◌≢◌, refl, arith,
  ◌==◌, ==_iff, all_below, all_below_sound, ap, ap₂, ◌∙◌,
}
use libgmbus.Base64.{b64, char64, equals, shl, shr, decode_group, is_pad}

check_below :
    (n : ℕ) (f g : ℕ → ℕ) → all_below n (λ x. f x == g x) ≡ true → (x : ℕ) → x < n → f x ≡ g x
check_below n f g h x lt = (==_iff _ _).0 (all_below_sound n (λ x. f x == g x) x h lt)

pub char64-b64 : (v : ℕ) → v < 64 → char64 (b64 v) ≡ v
unfolding all_below char64 b64
char64-b64 = check_below 64 (λ v. char64 (b64 v)) (λ v. v) refl

pub char64-equals : char64 equals ≡ 0xff
unfolding char64
char64-equals = refl

-- No letter of the alphabet is the padding.
pub b64-ne-equals : (v : ℕ) → v < 64 → b64 v ≢ equals
b64-ne-equals v h e = omega (arith, char64-b64 v h, ap char64 e, char64-equals)

pub and_3 : (x : ℕ) → x < 256 → bit_and x 0x03 ≡ x % 4
unfolding all_below
and_3 = check_below 256 (λ x. bit_and x 0x03) (λ x. x % 4) refl

pub and_15 : (x : ℕ) → x < 256 → bit_and x 0x0f ≡ x % 16
unfolding all_below
and_15 = check_below 256 (λ x. bit_and x 0x0f) (λ x. x % 16) refl

pub and_63 : (x : ℕ) → x < 256 → bit_and x 0x3f ≡ x % 64
unfolding all_below
and_63 = check_below 256 (λ x. bit_and x 0x3f) (λ x. x % 64) refl

pub and_240 : (x : ℕ) → x < 256 → shr (bit_and x 0xf0) 4 ≡ x / 16
unfolding all_below
and_240 = check_below 256 (λ x. shr (bit_and x 0xf0) 4) (λ x. x / 16) refl

pub and_192 : (x : ℕ) → x < 256 → shr (bit_and x 0xc0) 6 ≡ x / 64
unfolding all_below
and_192 = check_below 256 (λ x. shr (bit_and x 0xc0) 6) (λ x. x / 64) refl

and_48 : (x : ℕ) → x < 64 → shr (bit_and x 0x30) 4 ≡ x / 16
unfolding all_below
and_48 = check_below 64 (λ x. shr (bit_and x 0x30) 4) (λ x. x / 16) refl

and_60 : (x : ℕ) → x < 64 → shr (bit_and x 0x3c) 2 ≡ x / 4
unfolding all_below
and_60 = check_below 64 (λ x. shr (bit_and x 0x3c) 2) (λ x. x / 4) refl

or_4 : (x : ℕ) → x < 256 → bit_or (x / 4 * 4) (x % 4) ≡ x
unfolding all_below
or_4 = check_below 256 (λ x. bit_or (x / 4 * 4) (x % 4)) (λ x. x) refl

or_16 : (x : ℕ) → x < 256 → bit_or (x / 16 * 16) (x % 16) ≡ x
unfolding all_below
or_16 = check_below 256 (λ x. bit_or (x / 16 * 16) (x % 16)) (λ x. x) refl

or_64 : (x : ℕ) → x < 256 → bit_or (x / 64 * 64) (x % 64) ≡ x
unfolding all_below
or_64 = check_below 256 (λ x. bit_or (x / 64 * 64) (x % 64)) (λ x. x) refl

pub or_shl_2 : (a b : ℕ) → a < 64 → b < 4 → bit_or (a * 4) b ≡ a * 4 + b
or_shl_2 a b h k = ap₂ bit_or (omega arith) (omega arith) ∙ or_4 (a * 4 + b) (omega arith)

pub or_shl_4 : (a b : ℕ) → a < 16 → b < 16 → bit_or (a * 16) b ≡ a * 16 + b
or_shl_4 a b h k = ap₂ bit_or (omega arith) (omega arith) ∙ or_16 (a * 16 + b) (omega arith)

pub or_shl_6 : (a b : ℕ) → a < 4 → b < 64 → bit_or (a * 64) b ≡ a * 64 + b
or_shl_6 a b h k = ap₂ bit_or (omega arith) (omega arith) ∙ or_64 (a * 64 + b) (omega arith)

first_byte :
    (c0 c1 : ℕ)
    → c0 < 64
    → c1 < 64
    → bit_or (shl c0 2) (shr (bit_and c1 0x30) 4) % 256 ≡ c0 * 4 + c1 / 16
first_byte c0 c1 h0 h1 = rw (and_48 c1 h1, or_shl_2 c0 (c1 / 16) h0 (omega arith)) (omega arith)

second_byte :
    (c1 c2 : ℕ)
    → c1 < 64
    → c2 < 64
    → bit_or (shl (bit_and c1 0x0f) 4) (shr (bit_and c2 0x3c) 2) % 256 ≡ c1 % 16 * 16 + c2 / 4
second_byte c1 c2 h1 h2 =
    rw
      (
        and_15 c1 (omega arith),
        and_60 c2 h2,
        or_shl_4 (c1 % 16) (c2 / 4) (omega arith) (omega arith),
      )
      (omega arith)

third_byte :
    (c2 c3 : ℕ)
    → c2 < 64
    → c3 < 64
    → bit_or (shl (bit_and c2 0x03) 6) (bit_and c3 0x3f) % 256 ≡ c2 % 4 * 64 + c3
third_byte c2 c3 h2 h3 =
    rw
      (
        and_3 c2 (omega arith),
        and_63 c3 (omega arith),
        or_shl_6 (c2 % 4) (c3 % 64) (omega arith) (omega arith),
      )
      (omega arith)

not_pad : (c : ℕ) → c < 64 → is_pad c ≡ 0
not_pad c h = ground arith

-- A round on four letters, on three and one '=', and on two and two '='.
pub decode_group_whole :
    (c0 c1 c2 c3 : ℕ)
    → c0 < 64
    → c1 < 64
    → c2 < 64
    → c3 < 64
    → decode_group c0 c1 c2 c3
      ≡ ((c0 * 4 + c1 / 16) ∷ (c1 % 16 * 16 + c2 / 4) ∷ (c2 % 4 * 64 + c3) ∷ [], none)
unfolding decode_group
decode_group_whole c0 c1 c2 c3 h0 h1 h2 h3 = rw (
  not_pad c0 h0,
  not_pad c1 h1,
  not_pad c2 h2,
  not_pad c3 h3,
  first_byte c0 c1 h0 h1,
  second_byte c1 c2 h1 h2,
  third_byte c2 c3 h2 h3,
)

pub decode_group_one :
    (c0 c1 c2 : ℕ)
    → c0 < 64
    → c1 < 64
    → c2 < 64
    → decode_group c0 c1 c2 0xff
      ≡ ((c0 * 4 + c1 / 16) ∷ (c1 % 16 * 16 + c2 / 4) ∷ [], some (c2 % 4 * 64))
unfolding decode_group
decode_group_one c0 c1 c2 h0 h1 h2 =
    rw
      (
        not_pad c0 h0,
        not_pad c1 h1,
        not_pad c2 h2,
        first_byte c0 c1 h0 h1,
        second_byte c1 c2 h1 h2,
        and_3 c2 (omega arith),
      )
      (ap (λ (n : ℕ). ((c0 * 4 + c1 / 16) ∷ (c1 % 16 * 16 + c2 / 4) ∷ [], some n)) (omega arith))

pub decode_group_two :
    (c0 c1 : ℕ)
    → c0 < 64
    → c1 < 64
    → decode_group c0 c1 0xff 0xff ≡ ((c0 * 4 + c1 / 16) ∷ [], some (c1 % 16 * 16))
unfolding decode_group
decode_group_two c0 c1 h0 h1 =
    rw (not_pad c0 h0, not_pad c1 h1, first_byte c0 c1 h0 h1, and_15 c1 (omega arith))
      (ap (λ (n : ℕ). ((c0 * 4 + c1 / 16) ∷ [], some n)) (omega arith))
