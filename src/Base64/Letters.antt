-- ===== src/Base64/Letters.antt =====
-- The letters that base64encode writes.
use libgmbus.Base.{
  ℕ, ◌+◌, ◌*◌, ◌/◌, ◌%◌, ◌<◌, ◌&&◌, true, [], ◌∷◌, ◌≡◌, refl, arith, Bytes, ltb, all_below,
  all_below_sound, All,
}
use libgmbus.Base64.{b64, encode_loop}
use libgmbus.Base64.RoundTrip.{IsByte, encode_one, encode_two, encode_three}

-- A printing character of ASCII.
abbrev pub IsPrinting : ℕ → Type 0
IsPrinting c = (32 < c) × (c < 127)

printing_table : all_below 64 (λ v. ltb 32 (b64 v) && ltb (b64 v) 127) ≡ true
unfolding all_below b64
printing_table = refl

b64-IsPrinting : (v : ℕ) → v < 64 → IsPrinting (b64 v)
b64-IsPrinting v h =
    ground (arith, all_below_sound 64 (λ v. ltb 32 (b64 v) && ltb (b64 v) 127) v printing_table h)

pub encode_loop-IsPrinting : (xs : Bytes) → All IsByte xs → All IsPrinting (encode_loop xs)
encode_loop-IsPrinting [] h = unfold encode_loop in tt
encode_loop-IsPrinting (x ∷ []) h =
    rw (encode_one x h.0) (
      b64-IsPrinting (x / 4) (omega arith),
      (b64-IsPrinting (x % 4 * 16) (omega arith), omega arith),
    )
encode_loop-IsPrinting (x ∷ y ∷ []) h = rw (encode_two x y h.0 h.1.0) (
  b64-IsPrinting (x / 4) (omega arith),
  (
    b64-IsPrinting (x % 4 * 16 + y / 16) (omega arith),
    (b64-IsPrinting (y % 16 * 4) (omega arith), omega arith),
  ),
)
encode_loop-IsPrinting (x ∷ y ∷ z ∷ xs) h = rw (encode_three x y z xs h.0 h.1.0 h.1.1.0) (
  b64-IsPrinting (x / 4) (omega arith),
  (
    b64-IsPrinting (x % 4 * 16 + y / 16) (omega arith),
    (
      b64-IsPrinting (y % 16 * 4 + z / 64) (omega arith),
      (b64-IsPrinting (z % 64) (omega arith), encode_loop-IsPrinting xs h.1.1.1),
    ),
  ),
)
