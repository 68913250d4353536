-- ===== src/Base64/RoundTrip.antt =====
-- base64decode after base64encode.
use libgmbus.Base.{
  ℕ, zero, suc, ◌+◌, ◌*◌, ◌/◌, ◌%◌, ◌<◌, [], ◌∷◌, ◌++◌, Option, none, some, ◌≡◌, refl, arith, Bytes,
  ltb, if◌then◌else◌, length, length-append, take-append, All, ok, fault, Fault, ap, append_assoc,
  append-nil, ◌∙◌,
}
use libgmbus.Platform.{Platform}
use libgmbus.Base64.{
  b64, equals, encode_loop, unpadded, alloc_array_decode, decode_group, decode_loop, char64,
  spilled, settle, base64decode,
}
use libgmbus.Base64.Bits.{
  char64-b64, char64-equals, b64-ne-equals, and_3, and_15, and_63, and_240, and_192, or_shl_2,
  or_shl_4, decode_group_whole, decode_group_one, decode_group_two,
}

abbrev pub IsByte : ℕ → Type 0
IsByte c = c < 256

unpadded-cons :
    (a n m : ℕ) (s : Bytes) → unpadded n s ≡ ok m → unpadded (suc n) (a ∷ s) ≡ ok (suc m)
unfolding unpadded
unpadded-cons a zero m s h = cc
unpadded-cons a (suc n) m s h = ground (arith, unpadded-cons a n m s)

-- The letters that stand for one, two and three bytes.
pub encode_one :
    (x : ℕ)
    → IsByte x
    → encode_loop (x ∷ []) ≡ b64 (x / 4) ∷ b64 (x % 4 * 16) ∷ equals ∷ equals ∷ []
unfolding encode_loop
encode_one x h = rw (and_3 x h)

pub encode_two :
    (x y : ℕ)
    → IsByte x
    → IsByte y
    → encode_loop (x ∷ y ∷ [])
      ≡ b64 (x / 4) ∷ b64 (x % 4 * 16 + y / 16) ∷ b64 (y % 16 * 4) ∷ equals ∷ []
unfolding encode_loop
encode_two x y h k =
    rw (and_3 x h, and_240 y k, and_15 y k, or_shl_4 (x % 4) (y / 16) (omega arith) (omega arith))

pub encode_three :
    (x y z : ℕ) (s : Bytes)
    → IsByte x
    → IsByte y
    → IsByte z
    → encode_loop (x ∷ y ∷ z ∷ s)
      ≡ b64 (x / 4)
        ∷ b64 (x % 4 * 16 + y / 16)
        ∷ b64 (y % 16 * 4 + z / 64)
        ∷ b64 (z % 64)
        ∷ encode_loop s
unfolding encode_loop
encode_three x y z s h k l = rw (
  and_3 x h,
  and_240 y k,
  and_15 y k,
  and_192 z l,
  and_63 z l,
  or_shl_4 (x % 4) (y / 16) (omega arith) (omega arith),
  or_shl_2 (y % 16) (z / 64) (omega arith) (omega arith),
)

-- `len` of __alloc_array_decode, as far as the '=' go.
unpadded-encode_loop :
    (xs : Bytes)
    → All IsByte xs
    → 0 < length xs
    → unpadded (length (encode_loop xs)) (encode_loop xs) ≡ ok ((length xs * 4 + 2) / 3)
unpadded-encode_loop [] hx h = absurd (omega arith)
unpadded-encode_loop (x ∷ []) hx h =
    rw (encode_one x hx.0)
      (unfold unpadded in ground (arith, b64-ne-equals (x % 4 * 16) (omega arith)))
unpadded-encode_loop (x ∷ y ∷ []) hx h =
    rw (encode_two x y hx.0 hx.1.0)
      (unfold unpadded in ground (arith, b64-ne-equals (y % 16 * 4) (omega arith)))
unpadded-encode_loop (x ∷ y ∷ z ∷ []) hx h =
    rw (encode_three x y z [] hx.0 hx.1.0 hx.1.1.0)
      (unfold unpadded encode_loop in ground (arith, b64-ne-equals (z % 64) (omega arith)))
unpadded-encode_loop (x ∷ y ∷ z ∷ u ∷ xs) hx h =
    let ih = unpadded-encode_loop (u ∷ xs) hx.1.1.1 (omega arith) in
    let rest = encode_loop (u ∷ xs) in
    let n = length rest in
    let c1 = unpadded-cons (b64 (z % 64)) n _ rest ih in
    let c2 = unpadded-cons (b64 (y % 16 * 4 + z / 64)) (suc n) _ (b64 (z % 64) ∷ rest) c1 in
    let c3 = unpadded-cons (b64 (x % 4 * 16 + y / 16)) (suc (suc n)) _ _ c2 in
    rw (encode_three x y z (u ∷ xs) hx.0 hx.1.0 hx.1.1.0)
      (unpadded-cons (b64 (x / 4)) (suc (suc (suc n))) _ _ c3 ∙ ap (λ (m : ℕ). ok m) (omega arith))

-- The byte that the last round stores at `j`, if the last group is not whole.
abbrev spill_of : Bytes → Option ℕ
spill_of [] = none
spill_of (x ∷ []) = some (x % 4 * 16 % 16 * 16)
spill_of (x ∷ y ∷ []) = some (y % 16 * 4 % 4 * 64)
spill_of (x ∷ y ∷ z ∷ xs) = spill_of xs

decode_one :
    (x : ℕ)
    → IsByte x
    → decode_group
        (char64 (b64 (x / 4)))
        (char64 (b64 (x % 4 * 16)))
        (char64 equals)
        (char64 equals)
      ≡ (x ∷ [], some (x % 4 * 16 % 16 * 16))
decode_one x h =
    rw
      (
        char64-equals,
        char64-b64 (x / 4) (omega arith),
        char64-b64 (x % 4 * 16) (omega arith),
        decode_group_two (x / 4) (x % 4 * 16) (omega arith) (omega arith),
      )
      (ground arith)

decode_two :
    (x y : ℕ)
    → IsByte x
    → IsByte y
    → decode_group
        (char64 (b64 (x / 4)))
        (char64 (b64 (x % 4 * 16 + y / 16)))
        (char64 (b64 (y % 16 * 4)))
        (char64 equals)
      ≡ (x ∷ y ∷ [], some (y % 16 * 4 % 4 * 64))
decode_two x y h k =
    rw
      (
        char64-equals,
        char64-b64 (x / 4) (omega arith),
        char64-b64 (x % 4 * 16 + y / 16) (omega arith),
        char64-b64 (y % 16 * 4) (omega arith),
        decode_group_one (x / 4) (x % 4 * 16 + y / 16) (y % 16 * 4) (omega arith) (omega arith)
            (omega arith),
      )
      (ground arith)

decode_three :
    (x y z : ℕ)
    → IsByte x
    → IsByte y
    → IsByte z
    → decode_group
        (char64 (b64 (x / 4)))
        (char64 (b64 (x % 4 * 16 + y / 16)))
        (char64 (b64 (y % 16 * 4 + z / 64)))
        (char64 (b64 (z % 64)))
      ≡ (x ∷ y ∷ z ∷ [], none)
decode_three x y z h k l =
    rw
      (
        char64-b64 (x / 4) (omega arith),
        char64-b64 (x % 4 * 16 + y / 16) (omega arith),
        char64-b64 (y % 16 * 4 + z / 64) (omega arith),
        char64-b64 (z % 64) (omega arith),
        decode_group_whole (x / 4) (x % 4 * 16 + y / 16) (y % 16 * 4 + z / 64) (z % 64)
            (omega arith) (omega arith) (omega arith) (omega arith),
      )
      (ground arith)

decode_step :
    (a b c d : ℕ) (s out : Bytes) (spill : Option ℕ)
    → decode_loop (a ∷ b ∷ c ∷ d ∷ s) out spill
      ≡ decode_loop s
          (out ++ (decode_group (char64 a) (char64 b) (char64 c) (char64 d)).0)
          (decode_group (char64 a) (char64 b) (char64 c) (char64 d)).1
unfolding decode_loop
decode_step a b c d s out spill = refl

decode_loop-encode_loop :
    (xs out : Bytes)
    → All IsByte xs
    → decode_loop (encode_loop xs) out none ≡ (out ++ xs, spill_of xs)
decode_loop-encode_loop [] out h = unfold encode_loop decode_loop in rw append-nil
decode_loop-encode_loop (x ∷ []) out h =
    rw (encode_one x h.0) (unfold decode_loop in rw (decode_one x h.0))
decode_loop-encode_loop (x ∷ y ∷ []) out h =
    rw (encode_two x y h.0 h.1.0) (unfold decode_loop in rw (decode_two x y h.0 h.1.0))
decode_loop-encode_loop (x ∷ y ∷ z ∷ xs) out h = rw (encode_three x y z xs h.0 h.1.0 h.1.1.0) (
    rw (
      decode_step,
      decode_three x y z h.0 h.1.0 h.1.1.0,
      decode_loop-encode_loop xs _ h.1.1.1,
      append_assoc,
    ))

length-spill : (xs : Bytes) → length (spilled (spill_of xs)) ≡ (length xs % 3 + 2) / 3
length-spill [] = omega arith
length-spill (x ∷ []) = omega arith
length-spill (x ∷ y ∷ []) = omega arith
length-spill (x ∷ y ∷ z ∷ xs) = omega (arith, length-spill xs)

settle-append :
    (room : ℕ → ℕ) (xs ys : Bytes)
    → settle room (length xs) (xs ++ ys)
      ≡ (if ltb (room (length xs)) (length xs + length ys) then fault Fault.over_write else ok xs)
unfolding settle
settle-append room xs ys = ground (arith, length-append xs ys, take-append xs ys)

-- Decoding the text of one byte or more gives the bytes back, unless the last group is padded and GLib has
-- reserved no byte beyond them: then the loop's last store falls behind the array.
pub base64decode-encode_loop :
    (p : Platform) (xs : Bytes)
    → All IsByte xs
    → 0 < length xs
    → base64decode p (encode_loop xs) ≡ (
        if ltb (p.room (length xs)) (length xs + (length xs % 3 + 2) / 3)
        then fault Fault.over_write
        else ok xs)
unfolding base64decode alloc_array_decode
base64decode-encode_loop p xs hx h =
    rw (unpadded-encode_loop xs hx h, decode_loop-encode_loop xs [] hx)
      (ap (λ (n : ℕ). settle p.room n (xs ++ spilled (spill_of xs))) (omega arith)
        ∙ settle-append p.room xs (spilled (spill_of xs))
        ∙ ap
            (λ (n : ℕ).
              if ltb (p.room (length xs)) (length xs + n) then fault Fault.over_write else ok xs)
            (length-spill xs))
