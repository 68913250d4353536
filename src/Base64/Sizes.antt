-- ===== src/Base64/Sizes.antt =====
-- The sizes that base64.c computes against what its loops store.
use libgmbus.Base.{
  ℕ, ◌+◌, ◌*◌, ◌/◌, ◌≤◌, [], ◌∷◌, ◌≡◌, ◌≢◌, arith, ◌⊎◌, ◌↔◌, Bytes, length, take, length-take,
  take_all, ok,
}
use libgmbus.Platform.{Platform}
use libgmbus.Base64.{encode_loop, alloc_array_encode, settle, base64encode}

-- Every started group of three bytes gives four letters.
pub length-encode_loop : (xs : Bytes) → length (encode_loop xs) ≡ (length xs + 2) / 3 * 4
unfolding encode_loop
length-encode_loop [] = omega arith
length-encode_loop (x ∷ []) = omega arith
length-encode_loop (x ∷ y ∷ []) = omega arith
length-encode_loop (x ∷ y ∷ z ∷ xs) = omega (arith, length-encode_loop xs)

-- The lengths at which the size given to the array is the length of the text.
abbrev pub IsExact : ℕ → Type 0
IsExact n = (n + 2) / 3 * 4 ≡ (n / 4 + 1) * 4

settle_whole : (room : ℕ → ℕ) (size : ℕ) (w : Bytes) → settle room size w ≡ ok w → length w ≡ size
unfolding settle
settle_whole room size w h = ground (arith, length-take size w)

-- Whatever GLib reserves beyond the size asked for, the array holds the text of its input exactly
-- when the length is exact.
pub base64encode-IsExact :
    (p : Platform) (xs : Bytes)
    → alloc_array_encode (length xs) ≤ p.room (alloc_array_encode (length xs))
    → (base64encode p xs ≡ ok (encode_loop xs)) ↔ IsExact (length xs)
unfolding base64encode alloc_array_encode
base64encode-IsExact p xs room =
    let e = length-encode_loop xs in
    let size = (length xs / 4 + 1) * 4 in
    let whole = take_all size (encode_loop xs) in
    (
      (λ h. omega (arith, e, settle_whole p.room size (encode_loop xs) h)),
      (λ exact. unfold settle in ground (arith, e, whole)),
    )

-- No input of thirteen bytes or more, nor the empty one, nor one of seven, ten or eleven bytes is
-- encoded whole.
pub base64encode_cut :
    (p : Platform) (xs : Bytes)
    → (length xs ≡ 0) ⊎ (13 ≤ length xs) ⊎ (length xs ≡ 7) ⊎ (length xs ≡ 10) ⊎ (length xs ≡ 11)
    → base64encode p xs ≢ ok (encode_loop xs)
unfolding base64encode alloc_array_encode
base64encode_cut p xs n h =
    omega (
      arith,
      length-encode_loop xs,
      settle_whole p.room ((length xs / 4 + 1) * 4) (encode_loop xs) h,
    )

-- The digest of a message is twelve bytes.
pub base64encode_twelve :
    (p : Platform) (xs : Bytes)
    → length xs ≡ 12
    → 16 ≤ p.room 16
    → base64encode p xs ≡ ok (encode_loop xs)
unfolding alloc_array_encode
base64encode_twelve p xs h room = (base64encode-IsExact p xs (rw h room)).1 (rw h)

-- An array that is filled and does not leave its room keeps the first `size` bytes.
pub settle_filled :
    (room : ℕ → ℕ) (size : ℕ) (w : Bytes)
    → size ≤ length w
    → length w ≤ room size
    → settle room size w ≡ ok (take size w)
unfolding settle
settle_filled room size w h k = ground arith
