-- ===== src/Base64.antt =====
-- gmbus/base64.c. The input is walked in groups, as the loops do with `i`; what they store from
-- output->data[ 0 ] on is a list, whose length is `j`.
mod Bits
pub mod Sizes
pub mod RoundTrip
pub mod Letters
use libgmbus.Base.{
  ℕ, zero, suc, ◌+◌, ◌*◌, ◌/◌, ◌^◌, bit_and, bit_or, List, [], ◌∷◌, ◌++◌, Option, none, some, ◌≡◌,
  refl, Bytes, codes, u8, ltb, ◌==◌, if◌then◌else◌, get_or, take, length, Outcome, ok, fault, Fault,
  ◌>>=◌,
}
use libgmbus.Platform.{Platform}

-- b64[ n ].
pub b64 : ℕ → ℕ
b64 n = get_or (codes "ABCDEFGHIJKLMNOPQRSTUVWXYZabcdefghijklmnopqrstuvwxyz0123456789+/") n 0

abbrev pub equals : ℕ
equals = b'='

-- x << k and x >> k.
abbrev pub shl : ℕ → ℕ → ℕ
shl x k = x * 2 ^ k

abbrev pub shr : ℕ → ℕ → ℕ
shr x k = x / 2 ^ k

-- __alloc_array_encode, of the input's length.
pub alloc_array_encode : ℕ → ℕ
alloc_array_encode len = (len / 4 + 1) * 4

-- The loop of base64encode, with `pad` 2, 1 and at most 0.
pub encode_loop : Bytes → Bytes
encode_loop [] = []
encode_loop (x ∷ []) = b64 (shr x 2) ∷ b64 (shl (bit_and x 0x03) 4) ∷ equals ∷ equals ∷ []
encode_loop (x ∷ y ∷ []) =
    b64 (shr x 2)
    ∷ b64 (bit_or (shl (bit_and x 0x03) 4) (shr (bit_and y 0xf0) 4))
    ∷ b64 (shl (bit_and y 0x0f) 2)
    ∷ equals
    ∷ []
encode_loop (x ∷ y ∷ z ∷ input) =
    b64 (shr x 2)
    ∷ b64 (bit_or (shl (bit_and x 0x03) 4) (shr (bit_and y 0xf0) 4))
    ∷ b64 (bit_or (shl (bit_and y 0x0f) 2) (shr (bit_and z 0xc0) 6))
    ∷ b64 (bit_and z 0x3f)
    ∷ encode_loop input

-- An array whose length was set to `size`, after the stores `written` to its places from 0 on. A
-- store past the length is harmless as long as the array has room; a place that nothing was stored
-- in holds whatever the memory held.
pub settle : (ℕ → ℕ) → ℕ → Bytes → Outcome Bytes
settle room size written =
    if ltb (room size) (length written)
    then fault Fault.over_write
    else if ltb (length written) size
    then fault Fault.uninitialised
    else ok (take size written)

-- The content of `output`.
pub base64encode : Platform → Bytes → Outcome Bytes
base64encode p input = settle p.room (alloc_array_encode (length input)) (encode_loop input)

-- __alloc_array_decode: `len` counts down over the final '='; at 0 it looks in front of the array.
pub unpadded : ℕ → Bytes → Outcome ℕ
unpadded zero input = fault Fault.over_read
unpadded (suc n) input =
    let rest = unpadded n input in if get_or input n 0 == equals then rest else ok (suc n)

pub alloc_array_decode : Bytes → Outcome ℕ
alloc_array_decode input = do len ← unpadded (length input) input; ok (len * 3 / 4)

abbrev index_64 : List ℕ
index_64 =
    0xff ∷ 0xff ∷ 0xff ∷ 0xff ∷ 0xff ∷ 0xff ∷ 0xff ∷ 0xff ∷ 0xff ∷ 0xff ∷ 0xff ∷ 0xff ∷ 0xff ∷ 0xff
    ∷ 0xff ∷ 0xff ∷ 0xff ∷ 0xff ∷ 0xff ∷ 0xff ∷ 0xff ∷ 0xff ∷ 0xff ∷ 0xff ∷ 0xff ∷ 0xff ∷ 0xff
    ∷ 0xff ∷ 0xff ∷ 0xff ∷ 0xff ∷ 0xff ∷ 0xff ∷ 0xff ∷ 0xff ∷ 0xff ∷ 0xff ∷ 0xff ∷ 0xff ∷ 0xff
    ∷ 0xff ∷ 0xff ∷ 0xff ∷ 62 ∷ 0xff ∷ 0xff ∷ 0xff ∷ 63 ∷ 52 ∷ 53 ∷ 54 ∷ 55 ∷ 56 ∷ 57 ∷ 58 ∷ 59 ∷ 60
    ∷ 61 ∷ 0xff ∷ 0xff ∷ 0xff ∷ 0xff ∷ 0xff ∷ 0xff ∷ 0xff ∷ 0 ∷ 1 ∷ 2 ∷ 3 ∷ 4 ∷ 5 ∷ 6 ∷ 7 ∷ 8 ∷ 9
    ∷ 10 ∷ 11 ∷ 12 ∷ 13 ∷ 14 ∷ 15 ∷ 16 ∷ 17 ∷ 18 ∷ 19 ∷ 20 ∷ 21 ∷ 22 ∷ 23 ∷ 24 ∷ 25 ∷ 0xff ∷ 0xff
    ∷ 0xff ∷ 0xff ∷ 0xff ∷ 0xff ∷ 26 ∷ 27 ∷ 28 ∷ 29 ∷ 30 ∷ 31 ∷ 32 ∷ 33 ∷ 34 ∷ 35 ∷ 36 ∷ 37 ∷ 38
    ∷ 39 ∷ 40 ∷ 41 ∷ 42 ∷ 43 ∷ 44 ∷ 45 ∷ 46 ∷ 47 ∷ 48 ∷ 49 ∷ 50 ∷ 51 ∷ 0xff ∷ 0xff ∷ 0xff ∷ 0xff
    ∷ 0xff ∷ []

pub char64 : ℕ → ℕ
char64 c = if ltb 127 c then 0xff else get_or index_64 c 0xff

abbrev is_pad : ℕ → ℕ
is_pad c = if c == 0xff then 1 else 0

-- One round of base64decode: the bytes stored with j++, and the one stored at `j` alone, which the
-- next round overwrites.
pub decode_group : ℕ → ℕ → ℕ → ℕ → Bytes × Option ℕ
decode_group c0 c1 c2 c3 =
    let pad = is_pad c0 + is_pad c1 + is_pad c2 + is_pad c3 in
    let first = u8 (bit_or (shl c0 2) (shr (bit_and c1 0x30) 4)) in
    let second = u8 (bit_or (shl (bit_and c1 0x0f) 4) (shr (bit_and c2 0x3c) 2)) in
    if pad == 2
    then (first ∷ [], some (u8 (shl (bit_and c1 0x0f) 4)))
    else if pad == 1
    then (first ∷ second ∷ [], some (u8 (shl (bit_and c2 0x03) 6)))
    else (first ∷ second ∷ u8 (bit_or (shl (bit_and c2 0x03) 6) (bit_and c3 0x3f)) ∷ [], none)

pub decode_loop : Bytes → Bytes → Option ℕ → Bytes × Option ℕ
decode_loop (a ∷ b ∷ c ∷ d ∷ input) output spill =
    let g = decode_group (char64 a) (char64 b) (char64 c) (char64 d) in
    decode_loop input (output ++ g.0) g.1
decode_loop _ output spill = (output, spill)

abbrev spilled : Option ℕ → Bytes
spilled none = []
spilled (some b) = b ∷ []

-- The content of `output`.
pub base64decode : Platform → Bytes → Outcome Bytes
base64decode p input = do
  size ← alloc_array_decode input
  let r = decode_loop input [] none
  settle p.room size (r.0 ++ spilled r.1)

man : encode_loop (codes "Man!") ≡ codes "TWFuIQ=="
unfolding encode_loop b64
man = refl
