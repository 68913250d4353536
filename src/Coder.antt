-- ===== src/Coder.antt =====
-- gmbus/mcoder.c and hmac.c: the digest line in front of a message. A GByteArray is its bytes.
pub mod Laws
use libgmbus.Base.{
  ℕ, zero, suc, ◌+◌, bit_xor, Bool, true, false, [], ◌∷◌, ◌++◌, map, Option, none, some, Bytes,
  codes, ltb, ◌==◌, if◌then◌else◌, length, take, drop, replicate, Outcome, ok, fault, Fault, ◌>>=◌,
}
use libgmbus.Platform.{Platform}
use libgmbus.Config.{Config, DigestAlgo, EncrAlgo}
use libgmbus.Base64.{settle, base64encode}

abbrev pub digest_len_64 : ℕ
digest_len_64 = 16

abbrev pub digest_len_bin : ℕ
digest_len_bin = 12

-- A key of more than 64 bytes is replaced by its digest.
short_key : Platform → Bytes → Bytes
short_key p key = if ltb 64 (length key) then p.md5 key else key

-- k_ipad and k_opad: 64 bytes of the key and of zeros, each XORed with `byte`.
padded : Bytes → ℕ → Bytes
padded key byte = map (λ b. bit_xor b byte) (take 64 (key ++ replicate 64 0))

-- hmac_md5: the 16 bytes written to `digest`.
pub hmac_md5 : Platform → Bytes → Bytes → Bytes
unfolding short_key padded
hmac_md5 p key input =
    let k = short_key p key in p.md5 (padded k 0x5c ++ p.md5 (padded k 0x36 ++ input))

-- MDigestor: `calculate` fills an array of that size with the digest of a text.
abbrev pub Digestor : Type 0
Digestor = Platform → Bytes → Bytes → ℕ → Outcome Bytes

-- __hmac_md5: 16 bytes are written, whatever the size of the array is.
pub calculate_hmac_md5 : Digestor
calculate_hmac_md5 p key buf size = settle p.room size (hmac_md5 p key buf)

-- MEncryptor.
pub record Encryptor : Type 0 where
  pub encrypt : Bytes → Bytes → Bytes → Bytes
  pub decrypt : Bytes → Bytes → Bytes → Bytes

-- __ident_encode and __ident_decode append the text to `result`.
abbrev pub noencr : Encryptor
noencr = record {
  encrypt = λ key buf result. result ++ buf;
  decrypt = λ key buf result. result ++ buf;
}

-- The tables digestors[] and encryptors[].
pub digestors : DigestAlgo → Option Digestor
digestors DigestAlgo.hmac_md5_96 = some calculate_hmac_md5
digestors _ = none

pub encryptors : EncrAlgo → Option Encryptor
encryptors EncrAlgo.noencr = some noencr
encryptors _ = none

-- MCoder; `none` is a member that nothing has set.
pub record Coder : Type 0 where
  pub digest : Option Digestor
  pub crypto : Option Encryptor
  pub hash_key : Bytes
  pub encr_key : Bytes
  pub ok : Bool

abbrev is_some {ℓ} : {A : Type ℓ} → Option A → Bool
is_some none = false
is_some (some a) = true

-- __mbus_coder_init. The keys are set only if both algorithms are there.
pub coder_new : Config → Coder
coder_new c =
    let known = is_some (digestors c.hash_algo) in
    let both = if known then is_some (encryptors c.encr_algo) else false in
    record {
      digest = digestors c.hash_algo;
      crypto = if known then encryptors c.encr_algo else none;
      hash_key = if both then c.hash_key else [];
      encr_key = if both then c.encr_key else [];
      ok = both;
    }

-- A function pointer that nothing has set.
abbrev set_member {ℓ} : {A : Type ℓ} → Option A → Outcome A
set_member none = fault Fault.uninitialised
set_member (some a) = ok a

-- mbus_coder_encode: the text with its digest line, and the encrypted result.
pub encode : Platform → Coder → Bytes → Outcome (Bytes × Bytes)
encode p self buf = do
  calculate ← set_member self.digest
  crypto ← set_member self.crypto
  digest_bin ← calculate p self.hash_key buf digest_len_bin
  result ← base64encode p digest_bin
  let buf' = take (digest_len_64 + 1) (result ++ b'\n' ∷ []) ++ buf
  ok (buf', crypto.encrypt self.encr_key buf' [])

-- The walk to the end of the digest line: the line and what stands behind it; `none` at a NUL.
pub digest_line : Bytes → Option (Bytes × Bytes)
digest_line [] = none
digest_line (c ∷ s) =
    let rest = elim (digest_line s) as (λ _. Option (Bytes × Bytes)) [
      | none ↦ none
      | some (line, behind) ↦ some (c ∷ line, behind)
    ] in
    if c == 0 then none else if c == b'\n' then some ([], s) else rest

-- memcmp( a, b, n ) == 0, where an array may hold fewer than n set bytes.
pub memcmp : ℕ → Bytes → Bytes → Outcome Bool
memcmp zero a b = ok true
memcmp (suc n) [] b = fault Fault.uninitialised
memcmp (suc n) (x ∷ a) [] = fault Fault.uninitialised
memcmp (suc n) (x ∷ a) (y ∷ b) = let rest = memcmp n a b in if x == y then rest else ok false

-- The check of the line found in the decrypted text.
check_digest : Platform → Digestor → Bytes → Bytes → Option (Bytes × Bytes) → Outcome (Bool × Bytes)
check_digest p calculate key text none = ok (false, text)
check_digest p calculate key text (some (digest64, result)) = do
  my_digest ← calculate p key result digest_len_bin
  my_digest64 ← base64encode p my_digest
  same ← memcmp digest_len_64 my_digest64 digest64
  ok (same, result)

-- mbus_coder_decode, on an empty `result`: the value returned and the text left in `result`.
pub decode : Platform → Coder → Bytes → Outcome (Bool × Bytes)
unfolding check_digest
decode p self buf = do
  calculate ← set_member self.digest
  crypto ← set_member self.crypto
  let text = crypto.decrypt self.encr_key buf []
  check_digest p calculate self.hash_key text (digest_line text)
