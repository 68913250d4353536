-- ===== src/Coder/Laws.antt =====
-- mbus_coder_encode against mbus_coder_decode, for the algorithms that are there.
use libgmbus.Base.{
  ℕ, zero, suc, ◌≤◌, true, [], ◌∷◌, ◌++◌, Option, none, some, ◌≡◌, ◌≢◌, refl, sym, ap, ◌∙◌, arith,
  Bytes, ◌==◌, if◌then◌else◌, length, length-append, length-take, take, take_all, append_assoc, All,
  ok, ◌>>=◌, ◌↔◌, >>=-eq-ok,
}
use libgmbus.Platform.{Platform}
use libgmbus.Config.{Config, DigestAlgo, EncrAlgo}
use libgmbus.Base64.{encode_loop, base64encode}
use libgmbus.Base64.Sizes.{length-encode_loop, base64encode_twelve, settle_filled}
use libgmbus.Base64.RoundTrip.{IsByte}
use libgmbus.Base64.Letters.{IsPrinting, encode_loop-IsPrinting}
use libgmbus.Coder.{
  Coder, noencr, hmac_md5, calculate_hmac_md5, coder_new, digestors, encryptors, digest_line,
  memcmp, check_digest, encode, decode,
}

-- What is documented of the code outside: an MD5 digest is 16 bytes, and a GByteArray has room for its
-- size. `spare` is documented nowhere, but the coder depends on it: hmac_md5 stores 16 bytes in an array
-- of 12, and GLib, which rounds up to a power of two, reserves 16.
pub record IsSound (p : Platform) : Type 0 where
  pub md5_length : (s : Bytes) → length (p.md5 s) ≡ 16
  pub md5_bytes : (s : Bytes) → All IsByte (p.md5 s)
  pub room_enough : (n : ℕ) → n ≤ p.room n
  pub spare : 16 ≤ p.room 12

-- The sixteen letters that stand for the first twelve bytes of the digest of a text.
abbrev pub digest64 : Platform → Bytes → Bytes → Bytes
digest64 p key text = encode_loop (take 12 (hmac_md5 p key text))

take-IsByte : (n : ℕ) (s : Bytes) → All IsByte s → All IsByte (take n s)
take-IsByte zero s h = tt
take-IsByte (suc n) [] h = tt
take-IsByte (suc n) (c ∷ s) h = (h.0, take-IsByte n s h.1)

module _ (p : Platform) (sound : IsSound p) (key text : Bytes) where
  digest_bytes : All IsByte (take 12 (hmac_md5 p key text))
  unfolding hmac_md5
  digest_bytes = take-IsByte 12 _ (sound.md5_bytes _)

  digest_length : length (take 12 (hmac_md5 p key text)) ≡ 12
  unfolding hmac_md5
  digest_length = omega (arith, length-take 12 (hmac_md5 p key text), sound.md5_length)

  length-digest64 : length (digest64 p key text) ≡ 16
  length-digest64 = omega (arith, length-encode_loop (take 12 (hmac_md5 p key text)), digest_length)

  calculate_whole : calculate_hmac_md5 p key text 12 ≡ ok (take 12 (hmac_md5 p key text))
  unfolding calculate_hmac_md5 hmac_md5
  calculate_whole =
      let spare = sound.spare in
      settle_filled p.room 12 (hmac_md5 p key text) (omega (arith, sound.md5_length))
        (omega (arith, sound.md5_length))

  encode_digest : base64encode p (take 12 (hmac_md5 p key text)) ≡ ok (digest64 p key text)
  encode_digest = base64encode_twelve p _ digest_length (sound.room_enough 16)

-- A byte of the digest line.
abbrev pub IsPlain : ℕ → Type 0
IsPlain c = (c ≢ 0) × (c ≢ b'\n')

IsPrinting-IsPlain : (s : Bytes) → All IsPrinting s → All IsPlain s
IsPrinting-IsPlain [] h = tt
IsPrinting-IsPlain (c ∷ s) h = (omega arith, IsPrinting-IsPlain s h.1)

digest_line-append :
    (s rest : Bytes) → All IsPlain s → digest_line (s ++ b'\n' ∷ rest) ≡ some (s, rest)
unfolding digest_line
digest_line-append [] rest h = refl
digest_line-append (c ∷ s) rest h = rw (digest_line-append s rest h.1) (ground arith)

-- What one step of the walk makes of the result for the rest.
walk : ℕ → Bytes → Option (Bytes × Bytes) → Option (Bytes × Bytes)
walk c text none = if c == 0 then none else if c == b'\n' then some ([], text) else none
walk c text (some (line, behind)) =
    if c == 0 then none else if c == b'\n' then some ([], text) else some (c ∷ line, behind)

digest_line-walk : (c : ℕ) (text : Bytes) → digest_line (c ∷ text) ≡ walk c text (digest_line text)
unfolding digest_line walk
digest_line-walk c text = go (digest_line text) refl
  where
    go :
        (r : Option (Bytes × Bytes)) → digest_line text ≡ r → digest_line (c ∷ text) ≡ walk c text r
    go none e = rw e
    go (some (line, behind)) e = rw e

walk_sound :
    (c : ℕ) (text line rest : Bytes) (r : Option (Bytes × Bytes))
    → ((l : Bytes) → r ≡ some (l, rest) → (text ≡ l ++ b'\n' ∷ rest) × All IsPlain l)
    → walk c text r ≡ some (line, rest)
    → (c ∷ text ≡ line ++ b'\n' ∷ rest) × All IsPlain line
unfolding walk
walk_sound c text [] rest none ih h = ground arith
walk_sound c text (d ∷ line) rest none ih h = ground arith
walk_sound c text [] rest (some (l, behind)) ih h = ground arith
walk_sound c text (d ∷ line) rest (some (l, behind)) ih h = ground (arith, ih l)

digest_line_sound :
    (text line rest : Bytes)
    → digest_line text ≡ some (line, rest)
    → (text ≡ line ++ b'\n' ∷ rest) × All IsPlain line
unfolding digest_line
digest_line_sound [] line rest h = cc
digest_line_sound (c ∷ text) line rest h =
    walk_sound c text line rest (digest_line text) (λ l e. digest_line_sound text l rest e)
      (sym (digest_line-walk c text) ∙ h)

memcmp_self : (n : ℕ) (a b : Bytes) → length a ≡ n → take n b ≡ a → memcmp n a b ≡ ok true
unfolding memcmp
memcmp_self zero a b h e = refl
memcmp_self (suc n) [] b h e = absurd (omega arith)
memcmp_self (suc n) (x ∷ a) [] h e = cc
memcmp_self (suc n) (x ∷ a) (y ∷ b) h e = ground (arith, memcmp_self n a b)

memcmp_sound : (n : ℕ) (a b : Bytes) → memcmp n a b ≡ ok true → take n a ≡ take n b
unfolding memcmp
memcmp_sound zero a b h = refl
memcmp_sound (suc n) [] b h = cc
memcmp_sound (suc n) (x ∷ a) [] h = cc
memcmp_sound (suc n) (x ∷ a) (y ∷ b) h = ground (arith, memcmp_sound n a b)

-- A coder is usable exactly for HMAC-MD5-96 without encryption.
pub coder_new_ok_iff :
    (c : Config)
    → ((coder_new c).ok ≡ true)
      ↔ ((c.hash_algo ≡ DigestAlgo.hmac_md5_96) × (c.encr_algo ≡ EncrAlgo.noencr))
unfolding coder_new digestors encryptors
coder_new_ok_iff c = ground arith

module _ (p : Platform) (sound : IsSound p) (c : Config) (usable : (coder_new c).ok ≡ true) where
  abbrev coder : Coder
  coder = coder_new c

  members :
      (coder.digest ≡ some calculate_hmac_md5)
      × (coder.crypto ≡ some noencr)
      × (coder.hash_key ≡ c.hash_key)
  unfolding coder_new digestors encryptors
  members = ground (arith, coder_new_ok_iff c)

  -- The text gets the digest line of its own content in front, and is sent as it is.
  pub encode_lem :
      (buf : Bytes)
      → encode p coder buf
        ≡ (let text = digest64 p c.hash_key buf ++ b'\n' ∷ buf in ok (text, text))
  unfolding encode
  encode_lem buf =
      rw
        (
          members.0,
          members.1,
          members.2,
          calculate_whole p sound c.hash_key buf,
          encode_digest p sound c.hash_key buf,
        )
        (rw (
          take_all 17 (digest64 p c.hash_key buf ++ b'\n' ∷ []) (
              omega (
                arith,
                length-append (digest64 p c.hash_key buf) (b'\n' ∷ []),
                length-digest64 p sound c.hash_key buf,
              )),
          append_assoc,
        ))

  decode_check :
      (text : Bytes)
      → decode p coder text ≡ check_digest p calculate_hmac_md5 c.hash_key text (digest_line text)
  unfolding decode
  decode_check text = rw (members.0, members.1, members.2)

  -- What decoding does with a text whose first line is `line`.
  check_line :
      (text line msg : Bytes)
      → check_digest p calculate_hmac_md5 c.hash_key text (some (line, msg))
        ≡ (memcmp 16 (digest64 p c.hash_key msg) line >>= λ same. ok (same, msg))
  unfolding check_digest
  check_line text line msg =
      rw (calculate_whole p sound c.hash_key msg, encode_digest p sound c.hash_key msg)

  decode_complete :
      (line msg : Bytes)
      → All IsPlain line
      → take 16 line ≡ digest64 p c.hash_key msg
      → decode p coder (line ++ b'\n' ∷ msg) ≡ ok (true, msg)
  decode_complete line msg plain same =
      decode_check (line ++ b'\n' ∷ msg)
      ∙ ap (check_digest p calculate_hmac_md5 c.hash_key (line ++ b'\n' ∷ msg))
          (digest_line-append line msg plain)
      ∙ check_line (line ++ b'\n' ∷ msg) line msg
      ∙ rw (
          memcmp_self 16 (digest64 p c.hash_key msg) line (length-digest64 p sound c.hash_key msg)
            same)

  abbrev pub Accepted : Bytes → Bytes → Type 0
  Accepted text msg =
      (line : Bytes) × (text ≡ line ++ b'\n' ∷ msg)
      × All IsPlain line
      × (take 16 line ≡ digest64 p c.hash_key msg)

  check_sound :
      (text msg : Bytes) (r : Option (Bytes × Bytes))
      → digest_line text ≡ r
      → check_digest p calculate_hmac_md5 c.hash_key text r ≡ ok (true, msg)
      → Accepted text msg
  check_sound text msg none e h = unfold check_digest in cc
  check_sound text msg (some (line, rest)) e h =
      let m = memcmp 16 (digest64 p c.hash_key rest) line in
      let (same, e1, e2) =
        >>=-eq-ok m (λ same. ok (same, rest)) (sym (check_line text line rest) ∙ h) in
      let found = digest_line_sound text line rest e in
      let matches : m ≡ ok true = cc in
      let whole : rest ≡ msg = cc in
      (
        line,
        found.0 ∙ ap (λ s. line ++ b'\n' ∷ s) whole,
        found.1,
        sym (memcmp_sound 16 (digest64 p c.hash_key rest) line matches)
            ∙ take_all 16 _ (omega (arith, length-digest64 p sound c.hash_key rest))
            ∙ ap (digest64 p c.hash_key) whole,
      )

  -- On a sound platform, a usable coder accepts a text exactly when its first line, which holds no NUL,
  -- begins with the digest of what follows; the rest of that line does not count.
  pub decode_iff : (text msg : Bytes) → (decode p coder text ≡ ok (true, msg)) ↔ Accepted text msg
  decode_iff text msg = (
    (λ h. check_sound text msg (digest_line text) refl (sym (decode_check text) ∙ h)),
    (λ (line, e, plain, same). rw e (decode_complete line msg plain same)),
  )

  -- On a sound platform (MD5 gives 16 bytes, arrays have room for their size, and one of 12 bytes for
  -- 16), what a usable coder encodes it decodes to the same text.
  pub decode-encode :
      (buf : Bytes)
      → (sent : Bytes) × (encode p coder buf ≡ ok (sent, sent))
        × (decode p coder sent ≡ ok (true, buf))
  decode-encode buf =
      let line = digest64 p c.hash_key buf in
      (
        line ++ b'\n' ∷ buf,
        encode_lem buf,
        decode_complete line buf
            (IsPrinting-IsPlain line
              (encode_loop-IsPrinting _ (digest_bytes p sound c.hash_key buf)))
            (take_all 16 line (omega (arith, length-digest64 p sound c.hash_key buf))),
      )
