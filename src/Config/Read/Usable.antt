-- ===== src/Config/Read/Usable.antt =====
-- What a configuration that was read is good for.
use libgmbus.Base.{
  ℕ, zero, suc, ◌+◌, ◌≤◌, ◌<◌, true, [], ◌∷◌, ◌++◌, List, none, some, ◌≡◌, refl, ap, ◌∙◌, sym,
  subst, Bool, arith, Bytes, codes, All, length, replicate, ok, ok_injective, Outcome, ◌>>=◌,
  >>=-eq-ok,
}
use libgmbus.Platform.{Platform}
use libgmbus.Base64.{encode_loop, base64decode}
use libgmbus.Base64.RoundTrip.{IsByte, base64decode-encode_loop}
use libgmbus.Base64.Letters.{IsPrinting, encode_loop-IsPrinting}
use libgmbus.Config.{Config, DigestAlgo, EncrAlgo}
use libgmbus.Coder.{coder_new}
use libgmbus.Coder.Laws.{coder_new_ok_iff}
use libgmbus.Udp.{
  Net, Endpoint, Family, endpoint_new, endpoint_set_address4, endpoint_set_address_from_string,
}
use libgmbus.Config.Read.{
  KeyFile, without_last, skip_blank, key_string, read_hashkey, read_group, read_file, config_read,
  configured, config_new,
}

without_last-append : (s : Bytes) (c : ℕ) → without_last (s ++ c ∷ []) ≡ ok s
unfolding without_last
without_last-append [] c = refl
without_last-append (d ∷ []) c = refl
without_last-append (d ∷ e ∷ s) c = rw (without_last-append (e ∷ s) c) refl

skip_blank-IsPrinting :
    (blanks : ℕ) (s : Bytes) → All IsPrinting s → skip_blank (replicate blanks b' ' ++ s) ≡ s
unfolding skip_blank
skip_blank-IsPrinting zero [] h = refl
skip_blank-IsPrinting zero (c ∷ s) h = ground (arith, h.0)
skip_blank-IsPrinting (suc blanks) s h = skip_blank-IsPrinting blanks s h

module _ (p : Platform) (net : Net) (file : KeyFile) where
  read_file_parts :
      (group unicast : Endpoint) (c : Config)
      → read_file p net file group unicast ≡ ok c
      → (read_hashkey p (file.get_string_list (codes "HASHKEY")) ≡ ok c.hash_key)
        × (c.hash_algo ≡ DigestAlgo.hmac_md5_96)
        × (c.encr_algo ≡ EncrAlgo.noencr)
  unfolding read_file
  read_file_parts group unicast c e =
      let built : Bytes → Endpoint → Outcome Config =
        λ key addressed. ok (configured net file key unicast addressed) in
      let behind : Bytes → Outcome Config =
        λ key. read_group net group (file.get_string (codes "ADDRESS")) >>= built key in
      let (key, read, e₁) =
        >>=-eq-ok (read_hashkey p (file.get_string_list (codes "HASHKEY"))) behind e in
      let (addressed, _, e₂) =
        >>=-eq-ok (read_group net group (file.get_string (codes "ADDRESS"))) (built key) e₁ in
      subst
        (λ (c : Config).
          (read_hashkey p (file.get_string_list (codes "HASHKEY")) ≡ ok c.hash_key)
          × (c.hash_algo ≡ DigestAlgo.hmac_md5_96)
          × (c.encr_algo ≡ EncrAlgo.noencr))
        (ok_injective e₂) (unfold configured in (read, refl, refl))

-- The key that the file has in base64, between blanks and the ')'.
abbrev pub key_list : ℕ → Bytes → Bytes → ℕ → List Bytes → List Bytes
key_list first name key blanks more =
    (first ∷ name) ∷ (replicate blanks b' ' ++ encode_loop key ++ b')' ∷ []) ∷ more

read_hashkey-key_list :
    (p : Platform) (first : ℕ) (name key : Bytes) (blanks : ℕ) (more : List Bytes)
    → All IsByte key
    → read_hashkey p (some (key_list first name key blanks more)) ≡ base64decode p (encode_loop key)
unfolding read_hashkey key_string
read_hashkey-key_list p first name key blanks more h =
    rw
      (
        without_last-append (replicate blanks b' ' ++ encode_loop key) b')',
        skip_blank-IsPrinting blanks (encode_loop key) (encode_loop-IsPrinting key h),
      )
      refl

decode_key :
    (p : Platform) (key : Bytes)
    → All IsByte key
    → 0 < length key
    → length key + 1 ≤ p.room (length key)
    → base64decode p (encode_loop key) ≡ ok key
decode_key p key h l room = base64decode-encode_loop p key h l ∙ ground arith

config_new_read :
    (p : Platform) (net : Net) (file : KeyFile) (c : Config)
    → config_new p net (some file) ≡ ok c
    → read_file p net file
        (endpoint_new Family.af_inet)
        (endpoint_set_address4 (endpoint_new Family.af_inet) 0)
      ≡ ok c
unfolding config_new config_read
config_new_read p net file c e =
    let group = endpoint_new Family.af_inet in
    let read = read_file p net file group (endpoint_set_address4 group 0) in
    let pair : Config → Outcome (Bool × Config) = λ c. ok (true, c) in
    let second : Bool × Config → Outcome Config = λ r. ok r.1 in
    let (r, reads, end) = >>=-eq-ok (read >>= pair) second e in
    let (c', reads', end') = >>=-eq-ok read pair reads in
    reads' ∙ ap ok (ap (λ (r : Bool × Config). r.1) (ok_injective end') ∙ ok_injective end)

-- Every configuration that mbus_config_new reads makes a usable coder, whatever the file says of
-- encryption. If the file has a key of one byte or more in base64, behind the name of a digest and any
-- number of blanks, and GLib reserves room for one group more than the key has, then the hash key is
-- that key.
pub config_new_lem :
    (p : Platform) (net : Net) (file : KeyFile) (c : Config)
    → config_new p net (some file) ≡ ok c
    → ((coder_new c).ok ≡ true)
      × ((first : ℕ) (name key : Bytes) (blanks : ℕ) (more : List Bytes)
          → All IsByte key
          → 0 < length key
          → length key + 1 ≤ p.room (length key)
          → file.get_string_list (codes "HASHKEY") ≡ some (key_list first name key blanks more)
          → c.hash_key ≡ key)
config_new_lem p net file c e =
    let (key_read, digest, no_encryption) =
      read_file_parts p net file (endpoint_new Family.af_inet)
        (endpoint_set_address4 (endpoint_new Family.af_inet) 0) c
        (config_new_read p net file c e) in
    (
      (coder_new_ok_iff c).1 (digest, no_encryption),
      (λ first name key blanks more bytes l room listed. ok_injective (
          sym key_read
          ∙ ap (read_hashkey p) listed
          ∙ read_hashkey-key_list p first name key blanks more bytes
          ∙ decode_key p key bytes l room)),
    )

pub read_group_default :
    (net : Net) (group : Endpoint)
    → read_group net group none
      ≡ ok (endpoint_set_address_from_string net group (codes "224.255.222.239")).1
unfolding read_group
read_group_default net group = refl

-- A file with such a key and an address that can be read gives a configuration.
pub config_new_built :
    (p : Platform) (net : Net) (file : KeyFile) (first : ℕ) (name key : Bytes) (blanks : ℕ)
    (more : List Bytes) (addressed : Endpoint)
    → All IsByte key
    → 0 < length key
    → length key + 1 ≤ p.room (length key)
    → file.get_string_list (codes "HASHKEY") ≡ some (key_list first name key blanks more)
    → read_group net (endpoint_new Family.af_inet) (file.get_string (codes "ADDRESS"))
      ≡ ok addressed
    → config_new p net (some file)
      ≡ ok (
          configured net file key (endpoint_set_address4 (endpoint_new Family.af_inet) 0) addressed)
unfolding config_new config_read read_file
config_new_built p net file first name key blanks more addressed bytes l room listed group =
    rw
      (
        listed,
        read_hashkey-key_list p first name key blanks more bytes,
        decode_key p key bytes l room,
        group,
      )
      refl
