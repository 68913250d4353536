-- ===== src/Tests/Coding.antt =====
-- Runs of base64 and of the coder.
use libgmbus.Base.{
  true, [], ◌≡◌, refl, ◌↔◌, arith, Bytes, codes, if◌then◌else◌, ltb, ok, fault, Fault,
}
use libgmbus.Tests.{platform}
use libgmbus.Config.{Config, DigestAlgo, EncrAlgo, Scope}
use libgmbus.Base64.{encode_loop, base64encode, base64decode}
use libgmbus.Base64.Sizes.{IsExact, base64encode-IsExact}
use libgmbus.Base64.RoundTrip.{base64decode-encode_loop}
use libgmbus.Coder.{coder_new, encode, decode}
use libgmbus.Coder.Laws.{IsSound, Accepted, coder_new_ok_iff, decode_iff, decode-encode}

-- The configuration that mconfig.c writes for a new user, with another key.
abbrev pub config : Config
config = record {
  hash_algo = DigestAlgo.hmac_md5_96;
  hash_key = codes "key";
  encr_algo = EncrAlgo.noencr;
  encr_key = [];
  group_addr = [];
  unicast_addr = [];
  send_unicast = true;
  scope = Scope.hostlocal;
}

pub platform_sound : IsSound platform
platform_sound = record {
  md5_length = λ s. refl;
  md5_bytes = λ s. ground arith;
  room_enough = λ n. omega arith;
  spare = omega arith;
}

pub config_usable : (coder_new config).ok ≡ true
config_usable = (coder_new_ok_iff config).1 (refl, refl)

decode-encode_example :
    (sent : Bytes) × (encode platform (coder_new config) (codes "hello") ≡ ok (sent, sent))
    × (decode platform (coder_new config) sent ≡ ok (true, codes "hello"))
decode-encode_example = decode-encode platform platform_sound config config_usable (codes "hello")

decode_iff_example :
    (decode platform (coder_new config) (codes "short\nhello") ≡ ok (true, codes "hello"))
    ↔ Accepted platform platform_sound config config_usable (codes "short\nhello") (codes "hello")
decode_iff_example =
    decode_iff platform platform_sound config config_usable (codes "short\nhello") (codes "hello")

base64decode-encode_loop_example :
    base64decode platform (encode_loop (codes "Man!"))
    ≡ (if ltb (platform.room 4) 5 then fault Fault.over_write else ok (codes "Man!"))
base64decode-encode_loop_example =
    base64decode-encode_loop platform (codes "Man!") (ground arith) (omega arith)

base64encode-IsExact_example :
    (base64encode platform (codes "Man") ≡ ok (encode_loop (codes "Man"))) ↔ IsExact 3
base64encode-IsExact_example = base64encode-IsExact platform (codes "Man") (omega arith)
