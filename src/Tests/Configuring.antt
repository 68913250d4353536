-- ===== src/Tests/Configuring.antt =====
-- Runs of the reader of configurations.
use libgmbus.Base.{
  ℕ, ◌+◌, ◌<◌, ◌≤◌, true, [], List, none, some, ◌≡◌, refl, arith, Bytes, codes, All, length,
}
use libgmbus.Base64.RoundTrip.{IsByte}
use libgmbus.Tests.{platform}
use libgmbus.Config.{Config}
use libgmbus.Coder.{coder_new}
use libgmbus.Udp.{
  Net, Family, endpoint_new, endpoint_set_address4, endpoint_set_address_from_string,
}
use libgmbus.Config.Read.{KeyFile, configured}
use libgmbus.Config.Read.Usable.{key_list, read_group_default, config_new_built, config_new_lem}

-- A system where every text is one address, and an endpoint has no bytes.
abbrev net : Net
net = record {
  inet_pton = λ address. some 1;
  inet_pton6 = λ address. none;
  layout = λ endpoint. [];
  size4 = 16;
  size6 = 28;
}

abbrev key : Bytes
key = codes "key"

-- HASHKEY=(HMAC-MD5-96, a2V5)
abbrev file : KeyFile
file = record {
  get_string_list = λ name. some (key_list b'(' (codes "HMAC-MD5-96") key 1 []);
  get_string = λ name. none;
  get_integer = λ name. 47000;
}

abbrev read_config : Config
read_config =
    configured net file key (endpoint_set_address4 (endpoint_new Family.af_inet) 0)
      (endpoint_set_address_from_string net (endpoint_new Family.af_inet)
        (codes "224.255.222.239")).1

key_bytes : All IsByte key
key_bytes = (omega arith, (omega arith, (omega arith, tt)))

config_new_lem_example :
    ((coder_new read_config).ok ≡ true)
    × ((first : ℕ) (name key' : Bytes) (blanks : ℕ) (more : List Bytes)
        → All IsByte key'
        → 0 < length key'
        → length key' + 1 ≤ length key' + 16
        → file.get_string_list (codes "HASHKEY") ≡ some (key_list first name key' blanks more)
        → read_config.hash_key ≡ key')
config_new_lem_example = config_new_lem platform net file read_config (
    config_new_built platform net file b'(' (codes "HMAC-MD5-96") key 1 [] _ key_bytes (omega arith)
      (omega arith) refl (read_group_default net (endpoint_new Family.af_inet)))
