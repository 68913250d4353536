-- ===== src/Config/Read.antt =====
-- mbus_config_new and mbus_config_read. The key file of GLib is an input.
pub mod Usable
use libgmbus.Base.{
  ℕ, ◌+◌, ◌-◌, ◌*◌, ◌/◌, ◌%◌, ◌^◌, Bool, true, false, ◌||◌, List, [], ◌∷◌, ◌++◌, map, Option, none,
  some, Bytes, codes, str_eq, ◌==◌, leb, ◌&&◌, replicate, if◌then◌else◌, Outcome, ok, fault, Fault,
  ◌>>=◌, get_elem?,
}
use libgmbus.Platform.{Platform}
use libgmbus.Base64.{base64decode}
use libgmbus.Config.{Config, DigestAlgo, EncrAlgo, Scope}
use libgmbus.Udp.{
  Net, Endpoint, Family, endpoint_new, endpoint_set_port, endpoint_set_address4,
  endpoint_set_address6, endpoint_set_address_from_string,
}

-- A GKeyFile with ',' as its list separator, in the group MBUS; NULL is `none`, and an integer is the
-- 32-bit pattern of a gint, 0 where there is none.
pub record KeyFile : Type 0 where
  pub get_string_list : Bytes → Option (List Bytes)
  pub get_string : Bytes → Option Bytes
  pub get_integer : Bytes → ℕ

-- htons on a machine with the low byte first, and htonl( 0x7F000001 ) there.
pub htons : ℕ → ℕ
htons v = v % 2 ^ 16 % 256 * 256 + v % 2 ^ 16 / 256

abbrev loopback4 : ℕ
loopback4 = 0x0100007f

abbrev loopback6 : Bytes
loopback6 = replicate 15 0 ++ 1 ∷ []

-- strcasecmp( s, t ) == 0.
abbrev lower : ℕ → ℕ
lower c = if leb b'A' c && leb c b'Z' then c + 32 else c

str_case_eq : Bytes → Bytes → Bool
str_case_eq s t = str_eq (map lower s) (map lower t)

-- The string of the hash key: its last byte, the ')', is overwritten, and blanks in front are passed.
pub without_last : Bytes → Outcome Bytes
without_last [] = fault Fault.over_write
without_last (c ∷ []) = ok []
without_last (c ∷ s) = without_last s >>= λ r. ok (c ∷ r)

pub skip_blank : Bytes → Bytes
skip_blank [] = []
skip_blank (c ∷ s) = let rest = skip_blank s in if c == b' ' then rest else c ∷ s

-- list[ 0 ][ 1 ] is read to compare it with the only digest, and list[ 1 ] is the key.
pub key_string : List Bytes → Outcome Bytes
key_string [] = fault Fault.null_pointer
key_string ([] ∷ list) = fault Fault.over_read
key_string ((c ∷ name) ∷ []) = fault Fault.null_pointer
key_string ((c ∷ name) ∷ key ∷ list) = ok key

pub read_hashkey : Platform → Option (List Bytes) → Outcome Bytes
unfolding key_string
read_hashkey p none = fault Fault.null_pointer
read_hashkey p (some list) =
    key_string list >>= without_last >>= λ tmp. base64decode p (skip_blank tmp)

-- ADDRESS; g_error ends the program.
pub read_group : Net → Endpoint → Option Bytes → Outcome Endpoint
read_group net group none =
    ok (endpoint_set_address_from_string net group (codes "224.255.222.239")).1
read_group net group (some tmp) =
    let (read, group') = endpoint_set_address_from_string net group tmp in
    if read then ok group' else fault Fault.failed_assertion

-- SCOPE.
pub read_scope : Option Bytes → Scope
read_scope none = Scope.hostlocal
read_scope (some tmp) =
    if str_eq tmp (codes "HOSTLOCAL")
    then Scope.hostlocal
    else if str_eq tmp (codes "LINKLOCAL")
    then Scope.linklocal
    else Scope.hostlocal

-- The local address, of the family of the group, and INTERFACE, whose result is not looked at.
pub local_address : Scope → Family → Endpoint → Endpoint
local_address Scope.hostlocal Family.af_inet unicast = endpoint_set_address4 unicast loopback4
local_address Scope.hostlocal _ unicast = endpoint_set_address6 unicast loopback6
local_address Scope.linklocal Family.af_inet unicast = endpoint_set_address4 unicast 0
local_address Scope.linklocal _ unicast = endpoint_set_address6 unicast (replicate 16 0)

pub read_interface : Net → Endpoint → Option Bytes → Endpoint
read_interface net unicast none = unicast
read_interface net unicast (some tmp) = (endpoint_set_address_from_string net unicast tmp).1

-- SEND_UNICAST.
pub read_send_unicast : Option Bytes → Bool
unfolding str_case_eq
read_send_unicast none = true
read_send_unicast (some tmp) =
    str_case_eq tmp (codes "true") || str_eq tmp (codes "yes") || str_case_eq tmp (codes "1")

-- mbus_config_read behind the key and the address of the group.
pub configured : Net → KeyFile → Bytes → Endpoint → Endpoint → Config
unfolding local_address read_interface read_scope read_send_unicast htons
configured net file hash_key unicast addressed =
    let group = endpoint_set_port addressed (htons (file.get_integer (codes "PORT"))) in
    let scope = read_scope (file.get_string (codes "SCOPE")) in
    let local = local_address scope group.family unicast in
    let unicast' = read_interface net local (file.get_string (codes "INTERFACE")) in
    record {
      hash_algo = DigestAlgo.hmac_md5_96;
      hash_key = hash_key;
      encr_algo = EncrAlgo.noencr;
      encr_key = [];
      group_addr = net.layout group;
      unicast_addr = net.layout unicast';
      send_unicast = read_send_unicast (file.get_string (codes "SEND_UNICAST"));
      scope = scope;
    }

-- mbus_config_read on a key file, from the endpoints that mbus_config_new makes.
pub read_file : Platform → Net → KeyFile → Endpoint → Endpoint → Outcome Config
unfolding read_hashkey read_group configured
read_file p net file group unicast =
    read_hashkey p (file.get_string_list (codes "HASHKEY")) >>= λ hash_key.
    read_group net group (file.get_string (codes "ADDRESS")) >>= λ addressed.
    ok (configured net file hash_key unicast addressed)

-- mbus_config_read; a file that cannot be loaded ends the program by g_error, and FALSE is never
-- returned.
pub config_read : Platform → Net → Option KeyFile → Endpoint → Endpoint → Outcome (Bool × Config)
unfolding read_file
config_read p net none group unicast = fault Fault.failed_assertion
config_read p net (some file) group unicast =
    read_file p net file group unicast >>= λ c. ok (true, c)

-- mbus_config_new( TRUE ).
pub config_new : Platform → Net → Option KeyFile → Outcome Config
unfolding config_read
config_new p net file =
    config_read p net file (endpoint_new Family.af_inet)
      (endpoint_set_address4 (endpoint_new Family.af_inet) 0)
    >>= λ r. ok r.1
