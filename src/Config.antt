-- ===== src/Config.antt =====
-- gmbus/mconfig.h and mconfig.c: the configuration of a session, and when two are the same.
pub mod Read
use libgmbus.Base.{ℕ, Bool, true, ◌&&◌, Bytes, ◌==◌, str_eq, ◌≡◌, ◌↔◌, arith, str_eq_iff}

pub data EncrAlgo : Type 0 where
  noencr des idea encr_max : EncrAlgo

pub data DigestAlgo : Type 0 where
  hmac_md5_96 hmac_sha1_96 digest_max : DigestAlgo

pub data Scope : Type 0 where
  hostlocal linklocal : Scope

-- MEndpoint of gmbus/udp.h is the bytes of the socket address.
pub record Config : Type 0 where
  pub hash_algo : DigestAlgo
  pub hash_key : Bytes
  pub encr_algo : EncrAlgo
  pub encr_key : Bytes
  pub group_addr : Bytes
  pub unicast_addr : Bytes
  pub send_unicast : Bool
  pub scope : Scope

-- The places of the two enumerations in their declarations.
abbrev pub encr_index : EncrAlgo → ℕ
encr_index noencr = 0
encr_index des = 1
encr_index idea = 2
encr_index encr_max = 3

abbrev pub digest_index : DigestAlgo → ℕ
digest_index hmac_md5_96 = 0
digest_index hmac_sha1_96 = 1
digest_index digest_max = 2

-- mbus_config_is_equal; __g_byte_array_is_equal and memcmp compare all bytes of two byte arrays.
pub is_equal : Config → Config → Bool
is_equal lhs rhs =
    (digest_index lhs.hash_algo == digest_index rhs.hash_algo)
    && str_eq lhs.hash_key rhs.hash_key
    && (encr_index lhs.encr_algo == encr_index rhs.encr_algo)
    && str_eq lhs.encr_key rhs.encr_key
    && str_eq lhs.group_addr rhs.group_addr

encr_index_iff : (a b : EncrAlgo) → ((encr_index a == encr_index b) ≡ true) ↔ (a ≡ b)
encr_index_iff a b = ground arith

digest_index_iff : (a b : DigestAlgo) → ((digest_index a == digest_index b) ≡ true) ↔ (a ≡ b)
digest_index_iff a b = ground arith

-- Two configurations share a session exactly when their algorithms, keys and group address agree;
-- the unicast address, the scope and send_unicast do not count.
pub is_equal_iff :
    (lhs rhs : Config)
    → (is_equal lhs rhs ≡ true) ↔ (
        (lhs.hash_algo ≡ rhs.hash_algo)
        × (lhs.hash_key ≡ rhs.hash_key)
        × (lhs.encr_algo ≡ rhs.encr_algo)
        × (lhs.encr_key ≡ rhs.encr_key)
        × (lhs.group_addr ≡ rhs.group_addr))
unfolding is_equal
is_equal_iff lhs rhs = ground (
  arith,
  digest_index_iff lhs.hash_algo rhs.hash_algo,
  encr_index_iff lhs.encr_algo rhs.encr_algo,
  str_eq_iff lhs.hash_key rhs.hash_key,
  str_eq_iff lhs.encr_key rhs.encr_key,
  str_eq_iff lhs.group_addr rhs.group_addr,
)
