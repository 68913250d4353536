-- ===== src/Udp.antt =====
-- gmbus/udp.c: endpoints. An MEndpoint is a union of a sockaddr_in and a sockaddr_in6, in which the
-- family and the port lie at the same places, and the IPv4 address where the IPv6 flow label is.
use libgmbus.Base.{ℕ, Bool, true, false, Option, none, some, Bytes, replicate}
use libgmbus.Util.{find_char}

pub data Family : Type 0 where
  af_unspec af_inet af_inet6 : Family

pub record Endpoint : Type 0 where
  pub family : Family
  pub port : ℕ
  -- sin_addr, or sin6_flowinfo.
  pub sin_addr : ℕ
  pub sin6_addr : Bytes

-- What the system says of addresses: inet_pton for both families, and the bytes of an endpoint.
pub record Net : Type 0 where
  pub inet_pton : Bytes → Option ℕ
  pub inet_pton6 : Bytes → Option Bytes
  pub layout : Endpoint → Bytes
  -- sizeof( struct sockaddr_in ) and sizeof( struct sockaddr_in6 ).
  pub size4 : ℕ
  pub size6 : ℕ

-- mbus_endpoint_new; g_new0 clears the rest.
unfoldable pub endpoint_new : Family → Endpoint
endpoint_new family = record { family = family; port = 0; sin_addr = 0; sin6_addr = replicate 16 0 }

-- mbus_endpoint_get_size.
pub endpoint_get_size : Net → Endpoint → ℕ
endpoint_get_size net self = elim self.family [ af_inet ↦ net.size4 | _ ↦ net.size6 ]

-- mbus_endpoint_get_port and mbus_endpoint_set_port, for both families.
unfoldable pub endpoint_get_port : Endpoint → ℕ
endpoint_get_port self = self.port

unfoldable pub endpoint_set_port : Endpoint → ℕ → Endpoint
endpoint_set_port self port = record self { port = port }

-- mbus_endpoint_set_address4 and mbus_endpoint_set_address6.
unfoldable pub endpoint_set_address4 : Endpoint → ℕ → Endpoint
endpoint_set_address4 self addr = record self { family = af_inet; sin_addr = addr }

unfoldable pub endpoint_set_address6 : Endpoint → Bytes → Endpoint
endpoint_set_address6 self addr = record self { family = af_inet6; sin6_addr = addr }

-- An address that inet_pton does not take leaves the old one, but for its family.
read_address4 : Endpoint → Option ℕ → Bool × Endpoint
read_address4 self none = (false, record self { family = af_inet })
read_address4 self (some addr) = (true, record self { family = af_inet; sin_addr = addr })

read_address6 : Endpoint → Option Bytes → Bool × Endpoint
read_address6 self none = (false, record self { family = af_inet6 })
read_address6 self (some addr) = (true, record self { family = af_inet6; sin6_addr = addr })

-- mbus_endpoint_set_address_from_string: the result and the endpoint.
unfoldable pub endpoint_set_address_from_string : Net → Endpoint → Bytes → Bool × Endpoint
unfolding read_address4 read_address6
endpoint_set_address_from_string net self address = elim (find_char address b'.') [
  | some n ↦ read_address4 self (net.inet_pton address)
  | none ↦ read_address6 self (net.inet_pton6 address)
]

-- mbus_endpoint_new_from_string.
pub endpoint_new_from_string : Net → Bytes → Endpoint
unfolding endpoint_set_address_from_string
endpoint_new_from_string net address =
    (endpoint_set_address_from_string net (endpoint_new af_unspec) address).1
