-- ===== src/Link.antt =====
-- gmbus/mlink.c: the link to a session, its sockets, and the transports that are attached to it. What
-- the sockets give (gmbus/udp.c and the system) is an input; an endpoint is its bytes.
pub mod Opening
pub mod Events
pub mod Callbacks
pub mod Delivery
use libgmbus.Base.{
  ℕ, zero, suc, ◌+◌, ◌-◌, Bool, true, false, ◌&&◌, List, [], ◌∷◌, ◌++◌, map, Option, none, some,
  Bytes, codes, ◌==◌, if◌then◌else◌, Outcome, ok, fault, Fault, ◌>>=◌,
}
use libgmbus.Platform.{Platform}
use libgmbus.Util.{Error, ErrorType, error_reset, error_set, int64_to_str}
use libgmbus.Config.{Config, is_equal}
use libgmbus.Coder.{Coder, coder_new, encode, decode}
use libgmbus.Message.{Message, message_new, message_as_string}
use libgmbus.Message.Read.{message_read}

-- A GIOChannel: its descriptor and how often it is held.
pub record Channel : Type 0 where
  pub fd : ℕ
  pub refs : ℕ

-- MLinkCallback, with the addresses of its data and functions.
pub record Callback : Type 0 where
  pub object : ℕ
  pub when_error : ℕ
  pub when_message : ℕ

-- MLink; a member that nothing has set is `none`.
pub record Link : Type 0 where
  pub multicast : Option Channel
  pub unicast : Option Channel
  pub ep_multicast : Option Bytes
  pub ep_unicast : Option Bytes
  pub error : Error
  pub buf : Bytes
  pub callbacks : List Callback
  pub coder : Coder
  pub default_dest : Bytes
  pub ref_count : ℕ

-- What a link does outside: calls of its callbacks, and datagrams.
pub data Action : Type 0 where
  when_message : Callback → Bytes → Option Message → Action
  when_error : Callback → Error → Action
  sendto : ℕ → Bytes → Bytes → Action

-- __mbus_link_when_message and __mbus_link_when_error.
pub link_when_message : Link → Bytes → Option Message → List Action
link_when_message self sender msg = map (λ cb. when_message cb sender msg) self.callbacks

pub link_when_error : Link → Error → List Action
link_when_error self error = map (λ cb. when_error cb error) self.callbacks

-- mbus_link_ok.
pub is_noerr : ErrorType → Bool
is_noerr ErrorType.noerr = true
is_noerr _ = false

pub link_ok : Link → Bool
unfolding is_noerr
link_ok self = is_noerr self.error.type

-- The end of __mbus_link_udp_event, with the MLinkMessage; a NULL message is `none`.
pub report : Link → Bytes → Option Message → Link × List Action
unfolding link_ok link_when_message link_when_error
report self sender msg = (
  self,
  if link_ok self then link_when_message self sender msg else link_when_error self self.error,
)

-- __mbus_link_udp_event behind the decoder, and behind the parser.
pub parsed : Link → Bytes → Bool × Message × Bytes → Link × List Action
unfolding report
parsed self sender (read, msg, rest) =
    if msg.ok
    then report self sender (some msg)
    else (record self { error = error_set ErrorType.parse (codes "error parsing message") }, [])

pub decoded : Platform → Link → Bytes → Bool × Bytes → Outcome (Link × List Action)
unfolding parsed
decoded p self sender (false, mbuf) =
    ok (record self { error = error_set ErrorType.decode (codes "could not decode message") }, [])
decoded p self sender (true, mbuf) =
    message_read p message_new mbuf >>= λ r. ok (parsed self sender r)

-- __mbus_link_udp_event on a socket `fd`: recvfrom failed, which leaves the sender unset,
-- or gave a datagram and its sender.
pub udp_event : Platform → ℕ → Option (Bytes × Bytes) → Link → Outcome (Link × List Action)
unfolding report decoded
udp_event p fd none self =
    let text = codes "failed to read data from socket " ++ int64_to_str fd false in
    ok (report (record self { error = error_set ErrorType.read text }) [] none)
udp_event p fd (some (datagram, sender)) self =
    let self' = record self { error = error_reset; buf = datagram } in
    decode p self'.coder self'.buf >>= decoded p self' sender

-- The channel that __mbus_link_do_send sends on.
unfoldable pub sending_channel : Link → Outcome Channel
sending_channel self = elim self.unicast [
  | some channel ↦ ok channel
  | none ↦ elim self.multicast [ some channel ↦ ok channel | none ↦ fault Fault.null_pointer ]
]

-- sendto with its result; g_error ends the program.
pub send_datagram : Bool → Link → Bytes → Bytes → Channel → Outcome (Bool × Link × List Action)
send_datagram sent self ep buf channel =
    if sent
    then ok (true, record self { error = error_reset }, sendto channel.fd buf ep ∷ [])
    else fault Fault.failed_assertion

-- __mbus_link_do_send at a time. mbus_message_as_string leaves `ok` set and mbus_coder_encode returns
-- TRUE, or neither returns, so that the branches with MERR_WRITE and MERR_ENCODE are not taken.
pub do_send : Platform → ℕ → ℕ → Bool → Link → Message → Bytes → Outcome (Bool × Link × List Action)
unfolding sending_channel send_datagram
do_send p tv_sec tv_usec sent self msg ep = message_as_string p tv_sec tv_usec msg >>= λ str.
    encode p self.coder str >>= λ buf. sending_channel self >>= send_datagram sent self ep buf.1

-- mbus_link_send and mbus_link_send_unicast.
abbrev pub link_send :
    Platform → ℕ → ℕ → Bool → Link → Message → Outcome (Bool × Link × List Action)
link_send p tv_sec tv_usec sent self msg = do_send p tv_sec tv_usec sent self msg self.default_dest

abbrev pub link_send_unicast :
    Platform → ℕ → ℕ → Bool → Link → Message → Bytes → Outcome (Bool × Link × List Action)
link_send_unicast p tv_sec tv_usec sent self msg ep = do_send p tv_sec tv_usec sent self msg ep

-- mbus_link_attach.
pub attach : Link → Callback → Link
attach self c = record self { callbacks = self.callbacks ++ c ∷ [] }

pub is_callback : Callback → Callback → Bool
is_callback cb c =
    cb.object == c.object && cb.when_message == c.when_message && cb.when_error == c.when_error

-- The loop of mbus_link_detach: the result and the array.
pub remove_callback : Callback → List Callback → Bool × List Callback
unfolding is_callback
remove_callback c [] = (false, [])
remove_callback c (cb ∷ cbs) =
    let (found, rest) = remove_callback c cbs in
    if is_callback cb c then (true, cbs) else (found, cb ∷ rest)

-- mbus_link_detach.
pub detach : Link → Callback → Bool × Link
unfolding remove_callback
detach self c =
    let (found, callbacks) = remove_callback c self.callbacks in
    (found, record self { callbacks = callbacks })
