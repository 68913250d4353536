-- ===== src/Transport.antt =====
-- gmbus/mtrans.c: the entities of a session, reliable messages and their retransmission, and
-- acknowledgements. A GHashTable is a Table, in the order of insertion. An operation gives the new
-- state and what it does outside, in order. A callback that uses the transport again is not modelled.
pub mod Entities
pub mod Sending
pub mod Retransmission
pub mod Receiving
pub mod Pending
pub mod Kept
pub mod Retries
pub mod Acks
pub mod Runs
pub mod Handled
pub mod Reachable
pub mod Lost
pub mod Sent
pub mod Unanswered
pub mod Freeing
pub mod Acknowledged
use libgmbus.Base.{
  ℕ, zero, suc, ◌+◌, ◌-◌, ◌*◌, ◌/◌, ◌%◌, ◌^◌, Bool, true, false, ◌&&◌, not, ◌||◌, List, [], ◌∷◌,
  ◌++◌, Option, none, some, Bytes, codes, ltb, ◌==◌, if◌then◌else◌, length, Outcome, ok, fault,
  Fault, ◌>>=◌,
}
use libgmbus.Platform.{Platform}
use libgmbus.Util.{Error, ErrorType, error_set}
use libgmbus.Address
use libgmbus.Address.{Address, is_unique, is_subset_of, hash}
use libgmbus.Command.{new_with_name}
use libgmbus.Header.{Header, MessageType}
use libgmbus.Message.{Message, message_new, message_assign, contains, add}
use libgmbus.Table.{lookup, insert, remove, modify, drop_key}

-- GTimeVal.
pub record TimeVal : Type 0 where
  pub tv_sec : ℕ
  pub tv_usec : ℕ

-- MEntity.
pub record Entity : Type 0 where
  pub endpoint : Bytes
  pub last_hello : TimeVal

-- MReliableMessage; its timer is an entry of `retransmit_timers`.
pub record ReliableMessage : Type 0 where
  pub n : ℕ
  pub message : Message

-- MAcknowledgement; its timer is an entry of `ack_timers`, under the same source.
pub record Acknowledgement : Type 0 where
  pub source : Address
  pub acks : List ℕ

-- MTransport. `reliable_messages` leads from a sequence number to the place of an MReliableMessage in
-- `heap`; `retransmit_timers` has the place and the milliseconds of each pending timer. A callback is
-- whether its function is set. `next` is the next place that g_new gives.
pub record Transport : Type 0 where
  pub address : Address
  pub entities : List (Address × Entity)
  pub reliable_messages : List (ℕ × ℕ)
  pub heap : List (ℕ × ReliableMessage)
  pub retransmit_timers : List (ℕ × ℕ)
  pub next : ℕ
  pub acknowledgements : List (Address × Acknowledgement)
  pub ack_timers : List Address
  pub hello_message : Message
  pub hello_timer : ℕ
  pub sequence_no : ℕ
  pub incoming_message : Bool
  pub lost_entity : Bool
  pub new_entity : Bool
  pub transport_error : Bool
  pub send_unicast : Bool

-- mbus_link_send, mbus_link_send_unicast, and the callbacks of the user.
pub data Action : Type 0 where
  link_send : Message → Action
  link_send_unicast : Message → Bytes → Action
  incoming_message : Message → Action
  lost_entity : Address → Action
  new_entity : Address → Action
  transport_error : Error → Action

-- MLinkMessage.
pub record LinkMessage : Type 0 where
  pub message : Message
  pub sender : Bytes

-- A pointer is followed.
unfoldable pub follow {ℓ} : {A : Type ℓ} → Fault → Option A → Outcome A
follow e none = fault e
follow e (some a) = ok a

-- g_int_equal: the low 32 bits.
abbrev pub same_number : ℕ → ℕ → Bool
same_number a b = a % 2 ^ 32 == b % 2 ^ 32

-- A place.
abbrev pub same_place : ℕ → ℕ → Bool
same_place a b = a == b

-- mbus_callback_invoke, if the callback is set.
abbrev pub invoke : Bool → Action → List Action
invoke true action = action ∷ []
invoke false action = []

module _ (p : Platform) where
  -- The hash and the test of a table of addresses.
  abbrev pub same_address : Address → Address → Bool
  same_address a b = (hash p a == hash p b) && Address.is_equal a b

abbrev pub hello_command : Bytes
hello_command = codes "mbus.hello"

abbrev pub bye_command : Bytes
bye_command = codes "mbus.bye"

abbrev pub is_empty : {A : Type 0} → List A → Bool
is_empty [] = true
is_empty (x ∷ xs) = false

-- mbus_transport_new with the address that was read and made unique; the link is there.
unfoldable pub transport_init : Address → Bool → Transport
transport_init address send_unicast = record {
  address = address;
  entities = [];
  reliable_messages = [];
  heap = [];
  retransmit_timers = [];
  next = 1;
  acknowledgements = [];
  ack_timers = [];
  hello_message = (add message_new (new_with_name hello_command)).1;
  hello_timer = 0;
  sequence_no = 0;
  incoming_message = false;
  lost_entity = false;
  new_entity = false;
  transport_error = false;
  send_unicast = send_unicast;
}
