-- ===== src/Transport/Sending.antt =====
-- gmbus/mtrans.c: what is sent, with the acknowledgements that it carries.
use libgmbus.Base.{
  ℕ, suc, ◌+◌, ◌%◌, ◌^◌, Bool, List, [], ◌∷◌, ◌++◌, Option, none, some, if◌then◌else◌, Outcome, ok,
  Fault, ◌>>=◌,
}
use libgmbus.Platform.{Platform}
use libgmbus.Address.{Address, is_unique}
use libgmbus.Header.{MessageType}
use libgmbus.Message.{Message, message_new, message_assign}
use libgmbus.Table.{lookup, insert, remove, drop_key}
use libgmbus.Transport.{
  Entity, Acknowledgement, Transport, Action, link_send, link_send_unicast, follow, same_number,
  same_address,
}

-- What mbus_transport_send does for a reliable message.
unfoldable pub keep_reliable : Transport → Message → Transport
keep_reliable self msg = record self {
  reliable_messages = insert same_number msg.header.sequence_no self.next self.reliable_messages;
  heap = self.heap ++ (self.next, record { n = 1; message = message_assign message_new msg }) ∷ [];
  retransmit_timers = self.retransmit_timers ++ (self.next, 100) ∷ [];
  next = suc self.next;
}

-- The test of the type in mbus_transport_send.
unfoldable pub keep : MessageType → Transport → Message → Transport
keep MessageType.unreliable self msg = self
keep MessageType.reliable self msg = keep_reliable self msg

module _ (p : Platform) where
  -- The acknowledgement that mbus_transport_send looks up for its destination.
  unfoldable pub find_ack : Transport → Address → Option Acknowledgement
  find_ack self destination =
      if is_unique destination
      then lookup (same_address p) destination self.acknowledgements
      else none

  -- The acknowledgement that mbus_transport_send finds for the destination: its timer is stopped and
  -- its numbers go with the message.
  unfoldable pub pass_acks : Transport → Message → Option Acknowledgement → Transport × Message
  pass_acks self msg none = (self, msg)
  pass_acks self msg (some ack) = (
    record self {
      acknowledgements = remove (same_address p) ack.source self.acknowledgements;
      ack_timers = drop_key (same_address p) ack.source self.ack_timers;
    },
    record msg { header = record msg.header { acks = msg.header.acks ++ ack.acks } },
  )

  -- Which channel of the link takes the message.
  unfoldable pub channel : Bool → Message → Option Entity → Action
  channel send_unicast msg none = link_send msg
  channel send_unicast msg (some entity) =
      if send_unicast then link_send_unicast msg entity.endpoint else link_send msg

  -- mbus_transport_send: the state, the message, which the caller owns, and what is sent.
  unfoldable pub send : Transport → Message → Transport × Message × Action
  send self msg =
      let msg1 = record msg {
        header = record msg.header { sequence_no = self.sequence_no; source = self.address };
      } in
      let self1 = record self { sequence_no = (self.sequence_no + 1) % 2 ^ 32 } in
      let self2 = keep msg.header.type self1 msg1 in
      let r = pass_acks self2 msg1 (find_ack self2 msg1.header.destination) in
      (
        r.0,
        r.1,
        channel self.send_unicast r.1 (lookup (same_address p) r.1.header.destination r.0.entities),
      )

  -- __mbus_transport_when_hello, with the result of __calculate_hello_interval.
  unfoldable pub when_hello : ℕ → Transport → Transport × List Action
  unfolding send
  when_hello interval self =
      let (self', msg, action) = send self self.hello_message in
      (record self' { hello_message = msg; hello_timer = interval }, action ∷ [])

  -- What __mbus_transport_send_acks does with its acknowledgement.
  unfoldable pub flush_acks : Transport → Acknowledgement → Transport × List Action
  flush_acks self ack =
      let msg = record message_new {
        header = record message_new.header {
          acks = message_new.header.acks ++ ack.acks;
          sequence_no = self.sequence_no;
          destination = ack.source;
          source = self.address;
        };
      } in
      (
        record self {
          sequence_no = (self.sequence_no + 1) % 2 ^ 32;
          acknowledgements = remove (same_address p) ack.source self.acknowledgements;
        },
        link_send msg ∷ [],
      )

  -- __mbus_transport_send_acks, when the timer of a source runs out: its acknowledgement is read.
  unfoldable pub send_acks : Transport → Address → Outcome (Transport × List Action)
  unfolding flush_acks
  send_acks self source = do
    ack ← follow Fault.freed (lookup (same_address p) source self.acknowledgements)
    ok (
        flush_acks (record self { ack_timers = drop_key (same_address p) source self.ack_timers })
          ack)
