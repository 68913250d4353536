-- ===== src/Transport/Receiving.antt =====
-- gmbus/mtrans.c: what a message from the link leads to.
use libgmbus.Base.{
  ℕ, Bool, not, List, [], ◌∷◌, ◌++◌, Option, none, some, if◌then◌else◌, Outcome, ok, Fault, ◌>>=◌,
}
use libgmbus.Platform.{Platform}
use libgmbus.Util.{Error}
use libgmbus.Address
use libgmbus.Address.{Address, is_unique, is_subset_of, hash}
use libgmbus.Header.{Header, MessageType}
use libgmbus.Message.{Message, contains}
use libgmbus.Table.{lookup, insert, modify}
use libgmbus.Transport.Retransmission.{check_for_acks}
use libgmbus.Transport.{
  TimeVal, Entity, Acknowledgement, Transport, Action, LinkMessage, incoming_message, new_entity,
  transport_error, follow, same_address, invoke, hello_command, bye_command, is_empty,
}

-- The acknowledgements of __mbus_transport_handle_message.
unfoldable pub acked : Transport → List ℕ → Outcome Transport
acked self acks =
    let checked = check_for_acks self acks in
    if is_empty self.reliable_messages then ok self else checked

-- __mbus_transport_when_link_error.
unfoldable pub when_link_error : Transport → Error → List Action
when_link_error self error = invoke self.transport_error (transport_error error)

module _ (p : Platform) where
  -- __mbus_transport_check_for_new_entity, for what the lookup of the source gives.
  unfoldable pub check_for_new_entity :
      TimeVal → Transport → LinkMessage → Option Entity → Transport × List Action
  check_for_new_entity now self lmsg none =
      let addr = lmsg.message.header.source in
      (
        record self {
          entities =
              insert (same_address p) addr (record { endpoint = lmsg.sender; last_hello = now })
                self.entities;
        },
        invoke self.new_entity (new_entity addr),
      )
  check_for_new_entity now self lmsg (some entity) = (self, [])

  abbrev pub touch : TimeVal → Entity → Entity
  touch now entity = record entity { last_hello = now }

  -- __mbus_transport_recv_hello: the entity that is looked up is written to.
  unfoldable pub recv_hello : TimeVal → Transport → Message → Outcome Transport
  recv_hello now self msg = do
    entity ← follow Fault.null_pointer (lookup (same_address p) msg.header.source self.entities)
    ok (record self {
      entities = modify (same_address p) (touch now) msg.header.source self.entities;
    })

  -- The tests of __mbus_transport_handle_message behind the new entity.
  unfoldable pub deliver : TimeVal → Transport → Message → Outcome (Transport × List Action)
  deliver now self msg =
      let hello = recv_hello now self msg >>= λ self'. ok (self', []) in
      if contains msg hello_command
      then hello
      else if contains msg bye_command
      then ok (self, [])
      else if not (is_subset_of self.address msg.header.destination)
      then ok (self, [])
      else ok (
        self,
        if is_empty msg.payload.cmds
            then []
            else invoke self.incoming_message (incoming_message msg),
      )

  -- __mbus_transport_handle_message behind the acknowledgements.
  unfoldable pub meet : TimeVal → LinkMessage → Transport → Outcome (Transport × List Action)
  meet now lmsg self = do
    let r =
        check_for_new_entity now self lmsg
          (lookup (same_address p) lmsg.message.header.source self.entities)
    (self', actions) ← deliver now r.0 lmsg.message
    ok (self', r.1 ++ actions)

  -- __mbus_transport_handle_message at a time.
  unfoldable pub handle_message :
      TimeVal → Transport → LinkMessage → Outcome (Transport × List Action)
  handle_message now self lmsg = acked self lmsg.message.header.acks >>= meet now lmsg

  -- __mbus_transport_is_my_message.
  unfoldable pub is_my_message : Transport → LinkMessage → Bool
  is_my_message self lmsg = Address.is_equal self.address lmsg.message.header.source

  abbrev pub note_number : ℕ → Acknowledgement → Acknowledgement
  note_number number ack = record ack { acks = ack.acks ++ number ∷ [] }

  -- The acknowledgement of a reliable message, for what the lookup of the source gives.
  unfoldable pub note_reliable : Transport → Header → Option Acknowledgement → Transport
  note_reliable self header (some ack) = record self {
    acknowledgements =
        modify (same_address p) (note_number header.sequence_no) header.source
          self.acknowledgements;
  }
  note_reliable self header none = record self {
    acknowledgements =
        insert (same_address p) header.source
          (record { source = header.source; acks = header.sequence_no ∷ [] }) self.acknowledgements;
    ack_timers = self.ack_timers ++ header.source ∷ [];
  }

  -- The test of the type in __mbus_transport_when_link_message.
  unfoldable pub note : MessageType → Transport → Header → Transport
  note MessageType.unreliable self header = self
  note MessageType.reliable self header =
      note_reliable self header (lookup (same_address p) header.source self.acknowledgements)

  -- __mbus_transport_when_link_message at a time.
  unfoldable pub when_link_message :
      TimeVal → Transport → LinkMessage → Outcome (Transport × List Action)
  when_link_message now self lmsg =
      let header = lmsg.message.header in
      let self' = note header.type self header in
      let handled = handle_message now self' lmsg in
      if is_my_message self lmsg then ok (self, []) else handled
