-- ===== src/Client/Arrival.antt =====
-- A datagram on its way through the link and the transport to the functions of a client:
-- __mbus_link_udp_event, the transport's callbacks in gmbus/mtrans.c, and the client's.
use libgmbus.Base.{
  ℕ, Bool, true, false, List, [], ◌∷◌, ◌++◌, map, none, some, ◌≡◌, refl, ap, append-nil, Bool-cases,
  inl, inr, ◌∙◌, Bytes, ok, fault, Fault, Outcome, ◌>>=◌, >>=-eq-ok, if◌then◌else◌,
}
use libgmbus.Platform.{Platform}
use libgmbus.Config.{Config}
use libgmbus.Util.{error_reset}
use libgmbus.Coder.{coder_new}
use libgmbus.Coder.Laws.{IsSound}
use libgmbus.Address.{is_subset_of}
use libgmbus.Header.{MessageType, header_as_string}
use libgmbus.Command.{Command, payload_as_string}
use libgmbus.Message.{Message, message_as_string, contains}
use libgmbus.Message.Read.RoundTrip.{IsPrintable}
use libgmbus.Table.{lookup}
use libgmbus.Transport.{
  Transport, TimeVal, Entity, LinkMessage, same_address, hello_command, bye_command, is_empty,
  invoke,
}
use libgmbus.Transport
use libgmbus.Transport.Retransmission.{check_for_acks}
use libgmbus.Transport.Receiving.{
  is_my_message, when_link_message, note, handle_message, acked, meet, check_for_new_entity,
  deliver,
}
use libgmbus.Link.{Link, Channel, Callback, sending_channel, do_send, udp_event}
use libgmbus.Link
use libgmbus.Link.Delivery.{received, udp_event-do_send}
use libgmbus.Client.{Client, Call, incoming_message}
use libgmbus.Client.Dispatch.{Live, handlers, incoming_message-handlers}

module _ (p : Platform) (now : TimeVal) where
  -- The client's callback on what the transport does; other actions call no function for a command.
  unfoldable client_calls : Client → List Transport.Action → Outcome (List Call)
  client_calls self [] = ok []
  client_calls self (Transport.Action.incoming_message msg ∷ actions) =
      incoming_message p now.tv_sec now.tv_usec self msg >>= λ r.
      client_calls self actions >>= λ calls. ok (r.1 ++ calls)
  client_calls self (_ ∷ actions) = client_calls self actions

  -- The transport's callback on what the link does: a message is taken up, an error calls no function
  -- for a command, and nothing else concerns it.
  unfoldable link_calls : Client → List Link.Action → Outcome (Client × List Call)
  unfolding client_calls
  link_calls self [] = ok (self, [])
  link_calls self (Link.Action.when_message cb sender (some msg) ∷ actions) =
      when_link_message p now self.trans (record { message = msg; sender = sender }) >>= λ r.
      client_calls self r.1 >>= λ calls.
      link_calls (record self { trans = r.0 }) actions >>= λ more. ok (more.0, calls ++ more.1)
  link_calls self (Link.Action.when_message cb sender none ∷ actions) = fault Fault.null_pointer
  link_calls self (_ ∷ actions) = link_calls self actions

  -- A datagram comes in at a link that the client's transport alone is attached to.
  unfoldable pub arrive : ℕ → Bytes × Bytes → Link → Client → Outcome (Client × List Call)
  unfolding link_calls
  arrive fd datagram link self = udp_event p fd (some datagram) link >>= λ r. link_calls self r.1

-- A message that is meant for the applications behind a transport: it is unreliable and carries no
-- acknowledgement, is not its own, begins with a command other than hello and bye, has a destination
-- that takes in the transport's address, and comes from a known entity.
pub record IsForUs (p : Platform) (trans : Transport) (m : Message) : Type 0 where
  pub unreliable : m.header.type ≡ MessageType.unreliable
  pub no_acks : m.header.acks ≡ []
  pub foreign :
      (sender : Bytes) → is_my_message p trans (record { message = m; sender = sender }) ≡ false
  pub no_hello : contains m hello_command ≡ false
  pub no_bye : contains m bye_command ≡ false
  pub for_us : is_subset_of trans.address m.header.destination ≡ true
  pub source_known :
      (e : Entity) × (lookup (same_address p) m.header.source trans.entities ≡ some e)
  pub some_commands : (c : Command) × (cs : List Command) × (m.payload.cmds ≡ c ∷ cs)
  pub listens : trans.incoming_message ≡ true

acked_nothing : (trans : Transport) → acked trans [] ≡ ok trans
unfolding acked check_for_acks
acked_nothing trans = elim (Bool-cases (is_empty trans.reliable_messages)) [
  | inl h ↦ rw h refl
  | inr h ↦ rw h refl
]

module _ (p : Platform) (now : TimeVal) (trans : Transport) (m : Message)
    (h : IsForUs p trans m) where
  abbrev arrived : List Transport.Action
  arrived = Transport.Action.incoming_message m ∷ []

  deliver-IsForUs : deliver p now trans m ≡ ok (trans, arrived)
  unfolding deliver
  deliver-IsForUs =
      let (c, cs, commands) = h.some_commands in
      rw (h.no_hello, h.no_bye, h.for_us)
        (ap
            (λ (l : List Command). ok (
              trans,
              if is_empty l
                  then []
                  else invoke trans.incoming_message (Transport.Action.incoming_message m),
            ))
            commands
          ∙ ap (λ (b : Bool). ok (trans, invoke b (Transport.Action.incoming_message m))) h.listens)

  handle_message-IsForUs :
      (sender : Bytes)
      → handle_message p now trans (record { message = m; sender = sender }) ≡ ok (trans, arrived)
  unfolding handle_message
  handle_message-IsForUs sender =
      let lmsg : LinkMessage = record { message = m; sender = sender } in
      let (e, known) = h.source_known in
      let met : check_for_new_entity p now trans lmsg
            (lookup (same_address p) m.header.source trans.entities)
          ≡ (trans, []) =
        ap (check_for_new_entity p now trans lmsg) known ∙ unfold check_for_new_entity in refl in
      ap (λ (a : List ℕ). acked trans a >>= meet p now lmsg) h.no_acks
      ∙ ap (λ (o : Outcome Transport). o >>= meet p now lmsg) (acked_nothing trans)
      ∙ unfold meet in rw (met, deliver-IsForUs) refl

  when_link_message-IsForUs :
      (sender : Bytes)
      → when_link_message p now trans (record { message = m; sender = sender })
        ≡ ok (trans, arrived)
  unfolding when_link_message note
  when_link_message-IsForUs sender = rw (h.foreign sender) (
      ap
        (λ (t : MessageType).
          handle_message p now (note p t trans m.header) (record { message = m; sender = sender }))
        h.unreliable
      ∙ handle_message-IsForUs sender)

-- A message that was read can be printed again.
received_printed :
    (p : Platform) (tv_sec tv_usec tv_sec' tv_usec' : ℕ) (m : Message) (text : Bytes)
    → message_as_string p tv_sec tv_usec m ≡ ok text
    → (text' : Bytes) × (message_as_string p tv_sec' tv_usec' (received tv_sec tv_usec m)
        ≡ ok text')
unfolding message_as_string payload_as_string
received_printed p tv_sec tv_usec tv_sec' tv_usec' m text e =
    let k : Bytes → Outcome Bytes =
      λ t. ok (header_as_string tv_sec tv_usec m.header ++ b'\n' ∷ t) in
    let (t, lines, _) = >>=-eq-ok (payload_as_string p m.payload) k e in
    let header = (received tv_sec tv_usec m).header in
    (header_as_string tv_sec' tv_usec' header ++ b'\n' ∷ t, rw lines refl)

link_calls_one :
    (p : Platform) (now : TimeVal) (self : Client) (cb : Callback) (sender : Bytes) (m : Message)
    (r : Message × List Call)
    → IsForUs p self.trans m
    → incoming_message p now.tv_sec now.tv_usec self m ≡ ok r
    → link_calls p now self (Link.Action.when_message cb sender (some m) ∷ []) ≡ ok (self, r.1)
unfolding link_calls client_calls
link_calls_one p now self cb sender m r h e =
    rw (when_link_message-IsForUs p now self.trans m h sender, e)
      (ap (λ (calls : List Call). ok (self, calls)) (append-nil (r.1 ++ []) ∙ append-nil r.1))

-- From one link to the functions of a client behind another. The platform is sound: MD5 digests have 16
-- bytes, arrays have room for their size, and one of 12 bytes for 16. Both links have one usable
-- configuration, and the first has an open channel to send on; the client's transport alone is attached
-- to the second link, with its callback for messages set, and no command was unregistered in the client.
-- The message is printable and unreliable and acknowledges nothing; it has a command, the first one is
-- neither mbus.hello nor mbus.bye, its destination takes in the transport's address, and its source is
-- another one and known to the transport. Then one datagram is sent, if sendto
-- succeeds, and when it arrives whole, the client calls for the commands of the message, in their order, the functions that are registered for
-- their names, or else the one for unknown messages, where they are set; and the client stays as it is.
pub arrive-do_send :
    (p : Platform) (sound : IsSound p) (config : Config) (tv_sec tv_usec : ℕ) (now : TimeVal)
    (self other : Link) (client : Client) (m : Message) (text ep : Bytes) (channel : Channel)
    (cb : Callback)
    → (coder_new config).ok ≡ true
    → self.coder ≡ coder_new config
    → other.coder ≡ coder_new config
    → sending_channel self ≡ ok channel
    → other.callbacks ≡ cb ∷ []
    → IsPrintable p m
    → message_as_string p tv_sec tv_usec m ≡ ok text
    → IsForUs p client.trans (received tv_sec tv_usec m)
    → Live client.callbacks
    → (datagram : Bytes) × (do_send p tv_sec tv_usec true self m ep
        ≡ ok (
          true,
          record self { error = error_reset },
          Link.Action.sendto channel.fd datagram ep ∷ [],
        ))
      × ((fd : ℕ) (sender : Bytes)
          → (calls : List Call) × (arrive p now fd (datagram, sender) other client
              ≡ ok (client, calls))
            × (map (λ c. c.function) calls
                ≡ handlers client.callbacks client.unknown_message m.payload.cmds))
unfolding arrive
arrive-do_send p sound config tv_sec tv_usec now self other client m text ep channel cb usable mine
      its opened attached printable printed for_us live =
    let (datagram, sends, arrives) =
      udp_event-do_send p sound config tv_sec tv_usec self other m text ep channel usable mine its
        opened printable printed in
    let (text', again) = received_printed p tv_sec tv_usec now.tv_sec now.tv_usec m text printed in
    let (r, run, functions) =
      incoming_message-handlers p now.tv_sec now.tv_usec client (received tv_sec tv_usec m) text'
        live again in
    (
      datagram,
      sends,
      (λ fd sender. (
        r.1,
        rw (arrives fd sender) (
            ap
              (λ (cbs : List Callback). link_calls p now client (
                map (λ cb. Link.Action.when_message cb sender (some (received tv_sec tv_usec m)))
                  cbs))
              attached
            ∙ link_calls_one p now client cb sender (received tv_sec tv_usec m) r for_us run),
        functions,
      )),
    )
