-- ===== src/Transport/Sent.antt =====
-- What mbus_transport_send does with a message, all of it.
use libgmbus.Base.{
  ℕ, ◌+◌, ◌%◌, ◌^◌, ◌<◌, List, [], ◌∷◌, ◌++◌, Option, none, some, ◌≡◌, refl, sym, subst, true,
  false, ap, ap₂, append-nil, ◌∙◌, arith, All,
}
use libgmbus.Platform.{Platform}
use libgmbus.Address.{Address, is_unique}
use libgmbus.Header.{MessageType}
use libgmbus.Message.{Message, message_new, message_assign}
use libgmbus.Table.{lookup, insert}
use libgmbus.Table.Places.{lookup_fresh}
use libgmbus.Transport.{
  Action, Entity, link_send, link_send_unicast, Transport, Acknowledgement, same_number, same_place,
  same_address,
}
use libgmbus.Transport.Sending.{keep, keep_reliable, find_ack, pass_acks, channel, send}
use libgmbus.Transport.Runs.{IsSound}

lookup-insert_number :
    (k v : ℕ) (m : List (ℕ × ℕ)) → lookup same_number k (insert same_number k v m) ≡ some v
unfolding lookup insert
lookup-insert_number k v [] = ground arith
lookup-insert_number k v ((j, w) ∷ m) = ground (arith, lookup-insert_number k v m)

-- The message waits for its acknowledgement: its number leads to a copy that was tried once, and a
-- timer of 100 milliseconds runs for it.
abbrev pub Waits : Transport → ℕ → Message → Type 0
Waits self number msg =
    (place : ℕ) × (lookup same_number number self.reliable_messages ≡ some place)
    × (lookup same_place place self.heap
        ≡ some (record { n = 1; message = message_assign message_new msg }))
    × ((others : List (ℕ × ℕ)) × (self.retransmit_timers ≡ others ++ (place, 100) ∷ []))

module _ (p : Platform) where
  kept :
      (t : MessageType) (self : Transport) (msg : Message)
      → All (λ h. h.0 < self.next) self.heap
      → t ≡ MessageType.reliable
      → Waits (keep t self msg) msg.header.sequence_no msg
  unfolding keep keep_reliable
  kept MessageType.unreliable self msg old e = cc
  kept MessageType.reliable self msg old e = (
    self.next,
    lookup-insert_number msg.header.sequence_no self.next self.reliable_messages,
    lookup_fresh self.next self.heap _ old,
    (self.retransmit_timers, refl),
  )

  abbrev pub numbers : Option Acknowledgement → List ℕ
  numbers none = []
  numbers (some ack) = ack.acks

  abbrev pub SameButAcks : Transport → Transport → Type 0
  SameButAcks self self' =
      (self'.reliable_messages ≡ self.reliable_messages)
      × (self'.heap ≡ self.heap)
      × (self'.retransmit_timers ≡ self.retransmit_timers)
      × (self'.entities ≡ self.entities)
      × (self'.sequence_no ≡ self.sequence_no)

  passed :
      (self : Transport) (msg : Message) (ack : Option Acknowledgement)
      → SameButAcks self (pass_acks p self msg ack).0
        × ((pass_acks p self msg ack).1
            ≡ record msg { header = record msg.header { acks = msg.header.acks ++ numbers ack } })
  unfolding pass_acks
  passed self msg none = (
    (refl, refl, refl, refl, refl),
    ap (λ l. record msg { header = record msg.header { acks = l } })
        (sym (append-nil msg.header.acks)),
  )
  passed self msg (some ack) = ((refl, refl, refl, refl, refl), refl)

  keep-same :
      (t : MessageType) (self : Transport) (msg : Message) (destination : Address)
      → (find_ack p (keep t self msg) destination ≡ find_ack p self destination)
        × ((keep t self msg).entities ≡ self.entities)
        × ((keep t self msg).sequence_no ≡ self.sequence_no)
  unfolding keep keep_reliable find_ack
  keep-same MessageType.unreliable self msg destination = (refl, refl, refl)
  keep-same MessageType.reliable self msg destination = (refl, refl, refl)

  Waits-same :
      (self self' : Transport) (number : ℕ) (msg : Message)
      → SameButAcks self self'
      → Waits self number msg
      → Waits self' number msg
  Waits-same self self' number msg (e1, e2, e3, e4, e5) (place, found, there, (others, timers)) =
      (place, rw e1 found, rw e2 there, (others, rw e3 timers))

  -- The message that is sent: numbered, with the address of the transport, and with the numbers that
  -- wait for its destination.
  abbrev pub outgoing : Transport → Message → Message
  outgoing self msg = record msg {
    header = record msg.header {
      sequence_no = self.sequence_no;
      source = self.address;
      acks = msg.header.acks ++ numbers (find_ack p self msg.header.destination);
    };
  }

  pub send_parts :
      (self : Transport) (msg : Message)
      → IsSound p self
      → let r = send p self msg in
        (r.1 ≡ outgoing self msg)
        × (r.0.sequence_no ≡ (self.sequence_no + 1) % 2 ^ 32)
        × (msg.header.type ≡ MessageType.reliable
            → Waits r.0 self.sequence_no (record msg {
              header = record msg.header { sequence_no = self.sequence_no; source = self.address };
            }))
        × (r.2
            ≡ channel p self.send_unicast
                (outgoing self msg)
                (lookup (same_address p) msg.header.destination self.entities))
  unfolding send
  send_parts self msg inv =
      let msg1 = record msg {
        header = record msg.header { sequence_no = self.sequence_no; source = self.address };
      } in
      let self1 = record self { sequence_no = (self.sequence_no + 1) % 2 ^ 32 } in
      let self2 = keep msg.header.type self1 msg1 in
      let ack = find_ack p self2 msg.header.destination in
      let (same_ack, same_entities, same_number) =
        keep-same msg.header.type self1 msg1 msg.header.destination in
      let (same, e) = passed self2 msg1 ack in
      let before : find_ack p self1 msg.header.destination
          ≡ find_ack p self msg.header.destination =
        unfold find_ack in refl in
      let message : (pass_acks p self2 msg1 ack).1 ≡ outgoing self msg =
        e
        ∙ ap
            (λ a. record msg1 {
              header = record msg1.header { acks = msg.header.acks ++ numbers a };
            })
            (same_ack ∙ before) in
      (
        message,
        same.4 ∙ same_number,
        (λ reliable.
            Waits-same self2 (pass_acks p self2 msg1 ack).0 self.sequence_no msg1 same
              (kept msg.header.type self1 msg1 inv.pending.old_places reliable)),
        ap₂
            (λ m es.
              channel p self.send_unicast m (lookup (same_address p) m.header.destination es))
            message (same.3 ∙ same_entities),
      )

  -- The message numbered, with the address of the transport, and with more acknowledgements.
  abbrev pub with_acks : Transport → Message → List ℕ → Message
  with_acks self msg acks = record msg {
    header = record msg.header {
      sequence_no = self.sequence_no;
      source = self.address;
      acks = msg.header.acks ++ acks;
    };
  }

  -- Where a message goes: to the session, or to the endpoint of an entity that is known, if the
  -- configuration says so.
  abbrev pub Routed : Transport → Address → Message → Action → Type 0
  Routed self destination msg action =
      (self.send_unicast ≡ false → action ≡ link_send msg)
      × (lookup (same_address p) destination self.entities ≡ none → action ≡ link_send msg)
      × ((entity : Entity)
          → self.send_unicast ≡ true
          → lookup (same_address p) destination self.entities ≡ some entity
          → action ≡ link_send_unicast msg entity.endpoint)

  -- The acknowledgements that a message takes along: those that wait for its destination, which has to
  -- be unique.
  abbrev pub Carried : Transport → Address → List ℕ → Type 0
  Carried self destination acks =
      (is_unique destination ≡ false → acks ≡ [])
      × (lookup (same_address p) destination self.acknowledgements ≡ none → acks ≡ [])
      × ((ack : Acknowledgement)
          → is_unique destination ≡ true
          → lookup (same_address p) destination self.acknowledgements ≡ some ack
          → acks ≡ ack.acks)

  channel-Routed :
      (self : Transport) (destination : Address) (msg : Message)
      → Routed self destination msg
          (channel p self.send_unicast msg (lookup (same_address p) destination self.entities))
  unfolding channel
  channel-Routed self destination msg =
      ((λ e. ground (arith, e)), (λ e. rw e refl), (λ entity e k. rw (k, e) refl))

  find_ack-Carried :
      (self : Transport) (destination : Address)
      → Carried self destination (numbers (find_ack p self destination))
  unfolding find_ack
  find_ack-Carried self destination =
      ((λ e. rw e refl), (λ e. ground (arith, e)), (λ ack e k. rw (e, k) refl))

  -- Where reliable messages and acknowledgements are in order, the message goes out with the next
  -- number, the source address, and behind its own acknowledgements those that wait for its destination
  -- if that is unique; the counter goes on modulo 2^32. A reliable message waits for its
  -- acknowledgement. It is sent to the endpoint of a known destination if the configuration says so,
  -- and to the session otherwise.
  pub send_lem :
      (self : Transport) (msg : Message)
      → IsSound p self
      → let r = send p self msg in
        ((acks : List ℕ) × (r.1 ≡ with_acks self msg acks)
          × Carried self msg.header.destination acks)
        × (r.0.sequence_no ≡ (self.sequence_no + 1) % 2 ^ 32)
        × (msg.header.type ≡ MessageType.reliable
            → Waits r.0 self.sequence_no (record msg {
              header = record msg.header { sequence_no = self.sequence_no; source = self.address };
            }))
        × Routed self msg.header.destination r.1 r.2
  send_lem self msg inv =
      let (message, number, waits, action) = send_parts self msg inv in
      let destination = msg.header.destination in
      (
        (numbers (find_ack p self destination), message, find_ack-Carried self destination),
        number,
        waits,
        subst (λ a. Routed self destination (send p self msg).1 a)
            (ap
                (λ m.
                  channel p self.send_unicast m (lookup (same_address p) destination self.entities))
                message
              ∙ sym action)
            (channel-Routed self destination (send p self msg).1),
      )
