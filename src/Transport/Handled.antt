-- ===== src/Transport/Handled.antt =====
-- What a message from the link leads to: no fault, and a state in order.
use libgmbus.Base.{
  ℕ, true, not, List, [], ◌∷◌, ◌++◌, All, Option, none, some, ◌≡◌, refl, ap, ◌∙◌, arith,
  if◌then◌else◌, Bool-cases, Option-cases, inl, inr, ok,
}
use libgmbus.Platform.{Platform}
use libgmbus.Address.{is_subset_of}
use libgmbus.Header.{Header, MessageType}
use libgmbus.Message.{Message, contains}
use libgmbus.Table.{lookup, modify}
use libgmbus.Table.Keys.{insert_new, lookup-append_new}
use libgmbus.Transport.{
  Transport, TimeVal, Entity, Action, LinkMessage, Acknowledgement, follow, same_address,
  same_number, hello_command, bye_command, is_empty, incoming_message, invoke,
}
use libgmbus.Transport.Receiving.{
  check_for_new_entity, recv_hello, deliver, meet, acked, handle_message, note, note_reliable,
  is_my_message, when_link_message, touch,
}
use libgmbus.Transport.Pending.{IsPending, SameAcks, check_for_acks_lem}
use libgmbus.Transport.Acks.{same_address_self, note_reliable_lem}
use libgmbus.Transport.Runs.{SameStore, IsSound, same-IsSound, IsPending-same}

module _ (p : Platform) where
  -- A known entity is there for its hello, and no other message needs one.
  deliver_lem :
      (now : TimeVal) (self : Transport) (msg : Message) (entity : Entity)
      → lookup (same_address p) msg.header.source self.entities ≡ some entity
      → (r : Transport × List Action) × (deliver p now self msg ≡ ok r) × SameStore self r.0
  unfolding deliver recv_hello follow
  deliver_lem now self msg entity e = elim (Bool-cases (contains msg hello_command)) [
    | inl h ↦ (
      (
        record self {
          entities = modify (same_address p) (touch p now) msg.header.source self.entities;
        },
        [],
      ),
      rw (h, e) refl,
      (refl, refl, refl, refl, refl, refl),
    )
    | inr h ↦ elim (Bool-cases (contains msg bye_command)) [
      | inl b ↦ ((self, []), rw (h, b) refl, (refl, refl, refl, refl, refl, refl))
      | inr b ↦ elim (Bool-cases (not (is_subset_of self.address msg.header.destination))) [
        | inl n ↦ ((self, []), rw (h, b, n) refl, (refl, refl, refl, refl, refl, refl))
        | inr n ↦ (
          (
            self,
            if is_empty msg.payload.cmds
                then []
                else invoke self.incoming_message (incoming_message msg),
          ),
          rw (h, b, n) refl,
          (refl, refl, refl, refl, refl, refl),
        )
      ]
    ]
  ]

  -- After the check for a new entity the source is known.
  known :
      (now : TimeVal) (self : Transport) (lmsg : LinkMessage)
      → let r =
          check_for_new_entity p now self lmsg
            (lookup (same_address p) lmsg.message.header.source self.entities) in
        SameStore self r.0
        × ((entity : Entity) × (lookup (same_address p) lmsg.message.header.source r.0.entities
              ≡ some entity))
  unfolding check_for_new_entity
  known now self lmsg =
      elim (Option-cases (lookup (same_address p) lmsg.message.header.source self.entities)) [
        | inl e ↦
            let source = lmsg.message.header.source in
            let entity : Entity = record { endpoint = lmsg.sender; last_hello = now } in
            rw e (
              (refl, refl, refl, refl, refl, refl),
              (
                entity,
                ap (lookup (same_address p) source)
                      (insert_new (same_address p) source entity self.entities e)
                    ∙ lookup-append_new (same_address p) (same_address_self p) source entity
                        self.entities e,
              ),
            )
        | inr (entity, e) ↦ rw e ((refl, refl, refl, refl, refl, refl), (entity, e))
      ]

  SameStore-trans : (a b c : Transport) → SameStore a b → SameStore b c → SameStore a c
  SameStore-trans a b c (e1, e2, e3, e4, e5, e6) (f1, f2, f3, f4, f5, f6) =
      (f1 ∙ e1, f2 ∙ e2, f3 ∙ e3, f4 ∙ e4, f5 ∙ e5, f6 ∙ e6)

  meet_lem :
      (now : TimeVal) (lmsg : LinkMessage) (self : Transport)
      → (r : Transport × List Action) × (meet p now lmsg self ≡ ok r) × SameStore self r.0
  unfolding meet
  meet_lem now lmsg self =
      let source = lmsg.message.header.source in
      let r = check_for_new_entity p now self lmsg (lookup (same_address p) source self.entities) in
      let (same, (entity, found)) = known now self lmsg in
      let ((self', actions), done, same') = deliver_lem now r.0 lmsg.message entity found in
      ((self', r.1 ++ actions), rw done refl, SameStore-trans self r.0 self' same same')

  -- No number of a list leads anywhere.
  abbrev pub Absent : Transport → List ℕ → Type 0
  Absent self acks = All (λ a. lookup same_number a self.reliable_messages ≡ none) acks

  empty-Absent :
      (table : List (ℕ × ℕ)) (acks : List ℕ)
      → is_empty table ≡ true
      → All (λ a. lookup same_number a table ≡ none) acks
  unfolding lookup
  empty-Absent table [] h = tt
  empty-Absent [] (a ∷ acks) h = (refl, empty-Absent [] acks h)
  empty-Absent (e ∷ table) (a ∷ acks) h = cc

  acked_lem :
      (self : Transport) (acks : List ℕ)
      → IsSound p self
      → (self' : Transport) × (acked self acks ≡ ok self')
        × IsSound p self'
        × Absent self' acks
        × SameAcks self self'
  unfolding acked
  acked_lem self acks inv = elim (Bool-cases (is_empty self.reliable_messages)) [
    | inl e ↦ (self, rw e refl, inv, empty-Absent self.reliable_messages acks e, (refl, refl))
    | inr e ↦
        let (self', done, pending, gone, (e5, e6)) = check_for_acks_lem self acks inv.pending in
        let waiting = inv.waiting in
        (
          self',
          rw (e, done) refl,
          record {
            pending = pending;
            waiting = record {
              apart = rw e5 waiting.apart;
              own = rw e5 waiting.own;
              timed = rw (e5, e6) waiting.timed;
            };
          },
          gone.0,
          (e5, e6),
        )
  ]

  -- The numbers that a message acknowledges are gone, and what is to be acknowledged stays.
  pub handle_message_lem :
      (now : TimeVal) (self : Transport) (lmsg : LinkMessage)
      → IsSound p self
      → (r : Transport × List Action) × (handle_message p now self lmsg ≡ ok r)
        × IsSound p r.0
        × Absent r.0 lmsg.message.header.acks
        × SameAcks self r.0
  unfolding handle_message
  handle_message_lem now self lmsg inv =
      let acks = lmsg.message.header.acks in
      let (self', done, inv', absent, (a1, a2)) = acked_lem self acks inv in
      let (r, met, (e1, e2, e3, e4, e5, e6)) = meet_lem now lmsg self' in
      (
        r,
        rw (done, met) refl,
        same-IsSound p self' r.0 (e1, e2, e3, e4, e5, e6) inv',
        rw e1 absent,
        (e5 ∙ a1, e6 ∙ a2),
      )

  note_reliable-IsPending :
      (self : Transport) (header : Header) (ack : Option Acknowledgement)
      → IsPending self
      → IsPending (note_reliable p self header ack)
  unfolding note_reliable
  note_reliable-IsPending self header none inv =
      IsPending-same p self (note_reliable p self header none) refl refl refl refl inv
  note_reliable-IsPending self header (some ack) inv =
      IsPending-same p self (note_reliable p self header (some ack)) refl refl refl refl inv

  pub note-IsSound :
      (t : MessageType) (self : Transport) (header : Header)
      → IsSound p self
      → IsSound p (note p t self header)
  unfolding note
  note-IsSound MessageType.unreliable self header inv = inv
  note-IsSound MessageType.reliable self header inv = record {
    pending =
        note_reliable-IsPending self header
          (lookup (same_address p) header.source self.acknowledgements) inv.pending;
    waiting = (note_reliable_lem p self header inv.waiting).0;
  }

  -- Where reliable messages and acknowledgements are in order, any message from the link is handled
  -- without a fault, so no entity is missing and no freed memory is read, and they stay in order. A
  -- message whose source equals the address of the transport changes nothing and does nothing.
  pub when_link_message_lem :
      (now : TimeVal) (self : Transport) (lmsg : LinkMessage)
      → IsSound p self
      → (r : Transport × List Action) × (when_link_message p now self lmsg ≡ ok r)
        × IsSound p r.0
        × (is_my_message p self lmsg ≡ true → r ≡ (self, []))
  unfolding when_link_message
  when_link_message_lem now self lmsg inv = elim (Bool-cases (is_my_message p self lmsg)) [
    | inl e ↦ ((self, []), rw e refl, inv, (λ h. refl))
    | inr e ↦
        let header = lmsg.message.header in
        let (r, done, inv', absent, same) =
          handle_message_lem now (note p header.type self header) lmsg
            (note-IsSound header.type self header inv) in
        (r, rw (e, done) refl, inv', (λ h. absurd (ground arith)))
  ]
