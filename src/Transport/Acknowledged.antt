-- ===== src/Transport/Acknowledged.antt =====
-- A reliable message and its acknowledgement, between two transports.
use libgmbus.Base.{
  ℕ, false, List, [], ◌∷◌, ◌++◌, none, some, ◌≡◌, refl, ap, sym, subst, ◌∙◌, inl, inr, ok,
}
use mathlib.Core.Option.{some-injective}
use libgmbus.Platform.{Platform}
use libgmbus.Header.{MessageType}
use libgmbus.Message.{Message}
use libgmbus.Table.{lookup}
use libgmbus.Table.Keys.{Member}
use libgmbus.Transport.{
  Transport, TimeVal, Action, LinkMessage, Acknowledgement, same_address, same_number, link_send,
}
use libgmbus.Transport.Sending.{send, send_acks}
use libgmbus.Transport.Receiving.{
  note, note_reliable, is_my_message, when_link_message, handle_message,
}
use libgmbus.Transport.Acks.{note_reliable_lem, send_acks_lem}
use libgmbus.Transport.Handled.{Absent, handle_message_lem, note-IsSound}
use libgmbus.Transport.Runs.{IsSound, send-IsSound}
use libgmbus.Transport.Sent.{send_parts}

Member_last : {A : Type 0} (x : A) (xs : List A) → Member x (xs ++ x ∷ [])
Member_last x [] = inl refl
Member_last x (y ∷ xs) = inr (Member_last x xs)

module _ (p : Platform) where
  -- A message of another transport: what it acknowledges is gone.
  handled :
      (now : TimeVal) (self : Transport) (lmsg : LinkMessage)
      → IsSound p self
      → is_my_message p self lmsg ≡ false
      → (r : Transport × List Action) × (when_link_message p now self lmsg ≡ ok r)
        × IsSound p r.0
        × Absent p r.0 lmsg.message.header.acks
  unfolding when_link_message
  handled now self lmsg inv foreign =
      let header = lmsg.message.header in
      let (r, done, inv', absent, same) =
        handle_message_lem p now (note p header.type self header) lmsg
          (note-IsSound p header.type self header inv) in
      (r, rw (foreign, done) refl, inv', absent)

  -- The first reliable message of a source: its number waits alone, and a timer runs for the source.
  noted :
      (now : TimeVal) (self : Transport) (lmsg : LinkMessage)
      → IsSound p self
      → is_my_message p self lmsg ≡ false
      → lmsg.message.header.type ≡ MessageType.reliable
      → lookup (same_address p) lmsg.message.header.source self.acknowledgements ≡ none
      → (r : Transport × List Action) × (when_link_message p now self lmsg ≡ ok r)
        × IsSound p r.0
        × (lookup (same_address p) lmsg.message.header.source r.0.acknowledgements
            ≡ some (record {
              source = lmsg.message.header.source;
              acks = lmsg.message.header.sequence_no ∷ [];
            }))
        × Member lmsg.message.header.source r.0.ack_timers
  unfolding when_link_message note
  noted now self lmsg inv foreign reliable first =
      let header = lmsg.message.header in
      let noted_first =
        note_reliable p self header (lookup (same_address p) header.source self.acknowledgements) in
      let (found, timers) = (note_reliable_lem p self header inv.waiting).2 first in
      let (r, done, inv', absent, (e5, e6)) =
        handle_message_lem p now noted_first lmsg
          (note-IsSound p MessageType.reliable self header inv) in
      (
        r,
        rw foreign (
            ap (λ (t : MessageType). handle_message p now (note p t self header) lmsg) reliable
            ∙ done),
        inv',
        ap (lookup (same_address p) header.source) e5 ∙ found,
        subst (Member header.source) (sym (e6 ∙ timers))
            (Member_last header.source self.ack_timers),
      )

  Member-Absent :
      (self : Transport) (number : ℕ) (acks : List ℕ)
      → Absent p self acks
      → acks ≡ number ∷ []
      → lookup same_number number self.reliable_messages ≡ none
  Member-Absent self number acks absent e = (subst (Absent p self) e absent).0

-- Two transports are in order. One sends a reliable message; the other takes in a message of that type
-- and number, which is not its own, while no acknowledgement waits for the source. Then it runs a timer
-- for the source, and when that runs out, it sends one message, to the source, that acknowledges just
-- the number. Once any message with these acknowledgements that is not its own comes back to the
-- sender, the number leads nowhere there. All of it runs without a fault.
pub acknowledge :
    (p : Platform) (self other : Transport) (msg : Message) (now : TimeVal) (lmsg : LinkMessage)
    → IsSound p self
    → IsSound p other
    → msg.header.type ≡ MessageType.reliable
    → lmsg.message.header.type ≡ (send p self msg).1.header.type
    → lmsg.message.header.sequence_no ≡ (send p self msg).1.header.sequence_no
    → is_my_message p other lmsg ≡ false
    → lookup (same_address p) lmsg.message.header.source other.acknowledgements ≡ none
    → let source = lmsg.message.header.source in
      (r : Transport × List Action) × (when_link_message p now other lmsg ≡ ok r)
      × Member source r.0.ack_timers
      × (b : Transport × List Action) × (send_acks p r.0 source ≡ ok b)
      × (back : Message) × (b.1 ≡ link_send back ∷ [])
      × (back.header.destination ≡ source)
      × (back.header.acks ≡ self.sequence_no ∷ [])
      × ((now' : TimeVal) (answer : LinkMessage)
          → answer.message.header.acks ≡ back.header.acks
          → is_my_message p (send p self msg).0 answer ≡ false
          → (a : Transport × List Action) × (when_link_message p now' (send p self msg).0 answer
              ≡ ok a)
            × (lookup same_number self.sequence_no a.0.reliable_messages ≡ none))
acknowledge p self other msg now lmsg inv inv' reliable same_type same_number' foreign first =
    let source = lmsg.message.header.source in
    let sent = (send_parts p self msg inv).0 in
    let type : lmsg.message.header.type ≡ MessageType.reliable =
      same_type ∙ ap (λ (m : Message). m.header.type) sent ∙ reliable in
    let number : lmsg.message.header.sequence_no ≡ self.sequence_no =
      same_number' ∙ ap (λ (m : Message). m.header.sequence_no) sent in
    let (r, received, sound, waits, timer) = noted p now other lmsg inv' foreign type first in
    let (ack, found, b, sends, still, none_left, (back, out, to, from, acks)) =
      send_acks_lem p r.0 source sound.waiting timer in
    let only : back.header.acks ≡ self.sequence_no ∷ [] =
      acks
      ∙ ap (λ (a : Acknowledgement). a.acks) (some-injective _ _ (sym found ∙ waits))
      ∙ ap (λ (n : ℕ). n ∷ []) number in
    (
      r,
      received,
      timer,
      b,
      sends,
      back,
      out,
      to,
      only,
      (λ now' answer same answered.
          let (a, done, sound', absent) =
            handled p now' (send p self msg).0 answer (send-IsSound p self msg inv) answered in
          (
            a,
            done,
            Member-Absent p a.0 self.sequence_no answer.message.header.acks absent (same ∙ only),
          )),
    )
