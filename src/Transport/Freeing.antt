-- ===== src/Transport/Freeing.antt =====
-- gmbus/mtrans.c: mbus_transport_free, and the timers that it leaves.
use libgmbus.Base.{
  ℕ, zero, suc, ◌+◌, ◌*◌, ◌≤◌, true, false, List, [], ◌∷◌, ◌++◌, some, ◌≡◌, refl, ap, ◌∙◌, arith,
  ltb, Bool-cases, inl, inr, Outcome, ok, fault, Fault, ◌>>=◌, if◌then◌else◌,
}
use libgmbus.Address.{Address}
use libgmbus.Table.{lookup, remove, modify}
use libgmbus.Table.Places.{lookup-modify}
use libgmbus.Platform.{Platform}
use libgmbus.Header.{MessageType}
use libgmbus.Message.{Message}
use libgmbus.Transport.Sending.{send}
use libgmbus.Transport.Runs.{IsSound}
use libgmbus.Transport.Sent.{send_parts}
use libgmbus.Transport.Unanswered.{timer_started}
use libgmbus.Transport.{same_number, Transport, ReliableMessage, follow, same_place}
use libgmbus.Transport.Retransmission.{raise}

-- What is left when a transport was freed: its tables free none of their values, and only the timers of
-- the hello and of the lost entities are removed.
pub record Orphans : Type 0 where
  pub heap : List (ℕ × ReliableMessage)
  pub retransmit_timers : List (ℕ × ℕ)
  pub ack_timers : List Address

-- __mbus_transport_finalize and mbus_transport_free.
unfoldable pub transport_free : Transport → Orphans
transport_free self = record {
  heap = self.heap;
  retransmit_timers = self.retransmit_timers;
  ack_timers = self.ack_timers;
}

-- __retransmit_reliable without its transport, whose callback is read from the third try on.
unfoldable pub retransmit_orphan : Orphans → ℕ → Outcome Orphans
retransmit_orphan self place = follow Fault.freed (lookup same_place place self.heap) >>= λ rmsg.
    if ltb (suc rmsg.n) 3
    then ok (record self {
      retransmit_timers =
          remove same_place place self.retransmit_timers ++ (place, suc rmsg.n * 100) ∷ [];
      heap = modify same_place raise place self.heap;
    })
    else fault Fault.freed

-- The timer of a place runs out as often as the number says.
unfoldable pub expire : ℕ → Orphans → ℕ → Outcome Orphans
expire zero self place = ok self
expire (suc times) self place = retransmit_orphan self place >>= λ self'. expire times self' place

expire_lem :
    (tries : ℕ) (self : Orphans) (place : ℕ) (rmsg : ReliableMessage)
    → lookup same_place place self.heap ≡ some rmsg
    → 2 ≤ rmsg.n + tries
    → expire (suc tries) self place ≡ fault Fault.freed
unfolding expire retransmit_orphan follow
expire_lem zero self place rmsg found enough =
    let third : ltb (suc rmsg.n) 3 ≡ false = ground (arith, enough) in rw (found, third) refl
expire_lem (suc tries) self place rmsg found enough = elim (Bool-cases (ltb (suc rmsg.n) 3)) [
  | inr e ↦ rw (found, e) refl
  | inl e ↦
      let found' : lookup same_place place (modify same_place raise place self.heap)
          ≡ some (raise rmsg) =
        lookup-modify raise place place self.heap rmsg found ∙ ground arith in
      rw (found, e)
        (expire_lem tries
          (record self {
            retransmit_timers =
                remove same_place place self.retransmit_timers ++ (place, suc rmsg.n * 100) ∷ [];
            heap = modify same_place raise place self.heap;
          })
          place (raise rmsg) found' (omega (arith, enough)))
]

orphan_again :
    (self : Orphans) (place : ℕ) (rmsg : ReliableMessage)
    → lookup same_place place self.heap ≡ some rmsg
    → ltb (suc rmsg.n) 3 ≡ true
    → (self' : Orphans) × (retransmit_orphan self place ≡ ok self')
unfolding retransmit_orphan follow
orphan_again self place rmsg found few = (
  record self {
    retransmit_timers =
        remove same_place place self.retransmit_timers ++ (place, suc rmsg.n * 100) ∷ [];
    heap = modify same_place raise place self.heap;
  },
  rw (found, few) refl,
)

-- Where reliable messages and acknowledgements are in order, a transport that is freed right after it
-- has sent a reliable message leaves the timer of that message pending, and when it runs out for the
-- second time, the freed transport is read.
pub send-expire :
    (p : Platform) (self : Transport) (msg : Message)
    → IsSound p self
    → msg.header.type ≡ MessageType.reliable
    → let left = transport_free (send p self msg).0 in
      (place : ℕ) × (lookup same_number self.sequence_no (send p self msg).0.reliable_messages
        ≡ some place)
      × ((ms : ℕ) × (lookup same_place place left.retransmit_timers ≡ some ms))
      × ((left' : Orphans) × (retransmit_orphan left place ≡ ok left'))
      × (expire 2 left place ≡ fault Fault.freed)
unfolding transport_free
send-expire p self msg inv reliable =
    let (place, waits, found, (others, timers)) = (send_parts p self msg inv).2 reliable in
    let (ms, started) = timer_started place 100 others in
    (
      place,
      waits,
      (ms, ap (lookup same_place place) timers ∙ started),
      orphan_again (transport_free (send p self msg).0) place _ found refl,
      expire_lem 1 (transport_free (send p self msg).0) place _ found (omega arith),
    )
