-- ===== src/Transport/Retransmission.antt =====
-- gmbus/mtrans.c: reliable messages that wait for their acknowledgement.
use libgmbus.Base.{
  ℕ, suc, ◌*◌, List, [], ◌∷◌, ◌++◌, Option, none, some, codes, ltb, if◌then◌else◌, Outcome, ok,
  Fault, ◌>>=◌,
}
use libgmbus.Util.{ErrorType, error_set}
use libgmbus.Table.{lookup, remove, modify}
use libgmbus.Transport.{
  ReliableMessage, Transport, Action, transport_error, follow, same_number, same_place, invoke,
}

-- An acknowledged message is freed, and its timer and its entry are removed.
unfoldable pub forget : Transport → ℕ → ℕ → Transport
forget self number place = record self {
  retransmit_timers = remove same_place place self.retransmit_timers;
  reliable_messages = remove same_number number self.reliable_messages;
  heap = remove same_place place self.heap;
}

-- The body of the loop of __mbus_transport_check_for_acks, for what the lookup gives.
unfoldable pub check_ack : Transport → ℕ → Option ℕ → Outcome Transport
unfolding forget
check_ack self number none = ok self
check_ack self number (some place) = do
  rmsg ← follow Fault.freed (lookup same_place place self.heap)
  ok (forget self number place)

-- __mbus_transport_check_for_acks.
unfoldable pub check_for_acks : Transport → List ℕ → Outcome Transport
unfolding check_ack
check_for_acks self [] = ok self
check_for_acks self (number ∷ acks) =
    check_ack self number (lookup same_number number self.reliable_messages) >>= λ self'.
    check_for_acks self' acks

abbrev pub send_failed : Action
send_failed =
    transport_error (error_set ErrorType.send_reliable (codes "sending message reliable failed"))

-- What __retransmit_reliable does with a message whose count was raised to `n`.
unfoldable pub next_try : Transport → ℕ → ReliableMessage → Transport × List Action
next_try self place rmsg =
    if ltb rmsg.n 3
    then (
      record self { retransmit_timers = self.retransmit_timers ++ (place, rmsg.n * 100) ∷ [] },
      [],
    )
    else (
      elim (lookup same_number rmsg.message.header.sequence_no self.reliable_messages) [
        | none ↦ self
        | some value ↦ record self {
          reliable_messages =
              remove same_number rmsg.message.header.sequence_no self.reliable_messages;
          heap = remove same_place place self.heap;
        }
      ],
      invoke self.transport_error send_failed,
    )

abbrev pub raise : ReliableMessage → ReliableMessage
raise rmsg = record rmsg { n = suc rmsg.n }

-- __retransmit_reliable, when the timer of a place runs out.
unfoldable pub retransmit_reliable : Transport → ℕ → Outcome (Transport × List Action)
unfolding next_try
retransmit_reliable self place = do
  rmsg ← follow Fault.freed (lookup same_place place self.heap)
  ok (
      next_try
        (record self {
          retransmit_timers = remove same_place place self.retransmit_timers;
          heap = modify same_place raise place self.heap;
        })
        place (raise rmsg))
