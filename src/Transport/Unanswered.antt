-- ===== src/Transport/Unanswered.antt =====
-- A reliable message that nobody acknowledges: its timer runs out until it is given up.
use libgmbus.Base.{
  ℕ, zero, suc, ◌+◌, ◌*◌, ◌<◌, ◌≤◌, true, List, [], ◌∷◌, ◌++◌, Option, none, some, ◌≡◌, ◌≢◌, refl,
  ap, append-nil, ◌∙◌, sym, subst, arith, ltb, ◌==◌, All, Bool-cases, inl, inr, Outcome, ok,
  ok_injective, fault, Fault, ◌>>=◌,
}
use libgmbus.Platform.{Platform}
use libgmbus.Header.{MessageType, header_assign}
use libgmbus.Message.{Message, message_new, message_assign}
use libgmbus.Table.{lookup, remove, modify}
use libgmbus.Table.Places.{lookup-modify}
use libgmbus.Transport.{Transport, ReliableMessage, Action, follow, invoke, same_number, same_place}
use libgmbus.Transport.Sending.{send}
use libgmbus.Transport.Retransmission.{next_try, raise, send_failed, retransmit_reliable}
use libgmbus.Transport.Pending.{IsPending, number_of}
use libgmbus.Transport.Retries.{retransmit_reliable_lem}
use libgmbus.Transport.Runs.{IsSound, send-IsSound}
use libgmbus.Transport.Sent.{send_parts}

on_timer :
    Option ℕ → Transport → Outcome (Transport × List Action) → Outcome (Transport × List Action)
on_timer none self expired = ok (self, [])
on_timer (some ms) self expired = expired

-- The timer of a place runs out until none is pending there; all that is done outside is collected.
unfoldable pub run_out : ℕ → Transport → ℕ → Outcome (Transport × List Action)
unfolding on_timer
run_out zero self place = fault Fault.endless
run_out (suc fuel) self place =
    on_timer (lookup same_place place self.retransmit_timers) self
      (retransmit_reliable self place >>= λ r. run_out fuel r.0 place >>= λ s. ok (s.0, r.1 ++ s.1))

run_out_end :
    (fuel : ℕ) (self : Transport) (place : ℕ)
    → lookup same_place place self.retransmit_timers ≡ none
    → run_out (suc fuel) self place ≡ ok (self, [])
unfolding run_out on_timer
run_out_end fuel self place absent =
    ap
      (λ t. on_timer t self (
        retransmit_reliable self place >>= λ r.
        run_out fuel r.0 place >>= λ s. ok (s.0, r.1 ++ s.1)))
      absent

run_out_step :
    (fuel : ℕ) (self : Transport) (place ms : ℕ) (r s : Transport × List Action)
    → lookup same_place place self.retransmit_timers ≡ some ms
    → retransmit_reliable self place ≡ ok r
    → run_out fuel r.0 place ≡ ok s
    → run_out (suc fuel) self place ≡ ok (s.0, r.1 ++ s.1)
unfolding run_out on_timer
run_out_step fuel self place ms r s pending tried rest =
    let next : Transport × List Action → Outcome (Transport × List Action) =
      λ r. run_out fuel r.0 place >>= λ s. ok (s.0, r.1 ++ s.1) in
    ap (λ t. on_timer t self (retransmit_reliable self place >>= next)) pending
    ∙ ap (λ o. o >>= next) tried
    ∙ ap (λ o. o >>= λ s. ok (s.0, r.1 ++ s.1)) rest

-- A message was given up, and that was reported.
abbrev pub Reported : Transport → ℕ → ℕ → Transport × List Action → Type 0
Reported self place number r =
    IsPending r.0
    × (lookup same_number number r.0.reliable_messages ≡ none)
    × All (λ t. t.0 ≢ place) r.0.retransmit_timers
    × (r.1 ≡ invoke self.transport_error send_failed)

timer_absent :
    (place : ℕ) (timers : List (ℕ × ℕ))
    → All (λ t. t.0 ≢ place) timers
    → lookup same_place place timers ≡ none
unfolding lookup
timer_absent place [] h = refl
timer_absent place ((j, ms) ∷ timers) h = ground (arith, timer_absent place timers h.1, h.0)

pub timer_started :
    (place ms : ℕ) (timers : List (ℕ × ℕ))
    → (ms' : ℕ) × (lookup same_place place (timers ++ (place, ms) ∷ []) ≡ some ms')
unfolding lookup
timer_started place ms [] = (ms, ground arith)
timer_started place ms ((j, other) ∷ timers) =
    let (ms', started) = timer_started place ms timers in
    elim (Bool-cases (j == place)) [ inl e ↦ rw e (other, refl) | inr e ↦ rw e (ms', started) ]

-- The state after a try that leaves another one.
abbrev again : Transport → ℕ → ReliableMessage → Transport
again self place rmsg = record self {
  retransmit_timers =
      remove same_place place self.retransmit_timers ++ (place, suc rmsg.n * 100) ∷ [];
  heap = modify same_place raise place self.heap;
}

module _ (self : Transport) (place : ℕ) (rmsg : ReliableMessage) (inv : IsPending self)
    (found : lookup same_place place self.heap ≡ some rmsg) where
  retransmit_again : rmsg.n < 2 → retransmit_reliable self place ≡ ok (again self place rmsg, [])
  unfolding retransmit_reliable next_try follow
  retransmit_again few =
      let below : ltb (suc rmsg.n) 3 ≡ true = ground (arith, few) in rw (found, below) refl

  again-IsPending : rmsg.n < 2 → IsPending (again self place rmsg)
  again-IsPending few =
      let (r, e, inv', what) = retransmit_reliable_lem self place rmsg inv found in
      subst (λ q. IsPending q.0) (ok_injective (sym e ∙ retransmit_again few)) inv'

  again_found : lookup same_place place (again self place rmsg).heap ≡ some (raise rmsg)
  again_found = lookup-modify raise place place self.heap rmsg found ∙ ground arith

  run_out_last :
      (fuel ms : ℕ)
      → lookup same_place place self.retransmit_timers ≡ some ms
      → 2 ≤ rmsg.n
      → (r : Transport × List Action) × (run_out (suc (suc fuel)) self place ≡ ok r)
        × Reported self place (number_of rmsg) r
  run_out_last fuel ms pending many =
      let (r, e, inv', (few, last)) = retransmit_reliable_lem self place rmsg inv found in
      let (absent, gone, reported) = last many in
      (
        (r.0, r.1 ++ []),
        run_out_step (suc fuel) self place ms r (r.0, []) pending e
            (run_out_end fuel r.0 place (timer_absent place r.0.retransmit_timers gone)),
        (inv', absent, gone, append-nil r.1 ∙ reported),
      )

-- Two timers at most are started again.
run_out_lem :
    (tries : ℕ) (self : Transport) (place ms : ℕ) (rmsg : ReliableMessage)
    → IsPending self
    → lookup same_place place self.heap ≡ some rmsg
    → lookup same_place place self.retransmit_timers ≡ some ms
    → 2 ≤ rmsg.n + tries
    → (r : Transport × List Action) × (run_out (suc (suc tries)) self place ≡ ok r)
      × Reported self place (number_of rmsg) r
run_out_lem zero self place ms rmsg inv found pending enough =
    run_out_last self place rmsg inv found zero ms pending (omega (arith, enough))
run_out_lem (suc tries) self place ms rmsg inv found pending enough =
    elim (Bool-cases (ltb rmsg.n 2)) [
      | inr e ↦ run_out_last self place rmsg inv found (suc tries) ms pending (ground (arith, e))
      | inl e ↦
          let few : rmsg.n < 2 = ground (arith, e) in
          let (ms', started) =
            timer_started place (suc rmsg.n * 100)
              (remove same_place place self.retransmit_timers) in
          let (r, runs, reported) =
            run_out_lem tries (again self place rmsg) place ms' (raise rmsg)
              (again-IsPending self place rmsg inv found few)
              (again_found self place rmsg inv found) started (omega (arith, enough)) in
          (
            r,
            run_out_step (suc (suc tries)) self place ms (again self place rmsg, []) r pending
                (retransmit_again self place rmsg inv found few) runs,
            reported,
          )
    ]

-- Where reliable messages and acknowledgements are in order, a reliable message that is sent and never
-- acknowledged is reported: its timer runs out twice at most, none of this follows a pointer to
-- freed memory, and then its number leads nowhere, no timer is pending for it, and the error was
-- reported once if there is a callback; nothing else was done outside.
pub send-run_out :
    (p : Platform) (self : Transport) (msg : Message)
    → IsSound p self
    → msg.header.type ≡ MessageType.reliable
    → (place : ℕ) × (lookup same_number self.sequence_no (send p self msg).0.reliable_messages
        ≡ some place)
      × (r : Transport × List Action) × (run_out 3 (send p self msg).0 place ≡ ok r)
      × Reported (send p self msg).0 place self.sequence_no r
send-run_out p self msg inv reliable =
    let sent = (send p self msg).0 in
    let (place, waits, found, (others, timers)) = (send_parts p self msg inv).2 reliable in
    let (ms, started) = timer_started place 100 others in
    let number : number_of (record {
      n = 1;
      message = message_assign message_new (record msg {
        header = record msg.header { sequence_no = self.sequence_no; source = self.address };
      });
    })
        ≡ self.sequence_no =
      unfold message_assign header_assign in refl in
    let (r, runs, reported) =
      run_out_lem 1 sent place ms _ (send-IsSound p self msg inv).pending found
        (ap (lookup same_place place) timers ∙ started) (omega arith) in
    (place, waits, r, runs, subst (λ n. Reported sent place n r) number reported)
