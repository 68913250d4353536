-- ===== src/Transport/Reachable.antt =====
-- The steps of a transport: calls of its user, messages from the link, and timers that run out.
use libgmbus.Base.{ℕ, Bool, List, [], ◌∷◌, ◌++◌, ◌≡◌, refl, subst, Outcome, ok, Fault, >>=-eq-ok}
use libgmbus.Platform.{Platform}
use libgmbus.Address.{Address}
use libgmbus.Message.{Message}
use libgmbus.Table.{drop_key, lookup, keys}
use libgmbus.Table.Keys.{Member, All-Member}
use libgmbus.Transport.{
  Acknowledgement, same_address, follow, Transport, TimeVal, Action, LinkMessage, same_place,
  transport_init,
}
use libgmbus.Transport.Entities.{check_lost_entities}
use libgmbus.Transport.Sending.{send, when_hello, flush_acks, send_acks}
use libgmbus.Transport.Retransmission.{retransmit_reliable}
use libgmbus.Transport.Receiving.{when_link_message}
use libgmbus.Transport.Pending.{IsPending, Held}
use libgmbus.Transport.Retries.{retransmit_reliable_lem, retransmit-SameAcks}
use libgmbus.Transport.Acks.{send_acks_lem}
use libgmbus.Transport.Handled.{when_link_message_lem}
use libgmbus.Transport.Runs.{
  IsSound, same-IsSound, IsPending-same, transport_init-IsSound, send-IsSound, when_hello-IsSound,
}

module _ (p : Platform) where
  -- What happens next: a message is sent, one comes from the link, a timer runs out, or the user sets
  -- the callbacks. The timers of __retransmit_reliable and __mbus_transport_send_acks run out only
  -- while they are pending.
  pub data Event (self : Transport) : Type 0 where
    sends : Message → Event self
    receives : TimeVal → LinkMessage → Event self
    hello : ℕ → Event self
    checks : TimeVal → Event self
    retries : (place : ℕ) → Member place (keys self.retransmit_timers) → Event self
    acknowledges : (source : Address) → Member source self.ack_timers → Event self
    sets_callbacks : Bool → Bool → Bool → Bool → Event self

  -- What an event does.
  unfoldable pub run : (self : Transport) → Event self → Outcome (Transport × List Action)
  run self (sends msg) = let r = send p self msg in ok (r.0, r.2 ∷ [])
  run self (receives now lmsg) = when_link_message p now self lmsg
  run self (hello interval) = ok (when_hello p interval self)
  run self (checks now) = ok (check_lost_entities now self)
  run self (retries place pending) = retransmit_reliable self place
  run self (acknowledges source pending) = send_acks p self source
  run self (sets_callbacks incoming lost new error) = ok (
    record self {
      incoming_message = incoming;
      lost_entity = lost;
      new_entity = new;
      transport_error = error;
    },
    [],
  )

  pending_place :
      (self : Transport) (place : ℕ)
      → IsPending self
      → Member place (keys self.retransmit_timers)
      → Held self.heap place
  pending_place self place inv mem =
      All-Member same_place (Held self.heap) place self.retransmit_timers inv.held mem

  acks-IsPending :
      (self : Transport) (source : Address) (r : Transport × List Action)
      → send_acks p self source ≡ ok r
      → IsPending self
      → IsPending r.0
  unfolding send_acks flush_acks
  acks-IsPending self source r e inv =
      let next : Acknowledgement → Outcome (Transport × List Action) = λ ack. ok (
        flush_acks p (record self { ack_timers = drop_key (same_address p) source self.ack_timers })
          ack) in
      let (ack, found, done) =
        >>=-eq-ok (follow Fault.freed (lookup (same_address p) source self.acknowledgements)) next
          e in
      let same : flush_acks p
            (record self { ack_timers = drop_key (same_address p) source self.ack_timers }) ack
          ≡ r =
        cc in
      subst (λ q. IsPending q.0) same
        (IsPending-same p self
          (flush_acks p
            (record self { ack_timers = drop_key (same_address p) source self.ack_timers }) ack).0
          refl refl refl refl inv)

  -- In a sound state any event runs without a fault, and leads to a sound state.
  pub run_lem :
      (self : Transport) (event : Event self)
      → IsSound p self
      → (r : Transport × List Action) × (run self event ≡ ok r) × IsSound p r.0
  unfolding run check_lost_entities
  run_lem self (sends msg) inv = (_, refl, send-IsSound p self msg inv)
  run_lem self (receives now lmsg) inv =
      let (r, e, inv', own) = when_link_message_lem p now self lmsg inv in (r, e, inv')
  run_lem self (hello interval) inv = (_, refl, when_hello-IsSound p interval self inv)
  run_lem self (checks now) inv = (
    _,
    refl,
    same-IsSound p self (check_lost_entities now self).0 (refl, refl, refl, refl, refl, refl) inv,
  )
  run_lem self (retries place pending) inv =
      let (rmsg, found) = pending_place self place inv.pending pending in
      let (r, e, inv', what) = retransmit_reliable_lem self place rmsg inv.pending found in
      let (e5, e6) = retransmit-SameAcks self place r e in
      let waiting = inv.waiting in
      (
        r,
        e,
        record {
          pending = inv';
          waiting = record {
            apart = rw e5 waiting.apart;
            own = rw e5 waiting.own;
            timed = rw (e5, e6) waiting.timed;
          };
        },
      )
  run_lem self (acknowledges source pending) inv =
      let (ack, found, r, e, inv', gone, sent) = send_acks_lem p self source inv.waiting pending in
      (r, e, record { pending = acks-IsPending self source r e inv.pending; waiting = inv' })
  run_lem self (sets_callbacks incoming lost new error) inv =
      (_, refl, same-IsSound p self _ (refl, refl, refl, refl, refl, refl) inv)

  -- A run: events one after another, from a new transport, and what was done outside.
  pub data Reachable (address : Address) (send_unicast : Bool)
      : Transport → List Action → Type 0 where
    start : Reachable address send_unicast (transport_init address send_unicast) []
    step :
        {self self' : Transport} {past actions : List Action}
        → Reachable address send_unicast self past
        → (event : Event self) → run self event ≡ ok (self', actions)
        → Reachable address send_unicast self' (past ++ actions)

  -- Every state that a run leads to is sound.
  Reachable-IsSound :
      (address : Address) (send_unicast : Bool) (self : Transport) (past : List Action)
      → Reachable address send_unicast self past
      → IsSound p self
  Reachable-IsSound address send_unicast self past start =
      transport_init-IsSound p address send_unicast
  Reachable-IsSound address send_unicast self past
        (step {self = before} {actions = actions} reach event e) =
      let inv = Reachable-IsSound address send_unicast before _ reach in
      let (r, done, inv') = run_lem before event inv in
      let same : r ≡ (self, actions) = cc in subst (λ q. IsSound p q.0) same inv'

  -- After any run of calls, messages and timers, whatever happens next happens without a fault: no
  -- timer and no message leads to freed memory, and no hello to an entity that is not there.
  pub Reachable-run :
      (address : Address) (send_unicast : Bool) (self : Transport) (past : List Action)
      → Reachable address send_unicast self past
      → (event : Event self) → (r : Transport × List Action) × (run self event ≡ ok r)
  Reachable-run address send_unicast self past reach event =
      let (r, e, inv) =
        run_lem self event (Reachable-IsSound address send_unicast self past reach) in
      (r, e)
