-- ===== src/Transport/Runs.antt =====
-- What stays true of reliable messages and acknowledgements when a message is sent.
use libgmbus.Base.{ℕ, ◌+◌, ◌%◌, ◌^◌, Bool, Option, none, some, ◌≡◌, refl, Bool-cases, inl, inr}
use libgmbus.Platform.{Platform}
use libgmbus.Address.{Address, is_unique}
use libgmbus.Header.{MessageType}
use libgmbus.Message.{Message}
use libgmbus.Table.{keys}
use libgmbus.Transport.{Transport, Acknowledgement, transport_init}
use libgmbus.Transport.Sending.{keep, keep_reliable, find_ack, pass_acks, send, when_hello}
use libgmbus.Transport.Pending.{IsPending}
use libgmbus.Transport.Kept.{keep_reliable-IsPending}
use libgmbus.Transport.Acks.{IsWaiting, pass_acks_lem}

-- The parts of the state that hold reliable messages and acknowledgements are the same.
abbrev pub SameStore : Transport → Transport → Type 0
SameStore self self' =
    (self'.reliable_messages ≡ self.reliable_messages)
    × (self'.heap ≡ self.heap)
    × (self'.retransmit_timers ≡ self.retransmit_timers)
    × (self'.next ≡ self.next)
    × (self'.acknowledgements ≡ self.acknowledgements)
    × (self'.ack_timers ≡ self.ack_timers)

module _ (p : Platform) where
  -- Reliable messages and acknowledgements are in order.
  pub record IsSound (self : Transport) : Type 0 where
    pub pending : IsPending self
    pub waiting : IsWaiting p self

  pub IsPending-same :
      (self self' : Transport)
      → self'.reliable_messages ≡ self.reliable_messages
      → self'.heap ≡ self.heap
      → self'.retransmit_timers ≡ self.retransmit_timers
      → self'.next ≡ self.next
      → IsPending self
      → IsPending self'
  IsPending-same self self' e1 e2 e3 e4 inv = record {
    stored = rw (e1, e2) inv.stored;
    apart = rw e1 inv.apart;
    held = rw (e2, e3) inv.held;
    single = rw e3 inv.single;
    old_entries = rw (e1, e4) inv.old_entries;
    old_timers = rw (e3, e4) inv.old_timers;
    old_places = rw (e2, e4) inv.old_places;
  }

  pub IsWaiting-same :
      (self self' : Transport) → SameStore self self' → IsWaiting p self → IsWaiting p self'
  IsWaiting-same self self' (e1, e2, e3, e4, e5, e6) inv = record {
    apart = rw e5 inv.apart;
    own = rw e5 inv.own;
    timed = rw (e5, e6) inv.timed;
  }

  pub same-IsSound : (self self' : Transport) → SameStore self self' → IsSound self → IsSound self'
  same-IsSound self self' e inv = record {
    pending = IsPending-same self self' e.0 e.1 e.2 e.3 inv.pending;
    waiting = IsWaiting-same self self' e inv.waiting;
  }

  pub transport_init-IsSound :
      (address : Address) (send_unicast : Bool) → IsSound (transport_init address send_unicast)
  unfolding transport_init keys
  transport_init-IsSound address send_unicast = record {
    pending = record {
      stored = tt;
      apart = tt;
      held = tt;
      single = tt;
      old_entries = tt;
      old_timers = tt;
      old_places = tt;
    };
    waiting = record { apart = tt; own = tt; timed = refl };
  }

  keep-IsSound :
      (t : MessageType) (self : Transport) (msg : Message)
      → IsSound self
      → IsSound (keep t self msg)
  unfolding keep keep_reliable
  keep-IsSound MessageType.unreliable self msg inv = inv
  keep-IsSound MessageType.reliable self msg inv = record {
    pending = keep_reliable-IsPending self msg inv.pending;
    waiting = record {
      apart = inv.waiting.apart;
      own = inv.waiting.own;
      timed = inv.waiting.timed;
    };
  }

  pass_acks-IsPending :
      (self : Transport) (msg : Message) (ack : Option Acknowledgement)
      → IsPending self
      → IsPending (pass_acks p self msg ack).0
  unfolding pass_acks
  pass_acks-IsPending self msg none inv = inv
  pass_acks-IsPending self msg (some ack) inv =
      IsPending-same self (pass_acks p self msg (some ack)).0 refl refl refl refl inv

  pass_acks-IsWaiting :
      (self : Transport) (msg : Message)
      → IsWaiting p self
      → IsWaiting p (pass_acks p self msg (find_ack p self msg.header.destination)).0
  unfolding find_ack
  pass_acks-IsWaiting self msg inv = elim (Bool-cases (is_unique msg.header.destination)) [
    | inl e ↦ rw e (pass_acks_lem p self msg inv).0
    | inr e ↦ rw e (unfold pass_acks in inv)
  ]

  pub send-IsSound : (self : Transport) (msg : Message) → IsSound self → IsSound (send p self msg).0
  unfolding send
  send-IsSound self msg inv =
      let msg1 = record msg {
        header = record msg.header { sequence_no = self.sequence_no; source = self.address };
      } in
      let self1 = record self { sequence_no = (self.sequence_no + 1) % 2 ^ 32 } in
      let inv1 = same-IsSound self self1 (refl, refl, refl, refl, refl, refl) inv in
      let inv2 = keep-IsSound msg.header.type self1 msg1 inv1 in
      let self2 = keep msg.header.type self1 msg1 in
      record {
        pending =
            pass_acks-IsPending self2 msg1 (find_ack p self2 msg1.header.destination) inv2.pending;
        waiting = pass_acks-IsWaiting self2 msg1 inv2.waiting;
      }

  pub when_hello-IsSound :
      (interval : ℕ) (self : Transport) → IsSound self → IsSound (when_hello p interval self).0
  unfolding when_hello
  when_hello-IsSound interval self inv =
      same-IsSound (send p self self.hello_message).0 _ (refl, refl, refl, refl, refl, refl)
        (send-IsSound self self.hello_message inv)
