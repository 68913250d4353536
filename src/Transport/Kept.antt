-- ===== src/Transport/Kept.antt =====
-- A reliable message that is sent finds a place and a number of its own.
use libgmbus.Base.{
  ℕ, suc, ◌%◌, ◌^◌, ◌<◌, List, [], ◌∷◌, ◌++◌, some, ◌≡◌, ◌≢◌, refl, ap, arith, All, All-append,
  Bool-cases, inl, inr,
}
use libgmbus.Table.{lookup, insert}
use libgmbus.Table.Entries.{Pairwise, Pairwise-append, All-map, All-both, All-insert}
use libgmbus.Table.Places.{lookup-append, lookup_fresh}
use libgmbus.Message.{Message, message_new, message_assign}
use libgmbus.Header.{header_assign}
use libgmbus.Transport.{Transport, ReliableMessage, same_number, same_place}
use libgmbus.Transport.Sending.{keep_reliable}
use libgmbus.Transport.Pending.{number_of, Stored, Held, OtherKey, Other, IsPending}

-- A new place is apart from all old ones.
Pairwise-insert :
    (k v : ℕ) (m : List (ℕ × ℕ))
    → All (λ e. e.1 < v) m
    → Pairwise Other m
    → Pairwise Other (insert same_number k v m)
unfolding insert
Pairwise-insert k v [] old h = (tt, tt)
Pairwise-insert k v ((j, w) ∷ m) old h = elim (Bool-cases (same_number j k)) [
  | inl e ↦ rw e (
    All-map (λ b. Other (j, w) b × (b.1 < v)) (Other (j, v))
        (λ b both. (both.0.0, (λ same. omega (arith, both.1)))) m
        (All-both (Other (j, w)) (λ b. b.1 < v) m h.0 old.1),
    h.1,
  )
  | inr e ↦ rw e (
    All-insert same_number (Other (j, w)) k v m
        ((λ same. ground arith), (λ same. omega (arith, old.0)))
        (λ i u s differ. (differ.0, (λ same. omega (arith, old.0)))) h.0,
    Pairwise-insert k v m old.1 h.1,
  )
]

module _ (self : Transport) (msg : Message) (inv : IsPending self) where
  abbrev new : ReliableMessage
  new = record { n = 1; message = message_assign message_new msg }

  abbrev heap' : List (ℕ × ReliableMessage)
  heap' = self.heap ++ (self.next, new) ∷ []

  there : lookup same_place self.next heap' ≡ some new
  there = lookup_fresh self.next self.heap new inv.old_places

  number_new : number_of new ≡ msg.header.sequence_no
  unfolding message_assign header_assign
  number_new = refl

  pub keep_reliable-IsPending : IsPending (keep_reliable self msg)
  unfolding keep_reliable
  keep_reliable-IsPending = record {
    stored =
        All-insert same_number (Stored heap') msg.header.sequence_no self.next
          self.reliable_messages (new, there, ap (λ n. n % 2 ^ 32) number_new)
          (λ j w s old. (new, there, ground (arith, number_new)))
          (All-map (Stored self.heap) (Stored heap')
            (λ e (rmsg, found, n).
              (rmsg, lookup-append e.1 self.heap ((self.next, new) ∷ []) rmsg found, n))
            self.reliable_messages inv.stored);
    apart =
        Pairwise-insert msg.header.sequence_no self.next self.reliable_messages inv.old_entries
          inv.apart;
    held =
        All-append (λ t. Held heap' t.0) self.retransmit_timers ((self.next, 100) ∷ [])
          (All-map (λ t. Held self.heap t.0) (λ t. Held heap' t.0)
            (λ t (rmsg, found).
              (rmsg, lookup-append t.0 self.heap ((self.next, new) ∷ []) rmsg found))
            self.retransmit_timers inv.held)
          ((new, there), tt);
    single =
        Pairwise-append OtherKey self.retransmit_timers (self.next, 100) inv.single
          (All-map (λ t. t.0 < self.next) (λ t. t.0 ≢ self.next)
            (λ t old same. omega (arith, old, same)) self.retransmit_timers inv.old_timers);
    old_entries =
        All-insert same_number (λ e. e.1 < suc self.next) msg.header.sequence_no self.next
          self.reliable_messages (omega arith) (λ j w s old. omega arith)
          (All-map (λ e. e.1 < self.next) (λ e. e.1 < suc self.next) (λ e old. omega (arith, old))
            self.reliable_messages inv.old_entries);
    old_timers =
        All-append (λ t. t.0 < suc self.next) self.retransmit_timers ((self.next, 100) ∷ [])
          (All-map (λ t. t.0 < self.next) (λ t. t.0 < suc self.next) (λ t old. omega (arith, old))
            self.retransmit_timers inv.old_timers)
          (omega arith, tt);
    old_places =
        All-append (λ t. t.0 < suc self.next) self.heap ((self.next, new) ∷ [])
          (All-map (λ t. t.0 < self.next) (λ t. t.0 < suc self.next) (λ t old. omega (arith, old))
            self.heap inv.old_places)
          (omega arith, tt);
  }
