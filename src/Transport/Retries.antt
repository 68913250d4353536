-- ===== src/Transport/Retries.antt =====
-- The timers of reliable messages, which count their tries.
use libgmbus.Base.{
  ℕ, suc, ◌*◌, ◌%◌, ◌^◌, ◌<◌, ◌≤◌, true, false, List, [], ◌∷◌, ◌++◌, none, some, ◌≡◌, ◌≢◌, refl, ap,
  ◌∙◌, arith, ltb, ◌==◌, if◌then◌else◌, All, All-append, Bool-cases, Option-cases, inl, inr, ok,
}
use libgmbus.Table.{lookup, remove, modify}
use libgmbus.Table.Entries.{
  Pairwise-append, All-map, All-both, All-remove, Pairwise-remove, lookup-All, lookup-remove,
}
use libgmbus.Table.Numbers.{lookup_absent}
use libgmbus.Table.Places.{lookup-remove_other, lookup-modify, keys-modify}
use libgmbus.Transport.{Transport, ReliableMessage, Action, follow, invoke, same_number, same_place}
use libgmbus.Transport.Retransmission.{next_try, raise, send_failed, retransmit_reliable}
use libgmbus.Transport.Pending.{
  SameAcks, number_of, Stored, Held, OtherKey, Other, IsPending, Other-comm, timers-remove,
  Stored-remove,
}

-- The state in which __retransmit_reliable runs for a place: its timer is gone, and it counts.
abbrev fired : Transport → ℕ → Transport
fired self place = record self {
  retransmit_timers = remove same_place place self.retransmit_timers;
  heap = modify same_place raise place self.heap;
}

raise_number :
    (a b : ℕ) (rmsg : ReliableMessage)
    → number_of (if a == b then raise rmsg else rmsg) ≡ number_of rmsg
raise_number a b rmsg = ground arith

fired-IsPending : (self : Transport) (place : ℕ) → IsPending self → IsPending (fired self place)
fired-IsPending self place inv = record {
  stored =
      All-map (Stored self.heap) (Stored (modify same_place raise place self.heap))
        (λ e (rmsg, found, n). (
          if e.1 == place then raise rmsg else rmsg,
          lookup-modify raise e.1 place self.heap rmsg found,
          ap (λ m. m % 2 ^ 32) (raise_number e.1 place rmsg) ∙ n,
        ))
        self.reliable_messages inv.stored;
  apart = inv.apart;
  held =
      All-remove same_place (λ t. Held (modify same_place raise place self.heap) t.0) place
        self.retransmit_timers
        (All-map (λ t. Held self.heap t.0) (λ t. Held (modify same_place raise place self.heap) t.0)
          (λ t (rmsg, found). (
            if t.0 == place then raise rmsg else rmsg,
            lookup-modify raise t.0 place self.heap rmsg found,
          ))
          self.retransmit_timers inv.held);
  single = Pairwise-remove same_place OtherKey place self.retransmit_timers inv.single;
  old_entries = inv.old_entries;
  old_timers =
      All-remove same_place (λ t. t.0 < self.next) place self.retransmit_timers inv.old_timers;
  old_places = keys-modify (λ k. k < self.next) raise place self.heap inv.old_places;
}

module _ (self : Transport) (place : ℕ) (rmsg : ReliableMessage) (inv : IsPending self)
    (found : lookup same_place place self.heap ≡ some rmsg)
    (gone : All (λ t. t.0 ≢ place) self.retransmit_timers) where
  place_old : place < self.next
  place_old =
      let (j, same, old) =
        lookup-All same_place (λ h. h.0 < self.next) place self.heap rmsg inv.old_places found in
      ground (arith, old)

  again-IsPending :
      (ms : ℕ)
      → IsPending (record self { retransmit_timers = self.retransmit_timers ++ (place, ms) ∷ [] })
  again-IsPending ms = record {
    stored = inv.stored;
    apart = inv.apart;
    held =
        All-append (λ t. Held self.heap t.0) self.retransmit_timers ((place, ms) ∷ []) inv.held
          ((rmsg, found), tt);
    single = Pairwise-append OtherKey self.retransmit_timers (place, ms) inv.single gone;
    old_entries = inv.old_entries;
    old_timers =
        All-append (λ t. t.0 < self.next) self.retransmit_timers ((place, ms) ∷ []) inv.old_timers
          (place_old, tt);
    old_places = inv.old_places;
  }

  -- The entry that is removed is the one of the message, and so nothing else leads to the place.
  given_up-IsPending :
      (value : ℕ)
      → lookup same_number (number_of rmsg) self.reliable_messages ≡ some value
      → IsPending (record self {
        reliable_messages = remove same_number (number_of rmsg) self.reliable_messages;
        heap = remove same_place place self.heap;
      })
  given_up-IsPending value e =
      let number = number_of rmsg in
      let table = remove same_number number self.reliable_messages in
      let (j, same, stored, others) =
        lookup-remove same_number Other (Stored self.heap) Other-comm number self.reliable_messages
          value inv.apart inv.stored e in
      record {
        stored =
            All-map (λ b. Other (j, value) b × Stored self.heap b)
              (Stored (remove same_place place self.heap))
              (λ b (differ, (rmsg', found', n)).
                Stored-remove self.heap place b
                  (λ here. differ.0 (elsewhere j b rmsg' (ground arith) n found' here))
                  (rmsg', found', n))
              table
              (All-both (Other (j, value)) (Stored self.heap) table others (
                All-remove same_number (Stored self.heap) number self.reliable_messages
                  inv.stored));
        apart = Pairwise-remove same_number Other number self.reliable_messages inv.apart;
        held =
            All-map (λ t. (t.0 ≢ place) × Held self.heap t.0)
              (λ t. Held (remove same_place place self.heap) t.0)
              (λ t (differ, (r, found')).
                (r, lookup-remove_other t.0 place self.heap differ ∙ found'))
              self.retransmit_timers
              (All-both (λ t. t.0 ≢ place) (λ t. Held self.heap t.0) self.retransmit_timers gone
                inv.held);
        single = inv.single;
        old_entries =
            All-remove same_number (λ b. b.1 < self.next) number self.reliable_messages
              inv.old_entries;
        old_timers = inv.old_timers;
        old_places = All-remove same_place (λ h. h.0 < self.next) place self.heap inv.old_places;
      }
    where
      elsewhere :
          (j : ℕ) (b : ℕ × ℕ) (rmsg' : ReliableMessage)
          → j % 2 ^ 32 ≡ number_of rmsg % 2 ^ 32
          → number_of rmsg' % 2 ^ 32 ≡ b.0 % 2 ^ 32
          → lookup same_place b.1 self.heap ≡ some rmsg'
          → b.1 ≡ place
          → j % 2 ^ 32 ≡ b.0 % 2 ^ 32
      elsewhere j b rmsg' s n found' here = cc

  next_try-IsPending : IsPending (next_try self place rmsg).0
  unfolding next_try
  next_try-IsPending = elim (Bool-cases (ltb rmsg.n 3)) [
    | inl e ↦ rw e (again-IsPending (rmsg.n * 100))
    | inr e ↦ elim (Option-cases (lookup same_number (number_of rmsg) self.reliable_messages)) [
      | inl missing ↦ rw (e, missing) inv
      | inr (value, there) ↦ rw (e, there) (given_up-IsPending value there)
    ]
  ]

  -- What is left of a message that was tried three times.
  abbrev GivenUp : Transport × List Action → Type 0
  GivenUp r =
      (lookup same_number (number_of rmsg) r.0.reliable_messages ≡ none)
      × All (λ t. t.0 ≢ place) r.0.retransmit_timers
      × (r.1 ≡ invoke self.transport_error send_failed)

  next_try_third : ltb rmsg.n 3 ≡ false → GivenUp (next_try self place rmsg)
  unfolding next_try
  next_try_third e =
      elim (Option-cases (lookup same_number (number_of rmsg) self.reliable_messages)) [
        | inl missing ↦ rw (e, missing) (missing, gone, refl)
        | inr (value, there) ↦
            let (j, same, stored, others) =
              lookup-remove same_number Other (Stored self.heap) Other-comm (number_of rmsg)
                self.reliable_messages value inv.apart inv.stored there in
            rw (e, there)
              (
                lookup_absent (number_of rmsg)
                    (remove same_number (number_of rmsg) self.reliable_messages)
                    (All-map (Other (j, value)) (λ b. b.0 % 2 ^ 32 ≢ number_of rmsg % 2 ^ 32)
                      (λ b differ equal. differ.0 (ground arith))
                      (remove same_number (number_of rmsg) self.reliable_messages) others),
                gone,
                refl,
              )
      ]

  next_try_again :
      ltb rmsg.n 3 ≡ true
      → (next_try self place rmsg) ≡ (
        record self { retransmit_timers = self.retransmit_timers ++ (place, rmsg.n * 100) ∷ [] },
        [],
      )
  unfolding next_try
  next_try_again e = rw e

-- What the timer of a message that was tried `n` times leads to.
abbrev pub Retried : Transport → ℕ → ReliableMessage → Transport × List Action → Type 0
Retried self place rmsg r =
    (rmsg.n < 2
      → (r.0.retransmit_timers
          ≡ remove same_place place self.retransmit_timers ++ (place, suc rmsg.n * 100) ∷ [])
        × (r.0.reliable_messages ≡ self.reliable_messages)
        × (r.1 ≡ []))
    × (2 ≤ rmsg.n
        → (lookup same_number (number_of rmsg) r.0.reliable_messages ≡ none)
          × All (λ t. t.0 ≢ place) r.0.retransmit_timers
          × (r.1 ≡ invoke self.transport_error send_failed))

-- Where every entry of the table and every timer leads to a message of its own, the timer of a
-- message that is there reads no freed memory and leaves such a state. While the count that it raises
-- stays below 3, the timer is started again with 100 milliseconds for each count, the table is the
-- same and nothing is sent; from 3 on the number of the message leads nowhere, no timer is left for
-- its place, and all that is done outside is to report the error if there is a callback.
pub retransmit_reliable_lem :
    (self : Transport) (place : ℕ) (rmsg : ReliableMessage)
    → IsPending self
    → lookup same_place place self.heap ≡ some rmsg
    → (r : Transport × List Action) × (retransmit_reliable self place ≡ ok r)
      × IsPending r.0
      × Retried self place rmsg r
unfolding retransmit_reliable
retransmit_reliable_lem self place rmsg inv found =
    let inv' = fired-IsPending self place inv in
    let found' : lookup same_place place (modify same_place raise place self.heap)
        ≡ some (raise rmsg) =
      lookup-modify raise place place self.heap rmsg found ∙ ground arith in
    let gone = timers-remove place self.retransmit_timers inv.single in
    (
      next_try (fired self place) place (raise rmsg),
      rw found (unfold follow in refl),
      next_try-IsPending (fired self place) place (raise rmsg) inv' found' gone,
      (
        (λ few.
            let again =
              next_try_again (fired self place) place (raise rmsg) inv' found' gone
                (ground arith) in
            rw again (refl, refl, refl)),
        (λ many.
            next_try_third (fired self place) place (raise rmsg) inv' found' gone (ground arith)),
      ),
    )

-- The acknowledgements that are to be sent stay as they are.
pub retransmit-SameAcks :
    (self : Transport) (place : ℕ) (r : Transport × List Action)
    → retransmit_reliable self place ≡ ok r
    → SameAcks self r.0
unfolding retransmit_reliable next_try follow
retransmit-SameAcks self place r e = ground arith
