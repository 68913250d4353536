-- ===== src/Transport/Pending.antt =====
-- Reliable messages, their table, and their timers: no timer and no entry of the table leads to freed
-- memory.
use libgmbus.Base.{
  ℕ, ◌%◌, ◌^◌, ◌<◌, List, [], ◌∷◌, none, some, ◌≡◌, ◌≢◌, refl, sym, ◌∙◌, arith, ◌==◌, All,
  Bool-cases, Option-cases, inl, inr, ok,
}
use libgmbus.Table.{lookup, remove}
use libgmbus.Table.Entries.{Pairwise, All-map, All-both, All-remove, Pairwise-remove, lookup-remove}
use libgmbus.Table.Numbers.{lookup_absent, lookup-remove-none, lookup-remove_apart}
use libgmbus.Table.Places.{lookup-remove_other}
use libgmbus.Transport.{Transport, ReliableMessage, follow, same_number, same_place}
use libgmbus.Transport.Retransmission.{forget, check_ack, check_for_acks}

abbrev pub number_of : ReliableMessage → ℕ
number_of rmsg = rmsg.message.header.sequence_no

-- An entry of the table leads to a message with its number.
abbrev pub Stored : List (ℕ × ReliableMessage) → ℕ × ℕ → Type 0
Stored heap e =
    (rmsg : ReliableMessage) × (lookup same_place e.1 heap ≡ some rmsg)
    × (number_of rmsg % 2 ^ 32 ≡ e.0 % 2 ^ 32)

-- A place that holds a message.
abbrev pub Held : List (ℕ × ReliableMessage) → ℕ → Type 0
Held heap place = (rmsg : ReliableMessage) × (lookup same_place place heap ≡ some rmsg)

abbrev pub OtherKey : ℕ × ℕ → ℕ × ℕ → Type 0
OtherKey a b = a.0 ≢ b.0

-- What differs in number and in place.
abbrev pub Other : ℕ × ℕ → ℕ × ℕ → Type 0
Other a b = (a.0 % 2 ^ 32 ≢ b.0 % 2 ^ 32) × (a.1 ≢ b.1)

pub record IsPending (self : Transport) : Type 0 where
  pub stored : All (Stored self.heap) self.reliable_messages
  pub apart : Pairwise Other self.reliable_messages
  pub held : All (λ t. Held self.heap t.0) self.retransmit_timers
  pub single : Pairwise OtherKey self.retransmit_timers
  pub old_entries : All (λ e. e.1 < self.next) self.reliable_messages
  pub old_timers : All (λ t. t.0 < self.next) self.retransmit_timers
  pub old_places : All (λ h. h.0 < self.next) self.heap

pub Other-comm : (a b : ℕ × ℕ) → Other a b → Other b a
Other-comm a b h = ((λ e. h.0 (sym e)), (λ e. h.1 (sym e)))

pub Stored-remove :
    (heap : List (ℕ × ReliableMessage)) (place : ℕ) (e : ℕ × ℕ)
    → e.1 ≢ place
    → Stored heap e
    → Stored (remove same_place place heap) e
Stored-remove heap place e h (rmsg, found, number) =
    (rmsg, lookup-remove_other e.1 place heap h ∙ found, number)

pub Held-remove :
    (heap : List (ℕ × ReliableMessage)) (place k : ℕ)
    → k ≢ place
    → Held heap k
    → Held (remove same_place place heap) k
Held-remove heap place k h (rmsg, found) = (rmsg, lookup-remove_other k place heap h ∙ found)

-- What is left of the timers when that of a place is removed, whether there is one or not.
pub timers-remove :
    (place : ℕ) (timers : List (ℕ × ℕ))
    → Pairwise OtherKey timers
    → All (λ t. t.0 ≢ place) (remove same_place place timers)
unfolding remove
timers-remove place [] h = tt
timers-remove place ((k, ms) ∷ timers) h = elim (Bool-cases (k == place)) [
  | inl e ↦
      let here : k ≡ place = ground arith in
      rw e (
        All-map (λ t. OtherKey (k, ms) t) (λ t. t.0 ≢ place)
          (λ t differ same. differ (ground arith)) timers h.0)
  | inr e ↦ rw e ((λ same. ground arith), timers-remove place timers h.1)
]

-- What check_ack does with a message that is there.
forget-IsPending :
    (self : Transport) (number place : ℕ)
    → IsPending self
    → lookup same_number number self.reliable_messages ≡ some place
    → IsPending (forget self number place)
unfolding forget
forget-IsPending self number place inv found =
    let (j, same, stored, others) =
      lookup-remove same_number Other (Stored self.heap) Other-comm number self.reliable_messages
        place inv.apart inv.stored found in
    let table = remove same_number number self.reliable_messages in
    let timers = remove same_place place self.retransmit_timers in
    record {
      stored =
          All-map (λ e. Other (j, place) e × Stored self.heap e)
            (Stored (remove same_place place self.heap))
            (λ e both. Stored-remove self.heap place e (λ same. both.0.1 (sym same)) both.1) table
            (All-both (Other (j, place)) (Stored self.heap) table others
              (All-remove same_number (Stored self.heap) number self.reliable_messages inv.stored));
      apart = Pairwise-remove same_number Other number self.reliable_messages inv.apart;
      held =
          All-map (λ t. (t.0 ≢ place) × Held self.heap t.0)
            (λ t. Held (remove same_place place self.heap) t.0)
            (λ t both. Held-remove self.heap place t.0 both.0 both.1) timers
            (All-both (λ t. t.0 ≢ place) (λ t. Held self.heap t.0) timers
              (timers-remove place self.retransmit_timers inv.single)
              (All-remove same_place (λ t. Held self.heap t.0) place self.retransmit_timers
                inv.held));
      single = Pairwise-remove same_place OtherKey place self.retransmit_timers inv.single;
      old_entries =
          All-remove same_number (λ e. e.1 < self.next) number self.reliable_messages
            inv.old_entries;
      old_timers =
          All-remove same_place (λ t. t.0 < self.next) place self.retransmit_timers inv.old_timers;
      old_places = All-remove same_place (λ h. h.0 < self.next) place self.heap inv.old_places;
    }

-- What check_for_acks leaves of the table.
abbrev pub Acked : Transport → Transport → List ℕ → Type 0
Acked self self' acks =
    All (λ a. lookup same_number a self'.reliable_messages ≡ none) acks
    × ((k : ℕ)
        → All (λ a. k % 2 ^ 32 ≢ a % 2 ^ 32) acks
        → lookup same_number k self'.reliable_messages
          ≡ lookup same_number k self.reliable_messages)
    × ((k : ℕ)
        → lookup same_number k self.reliable_messages ≡ none
        → lookup same_number k self'.reliable_messages ≡ none)

-- It leaves the acknowledgements that are to be sent.
abbrev pub SameAcks : Transport → Transport → Type 0
SameAcks self self' =
    (self'.acknowledgements ≡ self.acknowledgements) × (self'.ack_timers ≡ self.ack_timers)

-- One round of the loop.
check_ack_lem :
    (self : Transport) (number : ℕ)
    → IsPending self
    → (self' : Transport) × (check_ack self number
          (lookup same_number number self.reliable_messages)
        ≡ ok self')
      × IsPending self'
      × Acked self self' (number ∷ [])
      × SameAcks self self'
unfolding check_ack
check_ack_lem self number inv =
    elim (Option-cases (lookup same_number number self.reliable_messages)) [
      | inl e ↦ (self, rw e, inv, ((e, tt), (λ k h. refl), (λ k h. h)), (refl, refl))
      | inr (place, e) ↦
          let (j, same, stored, others) =
            lookup-remove same_number Other (Stored self.heap) Other-comm number
              self.reliable_messages place inv.apart inv.stored e in
          let (rmsg, found, n) = stored in
          (
            forget self number place,
            rw (e, found) (unfold follow in refl),
            forget-IsPending self number place inv e,
            (
              (
                lookup_absent number (remove same_number number self.reliable_messages) (
                    All-map (Other (j, place)) (λ b. b.0 % 2 ^ 32 ≢ number % 2 ^ 32)
                      (λ b differ equal. differ.0 (ground arith))
                      (remove same_number number self.reliable_messages) others),
                tt,
              ),
              (λ k h. lookup-remove_apart k number self.reliable_messages h.0),
              (λ k h. lookup-remove-none k number self.reliable_messages h),
            ),
            (refl, refl),
          )
    ]

-- Where every entry of the table and every timer leads to a message of its own, the loop over the
-- acknowledgements reads no freed memory and leaves such a state. Afterwards no acknowledged number
-- is in the table, every other number leads where it led, and the acknowledgements that are to be
-- sent are the same.
pub check_for_acks_lem :
    (self : Transport) (acks : List ℕ)
    → IsPending self
    → (self' : Transport) × (check_for_acks self acks ≡ ok self')
      × IsPending self'
      × Acked self self' acks
      × SameAcks self self'
unfolding check_for_acks
check_for_acks_lem self [] inv = (self, refl, inv, (tt, (λ k h. refl), (λ k h. h)), (refl, refl))
check_for_acks_lem self (number ∷ acks) inv =
    let (self1, e1, inv1, (gone1, kept1, none1), same1) = check_ack_lem self number inv in
    let (self2, e2, inv2, (gone2, kept2, none2), same2) = check_for_acks_lem self1 acks inv1 in
    (
      self2,
      rw e1 e2,
      inv2,
      (
        (none2 number gone1.0, gone2),
        (λ k h. kept2 k h.1 ∙ kept1 k (h.0, tt)),
        (λ k h. none2 k (none1 k h)),
      ),
      (same2.0 ∙ same1.0, same2.1 ∙ same1.1),
    )
