-- ===== src/Table/Entries.antt =====
-- What the operations of a table do to what holds of its entries.
use libgmbus.Base.{
  Bool, true, List, [], ◌∷◌, ◌++◌, some, ◌≡◌, arith, All, All-append, Bool-cases, inl, inr,
}
use libgmbus.Table.{lookup, insert, remove}

module _ {A : Type 0} (R : A → A → Type 0) where
  -- The relation holds between any entry and a later one.
  abbrev pub Pairwise : List A → Type 0
  Pairwise [] = Unit
  Pairwise (x ∷ xs) = All (R x) xs × Pairwise xs

  -- One entry more, to which all are related.
  pub Pairwise-append :
      (xs : List A) (y : A) → Pairwise xs → All (λ x. R x y) xs → Pairwise (xs ++ y ∷ [])
  Pairwise-append [] y h k = (tt, tt)
  Pairwise-append (x ∷ xs) y h k =
      (All-append (R x) xs (y ∷ []) h.0 (k.0, tt), Pairwise-append xs y h.1 k.1)

module _ {A : Type 0} (P Q : A → Type 0) where
  pub All-map : ((a : A) → P a → Q a) → (xs : List A) → All P xs → All Q xs
  All-map f [] h = tt
  All-map f (x ∷ xs) h = (f x h.0, All-map f xs h.1)

  pub All-both : (xs : List A) → All P xs → All Q xs → All (λ a. P a × Q a) xs
  All-both [] h k = tt
  All-both (x ∷ xs) h k = ((h.0, k.0), All-both xs h.1 k.1)

module _ {K V : Type 0} (same : K → K → Bool) where
  pub All-remove :
      (P : K × V → Type 0) (k : K) (m : List (K × V)) → All P m → All P (remove same k m)
  unfolding remove
  All-remove P k [] h = tt
  All-remove P k ((j, v) ∷ m) h = elim (Bool-cases (same j k)) [
    | inl e ↦ rw e h.1
    | inr e ↦ rw e (h.0, All-remove P k m h.1)
  ]

  pub Pairwise-remove :
      (R : K × V → K × V → Type 0) (k : K) (m : List (K × V))
      → Pairwise R m
      → Pairwise R (remove same k m)
  unfolding remove
  Pairwise-remove R k [] h = tt
  Pairwise-remove R k ((j, v) ∷ m) h = elim (Bool-cases (same j k)) [
    | inl e ↦ rw e h.1
    | inr e ↦ rw e (All-remove (R (j, v)) k m h.0, Pairwise-remove R k m h.1)
  ]

  -- An entry that is found keeps its key and gets the value.
  pub All-insert :
      (P : K × V → Type 0) (k : K) (v : V) (m : List (K × V))
      → P (k, v)
      → ((j : K) (w : V) → same j k ≡ true → P (j, w) → P (j, v))
      → All P m
      → All P (insert same k v m)
  unfolding insert
  All-insert P k v [] new old h = (new, tt)
  All-insert P k v ((j, w) ∷ m) new old h = elim (Bool-cases (same j k)) [
    | inl e ↦ rw e (old j w e h.0, h.1)
    | inr e ↦ rw e (h.0, All-insert P k v m new old h.1)
  ]

  -- What is found is an entry.
  pub lookup-All :
      (P : K × V → Type 0) (k : K) (m : List (K × V)) (v : V)
      → All P m
      → lookup same k m ≡ some v
      → (j : K) × (same j k ≡ true) × P (j, v)
  unfolding lookup
  lookup-All P k [] v h e = cc
  lookup-All P k ((j, w) ∷ m) v h e = elim (Bool-cases (same j k)) [
    | inl s ↦ let found : w ≡ v = ground arith in (j, s, rw (← found) h.0)
    | inr s ↦ lookup-All P k m v h.1 (ground arith)
  ]

  -- The entry that is found is the one that is removed: what relates it to the others holds of those
  -- that are left.
  pub lookup-remove :
      (R : K × V → K × V → Type 0) (P : K × V → Type 0)
      → ((a b : K × V) → R a b → R b a)
      → (k : K) (m : List (K × V)) (v : V) → Pairwise R m
      → All P m
      → lookup same k m ≡ some v
      → (j : K) × (same j k ≡ true) × P (j, v) × All (R (j, v)) (remove same k m)
  unfolding lookup remove
  lookup-remove R P comm k [] v h a e = cc
  lookup-remove R P comm k ((j, w) ∷ m) v h a e = elim (Bool-cases (same j k)) [
    | inl s ↦ let found : w ≡ v = ground arith in (j, s, rw (← found) a.0, rw (s, ← found) h.0)
    | inr s ↦
        let (i, t, both, rest) =
          lookup-remove R (λ b. P b × R (j, w) b) comm k m v h.1 (All-both P (R (j, w)) m a.1 h.0)
            (ground arith) in
        (i, t, both.0, rw s (comm (j, w) (i, v) both.1, rest))
  ]
