-- ===== src/Table/Keys.antt =====
-- The keys of a table after its operations.
use libgmbus.Base.{
  Bool, true, false, List, [], ◌∷◌, ◌++◌, none, some, ◌≡◌, ◌⊎◌, refl, ap, arith, All, Bool-cases,
  inl, inr,
}
use libgmbus.Table.{lookup, insert, remove, modify, drop_key, keys}
use libgmbus.Table.Entries.{Pairwise, All-map}

abbrev pub Member : {A : Type 0} → A → List A → Type 0
Member a [] = ⊥
Member a (x ∷ xs) = (x ≡ a) ⊎ Member a xs

module _ {K V : Type 0} (same : K → K → Bool) where
  pub keys-remove : (k : K) (m : List (K × V)) → keys (remove same k m) ≡ drop_key same k (keys m)
  unfolding keys remove drop_key
  keys-remove k [] = refl
  keys-remove k ((j, v) ∷ m) = elim (Bool-cases (same j k)) [
    | inl e ↦ rw e refl
    | inr e ↦ rw (e, keys-remove k m) refl
  ]

  pub keys-modify : (f : V → V) (k : K) (m : List (K × V)) → keys (modify same f k m) ≡ keys m
  unfolding keys modify
  keys-modify f k [] = refl
  keys-modify f k ((j, v) ∷ m) = elim (Bool-cases (same j k)) [
    | inl e ↦ rw e refl
    | inr e ↦ rw (e, keys-modify f k m) refl
  ]

  -- A key that is not found goes to the end.
  pub insert_new :
      (k : K) (v : V) (m : List (K × V))
      → lookup same k m ≡ none
      → insert same k v m ≡ m ++ (k, v) ∷ []
  unfolding insert lookup
  insert_new k v [] h = refl
  insert_new k v ((j, w) ∷ m) h = elim (Bool-cases (same j k)) [
    | inl e ↦ absurd (ground arith)
    | inr e ↦ rw (e, insert_new k v m (ground arith)) refl
  ]

  pub keys-append : (m : List (K × V)) (k : K) (v : V) → keys (m ++ (k, v) ∷ []) ≡ keys m ++ k ∷ []
  unfolding keys
  keys-append [] k v = refl
  keys-append ((j, w) ∷ m) k v = rw (keys-append m k v) refl

  pub lookup-none :
      (k : K) (m : List (K × V)) → lookup same k m ≡ none → All (λ e. same e.0 k ≡ false) m
  unfolding lookup
  lookup-none k [] h = tt
  lookup-none k ((j, w) ∷ m) h = elim (Bool-cases (same j k)) [
    | inl e ↦ absurd (ground arith)
    | inr e ↦ (e, lookup-none k m (ground arith))
  ]

  pub lookup-none_of :
      (k : K) (m : List (K × V)) → All (λ e. same e.0 k ≡ false) m → lookup same k m ≡ none
  unfolding lookup
  lookup-none_of k [] h = refl
  lookup-none_of k ((j, w) ∷ m) h = rw h.0 (lookup-none_of k m h.1)

  pub All-modify :
      (P : K × V → Type 0) (f : V → V) (k : K) (m : List (K × V))
      → ((j : K) (v : V) → P (j, v) → P (j, f v))
      → All P m
      → All P (modify same f k m)
  unfolding modify
  All-modify P f k [] keep h = tt
  All-modify P f k ((j, w) ∷ m) keep h = elim (Bool-cases (same j k)) [
    | inl e ↦ rw e (keep j w h.0, h.1)
    | inr e ↦ rw e (h.0, All-modify P f k m keep h.1)
  ]

  pub Pairwise-modify :
      (R : K → K → Type 0) (f : V → V) (k : K) (m : List (K × V))
      → Pairwise (λ a b. R a.0 b.0) m
      → Pairwise (λ a b. R a.0 b.0) (modify same f k m)
  unfolding modify
  Pairwise-modify R f k [] h = tt
  Pairwise-modify R f k ((j, w) ∷ m) h = elim (Bool-cases (same j k)) [
    | inl e ↦ rw e (h.0, h.1)
    | inr e ↦ rw e (All-modify (λ b. R j b.0) f k m (λ i v r. r) h.0, Pairwise-modify R f k m h.1)
  ]

  pub lookup-modify_self :
      (f : V → V) (k : K) (m : List (K × V)) (v : V)
      → lookup same k m ≡ some v
      → lookup same k (modify same f k m) ≡ some (f v)
  unfolding lookup modify
  lookup-modify_self f k [] v h = cc
  lookup-modify_self f k ((j, w) ∷ m) v h = elim (Bool-cases (same j k)) [
    | inl e ↦ let found : w ≡ v = ground arith in rw (e, e) (ap (λ u. some (f u)) found)
    | inr e ↦ rw (e, e) (lookup-modify_self f k m v (ground arith))
  ]

  pub All-Member :
      (P : K → Type 0) (k : K) (m : List (K × V)) → All (λ e. P e.0) m → Member k (keys m) → P k
  unfolding keys
  All-Member P k [] h mem = absurd mem
  All-Member P k ((j, w) ∷ m) h (inl e) = rw (← e) h.0
  All-Member P k ((j, w) ∷ m) h (inr mem) = All-Member P k m h.1 mem

  pub Member-keys : (m : List (K × V)) → All (λ e. Member e.0 (keys m)) m
  unfolding keys
  Member-keys [] = tt
  Member-keys ((j, w) ∷ m) = (
    inl refl,
    All-map (λ e. Member e.0 (keys m)) (λ e. (j ≡ e.0) ⊎ Member e.0 (keys m)) (λ e mem. inr mem) m
        (Member-keys m),
  )

  module _ (same_self : (k : K) → same k k ≡ true) where
    pub lookup-append_new :
        (k : K) (v : V) (m : List (K × V))
        → lookup same k m ≡ none
        → lookup same k (m ++ (k, v) ∷ []) ≡ some v
    unfolding lookup
    lookup-append_new k v [] h = rw (same_self k) refl
    lookup-append_new k v ((j, w) ∷ m) h = elim (Bool-cases (same j k)) [
      | inl e ↦ absurd (ground arith)
      | inr e ↦ rw e (lookup-append_new k v m (ground arith))
    ]

    -- A key of a table whose keys are apart is found, with its own entry.
    pub lookup-Member :
        (P : K × V → Type 0) (k : K) (m : List (K × V))
        → Pairwise (λ a b. same a.0 b.0 ≡ false) m
        → All P m
        → Member k (keys m)
        → (v : V) × (lookup same k m ≡ some v) × P (k, v)
    unfolding lookup keys
    lookup-Member P k [] apart h mem = absurd mem
    lookup-Member P k ((j, w) ∷ m) apart h (inl e) = (w, rw (e, same_self k) refl, rw (← e) h.0)
    lookup-Member P k ((j, w) ∷ m) apart h (inr mem) =
        let (v, found, (holds, differ)) =
          lookup-Member (λ b. P b × (same j b.0 ≡ false)) k m apart.1 (both m h.1 apart.0) mem in
        (v, rw differ found, holds)
      where
        both :
            (n : List (K × V))
            → All P n
            → All (λ b. same j b.0 ≡ false) n
            → All (λ b. P b × (same j b.0 ≡ false)) n
        both [] a b = tt
        both (x ∷ n) a b = ((a.0, b.0), both n a.1 b.1)

    -- Without a key of a table whose keys are apart, nothing is found for the key.
    pub remove_own :
        (k : K) (m : List (K × V))
        → Pairwise (λ a b. (same a.0 b.0 ≡ false) × (same b.0 a.0 ≡ false)) m
        → Member k (keys m)
        → All (λ e. same e.0 k ≡ false) (remove same k m)
    unfolding remove keys
    remove_own k [] apart mem = absurd mem
    remove_own k ((j, w) ∷ m) apart (inl e) =
        rw (e, same_self k)
          (All-map (λ b. (same j b.0 ≡ false) × (same b.0 j ≡ false)) (λ b. same b.0 k ≡ false)
            (λ b s. rw (← e) s.1) m apart.0)
    remove_own k ((j, w) ∷ m) apart (inr mem) =
        let differ =
          (All-Member (λ i. (same j i ≡ false) × (same i j ≡ false)) k m apart.0 mem).0 in
        rw differ (differ, remove_own k m apart.1 mem)
