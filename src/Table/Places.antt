-- ===== src/Table/Places.antt =====
-- Tables whose keys are places in memory: what is found after an operation at another place.
use libgmbus.Base.{
  ℕ, ◌<◌, Bool, List, [], ◌∷◌, ◌++◌, some, ◌≡◌, ◌≢◌, refl, arith, All, Bool-cases, inl, inr,
  if◌then◌else◌, ◌==◌,
}
use libgmbus.Table.{lookup, remove, modify}

abbrev at : ℕ → ℕ → Bool
at a b = a == b

module _ {V : Type 0} where
  pub lookup-remove_other :
      (a b : ℕ) (m : List (ℕ × V)) → a ≢ b → lookup at a (remove at b m) ≡ lookup at a m
  unfolding lookup remove
  lookup-remove_other a b [] h = refl
  lookup-remove_other a b ((j, v) ∷ m) h = ground (arith, lookup-remove_other a b m h)

  pub lookup-append :
      (a : ℕ) (m : List (ℕ × V)) (n : List (ℕ × V)) (v : V)
      → lookup at a m ≡ some v
      → lookup at a (m ++ n) ≡ some v
  unfolding lookup
  lookup-append a [] n v h = cc
  lookup-append a ((j, w) ∷ m) n v h = ground (arith, lookup-append a m n v)

  pub lookup_fresh :
      (a : ℕ) (m : List (ℕ × V)) (v : V)
      → All (λ e. e.0 < a) m
      → lookup at a (m ++ (a, v) ∷ []) ≡ some v
  unfolding lookup
  lookup_fresh a [] v h = ground arith
  lookup_fresh a ((j, w) ∷ m) v h = ground (arith, lookup_fresh a m v h.1, h.0)

  pub lookup-modify :
      (f : V → V) (a b : ℕ) (m : List (ℕ × V)) (v : V)
      → lookup at a m ≡ some v
      → lookup at a (modify at f b m) ≡ some (if a == b then f v else v)
  unfolding lookup modify
  lookup-modify f a b [] v h = cc
  lookup-modify f a b ((j, w) ∷ m) v h = ground (arith, lookup-modify f a b m v)

  pub keys-modify :
      (P : ℕ → Type 0) (f : V → V) (b : ℕ) (m : List (ℕ × V))
      → All (λ e. P e.0) m
      → All (λ e. P e.0) (modify at f b m)
  unfolding modify
  keys-modify P f b [] h = tt
  keys-modify P f b ((j, w) ∷ m) h = elim (Bool-cases (j == b)) [
    | inl e ↦ rw e (h.0, h.1)
    | inr e ↦ rw e (h.0, keys-modify P f b m h.1)
  ]
