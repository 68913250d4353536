-- ===== src/Table/Numbers.antt =====
-- Tables whose keys count in their low 32 bits.
use libgmbus.Base.{ℕ, ◌%◌, ◌^◌, Bool, List, [], ◌∷◌, none, ◌≡◌, ◌≢◌, refl, arith, All, ◌==◌}
use libgmbus.Table.{lookup, remove}

abbrev low : ℕ → ℕ → Bool
low a b = a % 2 ^ 32 == b % 2 ^ 32

module _ {V : Type 0} where
  pub lookup_absent :
      (k : ℕ) (m : List (ℕ × V)) → All (λ e. e.0 % 2 ^ 32 ≢ k % 2 ^ 32) m → lookup low k m ≡ none
  unfolding lookup
  lookup_absent k [] h = refl
  lookup_absent k ((j, v) ∷ m) h = ground (arith, lookup_absent k m h.1, h.0)

  pub lookup-remove-none :
      (k b : ℕ) (m : List (ℕ × V)) → lookup low k m ≡ none → lookup low k (remove low b m) ≡ none
  unfolding lookup remove
  lookup-remove-none k b [] h = refl
  lookup-remove-none k b ((j, v) ∷ m) h = ground (arith, lookup-remove-none k b m)

  pub lookup-remove_apart :
      (k b : ℕ) (m : List (ℕ × V))
      → k % 2 ^ 32 ≢ b % 2 ^ 32
      → lookup low k (remove low b m) ≡ lookup low k m
  unfolding lookup remove
  lookup-remove_apart k b [] h = refl
  lookup-remove_apart k b ((j, v) ∷ m) h = ground (arith, lookup-remove_apart k b m h)
