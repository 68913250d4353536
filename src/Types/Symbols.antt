-- ===== src/Types/Symbols.antt =====
-- Symbols: mbus_symbol_new.
use libgmbus.Base.{
  ℕ, true, false, ◌&&◌, [], ◌∷◌, some, ◌≡◌, refl, ◌↔◌, arith, Bytes, All, Bool-cases, inl, inr,
}
use libgmbus.Types.{null, msymbol, is_valid_char, is_valid_symbol, symbol_new}

is_valid_symbol_cons :
    (c : ℕ) (str : Bytes) → is_valid_symbol (c ∷ str) ≡ (is_valid_char c && is_valid_symbol str)
unfolding is_valid_symbol
is_valid_symbol_cons c str = refl

abbrev pub IsValid : Bytes → Type 0
IsValid = All (λ c. is_valid_char c ≡ true)

pub is_valid_symbol_iff : (str : Bytes) → (is_valid_symbol str ≡ true) ↔ IsValid str
is_valid_symbol_iff [] = ((λ h. tt), (λ h. unfold is_valid_symbol in refl))
is_valid_symbol_iff (c ∷ str) = (
  (λ h. ground (arith, is_valid_symbol_cons c str, is_valid_symbol_iff str)),
  (λ h. ground (arith, is_valid_symbol_cons c str, is_valid_symbol_iff str)),
)

-- A symbol is made exactly of a text of valid characters; of any other the result is NULL.
pub symbol_new_iff :
    (str : Bytes)
    → ((symbol_new (some str) ≡ msymbol str) ↔ IsValid str)
      × ((symbol_new (some str) ≡ null) ↔ (¬ IsValid str))
unfolding symbol_new
symbol_new_iff str = elim (Bool-cases (is_valid_symbol str)) [
  | inl h ↦ rw h (
    ((λ e. (is_valid_symbol_iff str).0 h), (λ v. refl)),
    ((λ e. cc), (λ v. absurd (v ((is_valid_symbol_iff str).0 h)))),
  )
  | inr h ↦ rw h (((λ e. cc), (λ v. absurd (differ h v))), ((λ e v. differ h v), (λ v. refl)))
]
  where
    differ : is_valid_symbol str ≡ false → IsValid str → ⊥
    differ h v = ground (arith, (is_valid_symbol_iff str).1 v)
