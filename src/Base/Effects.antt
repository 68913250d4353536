-- ===== src/Base/Effects.antt =====
-- What running a piece of C gives: a value, or a step that C leaves undefined. An error that the
-- code itself reports is a value.
use mathlib.Core.Path.{◌≡◌, refl}
use mathlib.Core.Logic.{◌⊎◌, inl, inr}

-- over_read: a read outside the text or array; over_write: a write outside it; uninitialised: a
-- value that nothing has set; null_pointer: a read or write through a null pointer; freed: one of an
-- object whose memory was freed; endless: the
-- model's fuel ran out.
pub data Fault : Type 0 where
  over_read over_write uninitialised null_pointer freed failed_assertion endless : Fault

pub data Outcome {ℓ} (A : Type ℓ) : Type ℓ where
  ok : A → Outcome A
  fault : Fault → Outcome A

pub ok_injective {ℓ} : {A : Type ℓ} {a b : A} → ok a ≡ ok b → a ≡ b
ok_injective e = cc

infixl 5 ◌>>=◌ ◌>>◌
abbrev pub ◌>>=◌ {ℓ κ} : {X : Type ℓ} {Y : Type κ} → Outcome X → (X → Outcome Y) → Outcome Y
ok x >>= next = next x
fault e >>= next = fault e

abbrev pub ◌>>◌ {ℓ} : {Y : Type ℓ} → Outcome (Unit {0}) → Outcome Y → Outcome Y
first >> second = first >>= λ _. second

-- A sequence gives a value where its first part gives one, and its second part from there.
pub >>=-eq-ok {ℓ κ} :
    {X : Type ℓ} {Y : Type κ} (first : Outcome X) (next : X → Outcome Y) {y : Y}
    → (first >>= next) ≡ ok y
    → (x : X) × (first ≡ ok x) × (next x ≡ ok y)
>>=-eq-ok (ok x) next whole = (x, refl, whole)
>>=-eq-ok (fault e) next whole = cc

-- A sequence faults where its first part does, or its second part after it.
pub >>=-eq-fault {ℓ κ} :
    {X : Type ℓ} {Y : Type κ} (first : Outcome X) (next : X → Outcome Y) {e : Fault}
    → (first >>= next) ≡ fault e
    → (first ≡ fault e) ⊎ ((x : X) × (first ≡ ok x) × (next x ≡ fault e))
>>=-eq-fault (ok x) next whole = inr (x, refl, whole)
>>=-eq-fault (fault e') next whole = inl (cc)
