-- ===== src/Address/Match.antt =====
-- Which addresses match: mbus_address_is_equal, mbus_address_is_subset_of and mbus_address_hash.
use libgmbus.Base.{
  true, List, [], ◌∷◌, ◌++◌, Option, none, some, ◌≡◌, refl, ◌⊎◌, inl, inr, ◌↔◌, arith, Bytes, All,
  str_eq, str_eq_iff, Bool-cases, append_assoc, ap, sym, ◌∙◌,
}
use libgmbus.Platform.{Platform}
use libgmbus.Util.{peek}
use libgmbus.Address.{
  AddressElement, Address, element_is_equal, elements_equal, is_equal, found_in, all_found,
  is_subset_of, find, id_key, hash,
}

-- A value that stands for any value.
abbrev pub IsWildcard : Bytes → Type 0
IsWildcard v = peek v ≡ b'*'

-- Two elements agree: they have one key, and one value or a wildcard among the values.
abbrev pub Agree : AddressElement → AddressElement → Type 0
Agree x y = (x.key ≡ y.key) × (IsWildcard x.value ⊎ IsWildcard y.value ⊎ (x.value ≡ y.value))

pub element_is_equal_iff : (x y : AddressElement) → (element_is_equal x y ≡ true) ↔ Agree x y
unfolding element_is_equal
element_is_equal_iff x y = ground (arith, str_eq_iff x.key y.key, str_eq_iff x.value y.value)

module _ {ℓ} {A : Type ℓ} (P : A → Type 0) where
  abbrev pub Any : List A → Type 0
  Any [] = ⊥
  Any (x ∷ xs) = P x ⊎ Any xs

found_in_iff :
    (my : List AddressElement) (y : AddressElement)
    → (found_in my y ≡ true) ↔ Any (λ x. Agree x y) my
unfolding found_in
found_in_iff [] y = ((λ h. cc), (λ h. absurd h))
found_in_iff (x ∷ my) y = ground (arith, element_is_equal_iff x y, found_in_iff my y)

all_found_iff :
    (my your : List AddressElement)
    → (all_found my your ≡ true) ↔ All (λ y. Any (λ x. Agree x y) my) your
unfolding all_found
all_found_iff my [] = ((λ h. tt), (λ h. refl))
all_found_iff my (y ∷ your) = ground (arith, found_in_iff my y, all_found_iff my your)

-- An address is a subset of another exactly when each element of the other agrees with one of its own.
pub is_subset_of_iff :
    (self other : Address)
    → (is_subset_of self other ≡ true)
      ↔ All (λ y. Any (λ x. Agree x y) self.elements) other.elements
unfolding is_subset_of
is_subset_of_iff self other = all_found_iff self.elements other.elements

element_is_equal_self : (x : AddressElement) → element_is_equal x x ≡ true
element_is_equal_self x = (element_is_equal_iff x x).1 (refl, inr (inr refl))

found_in-append :
    (xs ys : List AddressElement) (y : AddressElement)
    → found_in ys y ≡ true
    → found_in (xs ++ ys) y ≡ true
unfolding found_in
found_in-append [] ys y h = h
found_in-append (x ∷ xs) ys y h = ground (arith, found_in-append xs ys y h)

elements_equal-found :
    (before my your : List AddressElement)
    → elements_equal my your ≡ true
    → all_found (before ++ my) your ≡ true
unfolding elements_equal all_found
elements_equal-found before my [] h = refl
elements_equal-found before [] (y ∷ your) h = cc
elements_equal-found before (x ∷ my) (y ∷ your) h =
    let here : found_in (x ∷ my) y ≡ true = unfold found_in in ground arith in
    let rest = elements_equal-found (before ++ x ∷ []) my your (ground arith) in
    ground (arith, found_in-append before (x ∷ my) y, append_assoc before (x ∷ []) my)

-- An address that is equal to another is a subset of it.
pub is_equal-is_subset_of :
    (self other : Address) → is_equal self other ≡ true → is_subset_of self other ≡ true
unfolding is_equal is_subset_of
is_equal-is_subset_of self other h =
    elements_equal-found [] self.elements other.elements (ground arith)

elements_equal_self : (xs : List AddressElement) → elements_equal xs xs ≡ true
unfolding elements_equal
elements_equal_self [] = refl
elements_equal_self (x ∷ xs) = rw (element_is_equal_self x) (elements_equal_self xs)

pub is_equal_self : (self : Address) → is_equal self self ≡ true
unfolding is_equal
is_equal_self self = ground (arith, elements_equal_self self.elements)

element_is_equal_comm : (x y : AddressElement) → element_is_equal x y ≡ element_is_equal y x
element_is_equal_comm x y = ground (arith, element_is_equal_iff x y, element_is_equal_iff y x)

elements_equal_comm : (xs ys : List AddressElement) → elements_equal xs ys ≡ elements_equal ys xs
unfolding elements_equal
elements_equal_comm [] [] = refl
elements_equal_comm [] (y ∷ ys) = refl
elements_equal_comm (x ∷ xs) [] = refl
elements_equal_comm (x ∷ xs) (y ∷ ys) = rw (element_is_equal_comm x y, elements_equal_comm xs ys)

pub is_equal_comm : (self other : Address) → is_equal self other ≡ is_equal other self
unfolding is_equal
is_equal_comm self other = ground (arith, elements_equal_comm self.elements other.elements)

-- What two equal addresses have under one key.
abbrev pub SameEntry : Option AddressElement → Option AddressElement → Type 0
SameEntry none none = Unit
SameEntry none (some f) = ⊥
SameEntry (some e) none = ⊥
SameEntry (some e) (some f) = Agree e f

find_equal :
    (key : Bytes) (xs ys : List AddressElement)
    → elements_equal xs ys ≡ true
    → SameEntry (find xs key) (find ys key)
unfolding find elements_equal
find_equal key [] [] h = tt
find_equal key [] (y ∷ ys) h = cc
find_equal key (x ∷ xs) [] h = cc
find_equal key (x ∷ xs) (y ∷ ys) h =
    let agree = (element_is_equal_iff x y).0 (ground arith) in
    let rest = find_equal key xs ys (ground arith) in
    elim (Bool-cases (str_eq x.key key)) [
      | inl e ↦ rw (e, ap (λ k. str_eq k key) (sym agree.0) ∙ e) agree
      | inr e ↦ rw (e, ap (λ k. str_eq k key) (sym agree.0) ∙ e) rest
    ]

-- The id of an address is a wildcard.
abbrev pub WildcardId : Address → Type 0
WildcardId a = (e : AddressElement) × (find a.elements id_key ≡ some e) × IsWildcard e.value

-- Equal addresses have one hash value, unless the id of one of them is a wildcard.
pub hash-is_equal :
    (p : Platform) (self other : Address)
    → is_equal self other ≡ true
    → (hash p self ≡ hash p other) ⊎ WildcardId self ⊎ WildcardId other
unfolding is_equal hash
hash-is_equal p self other h =
    go (find self.elements id_key) (find other.elements id_key) refl refl
      (find_equal id_key self.elements other.elements (ground arith))
  where
    go :
        (a b : Option AddressElement)
        → find self.elements id_key ≡ a
        → find other.elements id_key ≡ b
        → SameEntry a b
        → (hash p self ≡ hash p other) ⊎ WildcardId self ⊎ WildcardId other
    go none none ea eb s = inl (rw (ea, eb, hash))
    go none (some f) ea eb s = absurd s
    go (some e) none ea eb s = absurd s
    go (some e) (some f) ea eb (keys, inl w) = inr (inl (e, ea, w))
    go (some e) (some f) ea eb (keys, inr (inl w)) = inr (inr (f, eb, w))
    go (some e) (some f) ea eb (keys, inr (inr v)) = inl (rw (ea, eb, hash) (ap p.string_hash v))
