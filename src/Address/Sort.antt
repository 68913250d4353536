-- ===== src/Address/Sort.antt =====
-- The order of the elements: g_ptr_array_sort with __elements_sort, and mbus_address_disambiguate.
use mathlib.Core.List.{Perm}
use mathlib.Core.List.Perm
use libgmbus.Base.{
  true, false, ◌||◌, List, [], ◌∷◌, ◌++◌, ◌≡◌, refl, ◌∙◌, inl, inr, arith, Bytes, if◌then◌else◌,
  str_eq, Bool-cases, All,
}
use libgmbus.Address.{
  AddressElement, Address, str_le, insert, sort, find, has_id, id_key, is_unique, is_found,
  disambiguate,
}

-- Keys grow along the list.
abbrev pub IsSorted : List AddressElement → Type 0
IsSorted [] = Unit
IsSorted (x ∷ xs) = All (λ y. str_le x.key y.key ≡ true) xs × IsSorted xs

str_le_total : (s t : Bytes) → str_le s t ≡ false → str_le t s ≡ true
unfolding str_le
str_le_total [] t h = cc
str_le_total (c ∷ s) [] h = refl
str_le_total (c ∷ s) (d ∷ t) h = ground (arith, str_le_total s t)

str_le_trans : (s t u : Bytes) → str_le s t ≡ true → str_le t u ≡ true → str_le s u ≡ true
unfolding str_le
str_le_trans [] t u h k = refl
str_le_trans (c ∷ s) [] u h k = cc
str_le_trans (c ∷ s) (d ∷ t) [] h k = cc
str_le_trans (c ∷ s) (d ∷ t) (e ∷ u) h k = ground (arith, str_le_trans s t u)

insert-perm : (e : AddressElement) (xs : List AddressElement) → Perm (insert e xs) (e ∷ xs)
unfolding insert
insert-perm e [] = Perm.refl _
insert-perm e (x ∷ xs) = elim (Bool-cases (str_le e.key x.key)) [
  | inl h ↦ rw h (Perm.refl _)
  | inr h ↦ rw h (Perm.trans (Perm.cons x (insert-perm e xs)) (Perm.swap e x xs))
]

-- Sorting keeps the elements.
pub sort-perm : (xs : List AddressElement) → Perm (sort xs) xs
unfolding sort
sort-perm [] = Perm.refl _
sort-perm (x ∷ xs) = Perm.trans (insert-perm x (sort xs)) (Perm.cons x (sort-perm xs))

All-le_trans :
    (k l : Bytes) (xs : List AddressElement)
    → str_le k l ≡ true
    → All (λ y. str_le l y.key ≡ true) xs
    → All (λ y. str_le k y.key ≡ true) xs
All-le_trans k l [] h a = tt
All-le_trans k l (x ∷ xs) h a = (str_le_trans k l x.key h a.0, All-le_trans k l xs h a.1)

All-insert :
    (k : Bytes) (e : AddressElement) (xs : List AddressElement)
    → str_le k e.key ≡ true
    → All (λ y. str_le k y.key ≡ true) xs
    → All (λ y. str_le k y.key ≡ true) (insert e xs)
unfolding insert
All-insert k e [] h a = (h, tt)
All-insert k e (x ∷ xs) h a = ground (arith, All-insert k e xs h a.1)

insert-IsSorted :
    (e : AddressElement) (xs : List AddressElement) → IsSorted xs → IsSorted (insert e xs)
unfolding insert
insert-IsSorted e [] s = (tt, tt)
insert-IsSorted e (x ∷ xs) s = elim (Bool-cases (str_le e.key x.key)) [
  | inl h ↦ rw h ((h, All-le_trans e.key x.key xs h s.0), s)
  | inr h ↦ rw h (All-insert x.key e xs (str_le_total e.key x.key h) s.0, insert-IsSorted e xs s.1)
]

pub sort-IsSorted : (xs : List AddressElement) → IsSorted (sort xs)
unfolding sort
sort-IsSorted [] = tt
sort-IsSorted (x ∷ xs) = insert-IsSorted x (sort xs) (sort-IsSorted xs)

-- A sorted list stays as it is.
pub sort_sorted : (xs : List AddressElement) → IsSorted xs → sort xs ≡ xs
unfolding sort
sort_sorted [] s = refl
sort_sorted (x ∷ xs) s = rw (sort_sorted xs s.1) (front xs s.0)
  where
    front :
        (ys : List AddressElement) → All (λ y. str_le x.key y.key ≡ true) ys → insert x ys ≡ x ∷ ys
    front [] a = refl
    front (y ∷ ys) a = rw a.0

-- Whether an element under a key is there does not depend on the order.
has_id-insert :
    (e : AddressElement) (xs : List AddressElement)
    → has_id (insert e xs) ≡ (str_eq e.key id_key || has_id xs)
unfolding insert has_id
has_id-insert e [] = refl
has_id-insert e (x ∷ xs) = ground (arith, has_id-insert e xs)

has_id-sort : (xs : List AddressElement) → has_id (sort xs) ≡ has_id xs
unfolding sort has_id
has_id-sort [] = refl
has_id-sort (x ∷ xs) = rw (has_id-insert x (sort xs), has_id-sort xs)

has_id-append : (xs ys : List AddressElement) → has_id (xs ++ ys) ≡ (has_id xs || has_id ys)
unfolding has_id
has_id-append [] ys = refl
has_id-append (x ∷ xs) ys = ground (arith, has_id-append xs ys)

is_found-find : (xs : List AddressElement) → is_found (find xs id_key) ≡ has_id xs
unfolding find has_id
is_found-find [] = refl
is_found-find (x ∷ xs) = ground (arith, is_found-find xs)

is_unique-has_id : (a : Address) → is_unique a ≡ has_id a.elements
unfolding is_unique
is_unique-has_id a = is_found-find a.elements

has_id-new :
    (id : Bytes) (xs : List AddressElement)
    → has_id (if has_id xs then xs else xs ++ record { key = id_key; value = id } ∷ []) ≡ true
has_id-new id xs = elim (Bool-cases (has_id xs)) [
  | inl h ↦ rw h h
  | inr h ↦ rw h (rw (has_id-append xs, h) (unfold has_id str_eq in refl))
]

-- After mbus_address_disambiguate the address is unique and sorted. An address that was unique only
-- changes its order; another gets the new element besides its own.
pub disambiguate_lem :
    (id : Bytes) (a : Address)
    → (is_unique (disambiguate id a) ≡ true)
      × IsSorted (disambiguate id a).elements
      × Perm (disambiguate id a).elements (
          if is_unique a
          then a.elements
          else a.elements ++ record { key = id_key; value = id } ∷ [])
unfolding disambiguate
disambiguate_lem id a = (
  is_unique-has_id (disambiguate id a) ∙ has_id-sort _ ∙ has_id-new id a.elements,
  sort-IsSorted _,
  rw (is_unique-has_id a) (sort-perm _),
)
