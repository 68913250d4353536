-- ===== src/Types/Lists.antt =====
-- Lists of objects: copies, lengths, and mbus_list_remove.
use libgmbus.Base.{
  Bytes, ok, ℕ, zero, suc, ◌+◌, ◌<◌, ◌≤◌, Bool, true, false, none, some, ◌≡◌, refl, ap, arith,
}
use libgmbus.Types.{
  check_elements, argument_check, Object, Objects, null, minteger, mfloat, mstring, msymbol, mdata,
  mlist, nil, cons, is_valid_symbol, symbol_new, append, copy, list_copy, list_length, index,
  remove,
}

-- No NULL inside, and every symbol valid.
unfoldable mutual
  pub IsWhole : Object → Type 0
  IsWhole null = ⊥
  IsWhole (minteger number) = Unit
  IsWhole (mfloat number) = Unit
  IsWhole (mstring str) = Unit
  IsWhole (msymbol str) = is_valid_symbol str ≡ true
  IsWhole (mdata array) = Unit
  IsWhole (mlist list) = AreWhole list

  pub AreWhole : Objects → Type 0
  AreWhole nil = Unit
  AreWhole (cons x xs) = IsWhole x × AreWhole xs

-- A copy of a whole object is the object.
mutual
  unfolding copy list_copy symbol_new IsWhole AreWhole

  copy-whole : (x : Object) → IsWhole x → copy x ≡ x
  copy-whole null h = absurd h
  copy-whole (minteger number) h = refl
  copy-whole (mfloat number) h = refl
  copy-whole (mstring str) h = refl
  copy-whole (msymbol str) h = rw h
  copy-whole (mdata array) h = refl
  copy-whole (mlist list) h = ap mlist (list_copy-whole list h)

  list_copy-whole : (xs : Objects) → AreWhole xs → list_copy xs ≡ xs
  list_copy-whole nil h = refl
  list_copy-whole (cons null xs) h = absurd h.0
  list_copy-whole (cons (minteger number) xs) h =
      ap (cons (minteger number)) (list_copy-whole xs h.1)
  list_copy-whole (cons (mfloat number) xs) h = ap (cons (mfloat number)) (list_copy-whole xs h.1)
  list_copy-whole (cons (mstring str) xs) h = ap (cons (mstring str)) (list_copy-whole xs h.1)
  list_copy-whole (cons (msymbol str) xs) h = rw (h.0, list_copy-whole xs h.1)
  list_copy-whole (cons (mdata array) xs) h = ap (cons (mdata array)) (list_copy-whole xs h.1)
  list_copy-whole (cons (mlist list) xs) h = rw (list_copy-whole list h.0, list_copy-whole xs h.1)

-- mbus_list_copy of a list that holds no NULL and only valid symbols, at every depth, is that list.
pub list_copy_lem : (xs : Objects) → AreWhole xs → list_copy xs ≡ xs
list_copy_lem xs h = list_copy-whole xs h

-- The element appended is the last one, and the others keep their places.
pub index-append :
    (xs : Objects) (x : Object)
    → (list_length (append xs x) ≡ list_length xs + 1)
      × (index (append xs x) (list_length xs) ≡ x)
      × ((i : ℕ) → i < list_length xs → index (append xs x) i ≡ index xs i)
unfolding append list_length index
index-append nil x = (refl, refl, (λ i h. absurd (omega arith)))
index-append (cons y xs) x =
    let (n, last, others) = index-append xs x in (omega arith, last, before others)
  where
    before :
        ((i : ℕ) → i < list_length xs → index (append xs x) i ≡ index xs i)
        → (i : ℕ) → i < suc (list_length xs)
        → index (cons y (append xs x)) i ≡ index (cons y xs) i
    before others zero h = refl
    before others (suc i) h = others i (omega arith)

-- mbus_list_remove reports whether the place is there, and leaves the list as it is; what it frees is
-- the first element, which stays in the list.
pub remove_lem :
    (xs : Objects) (idx : ℕ) (remove_data : Bool)
    → ((remove xs idx remove_data).1 ≡ xs)
      × (idx < list_length xs → (remove xs idx remove_data).0 ≡ true)
      × (list_length xs ≤ idx → remove xs idx remove_data ≡ (false, xs, none))
      × (idx < list_length xs → (remove xs idx true).2 ≡ some (index xs 0))
unfolding remove
remove_lem xs idx remove_data = ground arith

check_elements-whole : (xs : Objects) → AreWhole xs → check_elements xs ≡ ok true
unfolding check_elements AreWhole
check_elements-whole nil h = refl
check_elements-whole (cons null xs) h = absurd h.0
check_elements-whole (cons (minteger number) xs) h = check_elements-whole xs h.1
check_elements-whole (cons (mfloat number) xs) h = check_elements-whole xs h.1
check_elements-whole (cons (mstring str) xs) h = check_elements-whole xs h.1
check_elements-whole (cons (msymbol str) xs) h = check_elements-whole xs h.1
check_elements-whole (cons (mdata array) xs) h = check_elements-whole xs h.1
check_elements-whole (cons (mlist list) xs) h = check_elements-whole xs h.1

-- mbus_argument_check accepts any list that holds no NULL and only valid symbols, at every depth,
-- whatever the pattern asks for.
pub argument_check_lem :
    (pattern : Bytes) (list : Objects)
    → AreWhole list
    → argument_check pattern (mlist list) ≡ ok true
unfolding argument_check
argument_check_lem pattern list h = check_elements-whole list h
