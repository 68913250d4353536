-- ===== src/Types/Read/RoundTrip.antt =====
-- mbus_list_read against mbus_list_as_string.
use libgmbus.Base.{
  ok_injective, ℕ, zero, suc, ◌+◌, ◌-◌, subst, ◌<◌, ◌≤◌, true, [], ◌∷◌, ◌++◌, none, some, ◌≡◌, refl,
  ap, ◌∙◌, sym, arith, Bytes, length, drop, length-append, append_assoc, ok, Outcome, ◌>>=◌,
  >>=-eq-ok,
}
use libgmbus.Platform.{Platform}
use libgmbus.Types.{
  Object, Objects, null, minteger, mfloat, mstring, msymbol, mdata, mlist, nil, cons, as_string,
  elements_as_string, list_as_string,
}
use libgmbus.Types.Read.{
  Cursor, skip_blanks, whole_text, read_opened, read_closed, read_elements, list_read,
}
use libgmbus.Types.Read.Tokens.{skip_blanks-solid, drop-whole_text}
use libgmbus.Types.Read.Rounds.{IsReadable, AreReadable}
use libgmbus.Types.Read.Flat.{Reads, Reads-flat}
use libgmbus.Types.Read.Loops.{join, Loops, Stops, Loops-nil, Loops-cons, Reads-list, Begins-Stops}

module _ (p : Platform) where
  mutual
    unfolding IsReadable AreReadable as_string elements_as_string

    object_lem :
        (x : Object) (fuel : ℕ) (text : Bytes)
        → IsReadable p x
        → as_string p x ≡ ok text
        → length text ≤ fuel
        → Reads p fuel x text
    object_lem (mlist list) fuel text h e l =
        let k : Bytes → Outcome Bytes = λ t. ok (b'(' ∷ (t ++ b')' ∷ [])) in
        let (t, inner, whole) = >>=-eq-ok (elements_as_string p list) k e in
        let size = ap length (ok_injective whole) in
        let (loops, stops) =
          objects_lem list fuel t h inner (omega (arith, length-append t (b')' ∷ []))) in
        subst (Reads p fuel (mlist list)) (ok_injective whole)
          (Reads-list p fuel list t loops stops)
    object_lem null fuel text h e l = absurd h
    object_lem (minteger number) fuel text h e l = Reads-flat p fuel (minteger number) text tt h e
    object_lem (mfloat number) fuel text h e l = Reads-flat p fuel (mfloat number) text tt h e
    object_lem (mstring str) fuel text h e l = Reads-flat p fuel (mstring str) text tt h e
    object_lem (msymbol str) fuel text h e l = Reads-flat p fuel (msymbol str) text tt h e
    object_lem (mdata array) fuel text h e l = Reads-flat p fuel (mdata array) text tt h e

    objects_lem :
        (xs : Objects) (fuel : ℕ) (text : Bytes)
        → AreReadable p xs
        → elements_as_string p xs ≡ ok text
        → length text < fuel
        → Loops p fuel xs text × Stops text
    objects_lem nil zero text h e l = absurd (omega arith)
    objects_lem nil (suc fuel) text h e l =
        subst (λ (t : Bytes). Loops p (suc fuel) nil t × Stops t) (ok_injective e)
          (Loops-nil p fuel, λ rest. refl)
    objects_lem (cons x xs) zero text h e l = absurd (omega arith)
    objects_lem (cons x xs) (suc fuel) text h e l =
        let more : Bytes → Bytes → Outcome Bytes = λ t u. ok (t ++ b' ' ∷ u) in
        let behind : Bytes → Outcome Bytes = λ t. elements_as_string p xs >>= more t in
        let (t, first, e₁) = >>=-eq-ok (as_string p x) behind e in
        let (u, rest, e₂) = >>=-eq-ok (elements_as_string p xs) (more t) e₁ in
        let size = ap length (ok_injective e₂) in
        let fits : length t + suc (length u) ≤ fuel = omega (arith, length-append t (b' ' ∷ u)) in
        let reads = object_lem x fuel t h.0 first (omega arith) in
        let (loops, stops) = objects_lem xs fuel u h.1 rest (omega arith) in
        subst (λ (t : Bytes). Loops p (suc fuel) (cons x xs) t × Stops t) (ok_injective e₂)
          (Loops-cons p fuel x xs t u reads stops loops, Begins-Stops p fuel x t u reads)

pub list_as_string-opens :
    (p : Platform) (xs : Objects) (text : Bytes)
    → list_as_string p xs ≡ ok text
    → (t : Bytes) × (text ≡ b'(' ∷ t)
unfolding as_string
list_as_string-opens p xs text e =
    let k : Bytes → Outcome Bytes = λ t. ok (b'(' ∷ (t ++ b')' ∷ [])) in
    let (t, inner, whole) = >>=-eq-ok (elements_as_string p xs) k e in
    (t ++ b')' ∷ [], sym (ok_injective whole))

pub list_read_empty :
    (p : Platform) (fuel : ℕ) → list_read p fuel nil ([], []) ≡ ok (none, nil, ([], []))
unfolding list_read read_opened skip_blanks
list_read_empty p fuel = refl

read_opened_list :
    (p : Platform) (fuel : ℕ) (t : Bytes) (list : Objects) (B h : Bytes)
    → read_elements p fuel nil none (b'(' ∷ [], t) ≡ ok (true, list, (B, h))
    → list_read p fuel nil ([], b'(' ∷ t) ≡ ok (some (length B - 0 + 1), list, (B, h))
unfolding list_read read_opened skip_blanks read_closed
read_opened_list p fuel t list B h e = rw e refl

-- The text of a list of readable objects, with anything behind it, is read as that list, and what the
-- caller then erases, which is as long as the result, is the text.
pub list_read-list_as_string :
    (p : Platform) (xs : Objects) (text rest : Bytes) (fuel : ℕ)
    → AreReadable p xs
    → list_as_string p xs ≡ ok text
    → length text ≤ fuel
    → (pos : Cursor) × (list_read p fuel nil ([], text ++ rest) ≡ ok (some (length text), xs, pos))
      × (drop (length text) (whole_text pos.0 pos.1) ≡ rest)
unfolding as_string
list_read-list_as_string p xs text rest fuel h e l =
    let k : Bytes → Outcome Bytes = λ t. ok (b'(' ∷ (t ++ b')' ∷ [])) in
    let (t, inner, whole) = >>=-eq-ok (elements_as_string p xs) k e in
    let eq = ok_injective whole in
    let size : length text ≡ length t + 2 =
      omega (arith, ap length eq, length-append t (b')' ∷ [])) in
    let (loops, stops) = objects_lem p xs fuel t h inner (omega arith) in
    let start = skip_blanks-solid (b'(' ∷ []) (t ++ b')' ∷ rest) (stops rest) in
    let (B, run, n) = loops nil none (b'(' ∷ [], t ++ b')' ∷ rest) (b'(' ∷ []) rest start in
    let count : length B - 0 + 1 ≡ length text = omega arith in
    let opened : text ++ rest ≡ b'(' ∷ (t ++ b')' ∷ rest) =
      ap (λ (u : Bytes). u ++ rest) (sym eq) ∙ ap (◌∷◌ b'(') (append_assoc t (b')' ∷ []) rest) in
    let past : length text ≡ length B + 1 = omega arith in
    (
      (B, b')' ∷ rest),
      ap (λ (u : Bytes). list_read p fuel nil ([], u)) opened
          ∙ read_opened_list p fuel (t ++ b')' ∷ rest) xs B (b')' ∷ rest) (unfold join in run)
          ∙ ap (λ (m : ℕ). ok (some m, xs, (B, b')' ∷ rest))) count,
      subst (λ (n : ℕ). drop n (whole_text B (b')' ∷ rest)) ≡ rest) (sym past)
          (drop-whole_text B (b')' ∷ rest) 1),
    )
