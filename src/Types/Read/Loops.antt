-- ===== src/Types/Read/Loops.antt =====
-- The loop of mbus_list_read over the objects that mbus_list_as_string prints.
use libgmbus.Base.{
  ℕ, suc, ◌+◌, true, false, ◌||◌, [], ◌∷◌, ◌++◌, Option, none, some, ◌≡◌, refl, ap, ◌∙◌, sym, arith,
  Bytes, ◌==◌, length, length-append, append_assoc, ok, Outcome, ◌>>=◌,
}
use libgmbus.Platform.{Platform}
use libgmbus.Util.{peek}
use libgmbus.Types.{Object, Objects, mlist, nil, cons, append}
use libgmbus.Types.Read.{
  Cursor, Round, Reading, Ended, read_at, skip_blanks, kind_of, read_round, read_opened,
  read_closed, after_list, step_on, go_on, read_elements,
}
use libgmbus.Types.Read.Tokens.{IsSolid, skip_blanks-solid}
use libgmbus.Types.Read.Rounds.{Takes-blank}
use libgmbus.Types.Read.Flat.{Begins-IsSolid, inside, Reads}

-- The objects of a list, with others behind them.
unfoldable pub join : Objects → Objects → Objects
join nil ys = ys
join (cons x xs) ys = cons x (join xs ys)

join-nil : (xs : Objects) → join xs nil ≡ xs
unfolding join
join-nil nil = refl
join-nil (cons x xs) = ap (cons x) (join-nil xs)

join-append :
    (xs : Objects) (x : Object) (ys : Objects) → join (append xs x) ys ≡ join xs (cons x ys)
unfolding join append
join-append nil x ys = refl
join-append (cons z xs) x ys = ap (cons z) (join-append xs x ys)

module _ (p : Platform) (inside : Cursor → Outcome Reading)
    (loop : Objects → Option Object → Cursor → Outcome Ended) (list : Objects)
    (last : Option Object) (top at : Cursor) where
  read_at_end :
      (peek at.1 == 0 || peek at.1 == b')') ≡ true
      → read_at p inside loop list last top at ≡ ok (true, list, at)
  unfolding read_at
  read_at_end test = rw (read_at, test) refl

  read_at_round :
      (peek at.1 == 0 || peek at.1 == b')') ≡ false
      → read_at p inside loop list last top at
        ≡ (read_round p inside last top at >>= go_on loop list)
  unfolding read_at
  read_at_round test = rw (read_at, test) refl

module _ (p : Platform) (fuel : ℕ) (list : Objects) (last : Option Object) (top at : Cursor)
    (e : skip_blanks top.0 top.1 ≡ at) where
  at_solid :
      read_elements p (suc fuel) list last top
      ≡ read_at p (inside p fuel) (read_elements p fuel) list last top at
  unfolding read_elements
  at_solid = ap (read_at p (inside p fuel) (read_elements p fuel) list last top) e

-- A list inside, once its loop has come to the end.
read_round_list :
    (p : Platform) (fuel : ℕ) (last : Option Object) (top : Cursor) (before t : Bytes)
    (list : Objects) (B : Bytes) (c : ℕ) (rest : Bytes)
    → read_elements p fuel nil none (b'(' ∷ before, t) ≡ ok (true, list, (B, c ∷ rest))
    → read_round p (inside p fuel) last top (before, b'(' ∷ t)
      ≡ ok (some (mlist list), (c ∷ B, rest))
unfolding read_round kind_of read_opened skip_blanks read_closed after_list step_on
read_round_list p fuel last top before t list B c rest e = rw e refl

-- The loop takes printed objects up to the ')' behind them.
abbrev pub Loops : Platform → ℕ → Objects → Bytes → Type 0
Loops p fuel xs text =
    (list : Objects) (last : Option Object) (top : Cursor) (before rest : Bytes)
    → skip_blanks top.0 top.1 ≡ (before, text ++ b')' ∷ rest)
    → (B : Bytes) × (read_elements p fuel list last top ≡ ok (true, join list xs, (B, b')' ∷ rest)))
      × (length B ≡ length before + length text)

-- Behind the objects there is something to stop at.
abbrev pub Stops : Bytes → Type 0
Stops text = (rest : Bytes) → IsSolid (text ++ b')' ∷ rest)

pub Loops-nil : (p : Platform) (fuel : ℕ) → Loops p (suc fuel) nil []
Loops-nil p fuel list last top before rest e = (
  before,
  at_solid p fuel list last top (before, b')' ∷ rest) e
      ∙ read_at_end p (inside p fuel) (read_elements p fuel) list last top (before, b')' ∷ rest)
          refl
      ∙ ap (λ (l : Objects). ok (true, l, (before, b')' ∷ rest))) (sym (join-nil list)),
  omega arith,
)

pub Loops-cons :
    (p : Platform) (fuel : ℕ) (x : Object) (xs : Objects) (text more : Bytes)
    → Reads p fuel x text
    → Stops more
    → Loops p fuel xs more
    → Loops p (suc fuel) (cons x xs) (text ++ b' ' ∷ more)
Loops-cons p fuel x xs text more (begins, takes) stops loops list last top before rest e =
    let R = more ++ b')' ∷ rest in
    let at : Cursor = (before, text ++ b' ' ∷ R) in
    let whole : skip_blanks top.0 top.1 ≡ at =
      e ∙ ap (λ (t : Bytes). (before, t)) (append_assoc text (b' ' ∷ more) (b')' ∷ rest)) in
    let (pos, B₁, round, next, l₁) = takes last top before R (stops rest) in
    let (B, run, l₂) = loops (append list x) (some x) pos B₁ rest next in
    (
      B,
      at_solid p fuel list last top at whole
          ∙ read_at_round p (inside p fuel) (read_elements p fuel) list last top at
              (Begins-IsSolid (text ++ b' ' ∷ R) (begins (b' ' ∷ R))).1
          ∙ ap (λ (o : Outcome Round). o >>= go_on (read_elements p fuel) list) round
          ∙ unfold go_on in
            run ∙ ap (λ (l : Objects). ok (true, l, (B, b')' ∷ rest))) (join-append list x xs),
      omega (arith, length-append text (b' ' ∷ more)),
    )

pub Reads-list :
    (p : Platform) (fuel : ℕ) (list : Objects) (text : Bytes)
    → Loops p fuel list text
    → Stops text
    → Reads p fuel (mlist list) (b'(' ∷ (text ++ b')' ∷ []))
Reads-list p fuel list text loops stops = (
  (λ tail. unfold kind_of in λ e. cc),
  (λ last top before R solid.
      let t = text ++ b')' ∷ b' ' ∷ R in
      let start = skip_blanks-solid (b'(' ∷ before) t (stops (b' ' ∷ R)) in
      let (B, run, l) = loops nil none (b'(' ∷ before, t) (b'(' ∷ before) (b' ' ∷ R) start in
      let n : length (b'(' ∷ (text ++ b')' ∷ [])) ≡ length text + 2 =
        omega (arith, length-append text (b')' ∷ [])) in
      rw (n, append_assoc text (b')' ∷ []) (b' ' ∷ R))
        (Takes-blank _ (mlist list) before (length text + 2) R (b')' ∷ B) solid
          (read_round_list p fuel last top before t list B b')' (b' ' ∷ R) (unfold join in run))
          (omega arith))),
)

pub Begins-Stops :
    (p : Platform) (fuel : ℕ) (x : Object) (text more : Bytes)
    → Reads p fuel x text
    → Stops (text ++ b' ' ∷ more)
Begins-Stops p fuel x text more (begins, takes) rest =
    rw (append_assoc text (b' ' ∷ more) (b')' ∷ rest))
      (Begins-IsSolid (text ++ b' ' ∷ (more ++ b')' ∷ rest))
        (begins (b' ' ∷ (more ++ b')' ∷ rest)))).0
