-- ===== src/Util/Within.antt =====
-- A byte that stands near the front of a text keeps the scans inside it and inside their buffers.
use libgmbus.Base.{
  ℕ, zero, suc, ◌<◌, Bool, true, false, ◌||◌, [], ◌∷◌, ◌++◌, ◌≡◌, ◌≢◌, refl, sym, subst, arith,
  Bytes, ◌==◌, All, Bool-cases, inl, inr, ◌⊎◌, length, g_ascii_isspace, ok,
}
use libgmbus.Table.Entries.{All-map}
use libgmbus.Util.{cut_whitespaces, scan_while}
use libgmbus.Util.Scan.{scan_while_parts}

-- The byte stands among the first `n` of a text.
abbrev pub Within : ℕ → ℕ → Bytes → Type 0
Within x zero s = ⊥
Within x (suc n) [] = ⊥
Within x (suc n) (c ∷ s) = (c ≡ x) ⊎ Within x n s

Within-suc : (x n : ℕ) (s : Bytes) → Within x n s → Within x (suc n) s
Within-suc x zero s h = absurd h
Within-suc x (suc n) [] h = absurd h
Within-suc x (suc n) (c ∷ s) (inl e) = inl e
Within-suc x (suc n) (c ∷ s) (inr h) = inr (Within-suc x n s h)

-- It stands behind a byte that is another one.
pub Within-behind : (x n c : ℕ) (s : Bytes) → c ≢ x → Within x n (c ∷ s) → Within x n s
Within-behind x zero c s other h = absurd h
Within-behind x (suc n) c s other (inl e) = absurd (other e)
Within-behind x (suc n) c s other (inr h) = Within-suc x n s h

pub Within-append :
    (x n : ℕ) (s t : Bytes)
    → All (λ c. c ≢ x) s
    → Within x n (s ++ t)
    → (length s < n) × Within x n t
Within-append x zero s t h w = absurd w
Within-append x (suc n) [] t h w = (omega arith, w)
Within-append x (suc n) (c ∷ s) t h (inl e) = absurd (h.0 e)
Within-append x (suc n) (c ∷ s) t h (inr w) =
    let (l, w') = Within-append x n s t h.1 w in (omega (arith, l), Within-suc x n t w')

-- Such a byte, if it is no blank and no NUL, ends the search for one.
pub cut_whitespaces-Within :
    (x n : ℕ) (s : Bytes)
    → (g_ascii_isspace x || x == 0) ≡ false
    → Within x n s
    → (t : Bytes) × (cut_whitespaces s ≡ ok t) × Within x n t
unfolding cut_whitespaces
cut_whitespaces-Within x zero s kept w = absurd w
cut_whitespaces-Within x (suc n) [] kept w = absurd w
cut_whitespaces-Within x (suc n) (c ∷ s) kept w = elim (Bool-cases (g_ascii_isspace c || c == 0)) [
  | inr e ↦ (c ∷ s, rw e refl, w)
  | inl e ↦ elim w [
    | inl same ↦ absurd (cc)
    | inr behind ↦
        let (t, cut, there) = cut_whitespaces-Within x n s kept behind in
        (t, rw e cut, Within-suc x n t there)
  ]
]

-- A loop whose test fails on the byte copies fewer bytes, and leaves it in the text.
pub scan_while-Within :
    (test : ℕ → Bool) (x n room : ℕ) (s : Bytes)
    → test x ≡ false
    → Within x n s
    → (length (scan_while test room s).0 < n) × Within x n (scan_while test room s).1
scan_while-Within test x n room s fails w =
    let (whole, fits, passed) = scan_while_parts test room s in
    let r = scan_while test room s in
    Within-append x n r.0 r.1
      (All-map (λ c. test c ≡ true) (λ c. c ≢ x) (λ c t same. cc) r.0 passed)
      (subst (Within x n) (sym whole) w)
