-- ===== src/Util/Blanks.antt =====
-- mbus_util_cut_whitespaces and mbus_util_find_char.
use libgmbus.Base.{
  ℕ, ◌≤◌, ◌<◌, true, false, ◌||◌, [], ◌∷◌, ◌++◌, some, ◌≡◌, ◌≢◌, refl, arith, Bool-cases, inl, inr,
  Bytes, ◌==◌, g_ascii_isspace, ok, fault, Fault, All, length,
}
use libgmbus.Util.{cut_whitespaces, find_char, peek}

-- What the scan steps over.
abbrev pub IsSkipped : ℕ → Type 0
IsSkipped c = (g_ascii_isspace c || c == 0) ≡ true

-- The scan skips the blanks and NULs in front of any other byte, and keeps all from there.
pub cut_whitespaces_lem :
    (s : Bytes) (c : ℕ) (rest : Bytes)
    → All IsSkipped s
    → (g_ascii_isspace c || c == 0) ≡ false
    → cut_whitespaces (s ++ c ∷ rest) ≡ ok (c ∷ rest)
unfolding cut_whitespaces
cut_whitespaces_lem [] c rest h k = rw k
cut_whitespaces_lem (d ∷ s) c rest h k = rw h.0 (cut_whitespaces_lem s c rest h.1 k)

-- The scan leaves the buffer exactly when nothing but blanks and NULs is left in it.
pub cut_whitespaces_over_read :
    (s : Bytes)
    → (All IsSkipped s → cut_whitespaces s ≡ fault Fault.over_read)
      × (cut_whitespaces s ≡ fault Fault.over_read → All IsSkipped s)
unfolding cut_whitespaces
cut_whitespaces_over_read [] = ((λ _. refl), (λ _. tt))
cut_whitespaces_over_read (c ∷ s) = (
  (λ h. rw h.0 ((cut_whitespaces_over_read s).0 h.1)),
  (λ e. ground (arith, cut_whitespaces_over_read s)),
)

pub cut_whitespaces_stop :
    (c : ℕ) (rest : Bytes)
    → (g_ascii_isspace c || c == 0) ≡ false
    → cut_whitespaces (c ∷ rest) ≡ ok (c ∷ rest)
cut_whitespaces_stop c rest h = cut_whitespaces_lem [] c rest tt h

pub cut_whitespaces_blank : (s : Bytes) → cut_whitespaces (b' ' ∷ s) ≡ cut_whitespaces s
unfolding cut_whitespaces
cut_whitespaces_blank s = refl

-- A byte that ends neither the text nor the search for `c`.
abbrev pub Passes : ℕ → ℕ → Type 0
Passes c d = (d ≢ 0) × (d ≢ c)

pub find_char-append :
    (s : Bytes) (c : ℕ) (rest : Bytes)
    → c ≢ 0
    → All (Passes c) s
    → find_char (s ++ c ∷ rest) c ≡ some (length s)
unfolding find_char
find_char-append [] c rest h k = ground arith
find_char-append (d ∷ s) c rest h k = ground (arith, find_char-append s c rest h k.1)

-- What is left is not empty, and no longer than the text was.
pub cut_whitespaces-length :
    (s t : Bytes) → cut_whitespaces s ≡ ok t → (0 < length t) × (length t ≤ length s)
unfolding cut_whitespaces
cut_whitespaces-length [] t h = cc
cut_whitespaces-length (c ∷ s) t h = ground (arith, cut_whitespaces-length s t)

pub cut_whitespaces-ne-endless : (s : Bytes) → cut_whitespaces s ≢ fault Fault.endless
unfolding cut_whitespaces
cut_whitespaces-ne-endless [] h = cc
cut_whitespaces-ne-endless (c ∷ s) h = ground (arith, cut_whitespaces-ne-endless s)

-- What is left begins with a byte that is kept, and has the properties of the text's bytes.
pub cut_whitespaces-All :
    (P : ℕ → Type 0) (s : Bytes) (t : Bytes)
    → cut_whitespaces s ≡ ok t
    → All P s
    → All P t × ((g_ascii_isspace (peek t) || peek t == 0) ≡ false)
unfolding cut_whitespaces
cut_whitespaces-All P [] t h a = cc
cut_whitespaces-All P (c ∷ s) t h a = elim (Bool-cases (g_ascii_isspace c || c == 0)) [
  | inl e ↦ cut_whitespaces-All P s t (ground arith) a.1
  | inr e ↦ let same : c ∷ s ≡ t = ground arith in rw (← same) (a, e)
]
