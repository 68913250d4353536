-- ===== src/Util/Scan.antt =====
-- The copy loops.
use libgmbus.Base.{
  ℕ, zero, suc, ◌≤◌, ◌<◌, Bool, true, false, [], ◌∷◌, ◌++◌, ◌≡◌, refl, arith, Bytes, All, length,
}
use libgmbus.Util.{peek, scan_while}

-- A loop that has room stops at the first byte that fails its test.
pub scan_while-append :
    (test : ℕ → Bool) (room : ℕ) (s rest : Bytes)
    → All (λ c. test c ≡ true) s
    → length s < room
    → (test (peek rest) ≡ false)
    → scan_while test room (s ++ rest) ≡ (s, rest)
unfolding scan_while
scan_while-append test zero s rest h l k = absurd (omega arith)
scan_while-append test (suc room) [] [] h l k = refl
scan_while-append test (suc room) [] (c ∷ rest) h l k = rw k
scan_while-append test (suc room) (c ∷ s) rest h l k =
    rw (h.0, scan_while-append test room s rest h.1 (omega arith) k)

-- What the loop copies and what it leaves are the text, and it copies no more than there is room for.
pub scan_while_parts :
    (test : ℕ → Bool) (room : ℕ) (s : Bytes)
    → ((scan_while test room s).0 ++ (scan_while test room s).1 ≡ s)
      × (length (scan_while test room s).0 ≤ room)
      × All (λ c. test c ≡ true) (scan_while test room s).0
unfolding scan_while
scan_while_parts test zero s = (refl, omega arith, tt)
scan_while_parts test (suc room) [] = (refl, omega arith, tt)
scan_while_parts test (suc room) (c ∷ s) = ground (arith, scan_while_parts test room s)

pub scan_while-length :
    (test : ℕ → Bool) (room : ℕ) (s : Bytes) → length (scan_while test room s).1 ≤ length s
unfolding scan_while
scan_while-length test zero s = omega arith
scan_while-length test (suc room) [] = omega arith
scan_while-length test (suc room) (c ∷ s) = ground (arith, scan_while-length test room s)
