-- ===== src/Header/Numbers.antt =====
-- The numbers of a header, where its parser finds them.
use libgmbus.Base.{
  ℕ, ◌^◌, ◌<◌, true, false, [], ◌∷◌, ◌++◌, ◌≡◌, arith, Bytes, ◌==◌, All, length, isdigit, ok,
}
use libgmbus.Util.{cut_whitespaces, int64_to_str, peek}
use libgmbus.Util.Blanks.{cut_whitespaces_stop}
use libgmbus.Util.Decimal.{IsDigit, isdigit_of_IsDigit, int64_to_str_unsigned}
use libgmbus.Util.Scan.{scan_while-append}
use libgmbus.Header.{stop, number}

All-isdigit : (s : Bytes) → All IsDigit s → All (λ c. isdigit c ≡ true) s
All-isdigit [] h = tt
All-isdigit (c ∷ s) h = (isdigit_of_IsDigit c h.0, All-isdigit s h.1)

-- A text that begins with a digit has no blank to skip.
pub cut_digits :
    (s rest : Bytes) → All IsDigit s → 0 < length s → cut_whitespaces (s ++ rest) ≡ ok (s ++ rest)
cut_digits [] rest h l = absurd (omega arith)
cut_digits (c ∷ s) rest h l = cut_whitespaces_stop c (s ++ rest) (ground (arith, h.0))

module _ (v : ℕ) (small : v < 2 ^ 64) where
  abbrev digits : Bytes
  digits = int64_to_str v false

  pub cut_number : (rest : Bytes) → cut_whitespaces (digits ++ rest) ≡ ok (digits ++ rest)
  cut_number rest =
      let spelled = int64_to_str_unsigned v small in cut_digits digits rest spelled.0 spelled.1

  pub number-digits :
      (c : ℕ) (rest : Bytes)
      → isdigit c ≡ false
      → number (digits ++ c ∷ rest) ≡ ok (digits, c ∷ rest)
  unfolding number
  number-digits c rest stop =
      let spelled = int64_to_str_unsigned v small in
      rw
        (scan_while-append isdigit 64 digits (c ∷ rest) (All-isdigit digits spelled.0)
          (omega (arith, spelled.2)) stop)
        (ground (arith, spelled.2))

  pub peek-digits : (rest : Bytes) → (peek (digits ++ rest) == b')') ≡ false
  peek-digits rest = let spelled = int64_to_str_unsigned v small in go digits spelled.0 spelled.1
    where
      go : (s : Bytes) → All IsDigit s → 0 < length s → (peek (s ++ rest) == b')') ≡ false
      go [] h l = absurd (omega arith)
      go (c ∷ s) h l = ground (arith, h.0)
