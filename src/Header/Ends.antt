-- ===== src/Header/Ends.antt =====
-- When the loop over the acknowledgements in mbus_header_read comes to an end.
use libgmbus.Base.{
  ℕ, zero, suc, ◌<◌, Bool, Bool-cases, not, true, false, ◌||◌, [], ◌∷◌, ◌++◌, ◌≡◌, ◌≢◌, refl, sym,
  ap, subst, ◌∙◌, arith, Bytes, ◌==◌, All, length, length-append, isdigit, isspace, g_ascii_isspace,
  Outcome, ok, fault, Fault, ◌>>=◌, >>=-eq-fault, inl, inr,
}
use libgmbus.Util.{cut_whitespaces, str_to_uint64, peek, scan_while}
use libgmbus.Util.Blanks.{
  cut_whitespaces_stop, cut_whitespaces-All, cut_whitespaces-length, cut_whitespaces-ne-endless,
}
use libgmbus.Util.Decimal.{str_to_uint64_empty}
use libgmbus.Util.Scan.{scan_while-append, scan_while_parts}
use libgmbus.Util.Within.{Within, cut_whitespaces-Within, scan_while-Within}
use libgmbus.Header.{Header, number, after_number, read_acks, after_destination}

-- A vertical tab: isspace counts it as a blank, and g_ascii_isspace does not.
abbrev pub vt : ℕ
vt = 11

abbrev pub NoVt : Bytes → Type 0
NoVt = All (λ c. c ≢ vt)

read_acks-vt :
    (fuel : ℕ) (self : Header) (rest : Bytes)
    → read_acks fuel self (vt ∷ rest) ≡ fault Fault.endless
unfolding read_acks number
read_acks-vt zero self rest = refl
read_acks-vt (suc fuel) self rest =
    rw
      (
        cut_whitespaces_stop vt rest refl,
        scan_while-append isdigit 64 [] (vt ∷ rest) tt (omega arith) refl,
      )
      (rw
        (
          read_acks-vt fuel (record self { acks = self.acks ++ (str_to_uint64 []).0 ∷ [] }) rest,
          str_to_uint64_empty,
        )
        refl)

All-suffix : (P : ℕ → Type 0) (s t : Bytes) → All P (s ++ t) → All P t
All-suffix P [] t h = h
All-suffix P (c ∷ s) t h = All-suffix P s t h.1

number_fault : (text : Bytes) → number text ≢ fault Fault.endless
unfolding number
number_fault text h = ground arith

-- A number that was read leaves a shorter text, unless the text begins with what stands behind it.
number_ok : (text numbuf rest : Bytes) → number text ≡ ok (numbuf, rest) → (numbuf ++ rest ≡ text)
unfolding number
number_ok text numbuf rest h = ground (arith, scan_while_parts isdigit 64 text)

no_space :
    (text : Bytes)
    → (g_ascii_isspace (peek text) || peek text == 0) ≡ false
    → NoVt text
    → isspace (peek text) ≡ true
    → ⊥
no_space [] blank free space = cc
no_space (c ∷ s) blank free space = ground (arith, free.0)

shorter :
    (text numbuf rest : Bytes)
    → numbuf ++ rest ≡ text
    → (g_ascii_isspace (peek text) || peek text == 0) ≡ false
    → NoVt text
    → isspace (peek rest) ≡ true
    → 0 < length text
    → (length rest < length text) × NoVt rest
shorter text [] rest e blank free space l =
    absurd (no_space text blank free (ap (λ t. isspace (peek t)) (sym e) ∙ space))
shorter text (d ∷ numbuf) rest e blank free space l = (
  omega (arith, length-append (d ∷ numbuf) rest, ap (λ (t : Bytes). length t) e),
  All-suffix (λ c. c ≢ vt) (d ∷ numbuf) rest (subst NoVt (sym e) free),
)

after_number-ne-endless :
    (self : Header) (text : Bytes) (r : Bytes × Bytes) (more : Outcome (Bool × Header × Bytes))
    → (isspace (peek r.1) ≡ true → more ≢ fault Fault.endless)
    → after_number self text r more ≢ fault Fault.endless
unfolding after_number
after_number-ne-endless self text (numbuf, rest) more ends h = ground arith

-- One round of the loop.
round-ne-endless :
    (fuel : ℕ) (self : Header) (text : Bytes)
    → ((numbuf rest : Bytes)
        → number text ≡ ok (numbuf, rest)
        → isspace (peek rest) ≡ true
        → read_acks fuel (record self { acks = self.acks ++ (str_to_uint64 numbuf).0 ∷ [] }) rest
          ≢ fault Fault.endless)
    → (number text >>= λ r.
        after_number self text r
          (read_acks fuel (record self { acks = self.acks ++ (str_to_uint64 r.0).0 ∷ [] }) r.1))
      ≢ fault Fault.endless
round-ne-endless fuel self text ends h =
    let k : Bytes × Bytes → Outcome (Bool × Header × Bytes) = λ r.
      after_number self text r
        (read_acks fuel (record self { acks = self.acks ++ (str_to_uint64 r.0).0 ∷ [] }) r.1) in
    elim (>>=-eq-fault (number text) k h) [
      | inl e ↦ number_fault text e
      | inr ((numbuf, rest), e, h') ↦
          after_number-ne-endless self text (numbuf, rest)
            (read_acks fuel (record self { acks = self.acks ++ (str_to_uint64 numbuf).0 ∷ [] })
              rest)
            (ends numbuf rest e) h'
    ]

read_acks-ne-endless :
    (fuel : ℕ) (self : Header) (buf : Bytes)
    → NoVt buf
    → length buf < fuel
    → read_acks fuel self buf ≢ fault Fault.endless
unfolding read_acks
read_acks-ne-endless zero self buf free l h = absurd (omega arith)
read_acks-ne-endless (suc fuel) self buf free l h =
    let k : Bytes → Outcome (Bool × Header × Bytes) = λ text. number text >>= λ r.
    after_number self text r
      (read_acks fuel (record self { acks = self.acks ++ (str_to_uint64 r.0).0 ∷ [] }) r.1) in
    elim (>>=-eq-fault (cut_whitespaces buf) k h) [
      | inl e ↦ cut_whitespaces-ne-endless buf e
      | inr (text, e, h') ↦
          let (free', blank) = cut_whitespaces-All (λ c. c ≢ vt) buf text e free in
          let sizes = cut_whitespaces-length buf text e in
          round-ne-endless fuel self text
            (λ numbuf rest found space.
              let (less, free'') =
                shorter text numbuf rest (number_ok text numbuf rest found) blank free' space
                  sizes.0 in
              read_acks-ne-endless fuel
                (record self { acks = self.acks ++ (str_to_uint64 numbuf).0 ∷ [] }) rest free''
                (omega (arith, less, sizes.1)))
            h'
    ]

-- The function returns.
abbrev pub Returns : Outcome (Bool × Header × Bytes) → Type 0
Returns run = (r : Bool × Header × Bytes) × (run ≡ ok r)

-- A ')' stands among the first 64 bytes of a text.
abbrev pub Closes : Bytes → Type 0
Closes = Within b')' 64

number-Returns :
    (text : Bytes)
    → Closes text
    → (numbuf : Bytes) × (rest : Bytes) × (number text ≡ ok (numbuf, rest)) × Closes rest
unfolding number
number-Returns text closes =
    let r = scan_while isdigit 64 text in
    let (l, closes') = scan_while-Within isdigit b')' 64 64 text refl closes in
    let within : (length r.0 == 64) ≡ false = ground (arith, l) in
    (r.0, r.1, rw within refl, closes')

after_number-Returns :
    (self : Header) (text numbuf rest : Bytes) (more : Outcome (Bool × Header × Bytes))
    → (isspace (peek rest) ≡ true → Returns more)
    → Returns (after_number self text (numbuf, rest) more)
unfolding after_number
after_number-Returns self text numbuf rest more next = elim (Bool-cases (peek text == b')')) [
  | inl e ↦ ((true, record self { ok = true }, text), rw e refl)
  | inr e ↦
      elim (Bool-cases
        ((not (isspace (peek rest)) || peek rest == b')') || not (str_to_uint64 numbuf).1)) [
          | inl f ↦ ((false, self, text), rw (e, f) refl)
          | inr f ↦ let (r, done) = next (ground arith) in (r, rw (e, f) done)
        ]
]

read_acks-Returns :
    (fuel : ℕ) (self : Header) (buf : Bytes)
    → NoVt buf
    → length buf < fuel
    → Closes buf
    → Returns (read_acks fuel self buf)
unfolding read_acks
read_acks-Returns zero self buf free l closes = absurd (omega arith)
read_acks-Returns (suc fuel) self buf free l closes =
    let (text, cut, there) = cut_whitespaces-Within b')' 64 buf refl closes in
    let (free', blank) = cut_whitespaces-All (λ c. c ≢ vt) buf text cut free in
    let sizes = cut_whitespaces-length buf text cut in
    let (numbuf, rest, found, behind) = number-Returns text there in
    let (r, done) =
      after_number-Returns self text numbuf rest
        (read_acks fuel (record self { acks = self.acks ++ (str_to_uint64 numbuf).0 ∷ [] }) rest)
        (λ space.
          let (less, free'') =
            shorter text numbuf rest (number_ok text numbuf rest found) blank free' space sizes.0 in
          read_acks-Returns fuel (record self { acks = self.acks ++ (str_to_uint64 numbuf).0 ∷ [] })
            rest free'' (omega (arith, less, sizes.1)) behind) in
    (r, rw (cut, found) done)

-- The list of acknowledgements, behind its '('. Where no vertical tab stands in the text, its loop does
-- not go on for ever; and if a ')' stands among the first 64 bytes of the text, it returns: it reads and writes inside its buffers. At a vertical tab in front of it the loop goes on
-- for ever.
pub after_destination-Returns :
    (self : Header) (text : Bytes)
    → (NoVt text → after_destination self (b'(' ∷ text) ≢ fault Fault.endless)
      × (NoVt text → Closes text → Returns (after_destination self (b'(' ∷ text)))
      × (after_destination self (b'(' ∷ vt ∷ text) ≡ fault Fault.endless)
unfolding after_destination
after_destination-Returns self text = (
  (λ free h.
      read_acks-ne-endless (suc (length (b'(' ∷ text))) self text free (omega arith)
        (sym (rw (cut_whitespaces_stop b'(' text refl) refl) ∙ h)),
  (λ free closes.
      let (r, done) =
        read_acks-Returns (suc (length (b'(' ∷ text))) self text free (omega arith) closes in
      (r, rw (cut_whitespaces_stop b'(' text refl) done)),
  rw (cut_whitespaces_stop b'(' (vt ∷ text) refl)
      (read_acks-vt (suc (length (b'(' ∷ vt ∷ text))) self text),
)
