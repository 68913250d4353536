-- ===== src/Address/Ends.antt =====
-- mbus_address_read comes to an end: each round of its loop takes at least one byte.
use libgmbus.Base.{
  ℕ, zero, suc, ◌+◌, ◌<◌, List, [], ◌∷◌, ◌++◌, Option, none, some, ◌≡◌, ◌≢◌, refl, arith, Bytes,
  length, length-drop, drop, Outcome, ok, fault, Fault, >>=-eq-ok, >>=-eq-fault, inl, inr,
  g_ascii_isalnum, true, false, Bool, Bool-cases, subst, ◌∙◌, if◌then◌else◌, ap, ◌==◌,
}
use libgmbus.Util.{cut_whitespaces, scan_while, peek}
use libgmbus.Util.Blanks.{cut_whitespaces-length, cut_whitespaces-ne-endless}
use libgmbus.Util.Scan.{scan_while-length, scan_while_parts}
use libgmbus.Util.Within.{Within, Within-behind, cut_whitespaces-Within, scan_while-Within}
use libgmbus.Address.{
  AddressElement, Address, terminate, is_value_char, key_and_value, opened, closed, after_blanks,
  element_read, read_elements, address_read, sort,
}

key_and_value-shorter :
    (text : Bytes) (e : AddressElement) (rest : Bytes)
    → 0 < length text
    → key_and_value text ≡ ok (some e, rest)
    → length rest < length text
unfolding key_and_value terminate
key_and_value-shorter text e rest l h =
    let key = (scan_while g_ascii_isalnum 256 text).0 in
    ground (
      arith,
      scan_while-length is_value_char 256 (drop (length key + 1) text),
      length-drop (length key + 1) text,
    )

key_and_value-ne-endless : (text : Bytes) → key_and_value text ≢ fault Fault.endless
unfolding key_and_value terminate
key_and_value-ne-endless text h = ground arith

pub element_read-shorter :
    (buf : Bytes) (e : AddressElement) (rest : Bytes)
    → element_read buf ≡ ok (some e, rest)
    → length rest < length buf
unfolding element_read
element_read-shorter buf e rest h =
    let (text, cut, found) = >>=-eq-ok (cut_whitespaces buf) key_and_value h in
    let shorter = cut_whitespaces-length buf text cut in
    omega (arith, key_and_value-shorter text e rest shorter.0 found)

pub element_read-ne-endless : (buf : Bytes) → element_read buf ≢ fault Fault.endless
unfolding element_read
element_read-ne-endless buf h = elim (>>=-eq-fault (cut_whitespaces buf) key_and_value h) [
  | inl e ↦ cut_whitespaces-ne-endless buf e
  | inr (text, _, e) ↦ key_and_value-ne-endless text e
]

-- One round of the loop.
round-ne-endless :
    (fuel : ℕ) (acc : List AddressElement) (buf : Bytes)
    (r : Outcome (Option AddressElement × Bytes))
    → ((e : AddressElement) (rest : Bytes)
        → r ≡ ok (some e, rest)
        → read_elements fuel (acc ++ e ∷ []) rest ≢ fault Fault.endless)
    → element_read buf ≡ r
    → read_elements (suc fuel) acc buf ≢ fault Fault.endless
unfolding read_elements
round-ne-endless fuel acc buf (fault f) ih e h = element_read-ne-endless buf (ground arith)
round-ne-endless fuel acc buf (ok (none, rest)) ih e h = ground arith
round-ne-endless fuel acc buf (ok (some e, rest)) ih eq h = ground (arith, ih e rest)

-- Enough fuel for a text is one more than its length.
read_elements-ne-endless :
    (fuel : ℕ) (acc : List AddressElement) (buf : Bytes)
    → length buf < fuel
    → read_elements fuel acc buf ≢ fault Fault.endless
read_elements-ne-endless zero acc buf l = absurd (omega arith)
read_elements-ne-endless (suc fuel) acc buf l =
    round-ne-endless fuel acc buf (element_read buf)
      (λ e rest found.
        read_elements-ne-endless fuel (acc ++ e ∷ []) rest
          (omega (arith, element_read-shorter buf e rest found)))
      refl

opened-ne-endless : (self : Address) (text : Bytes) → opened self text ≢ fault Fault.endless
unfolding opened
opened-ne-endless self text h =
    elim (>>=-eq-fault (read_elements (suc (length text)) self.elements (drop 1 text)) (closed self)
      h) [
        | inl e ↦
            read_elements-ne-endless (suc (length text)) self.elements (drop 1 text)
              (omega (arith, length-drop 1 text)) e
        | inr ((elements, rest), _, e) ↦
            cut_whitespaces-ne-endless rest (unfold closed in ground arith)
      ]

-- No text keeps the loop going for ever.
address_read-ne-endless :
    (self : Address) (buf : Bytes) → address_read self buf ≢ fault Fault.endless
unfolding address_read
address_read-ne-endless self buf h =
    elim (>>=-eq-fault (cut_whitespaces buf) (after_blanks self) h) [
      | inl e ↦ cut_whitespaces-ne-endless buf e
      | inr (text, _, e) ↦ opened-ne-endless self text (unfold after_blanks in ground arith)
    ]

-- A ')' stands among the first 256 bytes of a text.
abbrev pub Closes : Bytes → Type 0
Closes = Within b')' 256

key_and_value-Closes :
    (text : Bytes)
    → Closes text
    → (e : Option AddressElement) × (rest : Bytes) × (key_and_value text ≡ ok (e, rest))
      × Closes rest
unfolding key_and_value terminate
key_and_value-Closes text closes =
    let key = scan_while g_ascii_isalnum 256 text in
    let (whole, fits, alnum) = scan_while_parts g_ascii_isalnum 256 text in
    let (l, closes') = scan_while-Within g_ascii_isalnum b')' 256 256 text refl closes in
    let first : (length key.0 == 256) ≡ false = ground (arith, l) in
    elim (Bool-cases (peek key.1 == b':')) [
      | inr other ↦ rw (first, other) (none, text, refl, closes)
      | inl colon ↦
          let behind = drop (length key.0 + 1) text in
          let next : suc (length key.0) ≡ length key.0 + 1 = omega arith in
          let value = scan_while is_value_char 256 behind in
          let (l', closes'') =
            scan_while-Within is_value_char b')' 256 256 behind (unfold is_value_char in refl) (
              subst (λ n. Closes (drop n text)) next
                (behind_colon key.0 key.1 text whole closes' colon)) in
          let second : (length value.0 == 256) ≡ false = ground (arith, l') in
          rw (first, second, colon)
            (some (record { key = key.0; value = value.0 }), value.1, refl, closes'')
    ]
  where
    behind_colon :
        (key behind text : Bytes)
        → key ++ behind ≡ text
        → Closes behind
        → (peek behind == b':') ≡ true
        → Closes (drop (suc (length key)) text)
    behind_colon key [] text e closes colon = absurd (ground arith)
    behind_colon [] (c ∷ behind) text e closes colon =
        rw (← e) (Within-behind b')' 256 c behind (λ same. ground (arith, same)) closes)
    behind_colon (k ∷ key) (c ∷ behind) text e closes colon =
        rw (← e) (behind_colon key (c ∷ behind) (key ++ c ∷ behind) refl closes colon)

element_read-Closes :
    (buf : Bytes)
    → Closes buf
    → (e : Option AddressElement) × (rest : Bytes) × (element_read buf ≡ ok (e, rest)) × Closes rest
unfolding element_read
element_read-Closes buf closes =
    let (text, cut, there) = cut_whitespaces-Within b')' 256 buf refl closes in
    let (e, rest, read, behind) = key_and_value-Closes text there in
    (e, rest, rw (cut, read) refl, behind)

-- What the loop results in.
abbrev Read : Outcome (List AddressElement × Bytes) → Type 0
Read loop =
    (elements : List AddressElement) × (rest : Bytes) × (loop ≡ ok (elements, rest)) × Closes rest

round-Closes :
    (fuel : ℕ) (acc : List AddressElement) (buf rest : Bytes) (e : Option AddressElement)
    → element_read buf ≡ ok (e, rest)
    → Closes rest
    → ((f : AddressElement) → e ≡ some f → Read (read_elements fuel (acc ++ f ∷ []) rest))
    → Read (read_elements (suc fuel) acc buf)
unfolding read_elements
round-Closes fuel acc buf rest none read mem more = (acc, rest, rw read refl, mem)
round-Closes fuel acc buf rest (some f) read mem more =
    let (elements, rest', next, mem') = more f refl in
    elim (Bool-cases (peek rest == b')')) [
      | inl c ↦ (acc ++ f ∷ [], rest, rw (read, c) refl, mem)
      | inr c ↦ (elements, rest', rw (read, c) next, mem')
    ]

read_elements-Closes :
    (fuel : ℕ) (acc : List AddressElement) (buf : Bytes)
    → length buf < fuel
    → Closes buf
    → Read (read_elements fuel acc buf)
read_elements-Closes zero acc buf l closes = absurd (omega arith)
read_elements-Closes (suc fuel) acc buf l closes =
    let (e, rest, read, mem) = element_read-Closes buf closes in
    round-Closes fuel acc buf rest e read mem (λ f found.
      let less =
        element_read-shorter buf f rest
          (read ∙ ap (λ (o : Option AddressElement). ok (o, rest)) found) in
      read_elements-Closes fuel (acc ++ f ∷ []) rest (omega (arith, less)) mem)

-- The function returns.
abbrev pub Returns : Outcome (Bool × Address × Bytes) → Type 0
Returns run = (r : Bool × Address × Bytes) × (run ≡ ok r)

closed-Returns :
    (self : Address) (elements : List AddressElement) (rest : Bytes)
    → Closes rest
    → Returns (closed self (elements, rest))
unfolding closed
closed-Returns self elements rest mem =
    let (text, cut, there) = cut_whitespaces-Within b')' 256 rest refl mem in
    (
      if peek text == b')'
          then (true, record { elements = sort elements; ok = true }, drop 1 text)
          else (false, record { elements = elements; ok = false }, text),
      rw cut refl,
    )

opened-Closes :
    (self : Address) (rest : Bytes) → Closes (b'(' ∷ rest) → Returns (opened self (b'(' ∷ rest))
unfolding opened
opened-Closes self rest closes =
    let (elements, behind, read, mem') =
      read_elements-Closes (suc (length (b'(' ∷ rest))) self.elements rest (omega arith)
        (Within-behind b')' 256 b'(' rest (λ same. ground (arith, same)) closes) in
    let (r, end) = closed-Returns self elements behind mem' in (r, rw read end)

after_blanks-Closes :
    (self : Address) (text : Bytes) → Closes text → Returns (after_blanks self text)
unfolding after_blanks
after_blanks-Closes self [] closes = absurd (ground arith)
after_blanks-Closes self (c ∷ rest) closes = elim (Bool-cases (c == b'(')) [
  | inr e ↦ ((false, record self { ok = false }, c ∷ rest), rw e refl)
  | inl e ↦
      let same : c ≡ b'(' = ground (arith, e) in
      let (r, read) = opened-Closes self rest (subst (λ d. Closes (d ∷ rest)) same closes) in
      (r, rw same read)
]

-- On a text with a ')' among its first 256 bytes mbus_address_read returns: it reads and writes inside
-- its buffers. On any text its loop comes to an end, if only by reading or writing outside of them.
pub address_read-Returns :
    (self : Address) (buf : Bytes)
    → (Closes buf → Returns (address_read self buf)) × (address_read self buf ≢ fault Fault.endless)
unfolding address_read
address_read-Returns self buf = (
  (λ closes.
      let (text, cut, there) = cut_whitespaces-Within b')' 256 buf refl closes in
      let (r, read) = after_blanks-Closes self text there in (r, rw cut read)),
  address_read-ne-endless self buf,
)
