-- ===== src/Address/Parse.antt =====
-- mbus_address_read against mbus_address_as_string.
use libgmbus.Base.{
  ℕ, zero, suc, ◌≤◌, ◌<◌, true, false, ◌||◌, List, [], ◌∷◌, ◌++◌, none, some, ◌≡◌, refl, ◌∙◌, arith,
  Bytes, ◌==◌, All, length, length-append, drop-append_suc, append_assoc, append-nil, ok,
  g_ascii_isalnum, g_ascii_isspace,
}
use libgmbus.Util.{cut_whitespaces}
use libgmbus.Util.Blanks.{cut_whitespaces_stop, cut_whitespaces_blank}
use libgmbus.Util.Scan.{scan_while-append}
use libgmbus.Address.{
  AddressElement, Address, terminate, is_value_char, element_read, element_as_string,
  elements_as_string, as_string, read_elements, address_read, address_new, sort,
}
use libgmbus.Address.Sort.{IsSorted, sort_sorted}

-- What an element must be for its text to be read back: fewer than 256 letters and digits, and
-- fewer than 256 bytes that are no control character, blank or ')'.
pub record IsReadable (e : AddressElement) : Type 0 where
  pub key_chars : All (λ c. g_ascii_isalnum c ≡ true) e.key
  pub key_fits : length e.key < 256
  pub value_chars : All (λ c. is_value_char c ≡ true) e.value
  pub value_fits : length e.value < 256

-- A text that stands where a key may start.
alnum-stops : (c : ℕ) → g_ascii_isalnum c ≡ true → (g_ascii_isspace c || c == 0) ≡ false
alnum-stops c h = ground arith

cut_key :
    (key rest : Bytes)
    → All (λ c. g_ascii_isalnum c ≡ true) key
    → cut_whitespaces (key ++ b':' ∷ rest) ≡ ok (key ++ b':' ∷ rest)
cut_key [] rest h = cut_whitespaces_stop b':' rest refl
cut_key (c ∷ key) rest h = cut_whitespaces_stop c _ (alnum-stops c h.0)

terminate_short : (tmp : Bytes) → length tmp < 256 → terminate tmp ≡ ok tt
unfolding terminate
terminate_short tmp h = ground arith

element_read-element_as_string :
    (e : AddressElement) (c : ℕ) (rest : Bytes)
    → IsReadable e
    → is_value_char c ≡ false
    → element_read (element_as_string e ++ c ∷ rest) ≡ ok (some e, c ∷ rest)
unfolding element_read element_as_string
element_read-element_as_string e c rest r stop =
    let behind = e.value ++ c ∷ rest in
    rw (
      append_assoc,
      cut_key e.key behind r.key_chars,
      scan_while-append g_ascii_isalnum 256 e.key (b':' ∷ behind) r.key_chars r.key_fits refl,
      drop-append_suc e.key b':' behind,
      scan_while-append is_value_char 256 e.value (c ∷ rest) r.value_chars r.value_fits stop,
      terminate_short e.key r.key_fits,
      terminate_short e.value r.value_fits,
    )

element_read_blank : (s : Bytes) → element_read (b' ' ∷ s) ≡ element_read s
unfolding element_read
element_read_blank s = rw (cut_whitespaces_blank s)

element_read_close : (rest : Bytes) → element_read (b')' ∷ rest) ≡ ok (none, b')' ∷ rest)
unfolding element_read terminate
element_read_close rest = rw (
  cut_whitespaces_stop b')' rest refl,
  scan_while-append g_ascii_isalnum 256 [] (b')' ∷ rest) tt (omega arith) refl,
)

read_elements_blank :
    (fuel : ℕ) (acc : List AddressElement) (s : Bytes)
    → read_elements fuel acc (b' ' ∷ s) ≡ read_elements fuel acc s
unfolding read_elements
read_elements_blank zero acc s = refl
read_elements_blank (suc fuel) acc s = rw (element_read_blank s)

-- What an element that was read leads to.
read_elements_step :
    (fuel : ℕ) (acc : List AddressElement) (buf : Bytes) (e : AddressElement) (rest : Bytes)
    → element_read buf ≡ ok (some e, b' ' ∷ rest)
    → read_elements (suc fuel) acc buf ≡ read_elements fuel (acc ++ e ∷ []) (b' ' ∷ rest)
unfolding read_elements
read_elements_step fuel acc buf e rest h = rw h

read_elements-elements_as_string :
    (fuel : ℕ) (acc es : List AddressElement) (rest : Bytes)
    → All IsReadable es
    → length es < fuel
    → read_elements fuel acc (elements_as_string es ++ b')' ∷ rest) ≡ ok (acc ++ es, b')' ∷ rest)
unfolding elements_as_string is_value_char
read_elements-elements_as_string zero acc es rest r h = absurd (omega arith)
read_elements-elements_as_string (suc fuel) acc [] rest r h =
    unfold read_elements in rw (element_read_close rest, append-nil)
read_elements-elements_as_string (suc fuel) acc (e ∷ es) rest r h =
    let behind = elements_as_string es ++ b')' ∷ rest in
    rw append_assoc (
      read_elements_step fuel acc (element_as_string e ++ b' ' ∷ behind) e behind
        (element_read-element_as_string e b' ' behind r.0 refl)
      ∙ read_elements_blank fuel (acc ++ e ∷ []) behind
      ∙ read_elements-elements_as_string fuel (acc ++ e ∷ []) es rest r.1 (omega arith)
      ∙ rw append_assoc)

length-elements_as_string : (es : List AddressElement) → length es ≤ length (elements_as_string es)
unfolding elements_as_string
length-elements_as_string [] = omega arith
length-elements_as_string (e ∷ es) = omega (
  arith,
  length-append (element_as_string e) (b' ' ∷ elements_as_string es),
  length-elements_as_string es,
)

-- A printed address is read back behind the elements that the reading address has, all sorted.
pub address_read-as_string :
    (self a : Address) (rest : Bytes)
    → All IsReadable a.elements
    → address_read self (as_string a ++ rest)
      ≡ ok (true, record { elements = sort (self.elements ++ a.elements); ok = true }, rest)
unfolding address_read as_string
address_read-as_string self a rest r =
    let text = elements_as_string a.elements ++ b')' ∷ rest in
    let enough : length a.elements < suc (length (b'(' ∷ text)) = omega (
      arith,
      length-elements_as_string a.elements,
      length-append (elements_as_string a.elements) (b')' ∷ rest),
    ) in
    rw (
      append_assoc,
      cut_whitespaces_stop b'(' text refl,
      read_elements-elements_as_string (suc (length (b'(' ∷ text))) self.elements a.elements rest r
          enough,
      cut_whitespaces_stop b')' rest refl,
    )

-- An address that is sorted, of elements that can be read (fewer than 256 letters and digits, fewer
-- than 256 bytes that are no control character, blank or ')'), is read back from its text as it was.
pub address_read-as_string_sorted :
    (a : Address) (rest : Bytes)
    → All IsReadable a.elements
    → IsSorted a.elements
    → address_read address_new (as_string a ++ rest)
      ≡ ok (true, record { elements = a.elements; ok = true }, rest)
unfolding address_new
address_read-as_string_sorted a rest r s =
    address_read-as_string address_new a rest r ∙ rw (sort_sorted a.elements s)

pub address_read_blank :
    (self : Address) (s : Bytes) → address_read self (b' ' ∷ s) ≡ address_read self s
unfolding address_read
address_read_blank self s = rw (cut_whitespaces_blank s) refl

pub cut_whitespaces-as_string :
    (a : Address) (rest : Bytes) → cut_whitespaces (as_string a ++ rest) ≡ ok (as_string a ++ rest)
unfolding as_string
cut_whitespaces-as_string a rest = cut_whitespaces_stop b'(' _ refl
