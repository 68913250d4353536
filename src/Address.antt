-- ===== src/Address.antt =====
-- gmbus/maddress.c: addresses are lists of key:value elements, kept in the order of their keys. A
-- GPtrArray is its list, and a copy of an address is the address.
pub mod Sort
pub mod Match
pub mod Parse
pub mod Ends
use libgmbus.Base.{
  ℕ, zero, suc, ◌+◌, ◌-◌, ◌^◌, ◌%◌, Bool, true, false, ◌&&◌, ◌||◌, not, List, [], ◌∷◌, ◌++◌, Option,
  none, some, Bytes, codes, ltb, ◌==◌, if◌then◌else◌, length, drop, str_eq, g_ascii_isalnum,
  g_ascii_iscntrl, Outcome, ok, fault, Fault, ◌>>=◌,
}
use libgmbus.Platform.{Platform}
use libgmbus.Util.{peek, cut_whitespaces, scan_while, int64_to_str}

abbrev pub address_element_size : ℕ
address_element_size = 256

-- MAddressElement; its `ok` is the result of reading it.
pub record AddressElement : Type 0 where
  pub key : Bytes
  pub value : Bytes

pub record Address : Type 0 where
  pub elements : List AddressElement
  pub ok : Bool

-- `tmp[ el ] = '\0'` behind a copy loop; `tmp` has 256 places.
terminate : Bytes → Outcome (Unit {0})
terminate tmp = if length tmp == address_element_size then fault Fault.over_write else ok tt

unfoldable pub is_value_char : ℕ → Bool
is_value_char c = not (g_ascii_iscntrl c) && not (c == b' ') && not (c == b')')

-- The key, the ':' and the value.
key_and_value : Bytes → Outcome (Option AddressElement × Bytes)
key_and_value text = do
  let (key, behind) = scan_while g_ascii_isalnum address_element_size text
  _ ← terminate key
  let (value, rest) = scan_while is_value_char address_element_size (drop (length key + 1) text)
  let found = do _ ← terminate value; ok (some (record { key = key; value = value }), rest)
  if peek behind == b':' then found else ok (none, text)

-- mbus_address_element_read: the element, if there is one, and the text left in `buf`.
pub element_read : Bytes → Outcome (Option AddressElement × Bytes)
unfolding key_and_value
element_read buf = do text ← cut_whitespaces buf; key_and_value text

-- mbus_address_element_as_string: what it appends.
pub element_as_string : AddressElement → Bytes
element_as_string self = self.key ++ b':' ∷ self.value

-- mbus_address_element_is_equal.
unfoldable pub element_is_equal : AddressElement → AddressElement → Bool
element_is_equal self other =
    if not (str_eq self.key other.key)
    then false
    else if peek self.value == b'*' || peek other.value == b'*'
    then true
    else str_eq self.value other.value

-- __mbus_address_init.
pub address_new : Address
address_new = record { elements = []; ok = true }

-- __elements_sort( a, b ) <= 0: strcmp compares bytes.
unfoldable pub str_le : Bytes → Bytes → Bool
str_le [] t = true
str_le (c ∷ s) [] = false
str_le (c ∷ s) (d ∷ t) = let rest = str_le s t in if c == d then rest else ltb c d

insert : AddressElement → List AddressElement → List AddressElement
insert e [] = e ∷ []
insert e (x ∷ xs) = let rest = insert e xs in if str_le e.key x.key then e ∷ x ∷ xs else x ∷ rest

-- g_ptr_array_sort by the keys. It is documented as stable, so its result is determined.
pub sort : List AddressElement → List AddressElement
unfolding insert
sort [] = []
sort (x ∷ xs) = insert x (sort xs)

-- The loop of mbus_address_read, with fuel.
pub read_elements : ℕ → List AddressElement → Bytes → Outcome (List AddressElement × Bytes)
read_elements zero elements buf = fault Fault.endless
read_elements (suc fuel) elements buf = do
  (e, rest) ← element_read buf
  elim e as (λ _. Outcome (List AddressElement × Bytes)) [
    | none ↦ ok (elements, rest)
    | some e ↦
        let elements' = elements ++ e ∷ [] in
        let more = read_elements fuel elements' rest in
        if peek rest == b')' then ok (elements', rest) else more
  ]

-- What follows the loop of mbus_address_read.
closed : Address → List AddressElement × Bytes → Outcome (Bool × Address × Bytes)
closed self (elements, rest) = do
  rest' ← cut_whitespaces rest
  ok (
      if peek rest' == b')'
      then (true, record { elements = sort elements; ok = true }, drop 1 rest')
      else (false, record { elements = elements; ok = false }, rest'))

-- mbus_address_read behind the '(' that `text` starts with.
opened : Address → Bytes → Outcome (Bool × Address × Bytes)
unfolding closed
opened self text = read_elements (suc (length text)) self.elements (drop 1 text) >>= closed self

after_blanks : Address → Bytes → Outcome (Bool × Address × Bytes)
unfolding opened
after_blanks self text =
    if peek text == b'(' then opened self text else ok (false, record self { ok = false }, text)

-- mbus_address_read: the result, the address and the text left in `buf`.
pub address_read : Address → Bytes → Outcome (Bool × Address × Bytes)
unfolding after_blanks
address_read self buf = cut_whitespaces buf >>= after_blanks self

-- mbus_address_find.
unfoldable pub find : List AddressElement → Bytes → Option AddressElement
find [] key = none
find (e ∷ es) key = if str_eq e.key key then some e else find es key

abbrev pub id_key : Bytes
id_key = codes "id"

-- The loop of mbus_address_disambiguate.
pub has_id : List AddressElement → Bool
has_id [] = false
has_id (e ∷ es) = str_eq e.key id_key || has_id es

-- mbus_address_disambiguate, with the result of __generate_id.
pub disambiguate : Bytes → Address → Address
disambiguate id self = record self {
  elements = sort (
      if has_id self.elements
      then self.elements
      else self.elements ++ record { key = id_key; value = id } ∷ []);
}

elements_as_string : List AddressElement → Bytes
elements_as_string [] = []
elements_as_string (e ∷ es) = element_as_string e ++ b' ' ∷ elements_as_string es

-- mbus_address_as_string: what it appends.
pub as_string : Address → Bytes
unfolding elements_as_string
as_string self = b'(' ∷ (elements_as_string self.elements ++ b')' ∷ [])

elements_equal : List AddressElement → List AddressElement → Bool
elements_equal [] [] = true
elements_equal [] (y ∷ your) = false
elements_equal (x ∷ my) [] = false
elements_equal (x ∷ my) (y ∷ your) = element_is_equal x y && elements_equal my your

-- mbus_address_is_equal: the lengths are compared, then the elements pair by pair.
unfoldable pub is_equal : Address → Address → Bool
unfolding elements_equal
is_equal self other =
    if length self.elements == length other.elements
    then elements_equal self.elements other.elements
    else false

-- != NULL.
abbrev pub is_found : Option AddressElement → Bool
is_found none = false
is_found (some e) = true

-- mbus_address_is_unique.
unfoldable pub is_unique : Address → Bool
is_unique self = is_found (find self.elements id_key)

-- mbus_address_hash.
unfoldable pub hash : Platform → Address → ℕ
hash p self = elim (find self.elements id_key) [ none ↦ 0 | some e ↦ p.string_hash e.value ]

unfoldable pub found_in : List AddressElement → AddressElement → Bool
found_in [] y = false
found_in (x ∷ my) y = element_is_equal x y || found_in my y

unfoldable pub all_found : List AddressElement → List AddressElement → Bool
all_found my [] = true
all_found my (y ∷ your) = found_in my y && all_found my your

-- mbus_address_is_subset_of: every element of `other` is found in `self`.
unfoldable pub is_subset_of : Address → Address → Bool
unfolding found_in all_found
is_subset_of self other = all_found self.elements other.elements
