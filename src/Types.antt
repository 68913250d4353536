-- ===== src/Types.antt =====
-- gmbus/mtypes.c: the objects that commands carry. An MObject is a tag and its value; a GSList is
-- its list. A copy of an object that a program owns is the object.
pub mod Symbols
pub mod Lists
pub mod Read
use libgmbus.Base.{
  ℕ, zero, suc, ◌+◌, Bool, true, false, ◌&&◌, ◌||◌, [], ◌∷◌, ◌++◌, Option, none, some, Bytes, codes,
  ◌==◌, if◌then◌else◌, length, g_ascii_isalpha, isdigit, Outcome, ok, fault, Fault, ◌>>=◌, ltb,
}
use libgmbus.Platform.{Platform}
use libgmbus.Base64.{base64encode, base64decode}
use libgmbus.Util.{int64_to_str}

-- MObject; `null` is a NULL pointer. A gint64 and a gdouble are their 64-bit patterns.
mutual
  pub data Object : Type 0 where
    null : Object
    minteger : ℕ → Object
    mfloat : ℕ → Object
    mstring : Bytes → Object
    msymbol : Bytes → Object
    mdata : Bytes → Object
    mlist : Objects → Object

  pub data Objects : Type 0 where
    nil : Objects
    cons : Object → Objects → Objects

-- mbus_symbol_is_valid_char.
unfoldable pub is_valid_char : ℕ → Bool
is_valid_char c = g_ascii_isalpha c || isdigit c || c == b'-' || c == b'_' || c == b'.'

-- __is_valid_symbol, and the loop of mbus_symbol_is_valid.
unfoldable pub is_valid_symbol : Bytes → Bool
unfolding is_valid_char
is_valid_symbol [] = true
is_valid_symbol (c ∷ sym) = is_valid_char c && is_valid_symbol sym

-- mbus_symbol_new; of a NULL text it makes an empty symbol.
unfoldable pub symbol_new : Option Bytes → Object
symbol_new none = msymbol []
symbol_new (some str) = if is_valid_symbol str then msymbol str else null

-- mbus_symbol_set: the new content. g_error ends the program.
pub symbol_set : Bytes → Bytes → Outcome Bytes
symbol_set content str = if is_valid_symbol content then ok str else fault Fault.failed_assertion

-- mbus_data_new.
pub data_new : Platform → Option Bytes → Bool → Outcome Object
data_new p none decode = ok (mdata [])
data_new p (some str) true = do array ← base64decode p str; ok (mdata array)
data_new p (some str) false = ok (mdata str)

-- mbus_list_append.
unfoldable pub append : Objects → Object → Objects
append nil element = cons element nil
append (cons x xs) element = cons x (append xs element)

-- mbus_list_copy with the copies of the elements. A NULL is passed over; a symbol that is not valid
-- is copied to a NULL.
mutual
  pub copy : Object → Object
  copy null = null
  copy (minteger number) = minteger number
  copy (mfloat number) = mfloat number
  copy (mstring str) = mstring str
  copy (msymbol str) = symbol_new (some str)
  copy (mdata array) = mdata array
  copy (mlist list) = mlist (list_copy list)

  pub list_copy : Objects → Objects
  list_copy nil = nil
  list_copy (cons null xs) = list_copy xs
  list_copy (cons (minteger number) xs) = cons (copy (minteger number)) (list_copy xs)
  list_copy (cons (mfloat number) xs) = cons (copy (mfloat number)) (list_copy xs)
  list_copy (cons (mstring str) xs) = cons (copy (mstring str)) (list_copy xs)
  list_copy (cons (msymbol str) xs) = cons (copy (msymbol str)) (list_copy xs)
  list_copy (cons (mdata array) xs) = cons (copy (mdata array)) (list_copy xs)
  list_copy (cons (mlist list) xs) = cons (mlist (list_copy list)) (list_copy xs)

-- mbus_list_as_string with the printers of the elements: what they append.
unfoldable mutual
  pub as_string : Platform → Object → Outcome Bytes
  as_string p null = ok []
  as_string p (minteger number) = ok (int64_to_str number true)
  as_string p (mfloat number) = ok (p.print_double number)
  as_string p (mstring str) = ok (b'"' ∷ (str ++ b'"' ∷ []))
  as_string p (msymbol str) = ok str
  as_string p (mdata array) = do text ← base64encode p array; ok (b'<' ∷ (text ++ b'>' ∷ []))
  as_string p (mlist list) = do text ← elements_as_string p list; ok (b'(' ∷ (text ++ b')' ∷ []))

  pub elements_as_string : Platform → Objects → Outcome Bytes
  elements_as_string p nil = ok []
  elements_as_string p (cons x xs) = do
    text ← as_string p x
    rest ← elements_as_string p xs
    ok (text ++ b' ' ∷ rest)

abbrev pub list_as_string : Platform → Objects → Outcome Bytes
list_as_string p list = as_string p (mlist list)

-- mbus_list_length.
pub list_length : Objects → ℕ
list_length nil = 0
list_length (cons x xs) = suc (list_length xs)

-- mbus_list_index.
unfoldable pub index : Objects → ℕ → Object
index nil idx = null
index (cons x xs) zero = x
index (cons x xs) (suc idx) = index xs idx

-- mbus_list_remove: the result, the list behind the object, and the object whose memory is freed.
-- g_slist_remove is given the link, which is no element's address, and so removes nothing.
pub remove : Objects → ℕ → Bool → Bool × Objects × Option Object
remove list idx remove_data =
    if ltb idx (list_length list)
    then (true, list, if remove_data then some (index list 0) else none)
    else (false, list, none)

-- The loop of mbus_argument_check: every case of its switch only breaks.
unfoldable pub check_elements : Objects → Outcome Bool
check_elements nil = ok true
check_elements (cons null xs) = fault Fault.null_pointer
check_elements (cons (minteger number) xs) = check_elements xs
check_elements (cons (mfloat number) xs) = check_elements xs
check_elements (cons (mstring str) xs) = check_elements xs
check_elements (cons (msymbol str) xs) = check_elements xs
check_elements (cons (mdata array) xs) = check_elements xs
check_elements (cons (mlist list) xs) = check_elements xs

-- mbus_argument_check; nothing is appended to its error text.
unfoldable pub argument_check : Bytes → Object → Outcome Bool
argument_check pattern null = fault Fault.null_pointer
argument_check pattern (mlist list) = check_elements list
argument_check pattern arguments = fault Fault.failed_assertion
