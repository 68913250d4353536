-- ===== src/Util.antt =====
-- gmbus/mutil.c: blanks, searches and decimal numbers in a text; MError and the callback objects.
-- A GString is the list of its bytes; the terminator stands behind the last one.
pub mod Blanks
pub mod Decimal
pub mod Scan
pub mod Within
use mathlib.Core.Option
use libgmbus.Base.{
  ℕ, zero, suc, ◌+◌, ◌-◌, ◌*◌, ◌/◌, ◌%◌, ◌^◌, Bool, true, false, ◌&&◌, ◌||◌, not, List, [], ◌∷◌,
  ◌++◌, Option, none, some, ◌≡◌, refl, Bytes, codes, ltb, leb, ◌==◌, if◌then◌else◌, get_or,
  g_ascii_isspace, isspace, isdigit, Outcome, ok, fault, Fault,
}

-- *pos: the terminator at the end.
abbrev pub peek : Bytes → ℕ
peek [] = 0
peek (c ∷ s) = c

-- mbus_util_cut_whitespaces: NUL counts as a blank, so the scan does not stop at the terminator.
pub cut_whitespaces : Bytes → Outcome Bytes
cut_whitespaces [] = fault Fault.over_read
cut_whitespaces (c ∷ s) = if g_ascii_isspace c || c == 0 then cut_whitespaces s else ok (c ∷ s)

-- mbus_util_find_char, as the offset of the place found.
unfoldable pub find_char : Bytes → ℕ → Option ℕ
find_char [] c = none
find_char (d ∷ s) c =
    let rest = Option.map suc (find_char s c) in
    if d == 0 then none else if d == c then some 0 else rest

-- A loop that copies bytes to a buffer while they fit a test and fewer than `room` are copied.
pub scan_while : (ℕ → Bool) → ℕ → Bytes → Bytes × Bytes
scan_while test zero s = ([], s)
scan_while test (suc room) [] = ([], [])
scan_while test (suc room) (c ∷ s) =
    let more : Bytes × Bytes = let r = scan_while test room s in (c ∷ r.0, r.1) in
    if test c then more else ([], c ∷ s)

-- What the leading digits of a text spell behind `n`.
pub digits_value : ℕ → Bytes → ℕ
digits_value n [] = n
digits_value n (c ∷ s) =
    let rest = digits_value (n * 10 + (c - b'0')) s in if isdigit c then rest else n

skip_spaces : Bytes → Bytes
skip_spaces [] = []
skip_spaces (c ∷ s) = if isspace c then skip_spaces s else c ∷ s

abbrev pub u64_max : ℕ
u64_max = 2 ^ 64 - 1

-- The result and whether errno is ERANGE.
saturate : Bool → ℕ → ℕ × Bool
saturate negative v =
    if ltb u64_max v
    then (u64_max, true)
    else (if negative then (2 ^ 64 - v) % 2 ^ 64 else v, false)

signed_number : Bytes → ℕ × Bool
unfolding saturate
signed_number [] = (0, false)
signed_number (c ∷ s) =
    if c == b'-'
    then saturate true (digits_value 0 s)
    else saturate false (digits_value 0 (if c == b'+' then s else c ∷ s))

-- strtoull( s, NULL, 10 ) of the C library.
pub strtoull : Bytes → ℕ × Bool
unfolding skip_spaces signed_number
strtoull s = signed_number (skip_spaces s)

-- mbus_util_str_to_uint64: the value stored in `v`, and the result.
pub str_to_uint64 : Bytes → ℕ × Bool
str_to_uint64 s = ((strtoull s).0, not (strtoull s).1)

-- digits[ d ].
unfoldable pub digit : ℕ → ℕ
digit d = get_or (codes "0123456789ABCDEFX") d 0

-- The loop over `number`, with the rounds left.
unfoldable pub build_number : ℕ → ℕ → Bytes → Bytes
build_number zero number out = out
build_number (suc rounds) number out =
    let out' = digit (number % 10) ∷ out in
    let rest = build_number rounds (number / 10) out' in if number / 10 == 0 then out' else rest

-- A guint64 that is read as a gint64 is negative from 2^63 on.
abbrev pub is_negative : ℕ → Bool
is_negative number = leb (2 ^ 63) number

-- mbus_util_int64_to_str, for a guint64: what it appends.
unfoldable pub int64_to_str : ℕ → Bool → Bytes
int64_to_str number sign =
    if sign && is_negative number
    then b'-' ∷ build_number 127 ((2 ^ 64 - number) % 2 ^ 64) []
    else build_number 127 number []

pub data ErrorType : Type 0 where
  noerr multicast_join unicast config read coder_setup decode parse write encode send
        send_reliable :
      ErrorType

-- MError, whose `message` NULL is `none`.
pub record Error : Type 0 where
  pub type : ErrorType
  pub message : Option Bytes

-- mbus_error_reset and mbus_error_init.
abbrev pub error_reset : Error
error_reset = record { type = noerr; message = none }

-- mbus_error_set.
abbrev pub error_set : ErrorType → Bytes → Error
error_set id text = record { type = id; message = some text }

minus_twelve : int64_to_str (2 ^ 64 - 12) true ≡ codes "-12"
unfolding int64_to_str build_number digit
minus_twelve = refl
