-- ===== src/Types/Read.antt =====
-- mbus_list_read. The text is changed while it is read, so a place of it is kept with what lies in front.
pub mod Tokens
pub mod Rounds
pub mod Flat
pub mod Loops
pub mod RoundTrip
pub mod Endless
use libgmbus.Base.{
  ℕ, zero, suc, ◌+◌, ◌-◌, Bool, true, false, ◌&&◌, ◌||◌, [], ◌∷◌, Option, none, some, Bytes, ◌==◌,
  if◌then◌else◌, length, take, drop, isdigit, g_ascii_isalpha, g_ascii_isupper, Outcome, ok, fault,
  Fault, ◌>>=◌,
}
use libgmbus.Platform.{Platform}
use libgmbus.Util.{peek, find_char, strtoull}
use libgmbus.Types.{
  Object, Objects, null, minteger, mfloat, mstring, msymbol, mdata, mlist, nil, symbol_new,
  data_new, append,
}

-- A place of a text: the bytes in front, the nearest first, and those from there on.
abbrev pub Cursor : Type 0
Cursor = Bytes × Bytes

abbrev pub move : ℕ → Bytes → Bytes → Cursor
move zero before here = (before, here)
move (suc n) before [] = (before, [])
move (suc n) before (c ∷ here) = move n (c ∷ before) here

-- The whole text.
unfoldable pub whole_text : Bytes → Bytes → Bytes
whole_text [] here = here
whole_text (c ∷ before) here = whole_text before (c ∷ here)

-- *end = '\0'; on the terminator it changes nothing.
abbrev pub put_nul : Cursor → Cursor
put_nul (before, []) = (before, [])
put_nul (before, c ∷ here) = (before, 0 ∷ here)

-- The end of a token of `n` bytes, with a NUL on it.
abbrev pub cut : ℕ → Cursor → Cursor
cut n at = put_nul (move n at.0 at.1)

-- pos = ++end, which is read next: behind the terminator there is nothing.
pub step_on : Cursor → Outcome Cursor
step_on (before, []) = fault Fault.over_read
step_on (before, c ∷ here) = ok (c ∷ before, here)

-- __first_non_whitespace, and the move by it.
pub skip_blanks : Bytes → Bytes → Cursor
skip_blanks before [] = (before, [])
skip_blanks before (c ∷ here) =
    if c == b' ' || c == b'\t' then skip_blanks (c ∷ before) here else (before, c ∷ here)

-- A token: `goto failed`, or the object and its `end`.
pub data Step : Type 0 where
  failed : Cursor → Step
  found : Object → Cursor → Step

-- The branches of the loop. A string or data begins behind its first quote.
pub read_string : Cursor → Step
read_string at = elim (find_char at.1 b'"') [
  | none ↦ failed at
  | some n ↦ found (mstring (take n at.1)) (cut n at)
]

pub read_data : Platform → Cursor → Outcome Step
read_data p at = elim (find_char at.1 b'>') [
  | none ↦ ok (failed at)
  | some n ↦ data_new p (some (take n at.1)) true >>= λ obj. ok (found obj (cut n at))
]

-- while ( *end != ' ' && *end != '\n' && *end != '\0' ) ++end.
pub number_end : Bytes → ℕ
number_end [] = 0
number_end (c ∷ s) =
    let rest = number_end s in if c == b' ' || c == b'\n' || c == 0 then 0 else suc rest

pub number_object : Platform → Bytes → Object
number_object p text = elim (find_char (drop 1 text) b'.') [
  | some n ↦ mfloat (p.strtod text)
  | none ↦ minteger (strtoull text).0
]

pub read_number : Platform → Cursor → Step
read_number p at =
    let n = suc (number_end (drop 1 at.1)) in found (number_object p (take n at.1)) (cut n at)

pub read_symbol : Cursor → Step
read_symbol at = elim (find_char at.1 b' ') [
  | none ↦ failed at
  | some n ↦ elim (symbol_new (some (take n at.1))) [
    | null ↦ failed (cut n at)
    | obj ↦ found obj (cut n at)
  ]
]

-- Which branch a byte takes.
pub data Kind : Type 0 where
  a_string a_data a_list a_number a_symbol unknown : Kind

unfoldable pub kind_of : ℕ → Kind
kind_of c =
    if c == b'"'
    then Kind.a_string
    else if c == b'<'
    then Kind.a_data
    else if c == b'('
    then Kind.a_list
    else if isdigit c || c == b'-'
    then Kind.a_number
    else if g_ascii_isalpha c && g_ascii_isupper c
    then Kind.a_symbol
    else Kind.unknown

-- What a round of the loop leaves: NULL for `goto failed`, or the object appended, and the new `pos`.
abbrev pub Round : Type 0
Round = Option Object × Cursor

pub after_step : Step → Outcome Round
after_step (failed at) = ok (none, at)
after_step (found obj at) = step_on at >>= λ pos. ok (some obj, pos)

-- A byte that begins nothing: `end` and `obj` are those of the last round, NULL in the first one, so
-- the last object is appended again and `pos` is one byte behind the place the round began at.
pub old_step : Option Object → Cursor → Outcome Round
old_step none top = fault Fault.null_pointer
old_step (some obj) top = step_on top >>= λ pos. ok (some obj, pos)

-- What mbus_list_read gives: its result, NULL for -1, the list, and the place that was reached.
abbrev pub Reading : Type 0
Reading = Option ℕ × Objects × Cursor

-- A list inside, from its '(' on: where it has failed, `len` is -1 and `end` lies two bytes in front.
pub after_list : Cursor → Reading → Outcome Round
after_list at (some len, inner, end) = step_on end >>= λ pos. ok (some (mlist inner), pos)
after_list at (none, inner, end) =
    ok (some (mlist inner), move (length at.0 - 1) [] (whole_text end.0 end.1))

-- One round, from the place behind the blanks, with the reader of the lists inside.
pub read_round :
    Platform → (Cursor → Outcome Reading) → Option Object → Cursor → Cursor → Outcome Round
read_round p inside last top at = elim (kind_of (peek at.1)) [
  | Kind.a_string ↦ after_step (read_string (move 1 at.0 at.1))
  | Kind.a_data ↦ read_data p (move 1 at.0 at.1) >>= after_step
  | Kind.a_list ↦ inside at >>= after_list at
  | Kind.a_number ↦ after_step (read_number p at)
  | Kind.a_symbol ↦ after_step (read_symbol at)
  | Kind.unknown ↦ old_step last top
]

-- The loop ended, or `goto failed`.
abbrev pub Ended : Type 0
Ended = Bool × Objects × Cursor

-- The result ( pos - start + 1 ), or -1 at the label `failed`.
pub read_closed : Cursor → Ended → Reading
read_closed start (true, list, pos) = (some (length pos.0 - length start.0 + 1), list, pos)
read_closed start (false, list, pos) = (none, list, pos)

-- mbus_list_read around its loop.
pub read_opened : (Cursor → Outcome Ended) → Objects → Cursor → Outcome Reading
read_opened loop list at =
    let start = skip_blanks at.0 at.1 in
    elim (peek start.1 == b'(') [
      | true ↦ loop (move 1 start.0 start.1) >>= λ r. ok (read_closed start r)
      | false ↦ ok (none, list, start)
    ]

pub go_on : (Objects → Option Object → Cursor → Outcome Ended) → Objects → Round → Outcome Ended
go_on loop list (none, pos) = ok (false, list, pos)
go_on loop list (some obj, pos) = loop (append list obj) (some obj) pos

-- The loop from the place behind the blanks, which are none in front of NUL and ')'; `loop` goes on.
pub read_at :
    Platform
    → (Cursor → Outcome Reading)
    → (Objects → Option Object → Cursor → Outcome Ended)
    → Objects
    → Option Object
    → Cursor
    → Cursor
    → Outcome Ended
read_at p inside loop list last top at = elim (peek at.1 == 0 || peek at.1 == b')') [
  | true ↦ ok (true, list, at)
  | false ↦ read_round p inside last top at >>= go_on loop list
]

-- The loop, with the rounds and the depth left; the lists inside are read by the same function.
pub read_elements : Platform → ℕ → Objects → Option Object → Cursor → Outcome Ended
read_elements p zero list last top = fault Fault.endless
read_elements p (suc fuel) list last top =
    read_at p (read_opened (read_elements p fuel nil none) nil) (read_elements p fuel) list last top
      (skip_blanks top.0 top.1)

-- mbus_list_read.
pub list_read : Platform → ℕ → Objects → Cursor → Outcome Reading
list_read p fuel list at = read_opened (read_elements p fuel list none) list at
