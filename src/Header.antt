-- ===== src/Header.antt =====
-- gmbus/mheader.c: the first line of a message.
pub mod Numbers
pub mod RoundTrip
pub mod Ends
use libgmbus.Base.{
  ℕ, zero, suc, ◌+◌, ◌*◌, ◌/◌, ◌%◌, ◌^◌, Bool, true, false, not, ◌||◌, ◌&&◌, List, [], ◌∷◌, ◌++◌,
  Option, none, some, Bytes, codes, ◌==◌, if◌then◌else◌, str_eq, length, take, drop, isdigit,
  isspace, Outcome, ok, fault, Fault, ◌>>=◌,
}
use libgmbus.Util.{peek, cut_whitespaces, scan_while, str_to_uint64, int64_to_str}
use libgmbus.Address
use libgmbus.Address.{Address, address_new, address_read}

pub data MessageType : Type 0 where
  unreliable reliable : MessageType

-- MHeader, but for `pvers`, which nothing reads.
pub record Header : Type 0 where
  pub type : MessageType
  pub sequence_no : ℕ
  pub timestamp : ℕ
  pub source : Address
  pub destination : Address
  pub acks : List ℕ
  pub ok : Bool

-- __mbus_header_init.
unfoldable pub header_new : Header
header_new = record {
  type = unreliable;
  sequence_no = 0;
  timestamp = 0;
  source = address_new;
  destination = address_new;
  acks = [];
  ok = true;
}

-- mbus_header_assign; the new array of acks has length 0 when that many are copied to it.
unfoldable pub header_assign : Header → Header → Header
header_assign self rhs = record {
  type = rhs.type;
  sequence_no = rhs.sequence_no;
  timestamp = rhs.timestamp;
  source = rhs.source;
  destination = rhs.destination;
  acks = [];
  ok = rhs.ok;
}

abbrev pub pvers : Bytes
pvers = codes "mbus/1.0"

-- `return FALSE` with the header and the text as they are.
abbrev stop : Header → Bytes → Outcome (Bool × Header × Bytes)
stop self buf = ok (false, self, buf)

-- The loop over a number in `numbuf`, which has 64 places; its end is stored behind it.
pub number : Bytes → Outcome (Bytes × Bytes)
number text =
    let r = scan_while isdigit 64 text in if length r.0 == 64 then fault Fault.over_write else ok r

-- A number of the loop over the acknowledgements, with the result of the next round.
after_number :
    Header
    → Bytes
    → Bytes × Bytes
    → Outcome (Bool × Header × Bytes)
    → Outcome (Bool × Header × Bytes)
after_number self text (numbuf, rest) more =
    if peek text == b')'
    then ok (true, record self { ok = true }, text)
    else if (not (isspace (peek rest)) || peek rest == b')') || not (str_to_uint64 numbuf).1
    then ok (false, self, text)
    else more

-- The loop over the acknowledgements, behind the '('; the text that is left begins with the ')'.
read_acks : ℕ → Header → Bytes → Outcome (Bool × Header × Bytes)
unfolding after_number
read_acks zero self buf = fault Fault.endless
read_acks (suc fuel) self buf = do
  text ← cut_whitespaces buf
  r ← number text
  after_number self text r
      (read_acks fuel (record self { acks = self.acks ++ (str_to_uint64 r.0).0 ∷ [] }) r.1)

-- From here on a function is the rest of mbus_header_read from that place on.
pub after_destination : Header → Bytes → Outcome (Bool × Header × Bytes)
after_destination self buf = do
  text ← cut_whitespaces buf
  if peek text == b'(' then read_acks (suc (length text)) self (drop 1 text) else stop self text

after_source : Header → Bytes → Outcome (Bool × Header × Bytes)
after_source self buf = do
  (read, destination, rest) ← address_read self.destination buf
  let self' = record self { destination = destination }
  if destination.ok then after_destination self' rest else stop self' rest

after_type : Header → Bytes → Outcome (Bool × Header × Bytes)
after_type self buf = do
  text ← cut_whitespaces buf
  (read, source, rest) ← address_read self.source text
  let self' = record self { source = source }
  if source.ok then after_source self' rest else stop self' rest

message_type : Header → Bytes → Outcome (Bool × Header × Bytes)
message_type self buf =
    if peek buf == b'U'
    then after_type (record self { type = unreliable }) (drop 1 buf)
    else if peek buf == b'R'
    then after_type (record self { type = reliable }) (drop 1 buf)
    else stop self buf

after_sequence_no : Header → Bytes → Outcome (Bool × Header × Bytes)
after_sequence_no self buf = do
  text ← cut_whitespaces buf
  (numbuf, rest) ← number text
  let v = str_to_uint64 numbuf
  let self' = record self { timestamp = v.0 }
  if not v.1 || not (isspace (peek rest))
      then stop self' text
      else message_type self' (drop (length numbuf + 1) text)

after_pvers : Header → Bytes → Outcome (Bool × Header × Bytes)
after_pvers self buf = do
  text ← cut_whitespaces buf
  (numbuf, rest) ← number text
  let v = str_to_uint64 numbuf
  let self' = record self { sequence_no = v.0 }
  if not v.1 || not (isspace (peek rest))
      then stop self' text
      else after_sequence_no self' (drop (length numbuf + 1) text)

-- mbus_header_read: the result, the header and the text left in `buf`.
pub header_read : Header → Bytes → Outcome (Bool × Header × Bytes)
header_read self buf = do
  text ← cut_whitespaces buf
  let self' = record self { ok = false }
  if str_eq (take 8 text) pvers then after_pvers self' (drop 8 text) else stop self' text

-- The loop over the acknowledgements in mbus_header_as_string: `%ld` prints a glong.
acks_as_string : List ℕ → Bytes
acks_as_string [] = []
acks_as_string (v ∷ acks) = int64_to_str v true ++ b' ' ∷ acks_as_string acks

type_char : MessageType → ℕ
type_char reliable = b'R'
type_char unreliable = b'U'

-- mbus_header_as_string at a time in seconds and microseconds: what it appends. `ok` is set.
pub header_as_string : ℕ → ℕ → Header → Bytes
header_as_string tv_sec tv_usec self =
    let timestamp = (tv_sec * 1000 + tv_usec / 1000) % 2 ^ 64 in
    pvers
    ++ b' '
      ∷ (int64_to_str self.sequence_no false
          ++ b' '
            ∷ (int64_to_str timestamp false
                ++ b' '
                  ∷ type_char self.type
                  ∷ b' '
                  ∷ (Address.as_string self.source
                      ++ b' '
                        ∷ (Address.as_string self.destination
                            ++ b' ' ∷ b'(' ∷ (acks_as_string self.acks ++ b')' ∷ [])))))
