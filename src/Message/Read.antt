-- ===== src/Message/Read.antt =====
-- The parser of messages.
pub mod RoundTrip
use libgmbus.Base.{
  ℕ, zero, suc, ◌+◌, ◌*◌, ◌/◌, ◌%◌, ◌^◌, ◌<◌, Bool, true, false, List, [], ◌∷◌, ◌++◌, none, some,
  ◌≡◌, refl, ap, ◌∙◌, sym, arith, Bytes, ◌==◌, All, length, drop, length-append, append_assoc, ok,
  ok_injective, Outcome, ◌>>=◌, >>=-eq-ok, if◌then◌else◌,
}
use libgmbus.Platform.{Platform}
use libgmbus.Util.{find_char}
use libgmbus.Command.{Command, Payload, payload_new, payload_as_string}
use libgmbus.Command.Read.{payload_read}
use libgmbus.Header.{Header, header_new, header_read, header_as_string}
use libgmbus.Message.{Message, message_new, message_as_string}

-- mbus_message_read from the line behind the header on.
pub read_lines : Platform → Message → Bytes → Outcome (Bool × Message × Bytes)
read_lines p self [] = ok (true, record self { ok = true }, [])
read_lines p self (c ∷ buf) = payload_read p self.payload (c ∷ buf) >>= λ r.
    ok (true, record self { payload = r.1; ok = true }, r.2)

-- mbus_message_read behind mbus_header_read; strchr finds the end of the line.
pub after_header : Platform → Message → Bytes → Outcome (Bool × Message × Bytes)
unfolding read_lines
after_header p self text = elim self.header.ok [
  | false ↦ ok (false, self, text)
  | true ↦ elim (find_char text b'\n') [
    | none ↦ ok (false, self, text)
    | some n ↦ read_lines p self (drop (n + 1) text)
  ]
]

-- mbus_message_read: the result, the message and the text left.
unfoldable pub message_read : Platform → Message → Bytes → Outcome (Bool × Message × Bytes)
unfolding after_header
message_read p self buf = header_read self.header buf >>= λ r.
    after_header p (record self { header = r.1; ok = false }) r.2
