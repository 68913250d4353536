-- ===== src/Message/Read/RoundTrip.antt =====
-- The parser of messages against the printer.
use libgmbus.Base.{
  ℕ, ◌+◌, ◌*◌, ◌/◌, ◌%◌, ◌^◌, Bool, true, false, [], ◌∷◌, ◌++◌, ◌≡◌, refl, ap, ◌∙◌, sym, Bytes, All,
  ok, ok_injective, Outcome, >>=-eq-ok,
}
use libgmbus.Platform.{Platform}
use libgmbus.Util.{find_char}
use libgmbus.Command.{Payload, payload_new, payload_as_string}
use libgmbus.Command.Read.{payload_read}
use libgmbus.Command.Read.RoundTrip.{payload_read-payload_as_string, payload_read_empty}
use libgmbus.Command.Read.RoundTrip as CommandText
use libgmbus.Header.{Header, header_as_string}
use libgmbus.Header.RoundTrip.{header_read-header_as_string}
use libgmbus.Header.RoundTrip as HeaderText
use libgmbus.Message.Read.{read_lines, after_header, message_read}
use libgmbus.Message.{Message, message_new, message_as_string}

-- A message whose header and commands are printable.
pub record IsPrintable (p : Platform) (m : Message) : Type 0 where
  pub header_printable : HeaderText.IsPrintable m.header
  pub commands_printable : All (CommandText.IsPrintable p) m.payload.cmds

read_lines_payload :
    (p : Platform) (self : Message) (text : Bytes) (read : Bool) (payload : Payload)
    → payload_read p payload_new text ≡ ok (read, payload, [])
    → read_lines p (record self { payload = payload_new }) text
      ≡ ok (true, record self { payload = payload; ok = true }, [])
unfolding read_lines
read_lines_payload p self [] read payload e =
    let same : (true, payload_new, []) ≡ (read, payload, []) =
      ok_injective (sym (payload_read_empty p) ∙ e) in
    ap (λ (r : Bool × Payload × Bytes). ok (true, record self { payload = r.1; ok = true }, []))
      same
read_lines_payload p self (c ∷ text) read payload e = rw e refl

after_header_line :
    (p : Platform) (self : Message) (h : Header) (t : Bytes)
    → after_header p (record self { header = record h { ok = true } }) (b')' ∷ b'\n' ∷ t)
      ≡ read_lines p (record self { header = record h { ok = true } }) t
unfolding after_header find_char
after_header_line p self h t = refl

-- What a header is read as.
abbrev pub header_at : ℕ → ℕ → Header → Header
header_at tv_sec tv_usec h = record h {
  timestamp = (tv_sec * 1000 + tv_usec / 1000) % 2 ^ 64;
  source = record { elements = h.source.elements; ok = true };
  destination = record { elements = h.destination.elements; ok = true };
  ok = true;
}

-- The text of a printable message, printed at a time, is read to its end as that message, with the
-- time in milliseconds modulo 2^64 as its timestamp.
pub message_read-message_as_string :
    (p : Platform) (tv_sec tv_usec : ℕ) (m : Message) (text : Bytes)
    → IsPrintable p m
    → message_as_string p tv_sec tv_usec m ≡ ok text
    → message_read p message_new text
      ≡ ok (
        true,
        record {
          header = header_at tv_sec tv_usec m.header;
          payload = record { cmds = m.payload.cmds; ok = true };
          ok = true;
          current = 0;
        },
        [],
      )
unfolding message_as_string message_read message_new payload_new
message_read-message_as_string p tv_sec tv_usec m text q e =
    let k : Bytes → Outcome Bytes =
      λ t. ok (header_as_string tv_sec tv_usec m.header ++ b'\n' ∷ t) in
    let (t, lines, whole) = >>=-eq-ok (payload_as_string p m.payload) k e in
    let header =
      header_read-header_as_string tv_sec tv_usec m.header (b'\n' ∷ t) q.header_printable in
    let payload =
      payload_read-payload_as_string p payload_new m.payload t q.commands_printable lines in
    let at = header_at tv_sec tv_usec m.header in
    let run =
      read_lines_payload p (record message_new { header = at; ok = false }) t true _ payload in
    rw (← ok_injective whole, header)
      (after_header_line p (record message_new { ok = false }) at t ∙ run)
