-- ===== src/Command/Read.antt =====
-- The parsers of commands and of payloads.
pub mod RoundTrip
use libgmbus.Base.{
  ℕ, zero, suc, ◌+◌, Bool, true, false, ◌||◌, List, [], ◌∷◌, ◌++◌, Option, none, some, Bytes, ◌==◌,
  leb, length, drop, Outcome, ok, fault, Fault, ◌>>=◌, if◌then◌else◌,
}
use libgmbus.Platform.{Platform}
use libgmbus.Util.{peek, scan_while}
use libgmbus.Types.{is_valid_char}
use libgmbus.Types.Read.{Reading, whole_text, list_read}
use libgmbus.Command.{Command, Payload, new_with_name}

-- g_string_erase( buf, 0, c ), which refuses to erase more than there is.
abbrev pub string_erase : Bytes → ℕ → Bytes
string_erase buf c = if leb c (length buf) then drop c buf else buf

-- The text, changed by mbus_list_read, without the `c` bytes that are erased.
abbrev pub erased : Reading → Bytes
erased (some c, list, pos) = string_erase (whole_text pos.0 pos.1) c
erased (none, list, pos) = whole_text pos.0 pos.1

-- mbus_command_read: the command and the text left in `buf`. It always returns TRUE. The loop over the
-- name has no limit; no name is longer than the text.
pub command_read : Platform → Command → Bytes → Outcome (Command × Bytes)
command_read p self buf =
    let (name, rest) = scan_while is_valid_char (suc (length buf)) buf in
    list_read p (suc (length rest)) self.arguments ([], rest) >>= λ r.
    ok (record { cmd = name; arguments = r.1; ok = true }, erased r)

-- mbus_command_new.
pub command_new : Platform → Option Bytes → Outcome Command
command_new p none = ok (new_with_name [])
command_new p (some cmd) =
    command_read p (new_with_name []) cmd >>= λ r. ok (record r.0 { ok = true })

-- The loop to the end of the line, and the erasure of the '\n'; FALSE at a NUL or the terminator.
pub skip_line : Bytes → Bool × Bytes
skip_line [] = (false, [])
skip_line (c ∷ s) =
    let more = skip_line s in
    if c == b'\n' then (true, s) else if c == 0 then (false, c ∷ s) else more

-- One round of the loop of mbus_payload_read behind mbus_command_read; `more` goes on.
pub after_command :
    (List Command → Bytes → Outcome (Bool × List Command × Bytes))
    → List Command
    → Command × Bytes
    → Outcome (Bool × List Command × Bytes)
after_command more cmds (cmd, rest) =
    let (found, text) = skip_line rest in
    elim cmd.ok [
      | false ↦ ok (true, cmds, rest)
      | true ↦ elim found [
        | false ↦ ok (false, cmds ++ cmd ∷ [], text)
        | true ↦ more (cmds ++ cmd ∷ []) text
      ]
    ]

pub read_cmds : Platform → ℕ → List Command → Bytes → Outcome (Bool × List Command × Bytes)
unfolding after_command
read_cmds p zero cmds buf = fault Fault.endless
read_cmds p (suc fuel) cmds buf = elim (peek buf == b'\n' || leb (length buf) 1) [
  | true ↦ ok (true, cmds, buf)
  | false ↦ command_read p (new_with_name []) buf >>= after_command (read_cmds p fuel) cmds
]

-- mbus_payload_read: the result, the payload and the text left. A round takes a byte or more.
pub payload_read : Platform → Payload → Bytes → Outcome (Bool × Payload × Bytes)
payload_read p self buf = read_cmds p (suc (length buf)) self.cmds buf >>= λ r.
    ok (r.0, record { cmds = r.1; ok = true }, r.2)
