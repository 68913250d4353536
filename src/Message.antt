-- ===== src/Message.antt =====
-- gmbus/mmessage.c: a message is its header and its payload.
pub mod Read
use libgmbus.Base.{
  ℕ, Bool, true, false, List, [], ◌∷◌, ◌++◌, Option, none, Bytes, leb, if◌then◌else◌, length,
  get_elem?, Outcome, ok, ◌>>=◌,
}
use libgmbus.Platform.{Platform}
use libgmbus.Command.{
  Command, Payload, payload_new, payload_add, payload_assign, payload_as_string, is_command,
}
use libgmbus.Header.{Header, header_new, header_assign, header_as_string}

pub record Message : Type 0 where
  pub header : Header
  pub payload : Payload
  pub ok : Bool
  -- _index.
  pub current : ℕ

-- mbus_message_new.
unfoldable pub message_new : Message
message_new = record { header = header_new; payload = payload_new; ok = true; current = 0 }

-- mbus_message_assign.
unfoldable pub message_assign : Message → Message → Message
message_assign self rhs = record self {
  header = header_assign self.header rhs.header;
  payload = payload_assign self.payload rhs.payload;
}

-- mbus_message_as_string at a time in seconds and microseconds: what it appends.
unfoldable pub message_as_string : Platform → ℕ → ℕ → Message → Outcome Bytes
message_as_string p tv_sec tv_usec self = do
  text ← payload_as_string p self.payload
  ok (header_as_string tv_sec tv_usec self.header ++ b'\n' ∷ text)

-- mbus_message_contains: the first command only.
first_is : List Command → Bytes → Bool
first_is [] command = false
first_is (c ∷ cs) command = is_command c command

unfoldable pub contains : Message → Bytes → Bool
unfolding first_is
contains self command = first_is self.payload.cmds command

-- mbus_message_add: the result and the message.
unfoldable pub add : Message → Command → Bool × Message
add self c =
    if c.ok then (true, record self { payload = payload_add self.payload c }) else (false, self)

-- mbus_message_get_current_command.
unfoldable pub get_current_command : Message → Option Command
get_current_command self =
    if leb (length self.payload.cmds) self.current
    then none
    else get_elem? self.payload.cmds self.current
