-- ===== src/Client.antt =====
-- gmbus/mclient.c: the client hands the commands of a message to the functions registered for them.
pub mod Dispatch
pub mod Current
pub mod Registry
pub mod Arrival
use libgmbus.Base.{
  ℕ, suc, ◌+◌, Bool, true, false, ◌&&◌, List, [], ◌∷◌, ◌++◌, map, Option, none, some, Bytes, str_eq,
  length, if◌then◌else◌, Outcome, ok, fault, Fault, ◌>>=◌,
}
use libgmbus.Platform.{Platform}
use libgmbus.Address.{Address, is_unique}
use libgmbus.Command.{Command}
use libgmbus.Header.{MessageType}
use libgmbus.Message.{Message, message_as_string}
use libgmbus.Transport.{Transport}
use libgmbus.Transport.Entities.{is_entity_available}
use libgmbus.Transport.Sending.{send}
use libgmbus.Transport

-- MMessageCallback: the function with its data, or NULL.
abbrev pub Callback : Type 0
Callback = Option ℕ

-- MCommandCallback; `freed` when its memory is.
pub record CommandCallback : Type 0 where
  pub command : Bytes
  pub callback : Callback
  pub freed : Bool

-- MClient, without its configuration.
pub record Client : Type 0 where
  pub trans : Transport
  pub ok : Bool
  pub callbacks : List CommandCallback
  pub unknown_message : Callback

-- A call of a function with a message.
pub record Call : Type 0 where
  pub function : ℕ
  pub message : Message

-- __mbus_client_init, with the transport and its mbus_transport_ok.
pub client_init : Transport → Bool → Client
client_init trans trans_ok = record {
  trans = record trans { incoming_message = true };
  ok = trans_ok;
  callbacks = [];
  unknown_message = none;
}

-- The walk along `callbacks` to the first entry with that name; NULL at the end.
unfoldable pub find_callback : List CommandCallback → Bytes → Outcome (Option CommandCallback)
find_callback [] cmd = ok none
find_callback (cb ∷ callbacks) cmd =
    let rest = find_callback callbacks cmd in
    if cb.freed then fault Fault.freed else if str_eq cb.command cmd then ok (some cb) else rest

-- The call for one command, which stands at `i`: the message, and what is called.
unfoldable pub unknown_call : Callback → Message → Message × List Call
unknown_call none msg = (msg, [])
unknown_call (some f) msg = (msg, record { function = f; message = msg } ∷ [])

unfoldable pub callback_call : Callback → Callback → ℕ → Message → Message × List Call
unfolding unknown_call
callback_call unknown none i msg = unknown_call unknown msg
callback_call unknown (some f) i msg =
    let msg' = record msg { current = i } in (msg', record { function = f; message = msg' } ∷ [])

unfoldable pub command_call : Callback → Option CommandCallback → ℕ → Message → Message × List Call
unfolding unknown_call callback_call
command_call unknown none i msg = unknown_call unknown msg
command_call unknown (some cb) i msg = callback_call unknown cb.callback i msg

-- The loop over the commands from `i` on: the message and the calls.
unfoldable pub dispatch : Client → List Command → ℕ → Message → Outcome (Message × List Call)
dispatch self [] i msg = ok (msg, [])
dispatch self (command ∷ cmds) i msg = find_callback self.callbacks command.cmd >>= λ found.
    let (msg', calls) = command_call self.unknown_message found i msg in
    dispatch self cmds (i + 1) msg' >>= λ r. ok (r.0, calls ++ r.1)

-- What mbus_message_as_string leaves in a message: `ok` set everywhere.
unfoldable pub marked : Message → Message
marked msg = record msg {
  header = record msg.header { ok = true };
  payload = record {
    cmds = map (λ (c : Command). record c { ok = true }) msg.payload.cmds;
    ok = true;
  };
  ok = true;
}

-- __mbus_client_incoming_message; the message is printed at a time, to a text that is dropped.
unfoldable pub incoming_message :
    Platform → ℕ → ℕ → Client → Message → Outcome (Message × List Call)
unfolding dispatch marked
incoming_message p tv_sec tv_usec self msg = message_as_string p tv_sec tv_usec msg >>= λ text.
    dispatch self (marked msg).payload.cmds 0 (marked msg)

-- MEventType.
pub data EventType : Type 0 where
  unknown_message lost_entity new_entity error : EventType

-- mbus_callback_ok.
abbrev pub is_set : Callback → Bool
is_set none = false
is_set (some f) = true

-- mbus_client_subscribe; the transport's callbacks are whether they are set.
pub subscribe : Client → EventType → Callback → Client
subscribe self EventType.unknown_message cb = record self { unknown_message = cb }
subscribe self EventType.lost_entity cb = record self {
  trans = record self.trans { lost_entity = is_set cb };
}
subscribe self EventType.new_entity cb = record self {
  trans = record self.trans { new_entity = is_set cb };
}
subscribe self EventType.error cb = record self {
  trans = record self.trans { transport_error = is_set cb };
}

-- mbus_client_unsubscribe.
pub unsubscribe : Client → EventType → Client
unsubscribe self EventType.unknown_message = record self { unknown_message = none }
unsubscribe self EventType.lost_entity = record self {
  trans = record self.trans { lost_entity = false };
}
unsubscribe self EventType.new_entity = record self {
  trans = record self.trans { new_entity = false };
}
unsubscribe self EventType.error = record self {
  trans = record self.trans { transport_error = false };
}

-- mbus_client_send: the client, and what is sent. The result is that of mbus_transport_send, TRUE.
pub client_send : Platform → Client → Message → Client × Transport.Action
client_send p self msg =
    let (trans, sent, action) = send p self.trans msg in (record self { trans = trans }, action)

-- mbus_client_register.
pub register : Client → Bytes → Callback → Client
register self cmd func = record self {
  callbacks = self.callbacks ++ record { command = cmd; callback = func; freed = false } ∷ [];
}

-- The entry that mbus_client_unregister frees; g_slist_remove is given the link, which is no entry, and
-- so removes nothing.
pub free_callback : List CommandCallback → Bytes → Outcome (List CommandCallback)
free_callback [] cmd = ok []
free_callback (cb ∷ callbacks) cmd =
    let rest = free_callback callbacks cmd >>= λ r. ok (cb ∷ r) in
    if cb.freed
    then fault Fault.freed
    else if str_eq cb.command cmd
    then ok (record cb { freed = true } ∷ callbacks)
    else rest

-- mbus_client_unregister.
pub unregister : Client → Bytes → Outcome Client
unfolding free_callback
unregister self cmd =
    free_callback self.callbacks cmd >>= λ callbacks. ok (record self { callbacks = callbacks })

-- mbus_client_send_reliable: the result, the client, and what is sent.
pub send_reliable : Platform → Client → Message → Address → Bool × Client × List Transport.Action
send_reliable p self msg addr =
    let msg' = record msg {
      header = record msg.header { type = MessageType.reliable; destination = addr };
    } in
    let (trans, sent, action) = send p self.trans msg' in
    if is_unique addr && is_entity_available p self.trans addr
    then (true, record self { trans = trans }, action ∷ [])
    else (false, self, [])
