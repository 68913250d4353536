-- ===== src/Rpc/Entity.antt =====
-- gmbus/rpcentity.c: an entity that calls remote commands and answers those of others.
use libgmbus.Base.{
  ℕ, ◌-◌, Bool, true, List, [], ◌∷◌, ◌++◌, Option, none, some, Bytes, codes, str_eq, ltb, length,
  drop, if◌then◌else◌, Outcome, ok, fault, Fault, ◌>>=◌,
}
use libgmbus.Platform.{Platform}
use libgmbus.Address.{Address}
use libgmbus.Types.{Object, Objects, mstring, mlist, nil, append, symbol_new, list_copy}
use libgmbus.Command.{Command, new_with_name}
use libgmbus.Command.Read.{command_new}
use libgmbus.Message.{Message, message_new, add}
use libgmbus.Table.{lookup, insert, remove}
use libgmbus.Transport.{Transport}
use libgmbus.Transport
use libgmbus.Client.{Callback, Client, EventType, client_send, send_reliable, is_set}
use libgmbus.Rpc.{
  RpcStatus, RpcType, RpcCommand, RpcReturn, get, rpc_command_new_from_command,
  rpc_return_new_from_command, rpc_return_free,
}

-- RPCEntity. A callback is its function with its data; the two tables are under texts.
pub record RpcEntity : Type 0 where
  pub client : Client
  pub commands : List (Bytes × ℕ)
  pub returns : List (Bytes × ℕ)
  pub unknown_message : Callback

-- What an entity does: a command's function is called (with what it returned), a return's function,
-- the one for unknown messages, or something is sent.
pub data Effect : Type 0 where
  call_command : ℕ → RpcCommand → Effect
  call_return : ℕ → RpcReturn → Effect
  call_unknown : ℕ → Message → Effect
  sent : Transport.Action → Effect

-- rpc_entity_new; `incoming` stands for __rpc_entity_incoming_message with the entity.
pub rpc_entity_new : Client → ℕ → RpcEntity
rpc_entity_new client incoming = record {
  client = record client { unknown_message = some incoming };
  commands = [];
  returns = [];
  unknown_message = none;
}

-- rpc_entity_register.
pub rpc_entity_register : RpcEntity → Bytes → ℕ → RpcEntity
rpc_entity_register self command func = record self {
  commands = insert str_eq command func self.commands;
}

-- rpc_entity_subscribe; the transport's callbacks are whether they are set.
pub rpc_entity_subscribe : RpcEntity → EventType → Callback → RpcEntity
rpc_entity_subscribe self EventType.unknown_message func = record self { unknown_message = func }
rpc_entity_subscribe self EventType.lost_entity func = record self {
  client = record self.client { trans = record self.client.trans { lost_entity = is_set func } };
}
rpc_entity_subscribe self EventType.new_entity func = record self {
  client = record self.client { trans = record self.client.trans { new_entity = is_set func } };
}
rpc_entity_subscribe self EventType.error func = record self {
  client = record self.client {
    trans = record self.client.trans { transport_error = is_set func };
  };
}

-- rpc_entity_unsubscribe.
pub rpc_entity_unsubscribe : RpcEntity → EventType → RpcEntity
unfolding rpc_entity_subscribe
rpc_entity_unsubscribe self type = rpc_entity_subscribe self type none

-- A list of two strings.
abbrev pub pair_of : Bytes → Bytes → Object
pair_of key value = mlist (append (append nil (mstring key)) (mstring value))

unfoldable pub status_text : RpcStatus → Bytes
status_text RpcStatus.rpc_ok = codes "OK"
status_text RpcStatus.rpc_failed = codes "FAILED"
status_text RpcStatus.rpc_unknown = codes "UNKNOWN"

unfoldable pub app_status_text : RpcStatus → Bytes
app_status_text RpcStatus.rpc_ok = codes "OK"
app_status_text RpcStatus.rpc_unknown = codes "FAILED"
app_status_text RpcStatus.rpc_failed = codes "FAILED"

-- The symbol for `app_result`.
unfoldable pub result_symbol : RpcStatus → Option Bytes → Object
result_symbol status (some result) = symbol_new (some result)
result_symbol RpcStatus.rpc_ok none = symbol_new (some (codes "OK"))
result_symbol _ none = symbol_new (some (codes "FAILED"))

-- mbus_string_new, which makes an empty string of NULL.
unfoldable pub string_new : Option Bytes → Object
string_new none = mstring []
string_new (some str) = mstring str

-- The arguments of the command that rpc_entity_send_return builds behind those of `cmd`.
unfoldable pub return_arguments : RpcReturn → Objects → Outcome Objects
unfolding status_text app_status_text result_symbol string_new
return_arguments ret arguments = get ret.app_status >>= λ app_status.
    get ret.app_result >>= λ app_result. get ret.app_description >>= λ app_description.
    get ret.arguments >>= λ args.
    let rpc_args = mlist (
      append (append nil (pair_of (codes "ID") ret.id))
        (pair_of (codes "RPC-STATUS") (status_text ret.status))) in
    let status = mlist (
      append
        (append (append nil (symbol_new (some (app_status_text app_status))))
          (result_symbol ret.status app_result))
        (string_new app_description)) in
    let app_args = mlist (append (append nil status) (mlist (list_copy args))) in
    ok (append (append arguments rpc_args) app_args)

-- The command of rpc_entity_send_return: its name is parsed, with the suffix.
unfoldable pub return_command : Platform → RpcReturn → Outcome Command
unfolding return_arguments
return_command p ret = command_new p (some (ret.command ++ codes ".return")) >>= λ cmd.
    return_arguments ret cmd.arguments >>= λ arguments. ok (record cmd { arguments = arguments })

-- A message with one command for a destination.
abbrev pub message_to : Address → Command → Message
message_to dest cmd =
    let msg = record message_new { header = record message_new.header { destination = dest } } in
    (add msg cmd).1

-- rpc_entity_send_return: the entity, and what is sent.
unfoldable pub send_return :
    Platform → RpcEntity → RpcReturn → Address → Outcome (RpcEntity × List Effect)
unfolding return_command
send_return p self ret dest = return_command p ret >>= λ cmd. rpc_return_free ret >>= λ _.
    let (client, action) = client_send p self.client (message_to dest cmd) in
    ok (record self { client = client }, sent action ∷ [])

unfoldable pub type_text : RpcType → Bytes
type_text RpcType.rpc_unicast = codes "UNICAST"
type_text RpcType.rpc_anycast = codes "ANYCAST"

-- The command of rpc_entity_send_command.
unfoldable pub command_of : RpcCommand → Command
unfolding type_text
command_of cmd =
    let rpc_args = mlist (
      append (append nil (pair_of (codes "ID") cmd.id))
        (pair_of (codes "RPC-TYPE") (type_text cmd.type))) in
    let command = new_with_name cmd.command in
    record command {
      arguments = append (append command.arguments rpc_args) (mlist (list_copy cmd.arguments));
    }

-- The sending of rpc_entity_send_command; `addr` may be NULL, which is asserted against for a unicast.
pub send_as :
    Platform
    → RpcType
    → Client
    → Message
    → Option Address
    → Outcome (Bool × Client × List Transport.Action)
send_as p RpcType.rpc_unicast client msg none = fault Fault.failed_assertion
send_as p RpcType.rpc_unicast client msg (some addr) = ok (send_reliable p client msg addr)
send_as p RpcType.rpc_anycast client msg addr =
    let (client', action) = client_send p client msg in ok (true, client', action ∷ [])

-- rpc_entity_send_command: the result, the entity, and what is sent.
pub send_command :
    Platform
    → RpcEntity
    → RpcCommand
    → Option Address
    → ℕ
    → Outcome (Bool × RpcEntity × List Transport.Action)
unfolding command_of send_as
send_command p self cmd addr func =
    let returns = insert str_eq cmd.id func self.returns in
    let msg = (add message_new (command_of cmd)).1 in
    send_as p cmd.type self.client msg addr >>= λ r.
    ok (r.0, record self { client = r.1; returns = returns }, r.2)

-- The callback for unknown messages.
pub call_of_unknown : RpcEntity → Message → List Effect
call_of_unknown self msg = elim self.unknown_message [
  | none ↦ []
  | some f ↦ call_unknown f msg ∷ []
]

module _ (p : Platform) (perform : ℕ → RpcCommand → Option RpcReturn) where
  -- A command's function is called; a return that is NULL is read.
  unfoldable pub perform_command :
      RpcEntity → ℕ → RpcCommand → Address → Outcome (RpcEntity × List Effect)
  perform_command self callback rpccmd source = elim (perform callback rpccmd) [
    | none ↦ fault Fault.null_pointer
    | some ret ↦ send_return p self ret source >>= λ r. ok (r.0, call_command callback rpccmd ∷ r.1)
  ]

  -- __rpc_entity_incoming_message, for a command that is no return.
  unfoldable pub incoming_command :
      RpcEntity → Message → Command → Outcome (RpcEntity × List Effect)
  unfolding perform_command
  incoming_command self msg cmd = elim (lookup str_eq cmd.cmd self.commands) [
    | none ↦ ok (self, call_of_unknown self msg)
    | some callback ↦ rpc_command_new_from_command cmd >>= λ r. elim r [
      | none ↦ ok (self, call_of_unknown self msg)
      | some rpccmd ↦
          perform_command self callback (record rpccmd { source = msg.header.source })
            msg.header.source
    ]
  ]

-- For a return. A callback that is not found is an unset variable, which is read all the same.
unfoldable pub return_found : RpcEntity → RpcReturn → Outcome (RpcEntity × List Effect)
return_found self ret = elim (lookup str_eq ret.id self.returns) [
  | none ↦ fault Fault.uninitialised
  | some callback ↦ rpc_return_free ret >>= λ _.
      ok
        (record self { returns = remove str_eq ret.id self.returns }, call_return callback ret ∷ [])
]

unfoldable pub incoming_return : RpcEntity → Command → Outcome (RpcEntity × List Effect)
unfolding return_found
incoming_return self cmd = rpc_return_new_from_command cmd >>= λ r. elim r [
  | none ↦ fault Fault.null_pointer
  | some ret ↦ return_found self ret
]

module _ (p : Platform) (perform : ℕ → RpcCommand → Option RpcReturn) where
  -- __rpc_entity_incoming_message on the first command; a name of fewer than seven bytes is read in
  -- front of the text.
  unfoldable pub incoming_first : RpcEntity → Message → Command → Outcome (RpcEntity × List Effect)
  unfolding incoming_command incoming_return
  incoming_first self msg cmd =
      if ltb (length cmd.cmd) 7
      then fault Fault.over_read
      else if str_eq (drop (length cmd.cmd - 7) cmd.cmd) (codes ".return")
      then incoming_return self cmd
      else incoming_command p perform self msg cmd

  unfoldable pub incoming_commands :
      RpcEntity → Message → List Command → Outcome (RpcEntity × List Effect)
  unfolding incoming_first
  incoming_commands self msg [] = ok (self, [])
  incoming_commands self msg (cmd ∷ cmds) = incoming_first self msg cmd

  -- __rpc_entity_incoming_message: the entity, and what it does.
  unfoldable pub incoming_message : RpcEntity → Message → Outcome (RpcEntity × List Effect)
  unfolding incoming_commands
  incoming_message self msg = incoming_commands self msg msg.payload.cmds
