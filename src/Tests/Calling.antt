-- ===== src/Tests/Calling.antt =====
-- Runs of the client and of remote calls.
use libgmbus.Base.{
  List, true, false, [], ◌∷◌, ◌++◌, map, none, some, ◌≡◌, refl, Bytes, codes, str_eq, str_eq_self,
  All, ok, fault, Fault,
}
use libgmbus.Tests.{platform}
use libgmbus.Tests.Addressing.{mail}
use libgmbus.Tests.Heading.{greeting}
use libgmbus.Tests.Reading.{hello, hello_text, lines}
use libgmbus.Address.{address_new}
use libgmbus.Types.{Objects, minteger, nil, cons, is_valid_symbol, is_valid_char}
use libgmbus.Types.Lists.{AreWhole}
use libgmbus.Command.{Command}
use libgmbus.Header.{header_as_string}
use libgmbus.Message.{Message}
use libgmbus.Transport.{transport_init}
use libgmbus.Client.{
  Callback, CommandCallback, Client, Call, find_callback, register, unregister, dispatch,
  command_call, callback_call, unknown_call, marked,
}
use libgmbus.Client
use libgmbus.Client.Dispatch.{Live, handlers, incoming_message-handlers}
use libgmbus.Client.Current.{IsCurrent, incoming_message-IsCurrent}
use libgmbus.Client.Registry.{Unregistered, register_lem, unregister_lem}
use libgmbus.Rpc.{RpcType, RpcCommand, rpc_command_new_from_command}
use libgmbus.Rpc.Entity.{RpcEntity, command_of}
use libgmbus.Rpc.Commands.{rpc_command_new_from_command-command_of}

-- A function for quit, and none for other names.
abbrev pub quit_entry : CommandCallback
quit_entry = record { command = codes "quit"; callback = some 5; freed = false }

abbrev pub listener : Client
listener = record {
  trans = transport_init mail true;
  ok = true;
  callbacks = quit_entry ∷ [];
  unknown_message = none;
}

incoming_message-handlers_example :
    (r : Message × List Call) × (Client.incoming_message platform 1 2000 listener hello ≡ ok r)
    × (map (λ c. c.function) r.1 ≡ handlers (quit_entry ∷ []) none hello.payload.cmds)
incoming_message-handlers_example =
    incoming_message-handlers platform 1 2000 listener hello
      (header_as_string 1 2000 greeting ++ b'\n' ∷ lines) (refl, tt) hello_text

-- The message as the function for quit gets it: the second command is the current one.
abbrev quitting : Message
quitting = record hello { current = 1 }

abbrev quit_call : Call
quit_call = record { function = 5; message = quitting }

quit_called : Client.incoming_message platform 1 2000 listener hello ≡ ok (quitting, quit_call ∷ [])
unfolding Client.incoming_message dispatch find_callback command_call callback_call unknown_call
    marked str_eq
quit_called = rw hello_text refl

incoming_message-IsCurrent_example : All (IsCurrent (quit_entry ∷ [])) (quit_call ∷ [])
incoming_message-IsCurrent_example =
    incoming_message-IsCurrent platform 1 2000 listener hello quitting (quit_call ∷ []) (refl, tt)
      refl quit_called

-- A function for halt.
abbrev halt_entry : CommandCallback
halt_entry = record { command = codes "halt"; callback = some 6; freed = false }

register_lem_example :
    let after = (register listener (codes "halt") (some 6)).callbacks in
    ((name : Bytes)
      → str_eq (codes "halt") name ≡ false
      → find_callback after name ≡ find_callback (quit_entry ∷ []) name)
    × (Live (quit_entry ∷ [])
        → Unregistered (codes "halt") (quit_entry ∷ [])
        → (find_callback (quit_entry ∷ []) (codes "halt") ≡ ok none)
          × (find_callback after (codes "halt") ≡ ok (some halt_entry)))
    × ((xs ys : List CommandCallback) (cb : CommandCallback)
        → quit_entry ∷ [] ≡ xs ++ cb ∷ ys
        → Live xs
        → Unregistered (codes "halt") xs
        → cb.freed ≡ false
        → str_eq cb.command (codes "halt") ≡ true
        → (find_callback (quit_entry ∷ []) (codes "halt") ≡ ok (some cb))
          × (find_callback after (codes "halt") ≡ ok (some cb)))
register_lem_example = register_lem listener (codes "halt") (some 6)

unregister_lem_example :
    (self' : Client) × (unregister listener (codes "quit") ≡ ok self')
    × ((name : Bytes)
        → Unregistered name []
        → find_callback self'.callbacks name ≡ fault Fault.freed)
unregister_lem_example =
    unregister_lem listener [] [] quit_entry (codes "quit") refl tt tt refl
      (str_eq_self (codes "quit"))

abbrev pub numbers : Objects
numbers = cons (minteger 3) nil

pub numbers_whole : AreWhole numbers
unfolding AreWhole
numbers_whole = (tt, tt)

abbrev pub sum : RpcCommand
sum = record {
  source = mail;
  command = codes "sum";
  id = codes "0";
  type = RpcType.rpc_anycast;
  arguments = numbers;
}

rpc_command_new_from_command-command_of_example :
    rpc_command_new_from_command (command_of sum)
    ≡ ok (some (record sum { source = address_new; type = RpcType.rpc_unicast }))
rpc_command_new_from_command-command_of_example =
    rpc_command_new_from_command-command_of sum numbers_whole

abbrev pub caller : RpcEntity
caller = record {
  client = listener;
  commands = [];
  returns = (codes "0", 9) ∷ [];
  unknown_message = none;
}

pub fine_valid : is_valid_symbol (codes "FINE") ≡ true
unfolding is_valid_symbol is_valid_char
fine_valid = refl
