-- ===== src/Rpc/Exchange.antt =====
-- A remote call from one entity to another and back: __rpc_entity_incoming_message on both sides.
use libgmbus.Base.{◌-◌, false, ◌≡◌, Bytes, codes, str_eq, ltb, length, drop}
use libgmbus.Platform.{Platform}
use libgmbus.Address.{Address}
use libgmbus.Command.{Command}
use libgmbus.Message.{Message}
use libgmbus.Rpc.{RpcType, RpcCommand}

-- A remote command as the function that is registered for it gets it.
abbrev pub arriving : RpcCommand → Address → RpcCommand
arriving cmd source = record cmd { source = source; type = RpcType.rpc_unicast }

-- A name with seven bytes or more that does not end like that of a return.
abbrev pub IsCall : Bytes → Type 0
IsCall name =
    (ltb (length name) 7 ≡ false) × (str_eq (drop (length name - 7) name) (codes ".return") ≡ false)
