-- ===== src/Tests/Exchanging.antt =====
-- A run of a remote call and its return.
use libgmbus.Base.{ℕ, true, [], ◌∷◌, some, codes, ok, Option}
use libgmbus.Tests.Addressing.{mail}
use libgmbus.Tests.Calling.{caller, numbers, sum}
use libgmbus.Command.{Command}
use libgmbus.Message.{Message, message_new}
use libgmbus.Rpc.{RpcStatus, RpcCommand, RpcReturn}
use libgmbus.Rpc.Entity.{RpcEntity, command_of}
use libgmbus.Rpc.Returns.{filled}

abbrev compute : RpcCommand
compute = record sum { command = codes "compute" }

abbrev outcome : RpcReturn
outcome =
    filled (codes "compute") (codes "0") RpcStatus.rpc_failed RpcStatus.rpc_ok (codes "FINE") []
      numbers

-- Every function returns that.
abbrev perform : ℕ → RpcCommand → Option RpcReturn
perform f cmd = some outcome

abbrev callee : RpcEntity
callee = record caller { commands = (codes "compute", 3) ∷ [] }

abbrev request : Message
request = record message_new {
  header = record message_new.header { source = mail };
  payload = record { cmds = command_of compute ∷ []; ok = true };
}
