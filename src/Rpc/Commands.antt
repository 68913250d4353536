-- ===== src/Rpc/Commands.antt =====
-- rpc_command_new_from_command against rpc_entity_send_command.
use libgmbus.Base.{some, ◌≡◌, ap, ◌∙◌, str_eq, ok}
use libgmbus.Address.{address_new}
use libgmbus.Types.{Objects, list_copy, append, index}
use libgmbus.Types.Lists.{AreWhole, list_copy_lem}
use libgmbus.Command.{new_with_name}
use libgmbus.Rpc.{
  RpcType, RpcCommand, rpc_command_new_from_command, set_command, read_arguments, read_pairs,
  read_pair, list_of, text_of,
}
use libgmbus.Rpc.Entity.{command_of}

-- The command that is sent for a remote command whose arguments hold no NULL and only valid symbols is
-- read as that remote command, from a source that is not known yet; but it is always read as a unicast,
-- also where an anycast was sent.
pub rpc_command_new_from_command-command_of :
    (cmd : RpcCommand)
    → AreWhole cmd.arguments
    → rpc_command_new_from_command (command_of cmd)
      ≡ ok (some (record cmd { source = address_new; type = RpcType.rpc_unicast }))
unfolding rpc_command_new_from_command command_of new_with_name append index read_arguments
    read_pairs read_pair list_of text_of set_command str_eq
rpc_command_new_from_command-command_of cmd h =
    ap
      (λ (l : Objects).
        ok (some (record cmd { source = address_new; type = RpcType.rpc_unicast; arguments = l })))
      (ap list_copy (list_copy_lem cmd.arguments h) ∙ list_copy_lem cmd.arguments h)
