-- ===== src/Rpc/Returns.antt =====
-- rpc_return_new_from_command against rpc_entity_send_return, and what becomes of a return.
use libgmbus.Base.{true, ◌++◌, some, ◌≡◌, refl, ap, ◌∙◌, All-append, Bytes, codes, str_eq, ok}
use libgmbus.Platform.{Platform}
use libgmbus.Types.{
  Objects, list_copy, append, nil, index, symbol_new, is_valid_symbol, is_valid_char,
}
use libgmbus.Types.Symbols.{IsValid}
use libgmbus.Types.Lists.{AreWhole, list_copy_lem}
use libgmbus.Command.{Command, new_with_name}
use libgmbus.Command.Read.RoundTrip.{command_new-name}
use libgmbus.Rpc.{
  RpcStatus, RpcReturn, get, rpc_return_new_from_command, set_return, app_part, app_lists,
  app_arguments, read_arguments, read_pairs, read_pair, list_of, text_of,
}
use libgmbus.Rpc.Entity.{
  return_command, return_arguments, status_text, app_status_text, result_symbol, string_new,
}

-- A status of the application that is unknown arrives as a failure.
abbrev pub app_status_received : RpcStatus → RpcStatus
app_status_received RpcStatus.rpc_ok = RpcStatus.rpc_ok
app_status_received _ = RpcStatus.rpc_failed

-- A return whose members are all set.
abbrev pub filled : Bytes → Bytes → RpcStatus → RpcStatus → Bytes → Bytes → Objects → RpcReturn
filled name id status app_status result description args = record {
  command = name;
  id = id;
  status = status;
  app_status = some app_status;
  app_result = some (some result);
  app_description = some (some description);
  arguments = some args;
}

-- The same with the suffix of a return; whatever the status was, it is RPC_OK.
abbrev pub received : Bytes → Bytes → RpcStatus → Bytes → Bytes → Objects → RpcReturn
received name id app_status result description args =
    filled (name ++ codes ".return") id RpcStatus.rpc_ok (app_status_received app_status) result
      description args

-- The arguments that are built, read again.
read_return :
    (name id : Bytes) (status app_status : RpcStatus) (result description : Bytes) (args : Objects)
    → is_valid_symbol result ≡ true
    → (arguments : Objects) × (return_arguments
          (filled name id status app_status result description args)
          nil
        ≡ ok arguments)
      × (rpc_return_new_from_command
            (record { cmd = name ++ codes ".return"; arguments = arguments; ok = true })
          ≡ ok (some (received name id app_status result description (list_copy (list_copy args)))))
unfolding return_arguments get append index rpc_return_new_from_command read_arguments read_pairs
    read_pair list_of text_of set_return app_part app_lists app_arguments str_eq string_new
    result_symbol status_text app_status_text symbol_new is_valid_symbol is_valid_char
read_return name id status RpcStatus.rpc_ok result description args h = rw h (_, refl, refl)
read_return name id status RpcStatus.rpc_failed result description args h = rw h (_, refl, refl)
read_return name id status RpcStatus.rpc_unknown result description args h = rw h (_, refl, refl)

suffix-IsValid : IsValid (codes ".return")
unfolding is_valid_char
suffix-IsValid = (refl, (refl, (refl, (refl, (refl, (refl, (refl, tt)))))))

module _ (p : Platform) (name id : Bytes) (status app_status : RpcStatus)
    (result description : Bytes) (args : Objects) (name_valid : IsValid name)
    (result_valid : is_valid_symbol result ≡ true) (whole : AreWhole args) where
  -- A return with a name of symbol characters, a result that is a symbol and whole arguments is sent as
  -- a command that is read as the return under the name with its suffix, and with every member it had
  -- but two: the status is always RPC_OK, and an unknown status of the application is a failure.
  pub rpc_return_new_from_command-return_command :
      (c : Command) × (return_command p (filled name id status app_status result description args)
        ≡ ok c)
      × (rpc_return_new_from_command c
          ≡ ok (some (received name id app_status result description args)))
  rpc_return_new_from_command-return_command =
      let (arguments, built, read) =
        read_return name id status app_status result description args result_valid in
      let named = command_new-name p (name ++ codes ".return") (
        All-append (λ c. is_valid_char c ≡ true) name (codes ".return") name_valid
          suffix-IsValid) in
      let twice = ap list_copy (list_copy_lem args whole) ∙ list_copy_lem args whole in
      (
        record { cmd = name ++ codes ".return"; arguments = arguments; ok = true },
        unfold return_command new_with_name in rw (named, built) refl,
        read
            ∙ ap (λ (l : Objects). ok (some (received name id app_status result description l)))
                twice,
      )
