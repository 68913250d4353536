-- ===== src/Rpc.antt =====
-- gmbus/rpctypes.c: remote commands and their returns, between records and the objects of a command.
pub mod Entity
pub mod Commands
pub mod Returns
pub mod Exchange
use libgmbus.Base.{
  ℕ, suc, ◌+◌, ◌%◌, ◌^◌, Bool, true, false, ◌&&◌, not, [], ◌∷◌, Option, none, some, Bytes, codes,
  str_eq, ◌==◌, if◌then◌else◌, Outcome, ok, fault, Fault, ◌>>=◌,
}
use libgmbus.Util.{int64_to_str}
use libgmbus.Address.{Address, address_new}
use libgmbus.Types.{
  Object, Objects, null, minteger, mfloat, mstring, msymbol, mdata, mlist, nil, cons, index,
  list_copy,
}
use libgmbus.Command.{Command}

pub data RpcStatus : Type 0 where
  rpc_ok rpc_failed rpc_unknown : RpcStatus

pub data RpcType : Type 0 where
  rpc_unicast rpc_anycast : RpcType

-- RPCCommand; its id is a string and its arguments are a list.
pub record RpcCommand : Type 0 where
  pub source : Address
  pub command : Bytes
  pub id : Bytes
  pub type : RpcType
  pub arguments : Objects

-- A member of a new object: nothing has set it, or it has a value.
abbrev pub Member : Type 0 → Type 0
Member A = Option A

-- RPCReturn. A text that is NULL is `none` in its member.
pub record RpcReturn : Type 0 where
  pub command : Bytes
  pub id : Bytes
  pub status : RpcStatus
  pub app_status : Member RpcStatus
  pub app_result : Member (Option Bytes)
  pub app_description : Member (Option Bytes)
  pub arguments : Member Objects

-- rpc_command_new, with the counter __rpc_id before and after it.
pub rpc_command_new : ℕ → Bytes → ℕ × RpcCommand
rpc_command_new rpc_id name = (
  (rpc_id + 1) % 2 ^ 64,
  record {
    source = address_new;
    command = name;
    id = int64_to_str rpc_id false;
    type = RpcType.rpc_unicast;
    arguments = nil;
  },
)

-- M_OBJECT_ASSERT( object, MLIST ), which reads the object.
pub list_of : Object → Outcome Objects
list_of null = fault Fault.null_pointer
list_of (mlist list) = ok list
list_of _ = fault Fault.failed_assertion

-- An array that is read as a C text.
c_text : Bytes → Outcome Bytes
c_text [] = fault Fault.over_read
c_text (c ∷ s) = let rest = c_text s >>= λ t. ok (c ∷ t) in if c == 0 then ok [] else rest

-- M_STRING( object )->str->str, whatever the object is: a symbol and data have their bytes there, a
-- number or a list is followed to no text.
pub text_of : Object → Outcome Bytes
unfolding c_text
text_of null = fault Fault.null_pointer
text_of (mstring str) = ok str
text_of (msymbol str) = ok str
text_of (mdata array) = c_text array
text_of _ = fault Fault.over_read

-- g_return_val_if_fail( object != NULL, NULL ).
abbrev is_null : Object → Bool
is_null null = true
is_null _ = false

-- The pairs of a key and a value: NULL if a member is missing, or if an element is no list.
module _ {A : Type 0} (set : A → Object → Object → Outcome A) where
  read_pair : A → Object → Object → Outcome (Option A)
  read_pair self key value =
      if is_null key
      then ok none
      else if is_null value
      then ok none
      else set self key value >>= λ self'. ok (some self')

  pub read_pairs : A → Objects → Outcome (Option A)
  unfolding read_pair
  read_pairs self nil = ok (some self)
  read_pairs self (cons (mlist pair) pairs) = read_pair self (index pair 0) (index pair 1) >>= λ r.
      elim r [ none ↦ ok none | some self' ↦ read_pairs self' pairs ]
  read_pairs self (cons _ pairs) = ok none

  -- The check of the first element, and the loop.
  pub read_arguments : A → Object → Outcome (Option A)
  read_arguments self rpc_args = list_of rpc_args >>= λ list.
      elim (index list 0) as (λ _. Outcome (Option A)) [
        | mlist pair ↦ read_pairs self list
        | _ ↦ ok none
      ]

-- The body of the loop of rpc_command_new_from_command: strcmp stands there without a `!`.
pub set_command : RpcCommand → Object → Object → Outcome RpcCommand
set_command self key value = text_of key >>= λ k.
    if str_eq k (codes "ID")
    then (text_of value >>= λ v. ok (record self { id = v }))
    else if not (str_eq k (codes "RPC-TYPE"))
    then (text_of value >>= λ v. ok (
        if str_eq v (codes "UNICAST")
        then record self { type = RpcType.rpc_unicast }
        else if str_eq v (codes "ANYCAST")
        then record self { type = RpcType.rpc_anycast }
        else self))
    else ok self

-- rpc_command_new_from_command: NULL is `none`.
pub rpc_command_new_from_command : Command → Outcome (Option RpcCommand)
unfolding set_command
rpc_command_new_from_command command =
    let self : RpcCommand = record {
      source = address_new;
      command = command.cmd;
      id = [];
      type = RpcType.rpc_unicast;
      arguments = nil;
    } in
    read_arguments set_command self (index command.arguments 0) >>= λ r. elim r [
      | none ↦ ok none
      | some self' ↦ list_of (index command.arguments 1) >>= λ list.
          ok (some (record self' { arguments = list_copy list }))
    ]

-- The body of the loop of rpc_return_new_from_command, with the same strcmp.
pub set_return : RpcReturn → Object → Object → Outcome RpcReturn
set_return self key value = text_of key >>= λ k.
    if str_eq k (codes "ID")
    then (text_of value >>= λ v. ok (record self { id = v }))
    else if not (str_eq k (codes "RPC-STATUS"))
    then (text_of value >>= λ v. ok (
        if str_eq v (codes "OK")
        then record self { status = RpcStatus.rpc_ok }
        else if str_eq v (codes "UNKNOWN")
        then record self { status = RpcStatus.rpc_unknown }
        else record self { status = RpcStatus.rpc_failed }))
    else ok self

-- The three arguments of the application's status; anything else is a failure.
app_arguments : RpcReturn → Object → Object → Object → Option RpcReturn
app_arguments self (msymbol arg1) (msymbol arg2) (mstring arg3) = some (record self {
  app_status = some (if str_eq arg1 (codes "OK") then RpcStatus.rpc_ok else RpcStatus.rpc_failed);
  app_result = some (some arg2);
  app_description = some (some arg3);
})
app_arguments self _ _ _ = none

-- The part on `app_args` behind the checks of its two lists.
app_lists : RpcReturn → Object → Object → Option RpcReturn
unfolding app_arguments
app_lists self (mlist app_status) (mlist return_args) =
    elim (app_arguments self (index app_status 0) (index app_status 1) (index app_status 2)) [
      | none ↦ none
      | some self' ↦ some (record self' { arguments = some (list_copy return_args) })
    ]
app_lists self _ _ = some self

pub app_part : RpcReturn → Object → Outcome (Option RpcReturn)
unfolding app_lists
app_part self null = ok (some self)
app_part self app_args =
    list_of app_args >>= λ list. ok (app_lists self (index list 0) (index list 1))

-- rpc_return_new_from_command: NULL is `none`.
pub rpc_return_new_from_command : Command → Outcome (Option RpcReturn)
unfolding set_return app_part
rpc_return_new_from_command command =
    let self : RpcReturn = record {
      command = command.cmd;
      id = [];
      status = RpcStatus.rpc_ok;
      app_status = none;
      app_result = none;
      app_description = none;
      arguments = none;
    } in
    read_arguments set_return self (index command.arguments 0) >>= λ r. elim r [
      | none ↦ ok none
      | some self' ↦ app_part self' (index command.arguments 1)
    ]

-- rpc_return_new.
pub rpc_return_new : RpcCommand → RpcStatus → RpcReturn
rpc_return_new cmd status = record {
  command = cmd.command;
  id = cmd.id;
  status = status;
  app_status = some RpcStatus.rpc_ok;
  app_result = some none;
  app_description = some none;
  arguments = some nil;
}

-- rpc_return_set_arguments.
pub rpc_return_set_arguments : RpcReturn → Object → Outcome RpcReturn
rpc_return_set_arguments self args =
    list_of args >>= λ list. ok (record self { arguments = some list })

-- A member is read.
unfoldable pub get : {A : Type 0} → Member A → Outcome A
get none = fault Fault.uninitialised
get (some a) = ok a

-- rpc_return_free, which reads the two texts and the arguments.
unfoldable pub rpc_return_free : RpcReturn → Outcome (Unit {0})
rpc_return_free self = get self.app_result >>= λ result.
    get self.app_description >>= λ description. get self.arguments >>= λ arguments. ok tt
