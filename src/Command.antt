-- ===== src/Command.antt =====
-- gmbus/mcommand.c and mpayload.c: commands and the list of them that a message carries.
pub mod Read
use libgmbus.Base.{
  Bool, true, List, [], ◌∷◌, ◌++◌, map, Bytes, str_eq, Outcome, ok, ◌>>=◌, ◌≡◌, refl, ap, All,
}
use libgmbus.Platform.{Platform}
use libgmbus.Types.{Objects, nil, list_copy}
use libgmbus.Types
use libgmbus.Types.Lists.{AreWhole, list_copy_lem}

pub record Command : Type 0 where
  pub cmd : Bytes
  pub arguments : Objects
  pub ok : Bool

-- mbus_command_new_with_name, and mbus_command_new( NULL ) for the empty name.
unfoldable pub new_with_name : Bytes → Command
new_with_name name = record { cmd = name; arguments = nil; ok = true }

-- mbus_command_assign and mbus_command_copy.
pub copy : Command → Command
copy self = record { cmd = self.cmd; arguments = list_copy self.arguments; ok = self.ok }

-- mbus_command_is_command.
unfoldable pub is_command : Command → Bytes → Bool
is_command self s = str_eq s self.cmd

-- mbus_command_as_string: what it appends.
unfoldable pub as_string : Platform → Command → Outcome Bytes
as_string p self = do text ← Types.list_as_string p self.arguments; ok (self.cmd ++ text)

pub record Payload : Type 0 where
  pub cmds : List Command
  pub ok : Bool

-- mbus_payload_new.
unfoldable pub payload_new : Payload
payload_new = record { cmds = []; ok = true }

-- mbus_payload_add.
unfoldable pub payload_add : Payload → Command → Payload
payload_add self c = record self { cmds = self.cmds ++ c ∷ [] }

-- mbus_payload_assign; g_ptr_array_set_size is called with the size that the array has.
unfoldable pub payload_assign : Payload → Payload → Payload
payload_assign self other = record { cmds = self.cmds ++ map copy other.cmds; ok = other.ok }

-- The loop of mbus_payload_as_string: what it appends.
unfoldable pub cmds_as_string : Platform → List Command → Outcome Bytes
cmds_as_string p [] = ok []
cmds_as_string p (c ∷ cs) = do
  text ← as_string p c
  rest ← cmds_as_string p cs
  ok (text ++ b'\n' ∷ rest)

unfoldable pub payload_as_string : Platform → Payload → Outcome Bytes
unfolding cmds_as_string
payload_as_string p self = cmds_as_string p self.cmds

unfoldable pub IsWhole : Command → Type 0
IsWhole c = AreWhole c.arguments

copy-IsWhole : (c : Command) → IsWhole c → copy c ≡ c
unfolding copy IsWhole
copy-IsWhole c h =
    ap (λ (l : Objects). record { cmd = c.cmd; arguments = l; ok = c.ok })
      (list_copy_lem c.arguments h)

map-copy : (cs : List Command) → All IsWhole cs → map copy cs ≡ cs
map-copy [] h = refl
map-copy (c ∷ cs) h = rw (copy-IsWhole c h.0, map-copy cs h.1)

-- A payload that is assigned another, whose arguments hold no NULL and only valid symbols, has the
-- commands of the other behind its own.
pub payload_assign_lem :
    (self other : Payload)
    → All IsWhole other.cmds
    → (payload_assign self other).cmds ≡ self.cmds ++ other.cmds
unfolding payload_assign
payload_assign_lem self other h = ap (◌++◌ self.cmds) (map-copy other.cmds h)
