-- ===== src/Transport/Entities.antt =====
-- gmbus/mtrans.c: when an entity is dead, and whether one is there.
use libgmbus.Base.{
  ℕ, ◌+◌, ◌*◌, ◌/◌, ◌%◌, Bool, true, false, ◌&&◌, ◌||◌, List, [], ◌∷◌, ◌++◌, none, some, ltb, ◌==◌,
  if◌then◌else◌, length,
}
use libgmbus.Platform.{Platform}
use libgmbus.Address.{Address}
use libgmbus.Table.{lookup}
use libgmbus.Transport.{TimeVal, Entity, Transport, Action, lost_entity, same_address, invoke}

-- g_time_val_add of microseconds.
unfoldable pub time_val_add : TimeVal → ℕ → TimeVal
time_val_add t microseconds =
    let usec = t.tv_usec + microseconds % 1000000 in
    record { tv_sec = t.tv_sec + microseconds / 1000000 + usec / 1000000; tv_usec = usec % 1000000 }

-- The test of __find_dead_entities.
unfoldable pub is_dead_at : TimeVal → ℕ → Entity → Bool
unfolding time_val_add
is_dead_at now is_dead entity =
    let tmp = time_val_add entity.last_hello is_dead in
    ltb tmp.tv_sec now.tv_sec || ((tmp.tv_sec == now.tv_sec) && ltb tmp.tv_usec now.tv_usec)

-- g_hash_table_foreach_remove with __find_dead_entities: the entities left, and the lost addresses.
unfoldable pub find_dead_entities :
    TimeVal → ℕ → List (Address × Entity) → List (Address × Entity) × List Address
unfolding is_dead_at
find_dead_entities now is_dead [] = ([], [])
find_dead_entities now is_dead ((a, entity) ∷ es) =
    let r = find_dead_entities now is_dead es in
    if is_dead_at now is_dead entity then (r.0, a ∷ r.1) else ((a, entity) ∷ r.0, r.1)

-- hello_d in milliseconds, for a number of entities. Its doubles are whole numbers below 2^53.
abbrev hello_d : ℕ → ℕ
hello_d size = if ltb (size * 200) 1000 then 1000 else size * 200

-- is_dead in microseconds: c_hello_dead * hello_d * c_hello_dither_max in whole milliseconds. hello_d
-- is a multiple of 200, so the product is one of 1100, and doubles around it round to it or above.
unfoldable pub dead_after : ℕ → ℕ
dead_after size = hello_d (size + 1) * 5 * 11 / 10 * 1000

unfoldable pub lost_actions : Bool → List Address → List Action
lost_actions callback [] = []
lost_actions callback (a ∷ lost) = invoke callback (lost_entity a) ++ lost_actions callback lost

-- __mbus_transport_check_lost_entities at a time.
unfoldable pub check_lost_entities : TimeVal → Transport → Transport × List Action
unfolding find_dead_entities dead_after lost_actions
check_lost_entities now self =
    let r = find_dead_entities now (dead_after (length self.entities)) self.entities in
    (record self { entities = r.0 }, lost_actions self.lost_entity r.1)

module _ (p : Platform) where
  -- mbus_transport_is_entity_available.
  unfoldable pub is_entity_available : Transport → Address → Bool
  is_entity_available self addr = elim (lookup (same_address p) addr self.entities) [
    | none ↦ false
    | some e ↦ true
  ]
