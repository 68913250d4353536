-- ===== src/Table.antt =====
-- A GHashTable, as the list of its entries. `same j k` is what the table tests of a key of its own
-- and a key that it is asked for: equal hash values, and then the table's GEqualFunc. It need not be
-- transitive.
pub mod Entries
pub mod Places
pub mod Numbers
pub mod Keys
use libgmbus.Base.{
  Bool, true, false, List, [], ◌∷◌, ◌++◌, map, Option, none, some, if◌then◌else◌, ◌||◌,
}

module _ {K V : Type 0} (same : K → K → Bool) where
  -- g_hash_table_lookup and g_hash_table_lookup_extended.
  unfoldable pub lookup : K → List (K × V) → Option V
  lookup k [] = none
  lookup k ((j, v) ∷ m) = if same j k then some v else lookup k m

  -- g_hash_table_insert: an entry that is found keeps its key.
  unfoldable pub insert : K → V → List (K × V) → List (K × V)
  insert k v [] = (k, v) ∷ []
  insert k v ((j, w) ∷ m) = if same j k then (j, v) ∷ m else (j, w) ∷ insert k v m

  -- g_hash_table_remove.
  unfoldable pub remove : K → List (K × V) → List (K × V)
  remove k [] = []
  remove k ((j, v) ∷ m) = if same j k then m else (j, v) ∷ remove k m

  -- The value that is looked up is written through its pointer.
  unfoldable pub modify : (V → V) → K → List (K × V) → List (K × V)
  modify f k [] = []
  modify f k ((j, v) ∷ m) = if same j k then (j, f v) ∷ m else (j, v) ∷ modify f k m

module _ {K : Type 0} (same : K → K → Bool) where
  -- Whether a key is found among keys, and the list without the key that is found.
  unfoldable pub has : K → List K → Bool
  has k [] = false
  has k (j ∷ ks) = same j k || has k ks

  unfoldable pub drop_key : K → List K → List K
  drop_key k [] = []
  drop_key k (j ∷ ks) = if same j k then ks else j ∷ drop_key k ks

unfoldable pub keys : {K V : Type 0} → List (K × V) → List K
keys [] = []
keys ((k, v) ∷ m) = k ∷ keys m
