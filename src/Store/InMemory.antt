-- ===== src/Store/InMemory.antt =====
-- ee/agent/storage/inmemory/keyvalue_store_in_memory.go. A method on `*inMemoryKeyValueStore` takes
-- the pointer, which may be nil (`none`), and returns the new one. The mutex makes each method one
-- step. The keys of a map are ranged over in the order in which the model keeps them.
pub mod Order
pub mod Laws
pub mod Update
pub mod Append
mod Examples
use launcher.Base.{
  ℕ, zero, suc, ◌+◌, ◌/◌, ◌%◌, ◌^◌, Bool, true, false, Option, none, some, List, [], ◌∷◌, ◌++◌,
  Bytes, ◌==◌, Result, ok, err, if◌then◌else◌, length, is_some,
}
use launcher.Base.Dict
use launcher.Base.Dict.{Dict}
use launcher.Store.{StoreError, store_is_nil, key_is_blank}

pub record InMemory : Type 0 where
  pub items : Dict Bytes
  pub order : List Bytes
  pub sequence : ℕ  -- uint64

abbrev pub Pointer : Type 0
Pointer = Option InMemory

unfoldable pub new_store : InMemory
new_store = record { items = []; order = []; sequence = 0 }

unfoldable pub get : Bytes → Pointer → Result StoreError (Option Bytes)
get key none = err store_is_nil
get key (some s) = ok (Dict.lookup key s.items)

-- `Set` behind its two checks
unfoldable pub put : Bytes → Bytes → InMemory → InMemory
put key value s = record s {
  order = if is_some (Dict.lookup key s.items) then s.order else s.order ++ key ∷ [];
  items = Dict.insert key value s.items;
}

unfoldable pub set : Bytes → Bytes → Pointer → Option StoreError × Pointer
unfolding put
set key value none = (some store_is_nil, none)
set key value (some s) =
    if key == [] then (some key_is_blank, some s) else (none, some (put key value s))

-- the inner loop of `Delete`, which breaks at the first match
unfoldable pub remove_first : Bytes → List Bytes → List Bytes
remove_first key [] = []
remove_first key (k ∷ order) = if k == key then order else k ∷ remove_first key order

unfoldable pub delete_one : Bytes → InMemory → InMemory
unfolding remove_first
delete_one key s = record s { items = Dict.delete key s.items; order = remove_first key s.order }

unfoldable pub delete_each : List Bytes → InMemory → InMemory
unfolding delete_one
delete_each [] s = s
delete_each (key ∷ ks) s = delete_each ks (delete_one key s)

unfoldable pub delete : List Bytes → Pointer → Option StoreError × Pointer
unfolding delete_each
delete ks none = (some store_is_nil, none)
delete ks (some s) = (none, some (delete_each ks s))

unfoldable pub delete_all : Pointer → Option StoreError × Pointer
delete_all none = (some store_is_nil, none)
delete_all (some s) = (none, some (record s { items = []; order = [] }))

-- `ForEach` with a callback that works on `W` and returns true for an error; a key of `order` that
-- the map lacks reads as Go's zero value
unfoldable pub after_visit : {W : Type 0} → (W → Bool × W) → Bool × W → Bool × W
after_visit next (true, w) = (true, w)
after_visit next (false, w) = next w

abbrev value_or_nil : Option Bytes → Bytes
value_or_nil none = []
value_or_nil (some v) = v

module _ {W : Type 0} (fn : Bytes → Bytes → W → Bool × W) where
  unfoldable pub for_each_key : Dict Bytes → List Bytes → W → Bool × W
  unfolding after_visit
  for_each_key items [] w = (false, w)
  for_each_key items (key ∷ order) w =
      after_visit (for_each_key items order) (fn key (value_or_nil (Dict.lookup key items)) w)

  unfoldable pub for_each : W → Pointer → Bool × W
  unfolding for_each_key
  for_each w none = (true, w)
  for_each w (some s) = for_each_key s.items s.order w

-- the first loop of `Update`, which returns at a blank key
unfoldable pub set_pairs : Dict Bytes → InMemory → Bool × InMemory
unfolding put
set_pairs [] s = (true, s)
set_pairs ((key, value) ∷ pairs) s =
    if key == [] then (false, s) else set_pairs pairs (put key value s)

-- the second loop, over the keys of the map; the keys that it deletes
unfoldable pub delete_stale : Dict Bytes → List Bytes → InMemory → List Bytes × InMemory
unfolding delete_one
delete_stale pairs [] s = ([], s)
delete_stale pairs (key ∷ ks) s =
    let fresh = is_some (Dict.lookup key pairs) in
    let (deleted, s') = delete_stale pairs ks (if fresh then s else delete_one key s) in
    (if fresh then deleted else key ∷ deleted, s')

unfoldable pub update : Dict Bytes → Pointer → Result StoreError (List Bytes) × Pointer
unfolding set_pairs delete_stale
update pairs none = (err store_is_nil, none)
update pairs (some s) =
    let (all_set, s') = set_pairs pairs s in
    let (deleted, s'') = delete_stale pairs (Dict.keys s'.items) s' in
    if all_set then (ok deleted, some s'') else (err key_is_blank, some s')

-- `Count` has no check for nil: it panics there
unfoldable pub count : Pointer → Option ℕ
count none = none
count (some s) = some (length s.items)

-- `binary.BigEndian.PutUint64`
unfoldable pub big_endian : ℕ → ℕ → Bytes
big_endian zero n = []
big_endian (suc w) n = (n / 256 ^ w % 256) ∷ big_endian w n

unfoldable pub next_sequence_key : InMemory → Bytes × InMemory
unfolding big_endian
next_sequence_key s =
    let n = (s.sequence + 1) % 2 ^ 64 in (big_endian 8 n, record s { sequence = n })

unfoldable pub append_each : List Bytes → InMemory → InMemory
unfolding next_sequence_key put
append_each [] s = s
append_each (value ∷ values) s =
    let (key, s') = next_sequence_key s in append_each values (put key value s')

-- `AppendValues`; the key is never blank, so `Set` returns no error
unfoldable pub append_values : List Bytes → Pointer → Option StoreError × Pointer
unfolding append_each
append_values values none = (some store_is_nil, none)
append_values values (some s) = (none, some (append_each values s))
