-- ===== src/Store/InMemory/Examples.antt =====
-- Runs of a small store, and the theorems about it at such inputs.
use launcher.Base.{
  ◌≡◌, refl, Bool, true, false, ◌&&◌, not, some, List, [], ◌∷◌, Bytes, ◌==◌, ok, is_some, contains,
  codes,
}
use launcher.Base.Dict
use launcher.Base.Dict.{Dict}
use launcher.Store.InMemory.{
  InMemory, Pointer, new_store, get, put, set, delete, delete_each, update, append_each, set_pairs,
  delete_stale, for_each,
}
use launcher.Store.InMemory.Order.{IsValid}
use launcher.Store.InMemory.Laws.{
  Call, sets, deletes, updates, appends, calls, IsSound, calls-IsSound, visit_all, for_each_lem,
}
use launcher.Store.InMemory.Update.{update_lem}

abbrev key_a : Bytes
key_a = codes "a"

abbrev key_b : Bytes
key_b = codes "b"

abbrev two : InMemory
two = record {
  items = (key_a, 1 ∷ []) ∷ (key_b, 2 ∷ []) ∷ [];
  order = key_a ∷ key_b ∷ [];
  sequence = 0;
}

two-IsValid : IsValid two
unfolding ◌==◌
two-IsValid = record { listed = refl; distinct = ((refl, tt), (tt, tt)) }

abbrev script : List Call
script =
    sets key_a (1 ∷ [])
    ∷ sets [] (9 ∷ [])
    ∷ appends ((7 ∷ []) ∷ [])
    ∷ updates ((key_b, 2 ∷ []) ∷ [])
    ∷ deletes (key_a ∷ [])
    ∷ []

script_run :
    calls script (some new_store)
    ≡ some (record { items = (key_b, 2 ∷ []) ∷ []; order = key_b ∷ []; sequence = 1 })
unfolding calls new_store set delete update append_each put delete_each delete_stale set_pairs ◌==◌
    Dict.lookup Dict.insert Dict.delete
script_run = refl

calls-IsSound_example : IsSound (calls script (some two))
calls-IsSound_example = calls-IsSound script (some two) two-IsValid

-- collects the keys, and fails at the second entry
abbrev collect : Bytes → Bytes → List Bytes → Bool × List Bytes
collect k v [] = (false, k ∷ [])
collect k v (j ∷ ks) = (true, k ∷ j ∷ ks)

for_each_lem_example : for_each collect [] (some two) ≡ visit_all collect two.items []
for_each_lem_example = for_each_lem collect two [] two-IsValid

abbrev pairs : Dict Bytes
pairs = (key_b, 3 ∷ []) ∷ []

update_lem_example :
    (deleted : List Bytes) × (p : Pointer) × (update pairs (some two) ≡ (ok deleted, p))
    × ((j : Bytes) → get j p ≡ ok (Dict.lookup j pairs))
    × ((j : Bytes)
        → contains j deleted
          ≡ (is_some (Dict.lookup j two.items) && not (is_some (Dict.lookup j pairs))))
unfolding ◌==◌
update_lem_example = update_lem pairs two (refl, tt) (tt, tt)
