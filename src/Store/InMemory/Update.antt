-- ===== src/Store/InMemory/Update.antt =====
-- ee/agent/storage/inmemory: `Update` replaces the contents.
use launcher.Base.{
  ◌≡◌, refl, ap, true, false, Option, none, some, List, [], ◌∷◌, ◌++◌, arith, Bytes, ◌==◌, ok, err,
  eq_iff, contains, if◌then◌else◌, is_some, Bool-cases, inl, inr, ◌&&◌, not,
}
use launcher.Base.Dict
use launcher.Base.Dict.{Dict, Distinct, Absent, keys, lookup-insert, lookup-delete, lookup-Absent}
use launcher.Store.{key_is_blank}
use launcher.Store.InMemory.{
  InMemory, Pointer, get, put, set_pairs, delete_one, delete_stale, update,
}

-- No pair has a blank key.
abbrev pub NoBlank : Dict Bytes → Type 0
NoBlank [] = Unit
NoBlank ((k, v) ∷ pairs) = ((k == []) ≡ false) × NoBlank pairs

abbrev or_else : Option Bytes → Option Bytes → Option Bytes
or_else none o = o
or_else (some v) o = some v

set_pairs_all : (pairs : Dict Bytes) (s : InMemory) → NoBlank pairs → (set_pairs pairs s).0 ≡ true
unfolding set_pairs
set_pairs_all [] s h = refl
set_pairs_all ((k, v) ∷ pairs) s h = ground (arith, h.0, set_pairs_all pairs (put k v s) h.1)

lookup-set_pairs :
    (pairs : Dict Bytes) (s : InMemory) (j : Bytes)
    → NoBlank pairs
    → Distinct (keys pairs)
    → Dict.lookup j (set_pairs pairs s).1.items
      ≡ or_else (Dict.lookup j pairs) (Dict.lookup j s.items)
unfolding set_pairs put Dict.lookup
lookup-set_pairs [] s j h d = refl
lookup-set_pairs ((k, v) ∷ pairs) s j h d = ground (
  arith,
  h.0,
  lookup-set_pairs pairs (put k v s) j h.1 d.1,
  lookup-insert k j v s.items,
  lookup-Absent k pairs d.0,
  eq_iff k j,
)

-- The keys of `ks` that the pairs lack.
abbrev pub stale : Dict Bytes → List Bytes → List Bytes
stale pairs [] = []
stale pairs (k ∷ ks) = if is_some (Dict.lookup k pairs) then stale pairs ks else k ∷ stale pairs ks

delete_stale-stale :
    (pairs : Dict Bytes) (ks : List Bytes) (s : InMemory)
    → (delete_stale pairs ks s).0 ≡ stale pairs ks
unfolding delete_stale
delete_stale-stale pairs [] s = refl
delete_stale-stale pairs (k ∷ ks) s = elim (Bool-cases (is_some (Dict.lookup k pairs))) [
  | inl fresh ↦ rw fresh (delete_stale-stale pairs ks s)
  | inr old ↦ rw old (ap (λ xs. k ∷ xs) (delete_stale-stale pairs ks (delete_one k s)))
]

lookup-delete_stale :
    (pairs : Dict Bytes) (ks : List Bytes) (s : InMemory) (j : Bytes)
    → Dict.lookup j (delete_stale pairs ks s).1.items
      ≡ (if contains j (stale pairs ks) then none else Dict.lookup j s.items)
unfolding delete_stale delete_one contains
lookup-delete_stale pairs [] s j = refl
lookup-delete_stale pairs (k ∷ ks) s j = elim (Bool-cases (is_some (Dict.lookup k pairs))) [
  | inl fresh ↦ rw fresh (lookup-delete_stale pairs ks s j)
  | inr old ↦
      rw old
        (ground (arith, lookup-delete_stale pairs ks (delete_one k s) j, lookup-delete k j s.items))
]

contains-stale :
    (pairs : Dict Bytes) (ks : List Bytes) (j : Bytes)
    → contains j (stale pairs ks) ≡ (contains j ks && not (is_some (Dict.lookup j pairs)))
unfolding contains
contains-stale pairs [] j = refl
contains-stale pairs (k ∷ ks) j = ground (arith, eq_iff k j, contains-stale pairs ks j)

contains-keys : (m : Dict Bytes) (j : Bytes) → contains j (keys m) ≡ is_some (Dict.lookup j m)
unfolding contains Dict.lookup
contains-keys [] j = refl
contains-keys ((k, v) ∷ m) j = ground (arith, contains-keys m j)

-- `Update` with keys that are not blank, in a store that is not nil: afterwards every key reads as
-- the given pairs have it, and the keys that are returned are those that were in the store and are
-- not among the pairs.
pub update_lem :
    (pairs : Dict Bytes) (s : InMemory)
    → NoBlank pairs
    → Distinct (keys pairs)
    → (deleted : List Bytes) × (p : Pointer) × (update pairs (some s) ≡ (ok deleted, p))
      × ((j : Bytes) → get j p ≡ ok (Dict.lookup j pairs))
      × ((j : Bytes)
          → contains j deleted
            ≡ (is_some (Dict.lookup j s.items) && not (is_some (Dict.lookup j pairs))))
unfolding update get
update_lem pairs s h d =
    let s' = (set_pairs pairs s).1 in
    let ks = keys s'.items in
    (
      stale pairs ks,
      some (delete_stale pairs ks s').1,
      ground (arith, set_pairs_all pairs s h, delete_stale-stale pairs ks s'),
      λ j. ground (
        arith,
        lookup-delete_stale pairs ks s' j,
        contains-stale pairs ks j,
        contains-keys s'.items j,
        lookup-set_pairs pairs s j h d,
      ),
      λ j. ground (
        arith,
        contains-stale pairs ks j,
        contains-keys s'.items j,
        lookup-set_pairs pairs s j h d,
      ),
    )

set_pairs_blank :
    (before after : Dict Bytes) (v : Bytes) (s : InMemory)
    → NoBlank before
    → set_pairs (before ++ ([], v) ∷ after) s ≡ (false, (set_pairs before s).1)
unfolding set_pairs ◌==◌
set_pairs_blank [] after v s h = refl
set_pairs_blank ((k, w) ∷ before) after v s h =
    ground (arith, h.0, set_pairs_blank before after v (put k w s) h.1)

-- A blank key ends `Update` with an error: the pairs before it have been set, and no key has been
-- deleted.
pub update_blank :
    (before after : Dict Bytes) (v : Bytes) (s : InMemory)
    → NoBlank before
    → update (before ++ ([], v) ∷ after) (some s) ≡ (err key_is_blank, some (set_pairs before s).1)
unfolding update
update_blank before after v s h = ground (arith, set_pairs_blank before after v s h)
