-- ===== src/Store/InMemory/Laws.antt =====
-- ee/agent/storage/inmemory: what the methods promise.
use launcher.Base.{
  ◌≡◌, refl, ◌≢◌, Bool, true, false, none, some, List, [], ◌∷◌, arith, Bytes, ◌==◌, ok, eq_iff,
  eq_refl, if◌then◌else◌, Bool-cases, inl, inr, ◌⊎◌, contains,
}
use launcher.Base.Dict
use launcher.Base.Dict.{Dict, Distinct, keys, lookup-insert, lookup-delete}
use launcher.Store.{KvStore, KvLaws}
use launcher.Store.InMemory.{
  InMemory, Pointer, get, put, set, delete, delete_each, delete_one, delete_all, update,
  append_values, set_pairs, for_each, for_each_key, after_visit,
}
use launcher.Store.InMemory.Order.{
  IsValid, put-IsValid, delete_each-IsValid, set_pairs-IsValid, delete_stale-IsValid,
  append_each-IsValid,
}

-- A call of a method that changes the store.
pub data Call : Type 0 where
  sets : Bytes → Bytes → Call
  deletes : List Bytes → Call
  deletes_all : Call
  updates : Dict Bytes → Call
  appends : List Bytes → Call

unfoldable pub call : Call → Pointer → Pointer
unfolding set delete delete_all update append_values
call (sets k v) p = (set k v p).1
call (deletes ks) p = (delete ks p).1
call deletes_all p = (delete_all p).1
call (updates pairs) p = (update pairs p).1
call (appends values) p = (append_values values p).1

unfoldable pub calls : List Call → Pointer → Pointer
unfolding call
calls [] p = p
calls (c ∷ cs) p = calls cs (call c p)

-- A nil pointer, or a valid store.
abbrev pub IsSound : Pointer → Type 0
IsSound none = Unit
IsSound (some s) = IsValid s

call-IsSound : (c : Call) (p : Pointer) → IsSound p → IsSound (call c p)
unfolding call
call-IsSound (sets k v) none h = tt
call-IsSound (sets k v) (some s) h = ground (arith, put-IsValid k v s h)
call-IsSound (deletes ks) none h = tt
call-IsSound (deletes ks) (some s) h = delete_each-IsValid ks s h
call-IsSound deletes_all none h = tt
call-IsSound deletes_all (some s) h = record { listed = refl; distinct = tt }
call-IsSound (updates pairs) none h = tt
call-IsSound (updates pairs) (some s) h =
    let (all_set, s') = set_pairs pairs s in
    let h' : IsValid s' = set_pairs-IsValid pairs s h in
    ground (arith, h', delete_stale-IsValid pairs (keys s'.items) s' h')
call-IsSound (appends values) none h = tt
call-IsSound (appends values) (some s) h = append_each-IsValid values s h

-- After any calls of its methods, failing ones included, `order` lists the keys of the map, each
-- of them once.
pub calls-IsSound : (cs : List Call) (p : Pointer) → IsSound p → IsSound (calls cs p)
unfolding calls
calls-IsSound [] p h = h
calls-IsSound (c ∷ cs) p h = calls-IsSound cs (call c p) (call-IsSound c p h)

-- `Get` after `Set`, for every key: nothing changes if the key is blank or the store nil.
pub get-set :
    (k v j : Bytes) (p : Pointer)
    → let (error, p') = set k v p in
      ((error ≡ none) × (get j p' ≡ (if k == j then ok (some v) else get j p)))
      ⊎ ((error ≢ none) × (p' ≡ p) × ((k ≡ []) ⊎ (p ≡ none)))
unfolding get set put
get-set k v j none = inr (λ e. cc, refl, inr refl)
get-set k v j (some s) = elim (Bool-cases (k == [])) [
  | inl blank ↦ rw blank (inr (λ e. cc, refl, inl ((eq_iff k []).0 blank)))
  | inr ok_key ↦ rw ok_key (inl (refl, ground (arith, lookup-insert k j v s.items)))
]

lookup-delete_each :
    (ks : List Bytes) (j : Bytes) (s : InMemory)
    → Dict.lookup j (delete_each ks s).items
      ≡ (if contains j ks then none else Dict.lookup j s.items)
unfolding delete_each delete_one contains
lookup-delete_each [] j s = refl
lookup-delete_each (k ∷ ks) j s =
    ground (arith, lookup-delete_each ks j (delete_one k s), lookup-delete k j s.items)

-- `Get` after `Delete`: the keys that were named are gone, and all others are as they were.
pub get-delete :
    (ks : List Bytes) (j : Bytes) (s : InMemory)
    → get j (delete ks (some s)).1 ≡ (if contains j ks then ok none else get j (some s))
unfolding get delete
get-delete ks j s = ground (arith, lookup-delete_each ks j s)

-- The entries in turn, until the callback returns an error.
unfoldable pub visit_all : {W : Type 0} → (Bytes → Bytes → W → Bool × W) → Dict Bytes → W → Bool × W
visit_all fn [] w = (false, w)
visit_all fn ((k, v) ∷ m) w =
    let (stop, w') = fn k v w in let rest = visit_all fn m w' in if stop then (true, w') else rest

-- `all` reads each entry of `m` as `m` has it
abbrev Agrees : Dict Bytes → Dict Bytes → Type 0
Agrees all [] = Unit
Agrees all ((k, v) ∷ m) = (Dict.lookup k all ≡ some v) × Agrees all m

Agrees-cons :
    (i v : Bytes) (all m : Dict Bytes)
    → Dict.Absent i (keys m)
    → Agrees all m
    → Agrees ((i, v) ∷ all) m
unfolding Dict.lookup
Agrees-cons i v all [] a h = tt
Agrees-cons i v all ((k, w) ∷ m) a h =
    (ground (arith, a.0, h.0, eq_iff i k, eq_iff k i), Agrees-cons i v all m a.1 h.1)

Agrees-refl : (m : Dict Bytes) → Distinct (keys m) → Agrees m m
unfolding Dict.lookup
Agrees-refl [] d = tt
Agrees-refl ((k, v) ∷ m) d =
    (ground (arith, eq_refl k), Agrees-cons k v m m d.0 (Agrees-refl m d.1))

after_visit-if :
    {W : Type 0} (next rest : W → Bool × W)
    → ((w : W) → next w ≡ rest w)
    → (r : Bool × W) → after_visit next r ≡ (if r.0 then (true, r.1) else rest r.1)
unfolding after_visit
after_visit-if next rest h (true, w) = refl
after_visit-if next rest h (false, w) = h w

for_each_key_lem :
    {W : Type 0} (fn : Bytes → Bytes → W → Bool × W) (all m : Dict Bytes) (w : W)
    → Agrees all m
    → for_each_key fn all (keys m) w ≡ visit_all fn m w
unfolding for_each_key visit_all
for_each_key_lem fn all [] w h = refl
for_each_key_lem fn all ((k, v) ∷ m) w h = rw h.0 (
    after_visit-if (for_each_key fn all (keys m)) (visit_all fn m)
      (λ w'. for_each_key_lem fn all m w' h.1) (fn k v w))

-- `ForEach` calls its callback with every entry of a valid store once, in the order in which the
-- keys were first set, and stops at the first error.
pub for_each_lem :
    {W : Type 0} (fn : Bytes → Bytes → W → Bool × W) (s : InMemory) (w : W)
    → IsValid s
    → for_each fn w (some s) ≡ visit_all fn s.items w
unfolding for_each
for_each_lem fn s w h =
    rw h.listed (for_each_key_lem fn s.items s.items w (Agrees-refl s.items h.distinct))

-- The in-memory store as the store that the rest of the launcher is written against.
abbrev pub in_memory_kv : (C : Type 0) → KvStore Pointer C
in_memory_kv C = record {
  get = get;
  set = set;
  delete = delete;
  for_each = λ fn w p. for_each fn w p;
}

pub in_memory_kv-KvLaws : (C : Type 0) → KvLaws (in_memory_kv C)
in_memory_kv-KvLaws C = record {
  get-set = λ k v s e j. ground (arith, get-set k v j s);
  set_failed = λ k v s x e. ground (arith, get-set k v [] s);
}
