-- ===== src/Store/InMemory/Order.antt =====
-- ee/agent/storage/inmemory: `order` lists the keys of the map, each once.
use launcher.Base.{
  ◌≡◌, refl, sym, ap, ◌∙◌, true, List, [], ◌∷◌, arith, Bytes, ◌==◌, eq_iff, is_some, Bool-cases,
  inl, inr,
}
use launcher.Base.Dict
use launcher.Base.Dict.{
  Dict, Absent, Distinct, keys, keys-insert, Absent-lookup, delete-Absent, lookup-Absent,
  Absent-delete, Distinct-delete, Distinct-append,
}
use launcher.Store.InMemory.{
  InMemory, put, remove_first, delete_one, delete_each, set_pairs, delete_stale, next_sequence_key,
  append_each,
}

pub record IsValid (s : InMemory) : Type 0 where
  pub listed : s.order ≡ keys s.items
  pub distinct : Distinct (keys s.items)

Absent-eq :
    {V : Type 0} (i k : Bytes) (m : Dict V)
    → (i == k) ≡ true
    → Absent i (keys m)
    → Dict.delete k m ≡ m
Absent-eq i k m e h = rw (← (eq_iff i k).0 e) (delete-Absent i m h)

remove_first-keys :
    {V : Type 0} (k : Bytes) (m : Dict V)
    → Distinct (keys m)
    → remove_first k (keys m) ≡ keys (Dict.delete k m)
unfolding remove_first Dict.delete
remove_first-keys k [] h = refl
remove_first-keys k ((i, w) ∷ m) h = elim (Bool-cases (i == k)) [
  | inl same ↦ rw same (ap keys (sym (Absent-eq i k m same h.0)))
  | inr other ↦ rw other (ap (λ ks. i ∷ ks) (remove_first-keys k m h.1))
]

pub put-IsValid : (k v : Bytes) (s : InMemory) → IsValid s → IsValid (put k v s)
unfolding put
put-IsValid k v s h = elim (Bool-cases (is_some (Dict.lookup k s.items))) [
  | inl old ↦ record {
    listed = rw (old, keys-insert k v s.items, old) h.listed;
    distinct = rw (keys-insert k v s.items, old) h.distinct;
  }
  | inr fresh ↦ record {
    listed = rw (fresh, keys-insert k v s.items, fresh, h.listed) refl;
    distinct =
        rw (keys-insert k v s.items, fresh)
          (Distinct-append k (keys s.items) h.distinct (Absent-lookup k s.items (ground arith)));
  }
]

pub delete_one-IsValid : (k : Bytes) (s : InMemory) → IsValid s → IsValid (delete_one k s)
unfolding delete_one
delete_one-IsValid k s h = record {
  listed = ap (remove_first k) h.listed ∙ remove_first-keys k s.items h.distinct;
  distinct = Distinct-delete k s.items h.distinct;
}

pub delete_each-IsValid : (ks : List Bytes) (s : InMemory) → IsValid s → IsValid (delete_each ks s)
unfolding delete_each
delete_each-IsValid [] s h = h
delete_each-IsValid (k ∷ ks) s h =
    delete_each-IsValid ks (delete_one k s) (delete_one-IsValid k s h)

pub set_pairs-IsValid :
    (pairs : Dict Bytes) (s : InMemory) → IsValid s → IsValid (set_pairs pairs s).1
unfolding set_pairs
set_pairs-IsValid [] s h = h
set_pairs-IsValid ((k, v) ∷ pairs) s h =
    ground (arith, set_pairs-IsValid pairs (put k v s) (put-IsValid k v s h))

pub delete_stale-IsValid :
    (pairs : Dict Bytes) (ks : List Bytes) (s : InMemory)
    → IsValid s
    → IsValid (delete_stale pairs ks s).1
unfolding delete_stale
delete_stale-IsValid pairs [] s h = h
delete_stale-IsValid pairs (k ∷ ks) s h = elim (Bool-cases (is_some (Dict.lookup k pairs))) [
  | inl fresh ↦ rw fresh (delete_stale-IsValid pairs ks s h)
  | inr stale ↦ rw stale (delete_stale-IsValid pairs ks (delete_one k s) (delete_one-IsValid k s h))
]

pub append_each-IsValid :
    (values : List Bytes) (s : InMemory) → IsValid s → IsValid (append_each values s)
unfolding append_each
append_each-IsValid [] s h = h
append_each-IsValid (v ∷ values) s h =
    let (key, s') = next_sequence_key s in
    let h' : IsValid s' = unfold next_sequence_key in ground arith in
    append_each-IsValid values (put key v s') (put-IsValid key v s' h')
