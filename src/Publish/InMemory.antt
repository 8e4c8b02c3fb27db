-- ===== src/Publish/InMemory.antt =====
-- ee/agent/storage/inmemory/keyvalue_store_in_memory.go as a store of logs: it has what
-- pkg/osquery/extension.go relies on.
use launcher.Base.{
  ◌≡◌, refl, sym, ap, ◌⊎◌, length, ◌∙◌, inl, inr, false, none, some, List, [], ◌∷◌, arith, Bytes,
  ◌==◌, eq_iff, contains, All,
}
use launcher.Base.Dict
use launcher.Base.Dict.{Dict, Distinct}
use launcher.Store.{StoreError, Visit}
use launcher.Store.InMemory.{
  InMemory, Pointer, for_each, delete, delete_one, delete_each, count, append_values,
}
use launcher.Store.InMemory.Order.{IsValid}
use launcher.Store.InMemory.Laws.{visit_all, for_each_lem}
use launcher.Publish.{LogStore, Visited, unread}
use launcher.Publish.Laws.{LogLaws, visited, without}

unfoldable pub logs_for_each : {C : Type 0} → Visit C → C → Pointer → Visited × C
unfolding for_each
logs_for_each visit c none = (unread, c)
logs_for_each visit c (some s) = visited (for_each visit c (some s))

abbrev pub in_memory_logs : LogStore Pointer
in_memory_logs = record {
  for_each = logs_for_each;
  delete = delete;
  count = count;
  append_values = append_values;
}

without-delete :
    (k : Bytes) (ks : List Bytes) (m : Dict Bytes)
    → without ks (Dict.delete k m) ≡ without (k ∷ ks) m
unfolding without Dict.delete contains
without-delete k ks [] = refl
without-delete k ks ((j, w) ∷ m) = ground (arith, without-delete k ks m, eq_iff j k, eq_iff k j)

without-none : (m : Dict Bytes) → without [] m ≡ m
unfolding without contains
without-none [] = refl
without-none ((j, w) ∷ m) = ap (λ n. (j, w) ∷ n) (without-none m)

delete_each-without :
    (ks : List Bytes) (s : InMemory) → (delete_each ks s).items ≡ without ks s.items
unfolding delete_each delete_one
delete_each-without [] s = sym (without-none s.items)
delete_each-without (k ∷ ks) s =
    delete_each-without ks (delete_one k s) ∙ without-delete k ks s.items

abbrev items_of : Pointer → Dict Bytes
items_of none = []
items_of (some s) = s.items

-- the store is valid, and no key is blank
abbrev pub HoldsLogs : Pointer → Type 0
HoldsLogs none = Unit
HoldsLogs (some s) = IsValid s × All (λ k. (k == []) ≡ false) (Dict.keys s.items)

pub distinct_lem : (p : Pointer) → HoldsLogs p → Distinct (Dict.keys (items_of p))
distinct_lem none h = tt
distinct_lem (some s) h = h.0.distinct

pub named_lem : (p : Pointer) → HoldsLogs p → All (λ k. (k == []) ≡ false) (Dict.keys (items_of p))
named_lem none h = tt
named_lem (some s) h = h.1

pub for_each_law :
    {C : Type 0} (visit : Visit C) (c : C) (p : Pointer)
    → HoldsLogs p
    → (logs_for_each visit c p ≡ visited (visit_all visit (items_of p) c))
      ⊎ ((logs_for_each visit c p).0 ≡ unread)
unfolding logs_for_each
for_each_law visit c none h = inr refl
for_each_law visit c (some s) h = inl (ap visited (for_each_lem visit s c h.0))

pub delete_law :
    (ids : List Bytes) (p : Pointer)
    → HoldsLogs p
    → (delete ids p).0 ≡ none
    → items_of (delete ids p).1 ≡ without ids (items_of p)
unfolding delete
delete_law ids none h deleted = absurd (ground (arith, deleted))
delete_law ids (some s) h deleted = delete_each-without ids s

pub delete_failed_law :
    (ids : List Bytes) (p : Pointer) (e : StoreError)
    → (delete ids p).0 ≡ some e
    → (delete ids p).1 ≡ p
unfolding delete
delete_failed_law ids none e failed = refl
delete_failed_law ids (some s) e failed = absurd (ground (arith, failed))

pub count_law :
    (p : Pointer) → HoldsLogs p → (count p ≡ none) ⊎ (count p ≡ some (length (items_of p)))
unfolding count
count_law none h = inl refl
count_law (some s) h = inr refl

abbrev pub in_memory_logs-LogLaws : LogLaws in_memory_logs
in_memory_logs-LogLaws = record {
  entries = items_of;
  IsSound = HoldsLogs;
  distinct = distinct_lem;
  named = named_lem;
  for_each_lem = λ visit c p h. for_each_law visit c p h;
  delete_lem = delete_law;
  delete_failed = delete_failed_law;
  count_lem = count_law;
}
