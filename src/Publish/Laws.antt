-- ===== src/Publish/Laws.antt =====
-- What pkg/osquery/extension.go relies on in a store of logs: that the calls of the `KVStore` do what
-- their interface in ee/agent/types/keyvalue_store.go documents.
use mathlib.Core.Path.{subst}
use launcher.Base.{
  ℕ, zero, suc, ◌≡◌, refl, sym, ap, append_assoc, ◌⊎◌, Bool, true, false, ◌||◌, none, some, List,
  [], ◌∷◌, ◌++◌, arith, Bytes, ◌==◌, eq_refl, eq_iff, if◌then◌else◌, contains, length, All,
}
use launcher.Base.Dict
use launcher.Base.Dict.{Dict, Absent, Distinct}
use launcher.Store.{StoreError, Visit}
use launcher.Store.InMemory.Laws.{visit_all}
use launcher.Publish.{LogStore, Visited, completed, stopped, unread, nil_keys}

unfoldable pub without : List Bytes → Dict Bytes → Dict Bytes
without ids [] = []
without ids ((k, v) ∷ m) =
    let rest = without ids m in if contains k ids then rest else (k, v) ∷ rest

abbrev pub visited : {C : Type 0} → Bool × C → Visited × C
visited (true, c) = (stopped, c)
visited (false, c) = (completed, c)

-- A sound store has entries in order, under keys that are distinct and not blank. `ForEach` visits
-- them until the callback fails, or cannot read the store; `Delete` takes its keys away, or fails
-- and takes none; `Count` counts the entries.
pub record LogLaws {S : Type 0} (store : LogStore S) : Type 1 where
  pub entries : S → Dict Bytes
  pub IsSound : S → Type 0
  pub distinct : (s : S) → IsSound s → Distinct (Dict.keys (entries s))
  pub named : (s : S) → IsSound s → All (λ k. (k == []) ≡ false) (Dict.keys (entries s))
  pub for_each_lem :
      {C : Type 0} (visit : Visit C) (c : C) (s : S)
      → IsSound s
      → (store.for_each visit c s ≡ visited (visit_all visit (entries s) c))
        ⊎ ((store.for_each visit c s).0 ≡ unread)
  pub delete_lem :
      (ids : List Bytes) (s : S)
      → IsSound s
      → (store.delete ids s).0 ≡ none
      → entries (store.delete ids s).1 ≡ without ids (entries s)
  pub delete_failed :
      (ids : List Bytes) (s : S) (e : StoreError)
      → (store.delete ids s).0 ≡ some e
      → (store.delete ids s).1 ≡ s
  pub count_lem :
      (s : S) → IsSound s → (store.count s ≡ none) ⊎ (store.count s ≡ some (length (entries s)))

without-split :
    (ids : List Bytes) (taken left : Dict Bytes)
    → All (λ k. contains k ids ≡ true) (Dict.keys taken)
    → All (λ k. contains k ids ≡ false) (Dict.keys left)
    → without ids (taken ++ left) ≡ left
unfolding without
without-split ids [] [] h g = refl
without-split ids [] ((k, v) ∷ left) h g =
    rw g.0 (ap (λ m. (k, v) ∷ m) (without-split ids [] left tt g.1))
without-split ids ((k, v) ∷ taken) left h g = rw h.0 (without-split ids taken left h.1 g)

contains-append_left :
    (k : Bytes) (before after : List Bytes)
    → contains k (before ++ after) ≡ (contains k before || contains k after)
unfolding contains
contains-append_left k [] after = refl
contains-append_left k (j ∷ before) after = ground (arith, contains-append_left k before after)

-- The keys of the list itself are contained, whatever stands before it.
contains_own : (before ks : List Bytes) → All (λ k. contains k (before ++ ks) ≡ true) ks
unfolding contains
contains_own before [] = tt
contains_own before (k ∷ ks) = (
  ground (arith, contains-append_left k before (k ∷ ks), eq_refl k),
  subst (λ all. All (λ j. contains j all ≡ true) ks) (append_assoc before (k ∷ []) ks)
      (contains_own (before ++ k ∷ []) ks),
)

keys-append : (m n : Dict Bytes) → Dict.keys (m ++ n) ≡ Dict.keys m ++ Dict.keys n
keys-append [] n = refl
keys-append ((k, v) ∷ m) n = ap (λ ks. k ∷ ks) (keys-append m n)

-- none of the keys `js` is in `before` or is `k`
contains_cons :
    (k : Bytes) (before js : List Bytes)
    → Absent k js
    → All (λ j. contains j before ≡ false) js
    → All (λ j. contains j (k ∷ before) ≡ false) js
unfolding contains
contains_cons k before [] absent h = tt
contains_cons k before (j ∷ js) absent h =
    (ground (arith, absent.0, h.0, eq_iff j k, eq_iff k j), contains_cons k before js absent.1 h.1)

All-append_right {ℓ κ} :
    {A : Type ℓ} (P : A → Type κ) (xs ys : List A) → All P (xs ++ ys) → All P ys
All-append_right P [] ys h = h
All-append_right P (x ∷ xs) ys h = All-append_right P xs ys h.1

-- Of distinct keys, none of the later ones is among the first.
contains_others : (ks js : List Bytes) → Distinct (ks ++ js) → All (λ j. contains j ks ≡ false) js
unfolding contains
contains_others [] js h = absent_all js
  where
    absent_all : (js : List Bytes) → All (λ j. contains j [] ≡ false) js
    absent_all [] = tt
    absent_all (j ∷ js) = (refl, absent_all js)
contains_others (k ∷ ks) js h =
    contains_cons k ks js (All-append_right _ ks js h.0) (contains_others ks js h.1)

contains_both :
    (before ks js : List Bytes)
    → All (λ j. contains j before ≡ false) js
    → All (λ j. contains j ks ≡ false) js
    → All (λ j. contains j (before ++ ks) ≡ false) js
contains_both before ks [] h g = tt
contains_both before ks (j ∷ js) h g =
    (rw (contains-append_left j before ks, h.0) g.0, contains_both before ks js h.1 g.1)

-- The keys of the first entries, and others that no entry has, take away the first entries.
pub without-keys :
    (before : List Bytes) (taken left : Dict Bytes)
    → Distinct (Dict.keys (taken ++ left))
    → All (λ k. contains k before ≡ false) (Dict.keys (taken ++ left))
    → without (before ++ Dict.keys taken) (taken ++ left) ≡ left
without-keys before taken left distinct others =
    without-split (before ++ Dict.keys taken) taken left (contains_own before (Dict.keys taken)) (
      contains_both before (Dict.keys taken) (Dict.keys left)
        (All-append_right _ (Dict.keys taken) (Dict.keys left)
          (rw (sym (keys-append taken left)) others))
        (contains_others (Dict.keys taken) (Dict.keys left)
          (rw (sym (keys-append taken left)) distinct)))

pub contains-nil_keys :
    (n : ℕ) (ks : List Bytes)
    → All (λ k. (k == []) ≡ false) ks
    → All (λ k. contains k (nil_keys n) ≡ false) ks
unfolding contains
contains-nil_keys n [] h = tt
contains-nil_keys n (k ∷ ks) h = (go n, contains-nil_keys n ks h.1)
  where
    go : (n : ℕ) → contains k (nil_keys n) ≡ false
    go zero = refl
    go (suc n) = ground (arith, h.0, go n, eq_iff [] k, eq_iff k [])
