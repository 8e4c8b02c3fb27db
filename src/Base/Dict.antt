-- ===== src/Base/Dict.antt =====
-- Go's map with string keys, as an association list. A new key goes to the end, so `keys` lists
-- the keys in the order of their insertion; a program that ranges over a map sees some order.
use mathlib.Core.Path.{◌≡◌, refl}
use mathlib.Core.Bool.{false}
use mathlib.Core.Option.{Option, none, some}
use mathlib.Core.List.{List, [], ◌∷◌, ◌++◌}
use native.Mathlib.Omega.{arith}
use launcher.Base.Tests.{if◌then◌else◌, is_some, Bool-cases}
use mathlib.Core.Logic.{inl, inr}
use launcher.Base.Lists.{All}
use launcher.Base.Text.{Bytes, ◌==◌, eq_iff}

abbrev pub Dict : Type 0 → Type 0
Dict V = List (Bytes × V)

module _ {V : Type 0} where
  -- `m[key]`, with the second result of Go's form as the option
  unfoldable pub lookup : Bytes → Dict V → Option V
  lookup key [] = none
  lookup key ((at, value) ∷ others) =
      let further = lookup key others in if at == key then some value else further

  -- `m[key] = value`
  unfoldable pub insert : Bytes → V → Dict V → Dict V
  insert key value [] = (key, value) ∷ []
  insert key value ((at, old) ∷ others) =
      let further = insert key value others in
      if at == key then (key, value) ∷ others else (at, old) ∷ further

  unfoldable pub delete : Bytes → Dict V → Dict V
  delete k [] = []
  delete k ((j, w) ∷ m) = let rest = delete k m in if j == k then rest else (j, w) ∷ rest

  abbrev pub keys : Dict V → List Bytes
  keys [] = []
  keys ((j, w) ∷ m) = j ∷ keys m

  pub lookup-insert :
      (key other : Bytes) (value : V) (dict : Dict V)
      → lookup other (insert key value dict)
        ≡ (if key == other then some value else lookup other dict)
  unfolding lookup insert
  lookup-insert key other value [] = refl
  lookup-insert key other value ((at, old) ∷ dict) =
      ground (
        arith,
        lookup-insert key other value dict,
        eq_iff at key,
        eq_iff at other,
        eq_iff key other,
      )

  pub lookup-delete :
      (k j : Bytes) (m : Dict V) → lookup j (delete k m) ≡ (if k == j then none else lookup j m)
  unfolding lookup delete
  lookup-delete k j [] = ground arith
  lookup-delete k j ((i, w) ∷ m) =
      ground (arith, eq_iff k j, eq_iff i k, eq_iff i j, lookup-delete k j m)

  pub keys-insert :
      (k : Bytes) (v : V) (m : Dict V)
      → keys (insert k v m) ≡ (if is_some (lookup k m) then keys m else keys m ++ k ∷ [])
  unfolding lookup insert
  keys-insert k v [] = refl
  keys-insert k v ((i, w) ∷ m) = ground (arith, eq_iff i k, keys-insert k v m)

-- `k` is none of the keys.
abbrev pub Absent : Bytes → List Bytes → Type 0
Absent k = All (λ j. (j == k) ≡ false)

abbrev pub Distinct : List Bytes → Type 0
Distinct [] = Unit
Distinct (k ∷ ks) = Absent k ks × Distinct ks

module _ {V : Type 0} where
  pub lookup-Absent : (k : Bytes) (m : Dict V) → Absent k (keys m) → lookup k m ≡ none
  unfolding lookup
  lookup-Absent k [] h = refl
  lookup-Absent k ((i, w) ∷ m) h = ground (arith, lookup-Absent k m h.1)

  pub Absent-lookup : (k : Bytes) (m : Dict V) → lookup k m ≡ none → Absent k (keys m)
  unfolding lookup
  Absent-lookup k [] h = tt
  Absent-lookup k ((i, w) ∷ m) h = ground (arith, Absent-lookup k m)

  pub delete-Absent : (k : Bytes) (m : Dict V) → Absent k (keys m) → delete k m ≡ m
  unfolding delete
  delete-Absent k [] h = refl
  delete-Absent k ((i, w) ∷ m) h = ground (arith, delete-Absent k m h.1)

pub Absent-append :
    (k j : Bytes) (ks : List Bytes) → Absent k ks → (j == k) ≡ false → Absent k (ks ++ j ∷ [])
Absent-append k j [] h ne = (ne, tt)
Absent-append k j (i ∷ ks) h ne = (h.0, Absent-append k j ks h.1 ne)

pub Distinct-append :
    (k : Bytes) (ks : List Bytes) → Distinct ks → Absent k ks → Distinct (ks ++ k ∷ [])
Distinct-append k [] d a = (tt, tt)
Distinct-append k (i ∷ ks) d a = (
  Absent-append i k ks d.0 (ground (arith, a.0, eq_iff i k, eq_iff k i)),
  Distinct-append k ks d.1 a.1,
)

pub Absent-delete :
    {V : Type 0} (k j : Bytes) (m : Dict V) → Absent k (keys m) → Absent k (keys (delete j m))
unfolding delete
Absent-delete k j [] h = tt
Absent-delete k j ((i, w) ∷ m) h = ground (arith, Absent-delete k j m h.1)

pub Distinct-delete :
    {V : Type 0} (k : Bytes) (m : Dict V) → Distinct (keys m) → Distinct (keys (delete k m))
unfolding delete
Distinct-delete k [] h = tt
Distinct-delete k ((i, w) ∷ m) h = ground (arith, Distinct-delete k m h.1, Absent-delete i k m h.0)

pub Distinct-insert :
    {V : Type 0} (k : Bytes) (v : V) (m : Dict V)
    → Distinct (keys m)
    → Distinct (keys (insert k v m))
Distinct-insert k v m h = elim (Bool-cases (is_some (lookup k m))) [
  | inl old ↦ rw (keys-insert k v m, old) h
  | inr fresh ↦
      rw (keys-insert k v m, fresh)
        (Distinct-append k (keys m) h (Absent-lookup k m (ground (arith, fresh))))
]
