-- ===== src/Flatten/Keys.antt =====
-- ee/dataflatten/flatten.go: the keys under which elements of an array are descended into.
use launcher.Base.{
  ℕ, ◌≡◌, refl, sym, ap, ◌∙◌, ◌⊎◌, inl, inr, Bool, true, false, ◌||◌, Option, none, some, List, [],
  ◌∷◌, ◌++◌, arith, Bytes, codes, ok, if◌then◌else◌,
}
use mathlib.Core.Path.{subst}
use launcher.Flatten.Texts.{split_once, itoa, cut_prefix}
use launcher.Flatten.Tree.{
  Data, nil, text, raw, other, array, object, objects, Items, item, Fields, Flattener, Codecs,
}
use launcher.Flatten.Query.{
  query_key_denoter, query_at_depth, element_key, rewritten_key, lookup_field,
  query_match_array_element,
}
use launcher.Flatten.{Rows}
use launcher.Flatten.Leads.{HasText, Leads, LeadsItems, by_index, by_name, IsSound, under}

module _ (fl : Flattener) (codecs : Codecs) where
  some_inj : {a b : Bytes} → some a ≡ some b → a ≡ b
  some_inj e = ground (arith, e)

  rewritten_key-HasText :
      (after : Bytes) (d : Data) (key : Bytes)
      → rewritten_key fl codecs after d ≡ some key
      → HasText key d
  unfolding rewritten_key
  rewritten_key-HasText after d key h = on d h
    where
      name : Bytes
      name = elim (split_once (codes "=>") after) [ none ↦ after | some (k, v) ↦ k ]

      found :
          (fields : Fields) (o : Option Data)
          → lookup_field name fields ≡ o
          → ◌≡◌ {A = Option Bytes} (elim o [ some (text s) ↦ some s | _ ↦ none ]) (some key)
          → HasText key (object fields)
      found fields (some (text s)) e h = (name, e ∙ ap (λ t. some (text t)) (ground (arith, h)))
      found fields none e h = absurd (ground (arith, h))
      found fields (some nil) e h = absurd (ground (arith, h))
      found fields (some (raw s)) e h = absurd (ground (arith, h))
      found fields (some (other s)) e h = absurd (ground (arith, h))
      found fields (some (array s)) e h = absurd (ground (arith, h))
      found fields (some (object s)) e h = absurd (ground (arith, h))
      found fields (some (objects s)) e h = absurd (ground (arith, h))

      on :
          (d : Data)
          → ◌≡◌ {A = Option Bytes}
              (elim d [
                | object fields ↦ elim (lookup_field name fields) [
                  | some (text s) ↦ some s
                  | _ ↦ none
                ]
                | _ ↦ none
              ])
              (some key)
          → HasText key d
      on (object fields) h = found fields (lookup_field name fields) refl h
      on nil h = absurd (ground (arith, h))
      on (text s) h = absurd (ground (arith, h))
      on (raw s) h = absurd (ground (arith, h))
      on (other s) h = absurd (ground (arith, h))
      on (array s) h = absurd (ground (arith, h))
      on (objects s) h = absurd (ground (arith, h))

  -- the key of an element is its index or a text in it
  unfoldable pub IsKey : ℕ → Data → Bytes → Type 0
  IsKey index d key = (key ≡ itoa index) ⊎ HasText key d

  pub element_key_lem :
      (index : ℕ) (d : Data) (depth : ℕ) (key : Bytes)
      → element_key fl codecs index d depth ≡ some key
      → IsKey index d key
  unfolding element_key IsKey
  element_key_lem index d depth key h = go (cut_prefix query_key_denoter term) matched h
    where
      term : Bytes
      term = (query_at_depth fl codecs depth).0

      matched : Bool
      matched =
          (query_at_depth fl codecs depth).1 || query_match_array_element fl codecs d index term

      go :
          (o : Option Bytes) (b : Bool)
          → ◌≡◌ {A = Option Bytes}
              (if b
                then (elim o [
                  | none ↦ some (itoa index)
                  | some after ↦ rewritten_key fl codecs after d
                ])
                else none)
              (some key)
          → (key ≡ itoa index) ⊎ HasText key d
      go none true h = inl (some_inj (sym h))
      go (some after) true h = inr (rewritten_key-HasText after d key h)
      go o false h = absurd (ground (arith, h))

  -- an element that is descended into under fl codecs its key, or passed over
  pub element-IsSound :
      (path : List Bytes) (index : ℕ) (d : Data) (items : Items) (below : Bytes → Rows)
      (o : Option Bytes)
      → ((key : Bytes) → o ≡ some key → IsKey index d key)
      → ((key : Bytes) → IsSound fl codecs (Leads codecs d) (path ++ key ∷ []) (below key))
      → IsSound fl codecs
          (LeadsItems codecs index (item d items))
          path
          (elim o [ none ↦ ok [] | some key ↦ below key ])
  unfolding IsKey
  element-IsSound path index d items below none keyed h = tt
  element-IsSound path index d items below (some key) keyed h =
      under fl codecs (Leads codecs d) (LeadsItems codecs index (item d items)) path key
        (λ rest leaf l. elim (keyed key refl) [
          | inl e ↦
              subst (λ k. LeadsItems codecs index (item d items) (k ∷ rest) leaf) (sym e)
                (by_index l)
          | inr named ↦ by_name named l
        ])
        (below key) (h key)
