-- ===== src/Flatten/Origin.antt =====
-- ee/dataflatten/flatten.go: what `Flatten` returns.
use launcher.Base.{ℕ, ◌≡◌, refl, sym, ap, ◌⊎◌, inl, inr, some, List, [], ◌∷◌, ◌<◌, ok, err, All}
use mathlib.Core.Path.{subst}
use launcher.Flatten.Tree.{Data, Row, Flattener, Codecs, unknown_type}
use launcher.Flatten.Query.{stringify}
use launcher.Flatten.{Rows, descend, descend_maybe_plist, apply_prefilter, flatten}
use launcher.Flatten.Leads.{Leads, shown, IsSound, Found}
use launcher.Flatten.Sound.{descend-IsSound}
use launcher.Flatten.Plists.{descend_maybe_plist-IsSound}
use launcher.Flatten.Fuel.{TextsIn, Nests, IsFueled, descend-IsFueled, descend_maybe_plist-IsFueled}

module _ (fl : Flattener) (codecs : Codecs) where
  -- a row whose path leads to a leaf with its value
  abbrev pub IsLeaf : Data → Row → Type 0
  IsLeaf data_ row =
      (leaf : Data) × Leads codecs data_ row.path leaf
      × (stringify fl codecs (shown leaf) ≡ some row.value)

  found :
      (data_ : Data) (rows : List Row)
      → All (Found fl codecs (Leads codecs data_) []) rows
      → All (IsLeaf data_) rows
  found data_ [] h = tt
  found data_ (row ∷ rows) ((rest, leaf, e, l, v), h) =
      ((leaf, subst (λ p. Leads codecs data_ p leaf) (sym e) l, v), found data_ rows h)

  -- If plists nest no deeper than the fuel allows, then what the prefilter leaves is flattened, or
  -- the call fails at a value of unknown type and only so. The path of every row leads through
  -- the filtered data to a leaf that shows as the row's value, whatever the query and the options.
  pub flatten_lem :
      (n fuel : ℕ) (data_ filtered_data : Data)
      → apply_prefilter fl codecs data_ ≡ some filtered_data
      → TextsIn (Nests codecs n) filtered_data
      → n < fuel
      → (flatten fl codecs fuel data_ ≡ err unknown_type)
        ⊎ ((rows : List Row) × (flatten fl codecs fuel data_ ≡ ok rows)
            × All (IsLeaf filtered_data) rows)
  unfolding flatten
  flatten_lem n fuel data_ filtered_data filtered nested enough =
      rw (flatten, filtered)
        (split (descend fl codecs (descend_maybe_plist fl codecs fuel) [] filtered_data 0)
          (descend-IsSound fl codecs (descend_maybe_plist fl codecs fuel)
            (λ p s k. (descend_maybe_plist-IsSound fl codecs fuel p s k).0)
            (λ p s k. (descend_maybe_plist-IsSound fl codecs fuel p s k).1) [] filtered_data 0)
          (descend-IsFueled fl codecs (descend_maybe_plist fl codecs fuel) (Nests codecs n)
            (λ p s k h. descend_maybe_plist-IsFueled fl codecs n fuel p s k enough h) []
            filtered_data 0 nested))
    where
      split :
          (r : Rows)
          → IsSound fl codecs (Leads codecs filtered_data) [] r
          → IsFueled r
          → (r ≡ err unknown_type)
            ⊎ ((rows : List Row) × (r ≡ ok rows) × All (IsLeaf filtered_data) rows)
      split (err e) h k = inl (ap (λ x. err x) k)
      split (ok rows) h k = inr (rows, refl, found filtered_data rows h)
