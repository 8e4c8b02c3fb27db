-- ===== src/Flatten/Each.antt =====
-- ee/dataflatten/flatten.go: `FlattenEach` against `Flatten`.
use launcher.Base.{ℕ, suc, ◌≡◌, refl, ap, Option, some, List, [], ◌∷◌}
use launcher.Flatten.Tree.{Data, array, Items, no_item, item, Flattener, Codecs}
use launcher.Flatten.{
  also, descend, descend_items, descend_array_element, descend_maybe_plist, apply_prefilter,
  flatten_from, flatten_each,
}

-- an iteration without errors over these objects
unfoldable pub yielded : List Data → List (Option Data)
yielded [] = []
yielded (obj ∷ objs) = some obj ∷ yielded objs

module _ (fl : Flattener) (codecs : Codecs) where
  -- the items are what the prefilter makes of the objects
  abbrev pub AreFiltered : List Data → Items → Type 0
  AreFiltered [] no_item = Unit
  AreFiltered [] (item d items) = ⊥
  AreFiltered (obj ∷ objs) no_item = ⊥
  AreFiltered (obj ∷ objs) (item d items) =
      (apply_prefilter fl codecs obj ≡ some d) × AreFiltered objs items

  flatten_from-descend_items :
      (fuel index : ℕ) (objs : List Data) (items : Items)
      → AreFiltered objs items
      → flatten_from fl codecs fuel index (yielded objs)
        ≡ descend_items fl codecs (descend_maybe_plist fl codecs fuel) [] index items 0
  unfolding flatten_from yielded descend descend_array_element
  flatten_from-descend_items fuel index [] no_item h = refl
  flatten_from-descend_items fuel index [] (item d items) h = absurd h
  flatten_from-descend_items fuel index (obj ∷ objs) no_item h = absurd h
  flatten_from-descend_items fuel index (obj ∷ objs) (item d items) (e, h) =
      rw (flatten_from, e)
        (ap
          (also (descend_array_element fl codecs (descend_maybe_plist fl codecs fuel) [] index d 0))
          (flatten_from-descend_items fuel (suc index) objs items h))

  -- Objects that are yielded one by one without an error give the rows and the error that one array
  -- of the filtered objects gives.
  pub flatten_each_lem :
      (fuel : ℕ) (objs : List Data) (items : Items)
      → AreFiltered objs items
      → flatten_each fl codecs fuel (yielded objs)
        ≡ descend fl codecs (descend_maybe_plist fl codecs fuel) [] (array items) 0
  unfolding flatten_each descend
  flatten_each_lem fuel objs items h = flatten_from-descend_items fuel 0 objs items h
