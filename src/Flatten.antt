-- ===== src/Flatten.antt =====
-- ee/dataflatten/flatten.go: the descent through nested data, which yields a row for each leaf.
--
-- The code appends rows to the flattener as it goes; here a call returns its rows, in the same order,
-- and an error drops them all, as `Flatten` and `FlattenEach` do. A path is extended by `append`, and
-- `NewRow` copies it, so rows do not share paths. A text in a plist can again hold a plist, so the
-- descent is on fuel: one for each plist inside a plist, and one more.
pub mod Texts
pub mod Tree
pub mod Query
mod Affixes
mod Wildcards
mod Leads
mod Keys
mod Sound
mod Plists
mod Fuel
mod Origin
mod Each
mod Leaves
mod Examples
use launcher.Base.{
  ℕ, zero, suc, ◌+◌, Bool, true, false, ◌&&◌, ◌||◌, Option, none, some, List, [], ◌∷◌, ◌++◌, Bytes,
  codes, Result, ok, err, if◌then◌else◌,
}
use launcher.Flatten.Texts.{itoa}
use launcher.Flatten.Tree.{
  Data, nil, text, raw, other, array, object, objects, Items, no_item, item, Fields, no_field,
  field, Tables, no_table, table, Row, Flattener, Codecs, FlattenError, unknown_type,
  prefilter_failed, iteration_failed, out_of_fuel,
}
use launcher.Flatten.Query.{
  query_at_depth, query_match_nil, query_match_string, stringify, is_plist, element_key,
}

abbrev pub Rows : Type 0
Rows = Result FlattenError (List Row)

-- the rows of two calls, the first before the second; the second is not made after an error
abbrev pub also : Rows → Rows → Rows
also (err e) more = err e
also (ok rows) (err e) = err e
also (ok rows) (ok more) = ok (rows ++ more)

module _ (fl : Flattener) (codecs : Codecs) where
  unfoldable pub handle_string_like : List Bytes → Data → ℕ → Rows
  unfolding query_at_depth query_match_string stringify
  handle_string_like path data_ depth = elim (stringify fl codecs data_) [
    | none ↦ err unknown_type
    | some value ↦
        let (term, is_query_matched) = query_at_depth fl codecs depth in
        if is_query_matched || query_match_string value term
        then ok (record { path = path; value = value } ∷ [])
        else ok []
  ]

  module _ (descend_maybe_plist : List Bytes → Bytes → ℕ → Rows) where
    unfoldable mutual
      unfolding handle_string_like query_match_nil query_at_depth query_match_string element_key
          itoa

      pub descend : List Bytes → Data → ℕ → Rows
      descend path nil depth =
          if query_match_nil fl codecs (query_at_depth fl codecs depth).0
          then ok (record { path = path; value = [] } ∷ [])
          else ok []
      descend path (text s) depth = descend_maybe_plist path s depth
      descend path (raw b) depth = descend_maybe_plist path b depth
      descend path (other s) depth = handle_string_like path (other s) depth
      descend path (array items) depth = descend_items path 0 items depth
      descend path (object fields) depth = descend_fields path fields depth
      descend path (objects tables) depth = descend_tables path 0 tables depth

      pub descend_items : List Bytes → ℕ → Items → ℕ → Rows
      descend_items path index no_item depth = ok []
      descend_items path index (item data_ items) depth =
          let rest = descend_items path (suc index) items depth in
          also
            (elim (element_key fl codecs index data_ depth) [
              | none ↦ ok []
              | some key ↦ descend (path ++ key ∷ []) data_ (suc depth)
            ])
            rest

      pub descend_fields : List Bytes → Fields → ℕ → Rows
      descend_fields path no_field depth = ok []
      descend_fields path (field key data_ fields) depth =
          let (term, is_query_matched) = query_at_depth fl codecs depth in
          let rest = descend_fields path fields depth in
          let here = descend (path ++ key ∷ []) data_ (suc depth) in
          if is_query_matched || query_match_string key term then also here rest else rest

      -- a map again, so its fields are descended into
      pub descend_tables : List Bytes → ℕ → Tables → ℕ → Rows
      descend_tables path index no_table depth = ok []
      descend_tables path index (table fields tables) depth =
          also (descend_fields (path ++ itoa index ∷ []) fields (suc depth))
            (descend_tables path (suc index) tables depth)

    unfoldable pub descend_array_element : List Bytes → ℕ → Data → ℕ → Rows
    unfolding descend element_key
    descend_array_element path index data_ depth = elim (element_key fl codecs index data_ depth) [
      | none ↦ ok []
      | some key ↦ descend (path ++ key ∷ []) data_ (suc depth)
    ]

  -- the row `_raw` of a plist that is expanded; an error of it is logged only
  unfoldable pub raw_rows : List Bytes → Bytes → ℕ → List Row
  unfolding handle_string_like
  raw_rows path b depth =
      if fl.include_nested_raw
      then (elim (handle_string_like (path ++ codes "_raw" ∷ []) (raw b) depth) [
        | ok rows ↦ rows
        | err e ↦ []
      ])
      else []

  unfoldable pub descend_maybe_plist : ℕ → List Bytes → Bytes → ℕ → Rows
  unfolding descend handle_string_like raw_rows is_plist
  descend_maybe_plist zero path b depth = err out_of_fuel
  descend_maybe_plist (suc fuel) path b depth = elim (fl.expand_nested_plist && is_plist b) [
    | false ↦ handle_string_like path (raw b) depth
    | true ↦ elim (codecs.parse_plist b) [
      | none ↦ handle_string_like path (raw b) depth
      | some inner_data ↦
          also (ok (raw_rows path b depth))
            (descend (descend_maybe_plist fuel) path inner_data depth)
    ]
  ]

  unfoldable pub apply_prefilter : Data → Option Data
  apply_prefilter data_ = elim fl.prefilter [ none ↦ some data_ | some filter ↦ filter data_ ]

  unfoldable pub flatten : ℕ → Data → Rows
  unfolding apply_prefilter descend descend_maybe_plist
  flatten fuel data_ = elim (apply_prefilter data_) [
    | none ↦ err prefilter_failed
    | some filtered_data ↦ descend (descend_maybe_plist fuel) [] filtered_data 0
  ]

  -- the objects that `next` yields, `none` for an error
  unfoldable pub flatten_from : ℕ → ℕ → List (Option Data) → Rows
  unfolding apply_prefilter descend_array_element descend_maybe_plist
  flatten_from fuel index [] = ok []
  flatten_from fuel index (none ∷ next) = err iteration_failed
  flatten_from fuel index (some obj ∷ next) = elim (apply_prefilter obj) [
    | none ↦ err prefilter_failed
    | some filtered_obj ↦
        also (descend_array_element (descend_maybe_plist fuel) [] index filtered_obj 0)
          (flatten_from fuel (suc index) next)
  ]

  unfoldable pub flatten_each : ℕ → List (Option Data) → Rows
  unfolding flatten_from
  flatten_each fuel next = flatten_from fuel 0 next
