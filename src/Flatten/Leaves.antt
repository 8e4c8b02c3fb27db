-- ===== src/Flatten/Leaves.antt =====
-- ee/dataflatten/flatten.go: the rows when there is no query and no plist is expanded.
use launcher.Base.{
  ℕ, suc, ◌≡◌, refl, sym, ap, ◌∙◌, true, false, Option, none, some, List, [], ◌∷◌, ◌++◌,
  append_assoc, append-nil, Bytes, ok, err, if◌then◌else◌,
}
use launcher.Flatten.Texts.{itoa}
use launcher.Flatten.Tree.{
  Data, nil, text, raw, other, array, object, objects, Items, no_item, item, Fields, no_field,
  field, Tables, no_table, table, Row, Flattener, Codecs, unknown_type,
}
use launcher.Flatten.Query.{query_wildcard, query_at_depth, query_match_nil, stringify, element_key}
use launcher.Flatten.{
  Rows, also, handle_string_like, descend, descend_items, descend_fields, descend_tables,
  descend_maybe_plist, apply_prefilter, flatten,
}

unfoldable prefixed_each : List Bytes → List Row → List Row
prefixed_each path [] = []
prefixed_each path (row ∷ rows) = record row { path = path ++ row.path } ∷ prefixed_each path rows

-- the rows, below a path
unfoldable pub prefixed : List Bytes → Rows → Rows
unfolding prefixed_each
prefixed path (err e) = err e
prefixed path (ok rows) = ok (prefixed_each path rows)

module _ (fl : Flattener) (codecs : Codecs) where
  unfoldable leaf : Data → Rows
  unfolding stringify
  leaf d = elim (stringify fl codecs d) [
    | none ↦ err unknown_type
    | some value ↦ ok (record { path = []; value = value } ∷ [])
  ]

  -- a row for each leaf, in the order of the data, with the path built from the leaf up
  unfoldable mutual
    unfolding leaf prefixed itoa

    pub leaves : Data → Rows
    leaves nil = if fl.include_nils then ok (record { path = []; value = [] } ∷ []) else ok []
    leaves (text s) = leaf (raw s)
    leaves (raw s) = leaf (raw s)
    leaves (other s) = leaf (other s)
    leaves (array items) = leaves_items 0 items
    leaves (object fields) = leaves_fields fields
    leaves (objects tables) = leaves_tables 0 tables

    leaves_items : ℕ → Items → Rows
    leaves_items index no_item = ok []
    leaves_items index (item d items) =
        also (prefixed (itoa index ∷ []) (leaves d)) (leaves_items (suc index) items)

    leaves_fields : Fields → Rows
    leaves_fields no_field = ok []
    leaves_fields (field key d fields) =
        also (prefixed (key ∷ []) (leaves d)) (leaves_fields fields)

    leaves_tables : ℕ → Tables → Rows
    leaves_tables index no_table = ok []
    leaves_tables index (table fields tables) =
        also (prefixed (itoa index ∷ []) (leaves_fields fields)) (leaves_tables (suc index) tables)

prefixed_each-append :
    (path : List Bytes) (rows more : List Row)
    → prefixed_each path (rows ++ more) ≡ prefixed_each path rows ++ prefixed_each path more
unfolding prefixed_each
prefixed_each-append path [] more = refl
prefixed_each-append path (row ∷ rows) more =
    ap (λ r. record row { path = path ++ row.path } ∷ r) (prefixed_each-append path rows more)

prefixed-also :
    (path : List Bytes) (r s : Rows)
    → prefixed path (also r s) ≡ also (prefixed path r) (prefixed path s)
unfolding prefixed
prefixed-also path (err e) s = refl
prefixed-also path (ok rows) (err e) = refl
prefixed-also path (ok rows) (ok more) = ap (λ x. ok x) (prefixed_each-append path rows more)

prefixed_each-prefixed_each :
    (p q : List Bytes) (rows : List Row)
    → prefixed_each p (prefixed_each q rows) ≡ prefixed_each (p ++ q) rows
unfolding prefixed_each
prefixed_each-prefixed_each p q [] = refl
prefixed_each-prefixed_each p q (row ∷ rows) =
    rw (append_assoc p q row.path, prefixed_each-prefixed_each p q rows) refl

prefixed-prefixed : (p q : List Bytes) (r : Rows) → prefixed p (prefixed q r) ≡ prefixed (p ++ q) r
unfolding prefixed
prefixed-prefixed p q (err e) = refl
prefixed-prefixed p q (ok rows) = ap (λ x. ok x) (prefixed_each-prefixed_each p q rows)

prefixed-none : (path : List Bytes) → ok [] ≡ prefixed path (ok [])
unfolding prefixed prefixed_each
prefixed-none path = refl

-- the rows below a key, and those behind them
both :
    (path : List Bytes) (key : Bytes) (r s r' s' : Rows)
    → r' ≡ prefixed (path ++ key ∷ []) r
    → s' ≡ prefixed path s
    → also r' s' ≡ prefixed path (also (prefixed (key ∷ []) r) s)
both path key r s r' s' e f =
    rw (e, f, prefixed-also path (prefixed (key ∷ []) r) s, prefixed-prefixed path (key ∷ []) r)
      refl

prefixed-nil : (r : Rows) → prefixed [] r ≡ r
unfolding prefixed
prefixed-nil (err e) = refl
prefixed-nil (ok rows) = ap (λ x. ok x) (each rows)
  where
    each : (rows : List Row) → prefixed_each [] rows ≡ rows
    each [] = refl
    each (row ∷ rows) = ap (λ x. row ∷ x) (each rows)

module _ (fl : Flattener) (codecs : Codecs) (no_query : fl.query ≡ [])
    (no_plist : fl.expand_nested_plist ≡ false) where
  matched : (depth : ℕ) → query_at_depth fl codecs depth ≡ (query_wildcard, true)
  unfolding query_at_depth
  matched depth = rw no_query refl

  handle_string_like-leaf :
      (path : List Bytes) (d : Data) (depth : ℕ)
      → handle_string_like fl codecs path d depth ≡ prefixed path (leaf fl codecs d)
  unfolding prefixed handle_string_like leaf
  handle_string_like-leaf path d depth = go (stringify fl codecs d) refl
    where
      go :
          (o : Option Bytes)
          → stringify fl codecs d ≡ o
          → handle_string_like fl codecs path d depth ≡ prefixed path (leaf fl codecs d)
      go none e = rw (handle_string_like, leaf, e) refl
      go (some value) e =
          rw (handle_string_like, leaf, e, matched depth)
            (ap (λ p. ok (record { path = p; value = value } ∷ [])) (sym (append-nil path)))

  element_key-itoa :
      (index : ℕ) (d : Data) (depth : ℕ) → element_key fl codecs index d depth ≡ some (itoa index)
  unfolding element_key
  element_key-itoa index d depth = rw (element_key, matched depth) refl

  descend_maybe_plist-leaf :
      (fuel : ℕ) (path : List Bytes) (s : Bytes) (depth : ℕ)
      → descend_maybe_plist fl codecs (suc fuel) path s depth
        ≡ prefixed path (leaf fl codecs (raw s))
  unfolding descend_maybe_plist
  descend_maybe_plist-leaf fuel path s depth =
      simp (descend_maybe_plist, no_plist) (handle_string_like-leaf path (raw s) depth)

  nil_rows :
      (path : List Bytes) (depth : ℕ)
      → (if query_match_nil fl codecs (query_at_depth fl codecs depth).0
          then ok (record { path = path; value = [] } ∷ [])
          else ok [])
        ≡ prefixed path
            (if fl.include_nils then ok (record { path = []; value = [] } ∷ []) else ok [])
  unfolding query_match_nil prefixed prefixed_each
  nil_rows path depth =
      elim fl.include_nils
        as (λ b.
          ◌≡◌ {A = Rows} (if b then ok (record { path = path; value = [] } ∷ []) else ok [])
            (prefixed path (if b then ok (record { path = []; value = [] } ∷ []) else ok []))) [
              | true ↦ ap (λ p. ok (record { path = p; value = [] } ∷ [])) (sym (append-nil path))
              | false ↦ refl
            ]

  module _ (fuel : ℕ) where
    on_text : List Bytes → Bytes → ℕ → Rows
    on_text = descend_maybe_plist fl codecs (suc fuel)

    mutual
      unfolding descend leaves on_text

      descend-leaves :
          (path : List Bytes) (d : Data) (depth : ℕ)
          → descend fl codecs on_text path d depth ≡ prefixed path (leaves fl codecs d)
      descend-leaves path nil depth = nil_rows path depth
      descend-leaves path (text s) depth = descend_maybe_plist-leaf fuel path s depth
      descend-leaves path (raw s) depth = descend_maybe_plist-leaf fuel path s depth
      descend-leaves path (other s) depth = handle_string_like-leaf path (other s) depth
      descend-leaves path (array items) depth = descend_items-leaves path 0 items depth
      descend-leaves path (object fields) depth = descend_fields-leaves path fields depth
      descend-leaves path (objects tables) depth = descend_tables-leaves path 0 tables depth

      descend_items-leaves :
          (path : List Bytes) (index : ℕ) (items : Items) (depth : ℕ)
          → descend_items fl codecs on_text path index items depth
            ≡ prefixed path (leaves_items fl codecs index items)
      descend_items-leaves path index no_item depth = prefixed-none path
      descend_items-leaves path index (item d items) depth = rw (element_key-itoa index d depth) (
          both path (itoa index) (leaves fl codecs d) (leaves_items fl codecs (suc index) items)
            (descend fl codecs on_text (path ++ itoa index ∷ []) d (suc depth))
            (descend_items fl codecs on_text path (suc index) items depth)
            (descend-leaves (path ++ itoa index ∷ []) d (suc depth))
            (descend_items-leaves path (suc index) items depth))

      descend_fields-leaves :
          (path : List Bytes) (fields : Fields) (depth : ℕ)
          → descend_fields fl codecs on_text path fields depth
            ≡ prefixed path (leaves_fields fl codecs fields)
      descend_fields-leaves path no_field depth = prefixed-none path
      descend_fields-leaves path (field key d fields) depth = rw (matched depth) (
          both path key (leaves fl codecs d) (leaves_fields fl codecs fields)
            (descend fl codecs on_text (path ++ key ∷ []) d (suc depth))
            (descend_fields fl codecs on_text path fields depth)
            (descend-leaves (path ++ key ∷ []) d (suc depth))
            (descend_fields-leaves path fields depth))

      descend_tables-leaves :
          (path : List Bytes) (index : ℕ) (tables : Tables) (depth : ℕ)
          → descend_tables fl codecs on_text path index tables depth
            ≡ prefixed path (leaves_tables fl codecs index tables)
      descend_tables-leaves path index no_table depth = prefixed-none path
      descend_tables-leaves path index (table fields tables) depth =
          both path (itoa index) (leaves_fields fl codecs fields)
            (leaves_tables fl codecs (suc index) tables)
            (descend_fields fl codecs on_text (path ++ itoa index ∷ []) fields (suc depth))
            (descend_tables fl codecs on_text path (suc index) tables depth)
            (descend_fields-leaves (path ++ itoa index ∷ []) fields (suc depth))
            (descend_tables-leaves path (suc index) tables depth)

    -- With no query, and with plists left as they are, the result is a row for each leaf of the
    -- filtered data, in the order of the data, its path spelled by indexes and keys, with nil as an
    -- empty text if nils are included and else left out; or it is an error, if there is a value of
    -- unknown type. One unit of fuel is enough.
    pub flatten-leaves :
        (data_ filtered_data : Data)
        → apply_prefilter fl codecs data_ ≡ some filtered_data
        → flatten fl codecs (suc fuel) data_ ≡ leaves fl codecs filtered_data
    unfolding flatten on_text
    flatten-leaves data_ filtered_data filtered =
        rw (flatten, filtered)
          (descend-leaves [] filtered_data 0 ∙ prefixed-nil (leaves fl codecs filtered_data))
