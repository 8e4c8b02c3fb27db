-- ===== src/Flatten/Sound.antt =====
-- ee/dataflatten/flatten.go: where the rows come from, plists in texts left aside.
use launcher.Base.{
  ℕ, suc, ◌≡◌, refl, sym, true, false, ◌||◌, none, some, List, [], ◌∷◌, ◌++◌, append-nil, Bytes, ok,
  if◌then◌else◌,
}
use launcher.Flatten.Texts.{itoa}
use launcher.Flatten.Tree.{
  Data, nil, text, raw, other, array, object, objects, Items, no_item, item, Fields, no_field,
  field, Tables, no_table, table, Flattener, Codecs,
}
use launcher.Flatten.Query.{
  query_at_depth, query_match_nil, query_match_string, stringify, element_key,
}
use launcher.Flatten.{Rows, also, descend, descend_items, descend_fields, descend_tables}
use launcher.Flatten.Leads.{
  Leads, LeadsItems, LeadsFields, LeadsTables, in_array, in_object, in_objects, arrived, later_item,
  by_key, later_field, by_table, later_table, IsSound, widen, under, also-IsSound,
  handle_string_like-IsSound,
}
use launcher.Flatten.Keys.{element_key_lem, element-IsSound}

module _ (fl : Flattener) (codecs : Codecs) where
  stringify_nil : stringify fl codecs nil ≡ some []
  unfolding stringify
  stringify_nil = refl

  module _ (on_text : List Bytes → Bytes → ℕ → Rows)
      (texts : (path : List Bytes) (s : Bytes) (depth : ℕ)
        → IsSound fl codecs (Leads codecs (text s)) path (on_text path s depth))
      (raws : (path : List Bytes) (s : Bytes) (depth : ℕ)
        → IsSound fl codecs (Leads codecs (raw s)) path (on_text path s depth)) where
    mutual
      unfolding descend

      pub descend-IsSound :
          (path : List Bytes) (d : Data) (depth : ℕ)
          → IsSound fl codecs (Leads codecs d) path (descend fl codecs on_text path d depth)
      descend-IsSound path nil depth =
          elim (query_match_nil fl codecs (query_at_depth fl codecs depth).0)
            as (λ b.
              IsSound fl codecs (Leads codecs nil) path
                (if b then ok (record { path = path; value = [] } ∷ []) else ok [])) [
                  | true ↦ (([], nil, sym (append-nil path), arrived, stringify_nil), tt)
                  | false ↦ tt
                ]
      descend-IsSound path (text s) depth = texts path s depth
      descend-IsSound path (raw s) depth = raws path s depth
      descend-IsSound path (other s) depth =
          handle_string_like-IsSound fl codecs (Leads codecs (other s)) path (other s) (other s)
            depth arrived refl
      descend-IsSound path (array items) depth =
          widen fl codecs (LeadsItems codecs 0 items) (Leads codecs (array items)) path
            (λ rest leaf l. in_array l) (descend_items fl codecs on_text path 0 items depth)
            (descend_items-IsSound path 0 items depth)
      descend-IsSound path (object fields) depth =
          widen fl codecs (LeadsFields codecs fields) (Leads codecs (object fields)) path
            (λ rest leaf l. in_object l) (descend_fields fl codecs on_text path fields depth)
            (descend_fields-IsSound path fields depth)
      descend-IsSound path (objects tables) depth =
          widen fl codecs (LeadsTables codecs 0 tables) (Leads codecs (objects tables)) path
            (λ rest leaf l. in_objects l) (descend_tables fl codecs on_text path 0 tables depth)
            (descend_tables-IsSound path 0 tables depth)

      descend_items-IsSound :
          (path : List Bytes) (index : ℕ) (items : Items) (depth : ℕ)
          → IsSound fl codecs
              (LeadsItems codecs index items)
              path
              (descend_items fl codecs on_text path index items depth)
      descend_items-IsSound path index no_item depth = tt
      descend_items-IsSound path index (item d items) depth =
          also-IsSound fl codecs (LeadsItems codecs index (item d items)) path
            (elim (element_key fl codecs index d depth) [
              | none ↦ ok []
              | some key ↦ descend fl codecs on_text (path ++ key ∷ []) d (suc depth)
            ])
            (descend_items fl codecs on_text path (suc index) items depth)
            (element-IsSound fl codecs path index d items
              (λ key. descend fl codecs on_text (path ++ key ∷ []) d (suc depth))
              (element_key fl codecs index d depth) (element_key_lem fl codecs index d depth)
              (λ key. descend-IsSound (path ++ key ∷ []) d (suc depth)))
            (widen fl codecs (LeadsItems codecs (suc index) items)
              (LeadsItems codecs index (item d items)) path (λ rest leaf l. later_item l)
              (descend_items fl codecs on_text path (suc index) items depth)
              (descend_items-IsSound path (suc index) items depth))

      descend_fields-IsSound :
          (path : List Bytes) (fields : Fields) (depth : ℕ)
          → IsSound fl codecs
              (LeadsFields codecs fields)
              path
              (descend_fields fl codecs on_text path fields depth)
      descend_fields-IsSound path no_field depth = tt
      descend_fields-IsSound path (field key d fields) depth =
          let L = LeadsFields codecs (field key d fields) in
          let here = descend fl codecs on_text (path ++ key ∷ []) d (suc depth) in
          let rest = descend_fields fl codecs on_text path fields depth in
          let later =
            widen fl codecs (LeadsFields codecs fields) L path (λ rest leaf l. later_field l) rest
              (descend_fields-IsSound path fields depth) in
          let first =
            under fl codecs (Leads codecs d) L path key (λ rest leaf l. by_key l) here
              (descend-IsSound (path ++ key ∷ []) d (suc depth)) in
          elim ((query_at_depth fl codecs depth).1
              || query_match_string key (query_at_depth fl codecs depth).0)
            as (λ b. IsSound fl codecs L path (if b then also here rest else rest)) [
              | true ↦ also-IsSound fl codecs L path here rest first later
              | false ↦ later
            ]

      descend_tables-IsSound :
          (path : List Bytes) (index : ℕ) (tables : Tables) (depth : ℕ)
          → IsSound fl codecs
              (LeadsTables codecs index tables)
              path
              (descend_tables fl codecs on_text path index tables depth)
      descend_tables-IsSound path index no_table depth = tt
      descend_tables-IsSound path index (table fields tables) depth =
          also-IsSound fl codecs (LeadsTables codecs index (table fields tables)) path
            (descend_fields fl codecs on_text (path ++ itoa index ∷ []) fields (suc depth))
            (descend_tables fl codecs on_text path (suc index) tables depth)
            (under fl codecs (LeadsFields codecs fields)
              (LeadsTables codecs index (table fields tables)) path (itoa index)
              (λ rest leaf l. by_table l)
              (descend_fields fl codecs on_text (path ++ itoa index ∷ []) fields (suc depth))
              (descend_fields-IsSound (path ++ itoa index ∷ []) fields (suc depth)))
            (widen fl codecs (LeadsTables codecs (suc index) tables)
              (LeadsTables codecs index (table fields tables)) path (λ rest leaf l. later_table l)
              (descend_tables fl codecs on_text path (suc index) tables depth)
              (descend_tables-IsSound path (suc index) tables depth))
