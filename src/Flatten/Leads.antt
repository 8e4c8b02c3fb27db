-- ===== src/Flatten/Leads.antt =====
-- ee/dataflatten/flatten.go: the path that leads to a leaf, and rows that have such paths.
use launcher.Base.{
  ℕ, suc, ◌≡◌, refl, sym, ap, ◌∙◌, true, false, ◌||◌, Option, none, some, List, [], ◌∷◌, ◌++◌,
  append_assoc, append-nil, Bytes, codes, ok, err, if◌then◌else◌, All,
}
use launcher.Flatten.Texts.{itoa}
use launcher.Flatten.Tree.{
  Data, text, raw, array, object, objects, Items, item, Fields, field, Tables, table, Row,
  Flattener, Codecs, FlattenError,
}
use launcher.Flatten.Query.{query_at_depth, query_match_string, stringify, lookup_field}
use launcher.Flatten.{Rows, also, handle_string_like}

-- a map with this text in some field
abbrev pub HasText : Bytes → Data → Type 0
HasText name (object fields) = (key : Bytes) × (lookup_field key fields ≡ some (text name))
HasText name _ = ⊥

module _ (codecs : Codecs) where
  -- A path leads from a value to a leaf: through the indexes and keys of arrays and maps, through
  -- plists in texts with no key, or to the text of such a plist by `_raw`. An element of an array
  -- may go by a text that it holds, in place of its index.
  mutual
    pub data Leads : Data → List Bytes → Data → Type 0 where
      arrived : {d : Data} → Leads d [] d
      in_array :
          {items : Items} {path : List Bytes} {leaf : Data}
          → LeadsItems 0 items path leaf
          → Leads (array items) path leaf
      in_object :
          {fields : Fields} {path : List Bytes} {leaf : Data}
          → LeadsFields fields path leaf
          → Leads (object fields) path leaf
      in_objects :
          {tables : Tables} {path : List Bytes} {leaf : Data}
          → LeadsTables 0 tables path leaf
          → Leads (objects tables) path leaf
      in_text :
          {s : Bytes} {inner leaf : Data} {path : List Bytes}
          → codecs.parse_plist s ≡ some inner
          → Leads inner path leaf
          → Leads (text s) path leaf
      in_raw :
          {s : Bytes} {inner leaf : Data} {path : List Bytes}
          → codecs.parse_plist s ≡ some inner
          → Leads inner path leaf
          → Leads (raw s) path leaf
      raw_of_text : {s : Bytes} → Leads (text s) (codes "_raw" ∷ []) (raw s)
      raw_of_raw : {s : Bytes} → Leads (raw s) (codes "_raw" ∷ []) (raw s)

    pub data LeadsItems : ℕ → Items → List Bytes → Data → Type 0 where
      by_index :
          {i : ℕ} {d leaf : Data} {items : Items} {path : List Bytes}
          → Leads d path leaf
          → LeadsItems i (item d items) (itoa i ∷ path) leaf
      by_name :
          {i : ℕ} {d leaf : Data} {items : Items} {path : List Bytes} {name : Bytes}
          → HasText name d
          → Leads d path leaf
          → LeadsItems i (item d items) (name ∷ path) leaf
      later_item :
          {i : ℕ} {d leaf : Data} {items : Items} {path : List Bytes}
          → LeadsItems (suc i) items path leaf
          → LeadsItems i (item d items) path leaf

    pub data LeadsFields : Fields → List Bytes → Data → Type 0 where
      by_key :
          {key : Bytes} {d leaf : Data} {fields : Fields} {path : List Bytes}
          → Leads d path leaf
          → LeadsFields (field key d fields) (key ∷ path) leaf
      later_field :
          {key : Bytes} {d leaf : Data} {fields : Fields} {path : List Bytes}
          → LeadsFields fields path leaf
          → LeadsFields (field key d fields) path leaf

    pub data LeadsTables : ℕ → Tables → List Bytes → Data → Type 0 where
      by_table :
          {i : ℕ} {leaf : Data} {fields : Fields} {tables : Tables} {path : List Bytes}
          → LeadsFields fields path leaf
          → LeadsTables i (table fields tables) (itoa i ∷ path) leaf
      later_table :
          {i : ℕ} {leaf : Data} {fields : Fields} {tables : Tables} {path : List Bytes}
          → LeadsTables (suc i) tables path leaf
          → LeadsTables i (table fields tables) path leaf

-- a text is shown as the bytes that it is made of
abbrev pub shown : Data → Data
shown (text s) = raw s
shown d = d

module _ (fl : Flattener) (codecs : Codecs) where
  -- a row whose path goes on from `path` to a leaf with the row's value
  abbrev pub Found : (List Bytes → Data → Type 0) → List Bytes → Row → Type 0
  Found L path row =
      (rest : List Bytes) × (leaf : Data) × (row.path ≡ path ++ rest)
      × L rest leaf
      × (stringify fl codecs (shown leaf) ≡ some row.value)

  abbrev pub IsSound : (List Bytes → Data → Type 0) → List Bytes → Rows → Type 0
  IsSound L path (err e) = Unit
  IsSound L path (ok rows) = All (Found L path) rows

  pub widen :
      (L M : List Bytes → Data → Type 0) (path : List Bytes)
      → ((rest : List Bytes) (leaf : Data) → L rest leaf → M rest leaf)
      → (r : Rows) → IsSound L path r
      → IsSound M path r
  widen L M path f (err e) h = tt
  widen L M path f (ok rows) h = each rows h
    where
      each : (rows : List Row) → All (Found L path) rows → All (Found M path) rows
      each [] h = tt
      each (row ∷ rows) ((rest, leaf, e, l, v), h) =
          ((rest, leaf, e, f rest leaf l, v), each rows h)

  -- what holds of rows below a key of the path
  pub under :
      (L M : List Bytes → Data → Type 0) (path : List Bytes) (key : Bytes)
      → ((rest : List Bytes) (leaf : Data) → L rest leaf → M (key ∷ rest) leaf)
      → (r : Rows) → IsSound L (path ++ key ∷ []) r
      → IsSound M path r
  under L M path key f (err e) h = tt
  under L M path key f (ok rows) h = each rows h
    where
      each : (rows : List Row) → All (Found L (path ++ key ∷ [])) rows → All (Found M path) rows
      each [] h = tt
      each (row ∷ rows) ((rest, leaf, e, l, v), h) =
          ((key ∷ rest, leaf, e ∙ append_assoc path (key ∷ []) rest, f rest leaf l, v), each rows h)

  pub also-IsSound :
      (L : List Bytes → Data → Type 0) (path : List Bytes) (r s : Rows)
      → IsSound L path r
      → IsSound L path s
      → IsSound L path (also r s)
  also-IsSound L path (err e) s h k = tt
  also-IsSound L path (ok rows) (err e) h k = tt
  also-IsSound L path (ok rows) (ok more) h k = both rows h
    where
      both : (rows : List Row) → All (Found L path) rows → All (Found L path) (rows ++ more)
      both [] h = k
      both (row ∷ rows) (first, h) = (first, both rows h)

  pub handle_string_like-IsSound :
      (L : List Bytes → Data → Type 0) (path : List Bytes) (d leaf : Data) (depth : ℕ)
      → L [] leaf
      → shown leaf ≡ d
      → IsSound L path (handle_string_like fl codecs path d depth)
  unfolding handle_string_like
  handle_string_like-IsSound L path d leaf depth l same = go (stringify fl codecs d) refl
    where
      go :
          (o : Option Bytes)
          → stringify fl codecs d ≡ o
          → IsSound L path (elim o [
            | none ↦ err FlattenError.unknown_type
            | some value ↦
                let (term, is_query_matched) = query_at_depth fl codecs depth in
                if is_query_matched || query_match_string value term
                then ok (record { path = path; value = value } ∷ [])
                else ok []
          ])
      go none e = tt
      go (some value) e =
          elim ((query_at_depth fl codecs depth).1
              || query_match_string value (query_at_depth fl codecs depth).0)
            as (λ b.
              IsSound L path
                (if b then ok (record { path = path; value = value } ∷ []) else ok [])) [
                  | true ↦
                      (([], leaf, sym (append-nil path), l, ap (stringify fl codecs) same ∙ e), tt)
                  | false ↦ tt
                ]
