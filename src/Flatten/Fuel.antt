-- ===== src/Flatten/Fuel.antt =====
-- ee/dataflatten/flatten.go: how much fuel the descent needs, which is one more than the depth to
-- which plists stand inside plists.
use launcher.Base.{
  ℕ, zero, suc, ◌≡◌, refl, sym, Bool, true, false, ◌&&◌, ◌||◌, Option, none, some, List, [], ◌∷◌,
  ◌++◌, arith, ◌⊎◌, inl, inr, ◌∙◌, ◌<◌, Bytes, ok, err, if◌then◌else◌,
}
use mathlib.Core.Path.{subst}
use launcher.Flatten.Texts.{itoa}
use launcher.Flatten.Tree.{
  Data, nil, text, raw, other, array, object, objects, Items, no_item, item, Fields, no_field,
  field, Tables, no_table, table, Flattener, Codecs, unknown_type,
}
use launcher.Flatten.Query.{
  query_at_depth, query_match_nil, query_match_string, stringify, is_plist, element_key,
}
use launcher.Flatten.{
  Rows, also, handle_string_like, descend, descend_items, descend_fields, descend_tables, raw_rows,
  descend_maybe_plist,
}

-- every text in the data has a property
unfoldable mutual
  pub TextsIn : (Bytes → Type 0) → Data → Type 0
  TextsIn P nil = Unit
  TextsIn P (text s) = P s
  TextsIn P (raw s) = P s
  TextsIn P (other s) = Unit
  TextsIn P (array items) = TextsInItems P items
  TextsIn P (object fields) = TextsInFields P fields
  TextsIn P (objects tables) = TextsInTables P tables

  TextsInItems : (Bytes → Type 0) → Items → Type 0
  TextsInItems P no_item = Unit
  TextsInItems P (item d items) = TextsIn P d × TextsInItems P items

  TextsInFields : (Bytes → Type 0) → Fields → Type 0
  TextsInFields P no_field = Unit
  TextsInFields P (field key d fields) = TextsIn P d × TextsInFields P fields

  TextsInTables : (Bytes → Type 0) → Tables → Type 0
  TextsInTables P no_table = Unit
  TextsInTables P (table fields tables) = TextsInFields P fields × TextsInTables P tables

-- in a text, plists stand inside plists up to a depth
unfoldable pub Nests : Codecs → ℕ → Bytes → Type 0
unfolding TextsIn
Nests codecs zero s = codecs.parse_plist s ≡ none
Nests codecs (suc n) s =
    (codecs.parse_plist s ≡ none)
    ⊎ ((inner : Data) × (codecs.parse_plist s ≡ some inner) × TextsIn (Nests codecs n) inner)

some_inj : {a b : Data} → some a ≡ some b → a ≡ b
some_inj e = cc

-- rows, or the error of a value of unknown type
abbrev pub IsFueled : Rows → Type 0
IsFueled (ok rows) = Unit
IsFueled (err e) = e ≡ unknown_type

also-IsFueled : (r s : Rows) → IsFueled r → IsFueled s → IsFueled (also r s)
also-IsFueled (err e) s h k = h
also-IsFueled (ok rows) (err e) h k = k
also-IsFueled (ok rows) (ok more) h k = tt

if-IsFueled : (b : Bool) (r s : Rows) → IsFueled r → IsFueled s → IsFueled (if b then r else s)
if-IsFueled true r s h k = h
if-IsFueled false r s h k = k

module _ (fl : Flattener) (codecs : Codecs) where
  handle_string_like-IsFueled :
      (path : List Bytes) (d : Data) (depth : ℕ)
      → IsFueled (handle_string_like fl codecs path d depth)
  unfolding handle_string_like
  handle_string_like-IsFueled path d depth =
      elim (stringify fl codecs d)
        as (λ o. IsFueled (elim o [
          | none ↦ err unknown_type
          | some value ↦
              let (term, is_query_matched) = query_at_depth fl codecs depth in
              if is_query_matched || query_match_string value term
              then ok (record { path = path; value = value } ∷ [])
              else ok []
        ])) [
          | none ↦ refl
          | some value ↦
              if-IsFueled
                ((query_at_depth fl codecs depth).1
                  || query_match_string value (query_at_depth fl codecs depth).0)
                (ok (record { path = path; value = value } ∷ [])) (ok []) tt tt
        ]

  module _ (on_text : List Bytes → Bytes → ℕ → Rows) (P : Bytes → Type 0)
      (texts : (path : List Bytes) (s : Bytes) (depth : ℕ)
        → P s
        → IsFueled (on_text path s depth)) where
    mutual
      unfolding descend TextsIn

      pub descend-IsFueled :
          (path : List Bytes) (d : Data) (depth : ℕ)
          → TextsIn P d
          → IsFueled (descend fl codecs on_text path d depth)
      descend-IsFueled path nil depth h =
          if-IsFueled (query_match_nil fl codecs (query_at_depth fl codecs depth).0)
            (ok (record { path = path; value = [] } ∷ [])) (ok []) tt tt
      descend-IsFueled path (text s) depth h = texts path s depth h
      descend-IsFueled path (raw s) depth h = texts path s depth h
      descend-IsFueled path (other s) depth h = handle_string_like-IsFueled path (other s) depth
      descend-IsFueled path (array items) depth h = descend_items-IsFueled path 0 items depth h
      descend-IsFueled path (object fields) depth h = descend_fields-IsFueled path fields depth h
      descend-IsFueled path (objects tables) depth h = descend_tables-IsFueled path 0 tables depth h

      descend_items-IsFueled :
          (path : List Bytes) (index : ℕ) (items : Items) (depth : ℕ)
          → TextsInItems P items
          → IsFueled (descend_items fl codecs on_text path index items depth)
      descend_items-IsFueled path index no_item depth h = tt
      descend_items-IsFueled path index (item d items) depth h =
          also-IsFueled
            (elim (element_key fl codecs index d depth) [
              | none ↦ ok []
              | some key ↦ descend fl codecs on_text (path ++ key ∷ []) d (suc depth)
            ])
            (descend_items fl codecs on_text path (suc index) items depth)
            (elim (element_key fl codecs index d depth)
              as (λ o. IsFueled (elim o [
                | none ↦ ok []
                | some key ↦ descend fl codecs on_text (path ++ key ∷ []) d (suc depth)
              ])) [ none ↦ tt | some key ↦ descend-IsFueled (path ++ key ∷ []) d (suc depth) h.0 ])
            (descend_items-IsFueled path (suc index) items depth h.1)

      descend_fields-IsFueled :
          (path : List Bytes) (fields : Fields) (depth : ℕ)
          → TextsInFields P fields
          → IsFueled (descend_fields fl codecs on_text path fields depth)
      descend_fields-IsFueled path no_field depth h = tt
      descend_fields-IsFueled path (field key d fields) depth h =
          let here = descend fl codecs on_text (path ++ key ∷ []) d (suc depth) in
          let rest = descend_fields fl codecs on_text path fields depth in
          let later = descend_fields-IsFueled path fields depth h.1 in
          if-IsFueled
            ((query_at_depth fl codecs depth).1
              || query_match_string key (query_at_depth fl codecs depth).0)
            (also here rest) rest
            (also-IsFueled here rest (descend-IsFueled (path ++ key ∷ []) d (suc depth) h.0) later)
            later

      descend_tables-IsFueled :
          (path : List Bytes) (index : ℕ) (tables : Tables) (depth : ℕ)
          → TextsInTables P tables
          → IsFueled (descend_tables fl codecs on_text path index tables depth)
      descend_tables-IsFueled path index no_table depth h = tt
      descend_tables-IsFueled path index (table fields tables) depth h =
          also-IsFueled
            (descend_fields fl codecs on_text (path ++ itoa index ∷ []) fields (suc depth))
            (descend_tables fl codecs on_text path (suc index) tables depth)
            (descend_fields-IsFueled (path ++ itoa index ∷ []) fields (suc depth) h.0)
            (descend_tables-IsFueled path (suc index) tables depth h.1)

  -- the plist in a text, if it has one, nests less deep
  inner_texts :
      (n fuel : ℕ) (s : Bytes) (inner : Data)
      → n < suc fuel
      → Nests codecs n s
      → codecs.parse_plist s ≡ some inner
      → (m : ℕ) × (m < fuel) × TextsIn (Nests codecs m) inner
  unfolding Nests
  inner_texts zero fuel s inner enough h e = absurd (ground (arith, sym h ∙ e))
  inner_texts (suc n) fuel s inner enough (inl h) e = absurd (ground (arith, sym h ∙ e))
  inner_texts (suc n) fuel s inner enough (inr (d, h, texts)) e =
      (n, omega (arith, enough), subst (TextsIn (Nests codecs n)) (some_inj (sym h ∙ e)) texts)

  maybe_plist-IsFueled :
      (path : List Bytes) (s : Bytes) (depth : ℕ) (below : Data → Rows) (b : Bool) (o : Option Data)
      → codecs.parse_plist s ≡ o
      → ((inner : Data) → codecs.parse_plist s ≡ some inner → IsFueled (below inner))
      → IsFueled (elim b [
        | false ↦ handle_string_like fl codecs path (raw s) depth
        | true ↦ elim o [
          | none ↦ handle_string_like fl codecs path (raw s) depth
          | some inner ↦ also (ok (raw_rows fl codecs path s depth)) (below inner)
        ]
      ])
  maybe_plist-IsFueled path s depth below false o e h =
      handle_string_like-IsFueled path (raw s) depth
  maybe_plist-IsFueled path s depth below true none e h =
      handle_string_like-IsFueled path (raw s) depth
  maybe_plist-IsFueled path s depth below true (some inner) e h =
      also-IsFueled (ok (raw_rows fl codecs path s depth)) (below inner) tt (h inner e)

  pub descend_maybe_plist-IsFueled :
      (n fuel : ℕ) (path : List Bytes) (s : Bytes) (depth : ℕ)
      → n < fuel
      → Nests codecs n s
      → IsFueled (descend_maybe_plist fl codecs fuel path s depth)
  unfolding descend_maybe_plist
  descend_maybe_plist-IsFueled n zero path s depth enough h = absurd (omega (arith, enough))
  descend_maybe_plist-IsFueled n (suc fuel) path s depth enough h =
      maybe_plist-IsFueled path s depth
        (λ inner. descend fl codecs (descend_maybe_plist fl codecs fuel) path inner depth)
        (fl.expand_nested_plist && is_plist s) (codecs.parse_plist s) refl
        (λ inner e.
          let (m, less, texts) = inner_texts n fuel s inner enough h e in
          descend-IsFueled (descend_maybe_plist fl codecs fuel) (Nests codecs m)
            (λ p t k nested. descend_maybe_plist-IsFueled m fuel p t k less nested) path inner depth
            texts)
