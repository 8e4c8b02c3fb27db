-- ===== src/Flatten/Query.antt =====
-- ee/dataflatten/flatten.go: the terms of a query, and what they match.
use launcher.Base.{
  ℕ, Bool, true, false, ◌&&◌, ◌||◌, Option, none, some, [], Bytes, codes, ◌==◌, if◌then◌else◌, pos,
  negsuc, is_some, nat_eq,
}
use launcher.Flatten.Texts.{
  get_elem?, cut_prefix, trim_prefix, trim_suffix, has_prefix, has_suffix, has_infix, split_once,
  take_bytes, itoa, atoi,
}
use launcher.Flatten.Tree.{
  Data, nil, text, raw, other, array, object, objects, Fields, no_field, field, Flattener, Codecs,
}

abbrev pub query_wildcard : Bytes
query_wildcard = codes "*"

abbrev pub query_key_denoter : Bytes
query_key_denoter = codes "#"

unfoldable pub query_match_string : Bytes → Bytes → Bool
unfolding has_prefix has_suffix trim_prefix trim_suffix has_infix
query_match_string v term =
    if term == query_wildcard
    then true
    else if has_prefix query_wildcard term && has_suffix query_wildcard term
    then has_infix (trim_suffix query_wildcard (trim_prefix query_wildcard term)) v
    else if has_prefix query_wildcard term
    then has_suffix (trim_prefix query_wildcard term) v
    else if has_suffix query_wildcard term
    then has_prefix (trim_suffix query_wildcard term) v
    else v == term

unfoldable pub is_plist : Bytes → Bool
unfolding has_infix
is_plist s =
    let data_prefix = take_bytes 30 s in
    has_infix (codes "bplist0") data_prefix
    || (has_infix (codes "xml version=\"1.0\"") data_prefix
        && has_infix (codes "<!DOCTYPE plist PUBLIC") s)

-- `data[key]`
unfoldable pub lookup_field : Bytes → Fields → Option Data
lookup_field key no_field = none
lookup_field key (field k v fields) =
    let rest = lookup_field key fields in if k == key then some v else rest

module _ (fl : Flattener) (codecs : Codecs) where
  -- the term at a depth, and whether it matches everything
  unfoldable pub query_at_depth : ℕ → Bytes × Bool
  query_at_depth depth = elim (get_elem? fl.query depth) [
    | none ↦ (query_wildcard, true)
    | some q ↦ (q, q == query_wildcard)
  ]

  unfoldable pub query_match_nil : Bytes → Bool
  query_match_nil term = fl.include_nils

  unfoldable pub stringify : Data → Option Bytes
  stringify nil = some []
  stringify (text s) = some s
  stringify (raw b) = some (if codecs.valid_utf8 b then b else codecs.base64 b)
  stringify (other s) = s
  stringify (array items) = none
  stringify (object fields) = none
  stringify (objects tables) = none

  -- for a value that is not nil
  match_stringified : Option Bytes → Bytes → Bool
  unfolding query_match_string
  match_stringified none term = false
  match_stringified (some s) term = query_match_string s term

  unfoldable pub query_match_stringify : Data → Bytes → Bool
  unfolding match_stringified query_match_nil stringify trim_prefix
  query_match_stringify data_ query_term =
      let term = trim_prefix query_key_denoter query_term in
      if term == query_wildcard then true else elim data_ [
        | nil ↦ query_match_nil term
        | text s ↦ match_stringified (stringify (text s)) term
        | raw b ↦ match_stringified (stringify (raw b)) term
        | other s ↦ match_stringified (stringify (other s)) term
        | array items ↦ match_stringified (stringify (array items)) term
        | object fields ↦ match_stringified (stringify (object fields)) term
        | objects tables ↦ match_stringified (stringify (objects tables)) term
      ]

  -- whether some field matches a query `key=>value`
  unfoldable pub some_field_matches : Bytes → Bytes → Fields → Bool
  unfolding query_match_string query_match_stringify
  some_field_matches key_term value_term no_field = false
  some_field_matches key_term value_term (field k v fields) =
      (query_match_string k key_term && query_match_stringify v value_term)
      || some_field_matches key_term value_term fields

  -- a map: a key that it must have, or a `key=>value` that a field must match
  unfoldable pub match_object : Fields → Bytes → Bool
  unfolding some_field_matches lookup_field split_once
  match_object fields term = elim (split_once (codes "=>") term) [
    | none ↦ is_some (lookup_field term fields)
    | some (key_term, value_term) ↦ some_field_matches key_term value_term fields
  ]

  unfoldable pub query_match_array_element : Data → ℕ → Bytes → Bool
  unfolding match_object query_match_stringify trim_prefix atoi
  query_match_array_element data_ index query_term =
      let term = trim_prefix query_key_denoter query_term in
      if term == query_wildcard then true else elim (atoi term) [
        | some (pos query_index) ↦ nat_eq query_index index
        | some (negsuc m) ↦ false
        | none ↦ elim data_ [
          | array items ↦ false
          | object fields ↦ match_object fields term
          | nil ↦ query_match_stringify nil term
          | text s ↦ query_match_stringify (text s) term
          | raw b ↦ query_match_stringify (raw b) term
          | other s ↦ query_match_stringify (other s) term
          | objects tables ↦ query_match_stringify (objects tables) term
        ]
      ]

  -- the key of a path that a term `#name` asks for: the text in that field
  unfoldable pub rewritten_key : Bytes → Data → Option Bytes
  unfolding lookup_field split_once
  rewritten_key after data_ =
      let key_name : Bytes = elim (split_once (codes "=>") after) [
        | none ↦ after
        | some (k, v) ↦ k
      ] in
      elim data_ [
        | object fields ↦ elim (lookup_field key_name fields) [ some (text s) ↦ some s | _ ↦ none ]
        | _ ↦ none
      ]

  -- `descendArrayElement` up to its last line: the key of the path under which the element is
  -- descended into, if it is
  unfoldable pub element_key : ℕ → Data → ℕ → Option Bytes
  unfolding query_at_depth rewritten_key query_match_array_element cut_prefix itoa
  element_key index data_ depth =
      let (term, is_query_matched) = query_at_depth depth in
      let path_key : Option Bytes = elim (cut_prefix query_key_denoter term) [
        | none ↦ some (itoa index)
        | some after ↦ rewritten_key after data_
      ] in
      if is_query_matched || query_match_array_element data_ index term then path_key else none
