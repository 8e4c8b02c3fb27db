-- ===== src/Flatten/Examples.antt =====
-- Users as in the documentation of ee/dataflatten, with a plist in a text, and the theorems at such
-- inputs.
use launcher.Base.{
  ◌≡◌, refl, ◌↔◌, ◌⊎◌, inr, true, false, none, some, List, [], ◌∷◌, ◌++◌, arith, Bytes, codes, ◌==◌,
  if◌then◌else◌, ok, err, All,
}
use launcher.Flatten.Tree.{
  Data, nil, text, other, array, object, Items, no_item, item, no_field, field, Row, Flattener,
  Codecs, unknown_type,
}
use launcher.Flatten.Texts.{has_prefix, has_suffix}
use launcher.Flatten.Query.{query_match_string}
use launcher.Flatten.{flatten, flatten_each, descend, descend_maybe_plist, apply_prefilter}
use launcher.Flatten.Wildcards.{query_match_string_lem}
use launcher.Flatten.Fuel.{TextsIn, Nests}
use launcher.Flatten.Origin.{IsLeaf, flatten_lem}
use launcher.Flatten.Each.{yielded, flatten_each_lem}
use launcher.Flatten.Leaves.{leaves, flatten-leaves}

abbrev user : Bytes → Data → Data
user name id = object (field (codes "name") (text name) (field (codes "id") id no_field))

abbrev users : Items
users =
    item (user (codes "Alex") (other (some (codes "1")))) (item (user (codes "Bailey") nil) no_item)

abbrev plist : Bytes
plist = codes "bplist00"

-- what the plist holds
abbrev inner : Data
inner = array users

abbrev codecs : Codecs
codecs = record {
  valid_utf8 = λ s. true;
  base64 = λ s. s;
  parse_plist = λ s. if s == plist then some inner else none;
}

abbrev plain : Flattener
plain = record {
  expand_nested_plist = false;
  include_nested_raw = false;
  include_nils = false;
  query = [];
  prefilter = none;
}

abbrev expanding : Flattener
expanding = record {
  expand_nested_plist = true;
  include_nested_raw = true;
  include_nils = false;
  query = codes "users" ∷ codes "#name" ∷ codes "id" ∷ [];
  prefilter = none;
}

abbrev row : List Bytes → Bytes → Row
row p v = record { path = p; value = v }

-- a query with a rewritten key, behind a plist
abbrev document : Data
document = object (field (codes "users") (text plist) no_field)

queried :
    flatten expanding codecs 2 document
    ≡ ok (row (codes "users" ∷ codes "Alex" ∷ codes "id" ∷ []) (codes "1") ∷ [])
unfolding flatten ◌==◌
queried = refl

query_match_string_lem_example : (query_match_string (codes "foobar") (codes "*bar") ≡ true) ↔ (
    (a : Bytes) × (b : Bytes) × (codes "foobar" ≡ a ++ codes "bar" ++ b)
    × ((true ≡ true) ⊎ (a ≡ []))
    × ((false ≡ true) ⊎ (b ≡ [])))
unfolding has_prefix has_suffix ◌==◌
query_match_string_lem_example =
    query_match_string_lem true false (codes "bar") (codes "foobar") refl refl

nested : TextsIn (Nests codecs 1) document
unfolding TextsIn Nests ◌==◌
nested = (inr (inner, refl, ((refl, (tt, tt)), ((refl, (tt, tt)), tt))), tt)

flatten_lem_example :
    (flatten expanding codecs 2 document ≡ err unknown_type)
    ⊎ ((rows : List Row) × (flatten expanding codecs 2 document ≡ ok rows)
        × All (IsLeaf expanding codecs document) rows)
unfolding apply_prefilter
flatten_lem_example = flatten_lem expanding codecs 1 2 document document refl nested (omega arith)

flatten_each_lem_example :
    flatten_each plain codecs 1 (yielded (user (codes "Alex") nil ∷ []))
    ≡ descend plain codecs
        (descend_maybe_plist plain codecs 1)
        []
        (array (item (user (codes "Alex") nil) no_item))
        0
unfolding apply_prefilter
flatten_each_lem_example =
    flatten_each_lem plain codecs 1 (user (codes "Alex") nil ∷ [])
      (item (user (codes "Alex") nil) no_item) (refl, tt)

flatten-leaves_example : flatten plain codecs 1 document ≡ leaves plain codecs document
unfolding apply_prefilter
flatten-leaves_example = flatten-leaves plain codecs refl refl 0 document document refl
