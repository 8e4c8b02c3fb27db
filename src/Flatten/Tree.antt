-- ===== src/Flatten/Tree.antt =====
-- ee/dataflatten: the data that is flattened, Go's `any` as decoders make it; the options of a
-- flattener, of flatten.go; and the rows, of row.go.
use launcher.Base.{Bool, Option, List, Bytes}

mutual
  -- `other` is a number, a Boolean, a time or a Stringer, with what `stringify` makes of it, or a
  -- value of a type that it does not know; `objects` is a `[]map[string]any`. The fields of a map
  -- stand in the order in which a loop visits them.
  pub data Data : Type 0 where
    nil : Data
    text : Bytes → Data
    raw : Bytes → Data
    other : Option Bytes → Data
    array : Items → Data
    object : Fields → Data
    objects : Tables → Data

  pub data Items : Type 0 where
    no_item : Items
    item : Data → Items → Items

  pub data Fields : Type 0 where
    no_field : Fields
    field : Bytes → Data → Fields → Fields

  pub data Tables : Type 0 where
    no_table : Tables
    table : Fields → Tables → Tables

pub record Row : Type 0 where
  pub path : List Bytes
  pub value : Bytes

-- an empty query is a nil one: `WithQuery` drops it
pub record Flattener : Type 0 where
  pub expand_nested_plist : Bool
  pub include_nested_raw : Bool
  pub include_nils : Bool
  pub query : List Bytes
  -- `none` is an error of the filter, and the result `nil` that it does not match
  pub prefilter : Option (Data → Option Data)

-- packages that the code calls: unicode/utf8, encoding/base64, and the decoder of plists, whose
-- error is `none`
pub record Codecs : Type 0 where
  pub valid_utf8 : Bytes → Bool
  pub base64 : Bytes → Bytes
  pub parse_plist : Bytes → Option Data

-- `out_of_fuel` is of this model only
pub data FlattenError : Type 0 where
  unknown_type : FlattenError
  prefilter_failed : FlattenError
  iteration_failed : FlattenError
  out_of_fuel : FlattenError
