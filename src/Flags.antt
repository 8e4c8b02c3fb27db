-- ===== src/Flags.antt =====
-- ee/agent/flags/flag_controller.go: the value of a flag, its setter, bulk updates, and the observers
-- of changes. A getter of the source is `flag_value` at its flag, a setter `set_flag`.
--
-- `overrides` is the map of overrides that are active; their timers and the lock are in
-- Flags/Override. An observer is a number; a call of `FlagsChanged` is a pair of the observer and
-- the keys it is told. Calls are made with no lock held, on a copy of the observers.
pub mod Values
pub mod Kinds
pub mod Switches
pub mod Settings
pub mod Bounds
pub mod Setters
pub mod Observers
pub mod Override
mod Examples
use launcher.Base.{
  ℕ, Bool, true, false, Option, none, some, List, [], ◌∷◌, ◌++◌, Bytes, ◌==◌, Result, ok, err,
  if◌then◌else◌, nat_eq, contains, is_some,
}
use launcher.Base.Dict
use launcher.Base.Dict.{Dict}
use launcher.Store.{StoreError}
use launcher.Flags.Values.{
  AnyValue, of_bool, of_string, of_duration, of_int, of_float, Conversions, bool_to_bytes, bool_get,
  string_get, duration_get, int_get, float_get,
}
use launcher.Flags.Kinds.{Kind, bool_kind, string_kind, duration_kind, int_kind, float_kind, Flag}

-- what the controller uses of its `KVStore`
pub record FlagStore (S : Type 0) : Type 0 where
  pub get : Bytes → S → Result StoreError (Option Bytes)
  pub set : Bytes → Bytes → S → Option StoreError × S
  pub update : Dict Bytes → S → Result StoreError (List Bytes) × S

pub record FlagController (S F : Type 0) : Type 0 where
  pub agent_flags_store : Option S
  pub overrides : Dict (AnyValue F)
  pub observers : List (ℕ × List Bytes)

abbrev pub Calls : Type 0
Calls = List (ℕ × List Bytes)

-- `keys.Intersection`
unfoldable pub intersection : List Bytes → List Bytes → List Bytes
unfolding contains
intersection a [] = []
intersection a (k ∷ b) = let rest = intersection a b in if contains k a then k ∷ rest else rest

unfoldable pub notify : List Bytes → List (ℕ × List Bytes) → Calls
unfolding intersection
notify changed [] = []
notify changed ((observer, observed) ∷ observers) =
    let rest = notify changed observers in
    elim (intersection observed changed) [ [] ↦ rest | k ∷ ks ↦ (observer, k ∷ ks) ∷ rest ]

-- adding to the keys of an observer
unfoldable pub add_observer : ℕ → List Bytes → List (ℕ × List Bytes) → List (ℕ × List Bytes)
add_observer observer flag_keys [] = (observer, flag_keys) ∷ []
add_observer observer flag_keys ((o, observed) ∷ observers) =
    let rest = add_observer observer flag_keys observers in
    if nat_eq o observer then (o, observed ++ flag_keys) ∷ observers else (o, observed) ∷ rest

unfoldable pub remove_observer : ℕ → List (ℕ × List Bytes) → List (ℕ × List Bytes)
remove_observer observer [] = []
remove_observer observer ((o, observed) ∷ observers) =
    let rest = remove_observer observer observers in
    if nat_eq o observer then rest else (o, observed) ∷ rest

module _ {S F : Type 0} where
  unfoldable pub register_change_observer : ℕ → List Bytes → FlagController S F → FlagController S F
  unfolding add_observer
  register_change_observer observer flag_keys fc = record fc {
    observers = add_observer observer flag_keys fc.observers;
  }

  unfoldable pub deregister_change_observer : ℕ → FlagController S F → FlagController S F
  unfolding remove_observer
  deregister_change_observer observer fc = record fc {
    observers = remove_observer observer fc.observers;
  }

  unfoldable pub notify_observers : List Bytes → FlagController S F → Calls
  unfolding notify
  notify_observers changed fc = notify changed fc.observers

  -- `overrideFlag`, and what the expiration of the override does
  unfoldable pub override_flag :
      Bytes → AnyValue F → FlagController S F → Calls × FlagController S F
  unfolding notify_observers
  override_flag key value fc =
      (notify_observers (key ∷ []) fc, record fc { overrides = Dict.insert key value fc.overrides })

  unfoldable pub override_expired : Bytes → FlagController S F → Calls × FlagController S F
  unfolding notify_observers
  override_expired key fc =
      (notify_observers (key ∷ []) fc, record fc { overrides = Dict.delete key fc.overrides })

-- the conversions of the setters
unfoldable pub to_bytes : {F : Type 0} → Conversions F → AnyValue F → Bytes
unfolding bool_to_bytes
to_bytes conv (of_bool b) = bool_to_bytes b
to_bytes conv (of_string s) = s
to_bytes conv (of_duration d) = conv.format_int d
to_bytes conv (of_int i) = conv.format_int i
to_bytes conv (of_float f) = conv.format_float f

-- the `get` of the flag's kind
unfoldable pub kind_get :
    {F : Type 0} → Conversions F → Kind F → Option (AnyValue F) → Option Bytes → AnyValue F
unfolding bool_get string_get duration_get int_get float_get
kind_get conv (bool_kind d) override stored = of_bool (bool_get d override stored)
kind_get conv (string_kind d sanitizer) override stored =
    of_string (string_get d sanitizer override stored)
kind_get conv (duration_kind d minimum maximum) override stored =
    of_duration (duration_get conv d minimum maximum override stored)
kind_get conv (int_kind d minimum maximum) override stored =
    of_int (int_get conv d minimum maximum override stored)
kind_get conv (float_kind d minimum maximum) override stored =
    of_float (float_get conv d minimum maximum override stored)

module _ {S F : Type 0} (store : FlagStore S) (conv : Conversions F) where
  -- an error reads as no value
  unfoldable pub get_control_server_value : Bytes → FlagController S F → Option Bytes
  get_control_server_value key fc = elim fc.agent_flags_store [
    | none ↦ none
    | some s ↦ elim (store.get key s) [ err e ↦ none | ok value ↦ value ]
  ]

  unfoldable pub flag_value : Flag F → FlagController S F → AnyValue F
  unfolding get_control_server_value kind_get
  flag_value f fc =
      kind_get conv f.kind (if f.has_override then Dict.lookup f.key fc.overrides else none)
        (get_control_server_value f.key fc)

  after_set :
      Bytes
      → FlagController S F
      → Option StoreError × S
      → Option StoreError × Calls × FlagController S F
  unfolding notify_observers
  after_set key fc (some e, s) = (some e, [], record fc { agent_flags_store = some s })
  after_set key fc (none, s) =
      (none, notify_observers (key ∷ []) fc, record fc { agent_flags_store = some s })

  unfoldable pub set_control_server_value :
      Bytes → Bytes → FlagController S F → Option StoreError × Calls × FlagController S F
  unfolding after_set
  set_control_server_value key value fc = elim fc.agent_flags_store [
    | none ↦ (some StoreError.store_is_nil, [], fc)
    | some s ↦ after_set key fc (store.set key value s)
  ]

  unfoldable pub set_flag :
      Flag F → AnyValue F → FlagController S F → Option StoreError × Calls × FlagController S F
  unfolding to_bytes set_control_server_value
  set_flag f value fc = set_control_server_value f.key (to_bytes conv value) fc

  -- `Update` behind the call of the store's: observers are notified also if that failed
  after_update :
      Dict Bytes
      → FlagController S F
      → Result StoreError (List Bytes) × S
      → List Bytes × Option StoreError × Calls × FlagController S F
  unfolding notify_observers
  after_update pairs fc (ok deleted, s) =
      let changed = Dict.keys pairs ++ deleted in
      (changed, none, notify_observers changed fc, record fc { agent_flags_store = some s })
  after_update pairs fc (err e, s) =
      let changed = Dict.keys pairs in
      (changed, some e, notify_observers changed fc, record fc { agent_flags_store = some s })

  -- `none` is the panic of a call on a nil store
  unfoldable pub update :
      Dict Bytes
      → FlagController S F
      → Option (List Bytes × Option StoreError × Calls × FlagController S F)
  unfolding after_update
  update pairs fc = elim fc.agent_flags_store [
    | none ↦ none
    | some s ↦ some (after_update pairs fc (store.update pairs s))
  ]
