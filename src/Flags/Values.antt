-- ===== src/Flags/Values.antt =====
-- ee/agent/flags/flag_value_bool.go, flag_value_duration.go, flag_value_float64.go,
-- flag_value_int.go, flag_value_string.go: how a flag's value comes from its default, from what the
-- control server stored (`none` for a nil slice) and from an override. Floats are a type `F` with
-- their order, a duration is an integer of nanoseconds; strconv, strings,
-- time.ParseDuration and the semver package are a `Conversions`.
use launcher.Base.{Bool, Option, none, some, [], Bytes, codes, ◌==◌, if◌then◌else◌, ℤ, ltbℤ}

-- the value of an override, Go's `any`
pub data AnyValue (F : Type 0) : Type 0 where
  of_bool : Bool → AnyValue F
  of_string : Bytes → AnyValue F
  of_duration : ℤ → AnyValue F
  of_int : ℤ → AnyValue F
  of_float : F → AnyValue F

pub record Conversions (F : Type 0) : Type 0 where
  pub parse_duration : Bytes → Option ℤ
  pub parse_int : Bytes → Option ℤ
  pub parse_float : Bytes → Option F
  pub format_int : ℤ → Bytes
  pub format_float : F → Bytes
  pub less : F → F → Bool
  pub zero_float : F
  pub one_float : F
  pub to_lower : Bytes → Bytes
  -- whether a version is below the first that can be pinned; `none` if it is no version
  pub below_pinnable : Bytes → Option Bool

abbrev pub enabled : Bytes
enabled = codes "enabled"

unfoldable pub bool_to_bytes : Bool → Bytes
bool_to_bytes on = if on then enabled else []

unfoldable pub bytes_to_bool : Bytes → Bool
bytes_to_bool value = value == enabled

-- the three cases of `clampValue`, `clampIntValue` and `clampFloat64Value`
unfoldable pub clamp {ℓ} : {A : Type ℓ} → (A → A → Bool) → A → A → A → A
clamp less minimum maximum value =
    if less value minimum then minimum else if less maximum value then maximum else value

module _ {F : Type 0} where
  -- the checked assertions `Value().(bool)` and so on; another type leaves the value
  abbrev pub bool_override : Option (AnyValue F) → Bool → Bool
  bool_override (some (of_bool b)) value = b
  bool_override _ value = value

  abbrev pub string_override : Option (AnyValue F) → Bytes → Bytes
  string_override (some (of_string s)) value = s
  string_override _ value = value

  abbrev pub duration_override : Option (AnyValue F) → ℤ → ℤ
  duration_override (some (of_duration d)) value = d
  duration_override _ value = value

  abbrev pub int_override : Option (AnyValue F) → ℤ → ℤ
  int_override (some (of_int i)) value = i
  int_override _ value = value

  abbrev pub float_override : Option (AnyValue F) → F → F
  float_override (some (of_float f)) value = f
  float_override _ value = value

  unfoldable pub bool_get : Bool → Option (AnyValue F) → Option Bytes → Bool
  unfolding bytes_to_bool
  bool_get default_val override stored =
      bool_override override (elim stored [ none ↦ default_val | some value ↦ bytes_to_bool value ])

  unfoldable pub string_get : Bytes → (Bytes → Bytes) → Option (AnyValue F) → Option Bytes → Bytes
  string_get default_val sanitizer override stored =
      sanitizer (string_override override (elim stored [ none ↦ default_val | some value ↦ value ]))

  module _ (conv : Conversions F) where
    open conv use {parse_duration, parse_int, parse_float, less}

    -- a duration such as "4s", or a number of nanoseconds, or else the default
    unfoldable pub parse_control_server_value : ℤ → Bytes → ℤ
    parse_control_server_value default_val value = elim (parse_duration value) [
      | some parsed ↦ parsed
      | none ↦ elim (parse_int value) [ some parsed ↦ parsed | none ↦ default_val ]
    ]

    unfoldable pub duration_get : ℤ → ℤ → ℤ → Option (AnyValue F) → Option Bytes → ℤ
    unfolding parse_control_server_value clamp
    duration_get default_val minimum maximum override stored = clamp ltbℤ minimum maximum (
        duration_override override (elim stored [
          | none ↦ default_val
          | some value ↦ parse_control_server_value default_val value
        ]))

    unfoldable pub int_get : ℤ → ℤ → ℤ → Option (AnyValue F) → Option Bytes → ℤ
    unfolding clamp
    int_get default_val minimum maximum override stored = clamp ltbℤ minimum maximum (
        int_override override (elim stored [
          | none ↦ default_val
          | some value ↦ elim (parse_int value) [ none ↦ default_val | some parsed ↦ parsed ]
        ]))

    unfoldable pub float_get : F → F → F → Option (AnyValue F) → Option Bytes → F
    unfolding clamp
    float_get default_val minimum maximum override stored = clamp less minimum maximum (
        float_override override (elim stored [
          | none ↦ default_val
          | some value ↦ elim (parse_float value) [ none ↦ default_val | some parsed ↦ parsed ]
        ]))
