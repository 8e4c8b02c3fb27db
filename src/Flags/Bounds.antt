-- ===== src/Flags/Bounds.antt =====
-- ee/agent/flags: the limits of the flags, whatever the control server stored and whatever override
-- is active.
use launcher.Base.{
  ◌≡◌, refl, Bool, false, Option, none, some, List, [], ◌∷◌, arith, Bytes, All, ℤ, ◌≤ℤ◌, ltbℤ,
}
use launcher.Flags.{FlagController, FlagStore, flag_value, kind_get}
use launcher.Flags.Values.{
  AnyValue, of_bool, of_string, of_duration, of_int, of_float, Conversions, clamp, string_override,
  duration_override, int_override, parse_control_server_value, bool_get, string_get, duration_get,
  int_get, float_get,
}
use launcher.Flags.Kinds.{
  Kind, bool_kind, string_kind, duration_kind, int_kind, float_kind, Flag, Options,
}
use launcher.Flags.Switches.{switches}
use launcher.Flags.Settings.{settings}

clamp-ℤ :
    (minimum maximum n : ℤ)
    → minimum ≤ℤ maximum
    → (minimum ≤ℤ clamp ltbℤ minimum maximum n) × (clamp ltbℤ minimum maximum n ≤ℤ maximum)
unfolding clamp
clamp-ℤ minimum maximum n h = (ground arith, ground arith)

module _ {F : Type 0} (conv : Conversions F) where
  -- The value is one of the kind: within its limits, or a result of its sanitizer. A float is only
  -- not below its lower and not above its upper limit, which NaN is not either.
  abbrev pub InLimits : Kind F → AnyValue F → Type 0
  InLimits (bool_kind d) v = (b : Bool) × (v ≡ of_bool b)
  InLimits (string_kind d sanitizer) v = (s : Bytes) × (v ≡ of_string (sanitizer s))
  InLimits (duration_kind d minimum maximum) v =
      (n : ℤ) × (v ≡ of_duration n) × (minimum ≤ℤ n) × (n ≤ℤ maximum)
  InLimits (int_kind d minimum maximum) v =
      (n : ℤ) × (v ≡ of_int n) × (minimum ≤ℤ n) × (n ≤ℤ maximum)
  InLimits (float_kind d minimum maximum) v =
      (x : F) × (v ≡ of_float x) × (conv.less x minimum ≡ false) × (conv.less maximum x ≡ false)

  -- The limits of the kind are in order.
  abbrev pub HasLimits : Kind F → Type 0
  HasLimits (bool_kind d) = Unit
  HasLimits (string_kind d sanitizer) = Unit
  HasLimits (duration_kind d minimum maximum) = minimum ≤ℤ maximum
  HasLimits (int_kind d minimum maximum) = minimum ≤ℤ maximum
  HasLimits (float_kind d minimum maximum) =
      (conv.less maximum minimum ≡ false)
      × (conv.less minimum minimum ≡ false)
      × (conv.less maximum maximum ≡ false)

  kind_get-InLimits :
      (kind : Kind F) (override : Option (AnyValue F)) (stored : Option Bytes)
      → HasLimits kind
      → InLimits kind (kind_get conv kind override stored)
  unfolding kind_get string_get duration_get int_get float_get clamp
  kind_get-InLimits (bool_kind d) override stored h = (bool_get d override stored, refl)
  kind_get-InLimits (string_kind d sanitizer) override stored h =
      (string_override override (elim stored [ none ↦ d | some value ↦ value ]), refl)
  kind_get-InLimits (duration_kind d minimum maximum) override stored h =
      let raw =
        duration_override override
          (elim stored [ none ↦ d | some value ↦ parse_control_server_value conv d value ]) in
      let (low, high) = clamp-ℤ minimum maximum raw h in
      (duration_get conv d minimum maximum override stored, refl, low, high)
  kind_get-InLimits (int_kind d minimum maximum) override stored h =
      let raw = int_override override (elim stored [
        | none ↦ d
        | some value ↦ elim (conv.parse_int value) [ none ↦ d | some parsed ↦ parsed ]
      ]) in
      let (low, high) = clamp-ℤ minimum maximum raw h in
      (int_get conv d minimum maximum override stored, refl, low, high)
  kind_get-InLimits (float_kind d minimum maximum) override stored h =
      (float_get conv d minimum maximum override stored, refl, ground (arith, h), ground (arith, h))

  -- the order of the floats, at the limits that flags have
  pub record FloatLimits : Type 0 where
    pub zero_zero : conv.less conv.zero_float conv.zero_float ≡ false
    pub one_one : conv.less conv.one_float conv.one_float ≡ false
    pub one_zero : conv.less conv.one_float conv.zero_float ≡ false

module _ {S F : Type 0} (store : FlagStore S) (conv : Conversions F) (opts : Options F) where
  switches-HasLimits : All (λ f. HasLimits conv f.kind) (switches opts)
  switches-HasLimits = omega arith

  settings-HasLimits : FloatLimits conv → All (λ f. HasLimits conv f.kind) (settings conv opts)
  settings-HasLimits floats = ground (arith, floats.zero_zero, floats.one_one, floats.one_zero)

  All-InLimits :
      (fc : FlagController S F) (flags : List (Flag F))
      → All (λ f. HasLimits conv f.kind) flags
      → All (λ f. InLimits conv f.kind (flag_value store conv f fc)) flags
  unfolding flag_value
  All-InLimits fc [] h = tt
  All-InLimits fc (f ∷ flags) h = (kind_get-InLimits conv f.kind _ _ h.0, All-InLimits fc flags h.1)

  -- Whatever the command line, the control server and overrides say, the value of every flag is of
  -- its kind; a duration and an integer are within their limits, and a text is a result of its
  -- sanitizer. A float is not below its lower and not above its upper limit, as the comparison of
  -- floats has it, and so may be NaN, of which no comparison holds.
  pub flag_value-InLimits :
      (fc : FlagController S F)
      → FloatLimits conv
      → All (λ f. InLimits conv f.kind (flag_value store conv f fc)) (switches opts)
        × All (λ f. InLimits conv f.kind (flag_value store conv f fc)) (settings conv opts)
  flag_value-InLimits fc floats = (
    All-InLimits fc (switches opts) switches-HasLimits,
    All-InLimits fc (settings conv opts) (settings-HasLimits floats),
  )
