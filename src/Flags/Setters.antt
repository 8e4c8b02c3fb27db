-- ===== src/Flags/Setters.antt =====
-- ee/agent/flags/flag_controller.go: what a getter returns after a setter and after a bulk update.
use launcher.Base.{
  ◌≡◌, ◌≢◌, refl, sym, ap, ◌∙◌, ◌⊎◌, inl, inr, Bool, true, false, Option, none, some, List, [], ◌∷◌,
  arith, Bytes, ◌==◌, eq_refl, ok, if◌then◌else◌, ℤ, ltbℤ,
}
use launcher.Base.Dict
use launcher.Base.Dict.{Dict, Distinct}
use launcher.Store.{StoreError}
use launcher.Flags.{
  FlagController, FlagStore, Calls, notify_observers, flag_value, kind_get, to_bytes, set_flag,
  set_control_server_value, after_set, get_control_server_value, update,
}
use launcher.Flags.Values.{
  AnyValue, of_bool, of_string, of_duration, of_int, of_float, Conversions, enabled, bool_to_bytes,
  bytes_to_bool, parse_control_server_value, clamp, bool_get, string_get, duration_get, int_get,
  float_get,
}
use launcher.Flags.Kinds.{Kind, bool_kind, string_kind, duration_kind, int_kind, float_kind, Flag}

-- What is relied on in the store, as its interface documents it.
pub record FlagLaws {S : Type 0} (store : FlagStore S) : Type 0 where
  pub get-set :
      (k v : Bytes) (s : S)
      → (store.set k v s).0 ≡ none
      → (j : Bytes)
      → store.get j (store.set k v s).1 ≡ (if k == j then ok (some v) else store.get j s)
  pub set_failed :
      (k v : Bytes) (s : S) (e : StoreError)
      → (store.set k v s).0 ≡ some e
      → (store.set k v s).1 ≡ s
  pub get-update :
      (pairs : Dict Bytes) (s : S) (deleted : List Bytes)
      → Distinct (Dict.keys pairs)
      → (store.update pairs s).0 ≡ ok deleted
      → (j : Bytes) → store.get j (store.update pairs s).1 ≡ ok (Dict.lookup j pairs)

-- Numbers are read back as they were written; time.ParseDuration takes no number without a unit,
-- but for 0.
pub record ConversionLaws {F : Type 0} (conv : Conversions F) : Type 0 where
  pub int_back : (n : ℤ) → conv.parse_int (conv.format_int n) ≡ some n
  pub no_unit :
      (n : ℤ)
      → (conv.parse_duration (conv.format_int n) ≡ none)
        ⊎ (conv.parse_duration (conv.format_int n) ≡ some n)
  pub float_back : (x : F) → conv.parse_float (conv.format_float x) ≡ some x

blank-ne-enabled : ([] == enabled) ≡ false
unfolding ◌==◌
blank-ne-enabled = refl

module _ {F : Type 0} (conv : Conversions F) where
  -- the value is of the type that the kind's setter takes
  abbrev pub Fits : Kind F → AnyValue F → Type 0
  Fits (bool_kind d) v = (b : Bool) × (v ≡ of_bool b)
  Fits (string_kind d sanitizer) v = (s : Bytes) × (v ≡ of_string s)
  Fits (duration_kind d minimum maximum) v = (n : ℤ) × (v ≡ of_duration n)
  Fits (int_kind d minimum maximum) v = (n : ℤ) × (v ≡ of_int n)
  Fits (float_kind d minimum maximum) v = (x : F) × (v ≡ of_float x)

  -- the value, sanitized or brought within the limits
  abbrev pub limited : Kind F → AnyValue F → AnyValue F
  limited (string_kind d sanitizer) (of_string s) = of_string (sanitizer s)
  limited (duration_kind d minimum maximum) (of_duration n) =
      of_duration (clamp ltbℤ minimum maximum n)
  limited (int_kind d minimum maximum) (of_int n) = of_int (clamp ltbℤ minimum maximum n)
  limited (float_kind d minimum maximum) (of_float x) = of_float (clamp conv.less minimum maximum x)
  limited kind v = v

  kind_get-to_bytes :
      (laws : ConversionLaws conv) (kind : Kind F) (v : AnyValue F)
      → Fits kind v
      → kind_get conv kind none (some (to_bytes conv v)) ≡ limited kind v
  unfolding kind_get to_bytes bool_get bytes_to_bool bool_to_bytes string_get duration_get int_get
      float_get parse_control_server_value
  kind_get-to_bytes laws (bool_kind d) v (true, e) = rw e (ap of_bool (eq_refl enabled))
  kind_get-to_bytes laws (bool_kind d) v (false, e) = rw e (ap of_bool blank-ne-enabled)
  kind_get-to_bytes laws (string_kind d sanitizer) v (s, e) = rw e refl
  kind_get-to_bytes laws (duration_kind d minimum maximum) v (n, e) =
      let back : parse_control_server_value conv d (conv.format_int n) ≡ n =
        ground (arith, laws.no_unit n, laws.int_back n) in
      rw e (ap (λ m. of_duration (clamp ltbℤ minimum maximum m)) back)
  kind_get-to_bytes laws (int_kind d minimum maximum) v (n, e) = rw (e, laws.int_back n) refl
  kind_get-to_bytes laws (float_kind d minimum maximum) v (x, e) = rw (e, laws.float_back x) refl

module _ {S F : Type 0} (store : FlagStore S) (laws : FlagLaws store) (conv : Conversions F) where
  -- the store of the controller reads `k` as `value`
  read_back :
      (f : Flag F) (fc fc' : FlagController S F)
      → fc'.overrides ≡ fc.overrides
      → get_control_server_value store conv f.key fc' ≡ get_control_server_value store conv f.key fc
      → flag_value store conv f fc' ≡ flag_value store conv f fc
  unfolding flag_value
  read_back f fc fc' same stored = rw (same, stored) refl

  own_value :
      (f : Flag F) (v : AnyValue F) (fc fc' : FlagController S F)
      → ConversionLaws conv
      → Fits conv f.kind v
      → fc'.overrides ≡ fc.overrides
      → get_control_server_value store conv f.key fc' ≡ some (to_bytes conv v)
      → (if f.has_override then Dict.lookup f.key fc.overrides else none) ≡ none
      → flag_value store conv f fc' ≡ limited conv f.kind v
  unfolding flag_value
  own_value f v fc fc' conv_laws fits same stored quiet =
      rw (same, stored, quiet) (kind_get-to_bytes conv conv_laws f.kind v fits)

  stored_after_set :
      (key value : Bytes) (fc : FlagController S F) (s : S) (j : Bytes)
      → (store.set key value s).0 ≡ none
      → fc.agent_flags_store ≡ some s
      → get_control_server_value store conv j
          (record fc { agent_flags_store = some (store.set key value s).1 })
        ≡ (if key == j then some value else get_control_server_value store conv j fc)
  unfolding get_control_server_value
  stored_after_set key value fc s j stored at =
      ground (arith, at, laws.get-set key value s stored j)

  -- What a setter did: it failed and nothing changed and nobody is told; or the value is stored.
  abbrev pub Sets :
      Bytes → Bytes → FlagController S F → Option StoreError × Calls × FlagController S F → Type 0
  Sets key value fc (e, calls, fc') =
      ((e ≢ none) × (calls ≡ []) × (fc' ≡ fc))
      ⊎ ((e ≡ none)
          × (calls ≡ notify_observers (key ∷ []) fc)
          × (fc'.overrides ≡ fc.overrides)
          × (fc'.observers ≡ fc.observers)
          × ((j : Bytes)
              → get_control_server_value store conv j fc'
                ≡ (if key == j then some value else get_control_server_value store conv j fc)))

  set_control_server_value_lem :
      (key value : Bytes) (fc : FlagController S F)
      → Sets key value fc (set_control_server_value store conv key value fc)
  unfolding set_control_server_value after_set
  set_control_server_value_lem key value fc = go fc.agent_flags_store refl
    where
      stored :
          (s : S)
          → fc.agent_flags_store ≡ some s
          → (r : Option StoreError × S) → store.set key value s ≡ r
          → Sets key value fc (after_set store conv key fc r)
      stored s at (some e, s') set =
          let kept : s' ≡ s =
            ap (λ r. r.1) (sym set) ∙ laws.set_failed key value s e (ap (λ r. r.0) set) in
          inl (λ h. ground (arith, h), refl, ground (arith, kept, at))
      stored s at (none, s') set = inr (
        refl,
        refl,
        refl,
        refl,
        λ j.
            rw (ap (λ r. r.1) (sym set)) (stored_after_set key value fc s j (ap (λ r. r.0) set) at),
      )

      go :
          (o : Option S)
          → fc.agent_flags_store ≡ o
          → Sets key value fc (elim o [
            | none ↦ (some StoreError.store_is_nil, [], fc)
            | some s ↦ after_set store conv key fc (store.set key value s)
          ])
      go none at = inl (λ h. ground (arith, h), refl, refl)
      go (some s) at = stored s at (store.set key value s) refl

  -- A setter that returns no error: the getter of the flag then gives the value, sanitized or
  -- brought within the limits, unless an override is active; every flag with another key has the
  -- value that it had; and the observers of the key are told. A setter that fails changes nothing,
  -- and nobody is told.
  pub set_flag_lem :
      (f : Flag F) (v : AnyValue F) (fc : FlagController S F)
      → ConversionLaws conv
      → Fits conv f.kind v
      → let (e, calls, fc') = set_flag store conv f v fc in
        ((e ≢ none) × (calls ≡ []) × (fc' ≡ fc))
        ⊎ ((e ≡ none)
            × (calls ≡ notify_observers (f.key ∷ []) fc)
            × ((if f.has_override then Dict.lookup f.key fc.overrides else none) ≡ none
                → flag_value store conv f fc' ≡ limited conv f.kind v)
            × ((g : Flag F)
                → (f.key == g.key) ≡ false
                → flag_value store conv g fc' ≡ flag_value store conv g fc))
  unfolding set_flag
  set_flag_lem f v fc conv_laws fits =
      let (e, calls, fc') = set_flag store conv f v fc in
      elim (set_control_server_value_lem f.key (to_bytes conv v) fc) [
        | inl failed ↦ inl failed
        | inr (stored, told, overrides, observers, back) ↦ inr (
          stored,
          told,
          λ quiet.
              own_value f v fc fc' conv_laws fits overrides (rw (back f.key, eq_refl f.key) refl)
                quiet,
          λ g other. read_back g fc fc' overrides (rw (back g.key, other) refl),
        )
      ]
