-- ===== src/Flags/Examples.antt =====
-- A flag controller over the in-memory store, and the theorems at such inputs. Floats are natural
-- numbers here, and a text is an integer's if it is its code.
use launcher.Base.{
  ℕ, zero, ◌≡◌, ◌≢◌, refl, ap, ◌∙◌, ◌⊎◌, inl, inr, true, false, ◌&&◌, Option, none, some, List, [],
  ◌∷◌, arith, Bytes, codes, ◌==◌, ok, if◌then◌else◌, contains, All, ℤ, pos, negsuc, ltb, Bool-cases,
}
use launcher.Base.Dict
use launcher.Base.Dict.{Dict, Distinct}
use launcher.Store.InMemory.{InMemory, Pointer, new_store, get, set, put, update, set_pairs}
use launcher.Store.InMemory.Laws.{in_memory_kv-KvLaws}
use launcher.Store.InMemory.Update.{NoBlank, update_lem}
use launcher.Flags.{
  FlagController, FlagStore, Calls, notify, notify_observers, flag_value, set_flag,
}
use launcher.Flags
use launcher.Flags.Values.{of_duration, Conversions, clamp}
use launcher.Flags.Kinds.{Flag, Options}
use launcher.Flags.Switches.{switches, debug}
use launcher.Flags.Settings.{settings, control_request_interval}
use launcher.Flags.Bounds.{InLimits, FloatLimits, flag_value-InLimits}
use launcher.Flags.Setters
use launcher.Flags.Setters.{FlagLaws, ConversionLaws, Fits, limited, set_flag_lem}
use launcher.Flags.Observers.{observed_by, AreDistinct, IsCall, notify_lem}
use launcher.Flags.Override.{Override, outside, running, is_locked, Reach, overridden_deadlock}

abbrev store : FlagStore Pointer
store = record { get = get; set = set; update = update }

all_named : (pairs : Dict Bytes) (s : InMemory) → (set_pairs pairs s).0 ≡ true → NoBlank pairs
unfolding set_pairs
all_named [] s h = tt
all_named ((k, v) ∷ pairs) s h = elim (Bool-cases (k == [])) [
  | inl blank ↦ absurd (ground (arith, h, blank))
  | inr named ↦ (named, all_named pairs (put k v s) (ground (arith, h, named)))
]

get-update :
    (pairs : Dict Bytes) (p : Pointer) (deleted : List Bytes)
    → Distinct (Dict.keys pairs)
    → (update pairs p).0 ≡ ok deleted
    → (j : Bytes) → get j (update pairs p).1 ≡ ok (Dict.lookup j pairs)
unfolding update
get-update pairs none deleted distinct h j = absurd (ground (arith, h))
get-update pairs (some s) deleted distinct h j =
    let (dropped, p, e, reads, _) =
      update_lem pairs s (all_named pairs s (ground (arith, h))) distinct in
    ap (λ r. get j r.1) e ∙ reads j

store-FlagLaws : FlagLaws store
store-FlagLaws = record {
  get-set = (in_memory_kv-KvLaws ℕ).get-set;
  set_failed = (in_memory_kv-KvLaws ℕ).set_failed;
  get-update = get-update;
}

-- pos n is one byte, negsuc n two
abbrev read_int : Bytes → Option ℤ
read_int (n ∷ []) = some (pos n)
read_int (n ∷ zero ∷ []) = some (negsuc n)
read_int _ = none

abbrev write_int : ℤ → Bytes
write_int (pos n) = n ∷ []
write_int (negsuc n) = n ∷ 0 ∷ []

abbrev read_float : Bytes → Option ℕ
read_float (n ∷ []) = some n
read_float _ = none

abbrev conv : Conversions ℕ
conv = record {
  parse_duration = λ s. none;
  parse_int = read_int;
  parse_float = read_float;
  format_int = write_int;
  format_float = λ x. x ∷ [];
  less = ltb;
  zero_float = 0;
  one_float = 1;
  to_lower = λ s. s;
  below_pinnable = λ s. none;
}

int_back : (n : ℤ) → read_int (write_int n) ≡ some n
int_back (pos n) = refl
int_back (negsuc n) = refl

conv-ConversionLaws : ConversionLaws conv
conv-ConversionLaws = record {
  int_back = int_back;
  no_unit = λ n. inl refl;
  float_back = λ x. refl;
}

conv-FloatLimits : FloatLimits conv
conv-FloatLimits = record { zero_zero = refl; one_one = refl; one_zero = refl }

abbrev opts : Options ℕ
opts = record {
  kolide_server_url = [];
  kolide_hosted = false;
  logging_interval = pos 0;
  control_server_url = [];
  control_request_interval = pos 60000000000;
  disable_control_tls = false;
  insecure_control_tls = false;
  insecure_tls = false;
  insecure_transport = false;
  i_am_breaking_ee_license = false;
  debug = false;
  debug_log_file = [];
  osquery_verbose = false;
  watchdog_enabled = false;
  watchdog_delay_sec = pos 0;
  watchdog_memory_limit_mb = pos 0;
  watchdog_utilization_limit_percent = pos 0;
  autoupdate = false;
  tuf_server_url = [];
  mirror_server_url = [];
  autoupdate_interval = pos 0;
  update_channel = [];
  autoupdate_initial_delay = pos 0;
  update_directory = [];
  export_traces = false;
  trace_sampling_rate = 0;
  log_ingest_server_url = [];
  trace_ingest_server_url = [];
  disable_trace_ingest_tls = false;
  osquery_healthcheck_startup_delay = pos 0;
  autoupdate_download_splay = pos 0;
  osquery_publisher_url = [];
  osquery_publisher_percent_enabled = pos 0;
}

-- one observer watches the interval and the debug flag, another the debug flag only
abbrev controller : FlagController Pointer ℕ
controller = record {
  agent_flags_store = some (some new_store);
  overrides = [];
  observers =
      (1, (control_request_interval conv opts).key ∷ (debug opts).key ∷ [])
      ∷ (2, (debug opts).key ∷ [])
      ∷ [];
}

abbrev interval : Flag ℕ
interval = control_request_interval conv opts

flag_value-InLimits_example :
    All (λ f. InLimits conv f.kind (flag_value store conv f controller)) (switches opts)
    × All (λ f. InLimits conv f.kind (flag_value store conv f controller)) (settings conv opts)
flag_value-InLimits_example = flag_value-InLimits store conv opts controller conv-FloatLimits

-- a second is below the lower limit of five
set_flag_lem_example :
    let (e, calls, fc') = set_flag store conv interval (of_duration (pos 1000000000)) controller in
    ((e ≢ none) × (calls ≡ []) × (fc' ≡ controller))
    ⊎ ((e ≡ none)
        × (calls ≡ notify_observers (interval.key ∷ []) controller)
        × ((if true then Dict.lookup interval.key controller.overrides else none) ≡ none
            → flag_value store conv interval fc' ≡ of_duration (pos 5000000000))
        × ((g : Flag ℕ)
            → (interval.key == g.key) ≡ false
            → flag_value store conv g fc' ≡ flag_value store conv g controller))
unfolding clamp
set_flag_lem_example =
    set_flag_lem store store-FlagLaws conv interval (of_duration (pos 1000000000)) controller
      conv-ConversionLaws (pos 1000000000, refl)

abbrev pairs : Dict Bytes
pairs = ((debug opts).key, codes "enabled") ∷ []

notify_lem_example :
    let calls = notify ((debug opts).key ∷ []) controller.observers in
    AreDistinct calls
    × All IsCall calls
    × ((o : ℕ) (k : Bytes)
        → contains k (observed_by o calls)
          ≡ (contains k (observed_by o controller.observers) && contains k ((debug opts).key ∷ [])))
notify_lem_example = notify_lem ((debug opts).key ∷ []) controller.observers ((refl, tt), (tt, tt))

abbrev active : Override
active = record { caller = outside; is_overridden = true; timer = running }

overridden_deadlock_example :
    (t : Override) × Reach active t
    × (is_locked t.caller ≡ true)
    × (t.is_overridden ≡ true)
    × ((u : Override) → Reach t u → u ≡ t)
overridden_deadlock_example = overridden_deadlock active refl refl refl
