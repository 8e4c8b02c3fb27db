-- ===== src/Flags/Kinds.antt =====
-- ee/agent/flags/flag_controller.go: what the getters of the flags share, a flag as a value, and the
-- sanitizers of flags. The keys are those of ee/agent/flags/keys/keys.go.
use launcher.Base.{
  Bool, true, false, ◌&&◌, ◌||◌, none, some, [], Bytes, codes, ◌==◌, if◌then◌else◌, ℤ,
}
use launcher.Flags.Values.{Conversions}

-- the fields of `launcher.Options` that are defaults of flags
pub record Options (F : Type 0) : Type 0 where
  pub kolide_server_url : Bytes
  pub kolide_hosted : Bool
  pub logging_interval : ℤ
  pub control_server_url : Bytes
  pub control_request_interval : ℤ
  pub disable_control_tls : Bool
  pub insecure_control_tls : Bool
  pub insecure_tls : Bool
  pub insecure_transport : Bool
  pub i_am_breaking_ee_license : Bool
  pub debug : Bool
  pub debug_log_file : Bytes
  pub osquery_verbose : Bool
  pub watchdog_enabled : Bool
  pub watchdog_delay_sec : ℤ
  pub watchdog_memory_limit_mb : ℤ
  pub watchdog_utilization_limit_percent : ℤ
  pub autoupdate : Bool
  pub tuf_server_url : Bytes
  pub mirror_server_url : Bytes
  pub autoupdate_interval : ℤ
  pub update_channel : Bytes
  pub autoupdate_initial_delay : ℤ
  pub update_directory : Bytes
  pub export_traces : Bool
  pub trace_sampling_rate : F
  pub log_ingest_server_url : Bytes
  pub trace_ingest_server_url : Bytes
  pub disable_trace_ingest_tls : Bool
  pub osquery_healthcheck_startup_delay : ℤ
  pub autoupdate_download_splay : ℤ
  pub osquery_publisher_url : Bytes
  pub osquery_publisher_percent_enabled : ℤ

-- the default, then the limits or the sanitizer
pub data Kind (F : Type 0) : Type 0 where
  bool_kind : Bool → Kind F
  string_kind : Bytes → (Bytes → Bytes) → Kind F
  duration_kind : ℤ → ℤ → ℤ → Kind F
  int_kind : ℤ → ℤ → ℤ → Kind F
  float_kind : F → F → F → Kind F

-- a flag that the control server can set; `has_override` if its getter looks for an override
pub record Flag (F : Type 0) : Type 0 where
  pub key : Bytes
  pub has_override : Bool
  pub kind : Kind F

module _ {F : Type 0} where
  abbrev pub bool_flag : Bytes → Bool → Flag F
  bool_flag k d = record { key = k; has_override = false; kind = bool_kind d }

  abbrev pub string_flag : Bytes → Bytes → (Bytes → Bytes) → Flag F
  string_flag k d sanitizer = record {
    key = k;
    has_override = false;
    kind = string_kind d sanitizer;
  }

  abbrev pub duration_flag : Bytes → ℤ → ℤ → ℤ → Flag F
  duration_flag k d minimum maximum = record {
    key = k;
    has_override = false;
    kind = duration_kind d minimum maximum;
  }

  abbrev pub int_flag : Bytes → ℤ → ℤ → ℤ → Flag F
  int_flag k d minimum maximum = record {
    key = k;
    has_override = false;
    kind = int_kind d minimum maximum;
  }

  abbrev pub float_flag : Bytes → F → F → F → Flag F
  float_flag k d minimum maximum = record {
    key = k;
    has_override = false;
    kind = float_kind d minimum maximum;
  }

  abbrev pub overridable : Flag F → Flag F
  overridable f = record f { has_override = true }

  -- the sanitizer of the log shipping level
  unfoldable pub sanitize_log_level : Conversions F → Bytes → Bytes
  sanitize_log_level conv value =
      let level = conv.to_lower value in
      if level == codes "debug"
        || level == codes "warn"
        || level == codes "info"
        || level == codes "error"
      then level
      else codes "info"

  -- `tuf.SanitizePinnedVersion`, for launcher or for osqueryd
  unfoldable pub sanitize_pinned_version : Conversions F → Bool → Bytes → Bytes
  sanitize_pinned_version conv for_launcher version = elim (conv.below_pinnable version) [
    | none ↦ []
    | some too_old ↦ if for_launcher && too_old then [] else version
  ]

-- `launcher.SanitizeUpdateChannel`
unfoldable pub sanitize_update_channel : Bytes → Bytes
sanitize_update_channel value =
    if value == codes "stable"
      || value == codes "alpha"
      || value == codes "beta"
      || value == codes "nightly"
    then value
    else codes "stable"
