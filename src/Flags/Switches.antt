-- ===== src/Flags/Switches.antt =====
-- ee/agent/flags/flag_controller.go: the Boolean flags.
use launcher.Base.{false, List, [], ◌∷◌, codes}
use launcher.Flags.Kinds.{Options, Flag, bool_flag, overridable}

module _ {F : Type 0} (opts : Options F) where
  abbrev pub kolide_hosted : Flag F
  kolide_hosted = bool_flag (codes "kolide_hosted") opts.kolide_hosted

  abbrev pub desktop_enabled : Flag F
  desktop_enabled = bool_flag (codes "desktop_enabled_v1") false

  abbrev pub debug_server_data : Flag F
  debug_server_data = bool_flag (codes "debug_server_data") false

  abbrev pub force_control_subsystems : Flag F
  force_control_subsystems = bool_flag (codes "force_control_subsystems") false

  abbrev pub allow_overly_broad_dt4a_acceleration : Flag F
  allow_overly_broad_dt4a_acceleration =
      bool_flag (codes "allow_overly_broad_dt4a_acceleration") false

  abbrev pub disable_control_tls : Flag F
  disable_control_tls = bool_flag (codes "disable_control_tls") opts.disable_control_tls

  abbrev pub insecure_control_tls : Flag F
  insecure_control_tls = bool_flag (codes "insecure_control_tls") opts.insecure_control_tls

  abbrev pub insecure_tls : Flag F
  insecure_tls = bool_flag (codes "insecure_tls") opts.insecure_tls

  abbrev pub insecure_transport_tls : Flag F
  insecure_transport_tls = bool_flag (codes "insecure_transport") opts.insecure_transport

  abbrev pub i_am_breaking_ee_license : Flag F
  i_am_breaking_ee_license =
      bool_flag (codes "i-am-breaking-ee-license") opts.i_am_breaking_ee_license

  abbrev pub debug : Flag F
  debug = bool_flag (codes "debug") opts.debug

  abbrev pub osquery_verbose : Flag F
  osquery_verbose = bool_flag (codes "osquery_verbose") opts.osquery_verbose

  abbrev pub watchdog_enabled : Flag F
  watchdog_enabled = bool_flag (codes "watchdog_enabled") opts.watchdog_enabled

  abbrev pub autoupdate : Flag F
  autoupdate = bool_flag (codes "autoupdate") opts.autoupdate

  abbrev pub export_traces : Flag F
  export_traces = overridable (bool_flag (codes "export_traces") opts.export_traces)

  abbrev pub launcher_watchdog_disabled : Flag F
  launcher_watchdog_disabled = bool_flag (codes "prevent_launcher_watchdog_installation") false

  abbrev pub systray_restart_enabled : Flag F
  systray_restart_enabled = bool_flag (codes "systray_restart_enabled") false

  abbrev pub disable_trace_ingest_tls : Flag F
  disable_trace_ingest_tls =
      bool_flag (codes "disable_trace_ingest_tls") opts.disable_trace_ingest_tls

  abbrev pub in_modern_standby : Flag F
  in_modern_standby = bool_flag (codes "in_modern_standby") false

  abbrev pub use_cached_data_for_scheduled_queries : Flag F
  use_cached_data_for_scheduled_queries =
      bool_flag (codes "use_cached_data_for_scheduled_queries") false

  abbrev pub reset_on_hardware_change_enabled : Flag F
  reset_on_hardware_change_enabled = bool_flag (codes "reset_on_hardware_change_enabled") false

  abbrev pub performance_monitoring_enabled : Flag F
  performance_monitoring_enabled = bool_flag (codes "performance_monitoring_enabled") false

  abbrev pub switches : List (Flag F)
  switches =
      kolide_hosted ∷ desktop_enabled ∷ debug_server_data ∷ force_control_subsystems
      ∷ allow_overly_broad_dt4a_acceleration ∷ disable_control_tls ∷ insecure_control_tls
      ∷ insecure_tls ∷ insecure_transport_tls ∷ i_am_breaking_ee_license ∷ debug ∷ osquery_verbose
      ∷ watchdog_enabled ∷ autoupdate ∷ export_traces ∷ launcher_watchdog_disabled
      ∷ systray_restart_enabled ∷ disable_trace_ingest_tls ∷ in_modern_standby
      ∷ use_cached_data_for_scheduled_queries ∷ reset_on_hardware_change_enabled
      ∷ performance_monitoring_enabled ∷ []
