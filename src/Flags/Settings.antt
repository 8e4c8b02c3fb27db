-- ===== src/Flags/Settings.antt =====
-- ee/agent/flags/flag_controller.go: the flags with texts and numbers. Durations are in nanoseconds.
use launcher.Base.{true, false, List, [], ◌∷◌, codes, pos}
use launcher.Flags.Values.{Conversions}
use launcher.Flags.Kinds.{
  Options, Flag, string_flag, duration_flag, int_flag, float_flag, overridable, sanitize_log_level,
  sanitize_pinned_version, sanitize_update_channel,
}

module _ {F : Type 0} (conv : Conversions F) (opts : Options F) where
  abbrev pub kolide_server_url : Flag F
  kolide_server_url = string_flag (codes "hostname") opts.kolide_server_url (λ value. value)

  abbrev pub logging_interval : Flag F
  logging_interval =
      duration_flag (codes "logging_interval") opts.logging_interval (pos 5000000000)
        (pos 600000000000)

  abbrev pub desktop_update_interval : Flag F
  desktop_update_interval =
      duration_flag (codes "desktop_update_interval") (pos 5000000000) (pos 5000000000)
        (pos 600000000000)

  abbrev pub desktop_menu_refresh_interval : Flag F
  desktop_menu_refresh_interval =
      duration_flag (codes "desktop_menu_refresh_interval") (pos 900000000000) (pos 300000000000)
        (pos 3600000000000)

  abbrev pub desktop_go_max_procs : Flag F
  desktop_go_max_procs = int_flag (codes "desktop_go_max_procs") (pos 2) (pos 0) (pos 16)

  abbrev pub launcher_go_max_procs : Flag F
  launcher_go_max_procs = int_flag (codes "launcher_go_max_procs") (pos 8) (pos 0) (pos 32)

  abbrev pub control_server_url : Flag F
  control_server_url =
      string_flag (codes "control_server_url") opts.control_server_url (λ value. value)

  abbrev pub control_request_interval : Flag F
  control_request_interval = overridable (
      duration_flag (codes "control_request_interval") opts.control_request_interval
        (pos 5000000000) (pos 600000000000))

  abbrev pub debug_log_file : Flag F
  debug_log_file = string_flag (codes "debug_log_file") opts.debug_log_file (λ value. value)

  abbrev pub distributed_forwarding_interval : Flag F
  distributed_forwarding_interval = overridable (
      duration_flag (codes "osquery_distributed_forwarding_interval") (pos 60000000000)
        (pos 5000000000) (pos 300000000000))

  abbrev pub watchdog_delay_sec : Flag F
  watchdog_delay_sec =
      int_flag (codes "watchdog_delay_sec") opts.watchdog_delay_sec (pos 0) (pos 600)

  abbrev pub watchdog_memory_limit_mb : Flag F
  watchdog_memory_limit_mb =
      int_flag (codes "watchdog_memory_limit_mb") opts.watchdog_memory_limit_mb (pos 100)
        (pos 10000)

  abbrev pub watchdog_utilization_limit_percent : Flag F
  watchdog_utilization_limit_percent =
      int_flag (codes "watchdog_utilization_limit_percent") opts.watchdog_utilization_limit_percent
        (pos 5) (pos 100)

  abbrev pub current_running_osquery_version : Flag F
  current_running_osquery_version = string_flag (codes "osquery_version") [] (λ value. value)

  abbrev pub tuf_server_url : Flag F
  tuf_server_url = string_flag (codes "tuf_url") opts.tuf_server_url (λ value. value)

  abbrev pub mirror_server_url : Flag F
  mirror_server_url = string_flag (codes "mirror_url") opts.mirror_server_url (λ value. value)

  abbrev pub autoupdate_interval : Flag F
  autoupdate_interval = overridable (
      duration_flag (codes "autoupdate_interval") opts.autoupdate_interval (pos 60000000000)
        (pos 86400000000000))

  abbrev pub update_channel : Flag F
  update_channel = string_flag (codes "update_channel") opts.update_channel sanitize_update_channel

  abbrev pub autoupdate_initial_delay : Flag F
  autoupdate_initial_delay = overridable (
      duration_flag (codes "autoupdater_initial_delay") opts.autoupdate_initial_delay
        (pos 5000000000) (pos 43200000000000))

  abbrev pub update_directory : Flag F
  update_directory = string_flag (codes "update_directory") opts.update_directory (λ value. value)

  abbrev pub pinned_launcher_version : Flag F
  pinned_launcher_version =
      overridable
        (string_flag (codes "pinned_launcher_version") [] (sanitize_pinned_version conv true))

  abbrev pub pinned_osqueryd_version : Flag F
  pinned_osqueryd_version =
      overridable
        (string_flag (codes "pinned_osqueryd_version") [] (sanitize_pinned_version conv false))

  abbrev pub trace_sampling_rate : Flag F
  trace_sampling_rate = overridable (
      float_flag (codes "trace_sampling_rate") opts.trace_sampling_rate conv.zero_float
        conv.one_float)

  abbrev pub trace_batch_timeout : Flag F
  trace_batch_timeout =
      duration_flag (codes "trace_batch_timeout") (pos 60000000000) (pos 5000000000)
        (pos 3600000000000)

  abbrev pub log_ingest_server_url : Flag F
  log_ingest_server_url =
      string_flag (codes "log_ingest_url") opts.log_ingest_server_url (λ value. value)

  abbrev pub log_shipping_level : Flag F
  log_shipping_level =
      overridable
        (string_flag (codes "log_shipping_level") (codes "info") (sanitize_log_level conv))

  abbrev pub trace_ingest_server_url : Flag F
  trace_ingest_server_url =
      string_flag (codes "trace_ingest_url") opts.trace_ingest_server_url (λ value. value)

  abbrev pub osquery_healthcheck_startup_delay : Flag F
  osquery_healthcheck_startup_delay =
      duration_flag (codes "osquery_healthcheck_startup_delay")
        opts.osquery_healthcheck_startup_delay (pos 0) (pos 3600000000000)

  abbrev pub table_generate_timeout : Flag F
  table_generate_timeout =
      duration_flag (codes "table_generate_timeout") (pos 240000000000) (pos 30000000000)
        (pos 600000000000)

  abbrev pub cached_query_results_ttl : Flag F
  cached_query_results_ttl =
      duration_flag (codes "cached_query_results_ttl") (pos 21600000000000) (pos 5400000000000)
        (pos 259200000000000)

  abbrev pub autoupdate_download_splay : Flag F
  autoupdate_download_splay =
      duration_flag (codes "autoupdate_download_splay") opts.autoupdate_download_splay (pos 0)
        (pos 259200000000000)

  abbrev pub duplicate_log_window : Flag F
  duplicate_log_window =
      duration_flag (codes "duplicate_log_window") (pos 0) (pos 0) (pos 86400000000000)

  abbrev pub osquery_publisher_url : Flag F
  osquery_publisher_url =
      string_flag (codes "osquery_publisher_url") opts.osquery_publisher_url (λ value. value)

  abbrev pub osquery_publisher_percent_enabled : Flag F
  osquery_publisher_percent_enabled =
      int_flag (codes "osquery_publisher_percent_enabled") opts.osquery_publisher_percent_enabled
        (pos 0) (pos 100)

  abbrev pub settings : List (Flag F)
  settings =
      kolide_server_url ∷ logging_interval ∷ desktop_update_interval ∷ desktop_menu_refresh_interval
      ∷ desktop_go_max_procs ∷ launcher_go_max_procs ∷ control_server_url ∷ control_request_interval
      ∷ debug_log_file ∷ distributed_forwarding_interval ∷ watchdog_delay_sec
      ∷ watchdog_memory_limit_mb ∷ watchdog_utilization_limit_percent
      ∷ current_running_osquery_version ∷ tuf_server_url ∷ mirror_server_url ∷ autoupdate_interval
      ∷ update_channel ∷ autoupdate_initial_delay ∷ update_directory ∷ pinned_launcher_version
      ∷ pinned_osqueryd_version ∷ trace_sampling_rate ∷ trace_batch_timeout ∷ log_ingest_server_url
      ∷ log_shipping_level ∷ trace_ingest_server_url ∷ osquery_healthcheck_startup_delay
      ∷ table_generate_timeout ∷ cached_query_results_ttl ∷ autoupdate_download_splay
      ∷ duplicate_log_window ∷ osquery_publisher_url ∷ osquery_publisher_percent_enabled ∷ []
