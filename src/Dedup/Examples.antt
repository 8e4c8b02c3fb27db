-- ===== src/Dedup/Examples.antt =====
-- An engine with one or two records, told apart by their messages, and the theorems at such inputs.
use launcher.Base.{
  ℕ, ◌+◌, ◌*◌, ◌≡◌, refl, ◌⊎◌, true, false, List, [], ◌∷◌, ◌≤◌, min, arith, Bytes, codes, ◌==◌,
  length, All,
}
use launcher.Base.Dict
use launcher.Base.Dict.{Dict}
use launcher.Dedup.{
  of_string, Attrs, LogRecord, LogEntry, Engine, suppressed, passed_again, handle_record, expire,
  perform_cleanup,
}
use launcher.Dedup.Entries.{IsSound}
use launcher.Dedup.Totals.{held}
use launcher.Dedup.Runs.{Call, handles, cleans, run, handed, run_lem}
use launcher.Dedup.Cleanup.{IsYoung, perform_cleanup_lem}
use launcher.Dedup.Windows.{Arrival, passing, passing_lem}

abbrev digest : Attrs ℕ → Bytes
digest (level ∷ (key, of_string message) ∷ attrs) = message
digest _ = []

abbrev log : Bytes → LogRecord ℕ
log message = record { level = codes "INFO"; message = message; attrs = []; pc = 0 }

abbrev entry : ℕ → ℕ → LogEntry ℕ ℕ
entry time count = record {
  first_seen = time;
  last_seen = time;
  count = count;
  log = log (codes "a");
  next = 0;
}

abbrev two_entries : Dict (LogEntry ℕ ℕ)
two_entries = (codes "a", entry 5 3) ∷ (codes "b", entry 7 1) ∷ []

two_entries-IsSound : IsSound two_entries
unfolding ◌==◌
two_entries-IsSound = record { distinct = ((refl, tt), (tt, tt)); counted = omega arith }

-- a window of 10 and room for one entry
abbrev engine : Engine ℕ ℕ
engine = record {
  cache_expiry = 100;
  max_cache_size = 1;
  cache = two_entries;
  cleanup_running = false;
  started = true;
  duplicate_log_window = 10;
}

suppressed_within : (handle_record digest 9 (log (codes "a")) [] 0 engine).0 ≡ suppressed
unfolding handle_record ◌==◌ Dict.lookup
suppressed_within = refl

passed_after : (handle_record digest 15 (log (codes "a")) [] 0 engine).0 ≡ passed_again 4 5 15
unfolding handle_record ◌==◌ Dict.lookup
passed_after = refl

abbrev calls : List (Call ℕ ℕ)
calls = handles 9 (log (codes "a")) [] 0 ∷ cleans 20 ∷ handles 30 (log (codes "b")) [] 0 ∷ []

run_lem_example :
    let (n, d') = run digest calls engine in
    (n + held d'.cache ≡ handed calls + held engine.cache) × IsSound d'.cache
run_lem_example = run_lem digest calls engine two_entries-IsSound

perform_cleanup_lem_example :
    let (emitted, d') = perform_cleanup 20 engine in
    ((false ≡ true) × (emitted ≡ []) × (d' ≡ engine))
    ⊎ ((false ≡ false)
        × (length d'.cache ≡ min 1 (length (expire 100 20 two_entries).0))
        × All (IsYoung 100 20) d'.cache)
perform_cleanup_lem_example = perform_cleanup_lem 20 engine two_entries-IsSound

abbrev arrivals : List (Arrival ℕ ℕ)
arrivals =
    record { now = 15; log = log (codes "a"); handler_attrs = []; next = 0 }
    ∷ record { now = 14; log = log (codes "a"); handler_attrs = []; next = 0 }
    ∷ record { now = 25; log = log (codes "a"); handler_attrs = []; next = 0 }
    ∷ []

passing_lem_example : 5 + 10 * passing digest (codes "a") arrivals engine ≤ 26
unfolding Dict.lookup ◌==◌
passing_lem_example =
    passing_lem digest (codes "a") arrivals engine (entry 5 3) 26 refl (omega arith) refl
      (omega arith) (omega arith)
