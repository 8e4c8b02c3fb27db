-- ===== src/Dedup.antt =====
-- pkg/log/dedup/dedup_middleware.go: the engine that suppresses bursts of equal log records.
--
-- Times and durations are natural numbers of nanoseconds, and a window of 0 is one that is zero or
-- negative. A call of `handleRecord` or `performCleanup` changes the cache under `cacheLock`, so it is
-- one step here; what it passes on is its result. The cache is an association list, whose order is
-- the one in which a loop visits it. `digest` is what `hashKeyValuePairs` does with the pairs that are
-- left: fmt, sort.Slice and sha256.
mod Entries
mod Runs
mod Windows
mod Totals
mod Cleanup
mod Examples
use launcher.Base.{
  ℕ, zero, suc, ◌+◌, ◌-◌, Bool, true, false, not, ◌||◌, Option, none, some, List, [], ◌∷◌, ◌++◌,
  Bytes, codes, contains, if◌then◌else◌, ltb, leb, nat_eq, length, map,
}
use launcher.Base.Dict
use launcher.Base.Dict.{Dict}

-- `slog.Value`; `V` are the others
pub data AttrValue (V : Type 0) : Type 0 where
  of_int : ℕ → AttrValue V
  of_string : Bytes → AttrValue V
  of_time : ℕ → AttrValue V
  of_any : V → AttrValue V

abbrev pub Attrs : Type 0 → Type 0
Attrs V = List (Bytes × AttrValue V)

-- `slog.Record`, its level as `String` gives it
pub record LogRecord (V : Type 0) : Type 0 where
  pub level : Bytes
  pub message : Bytes
  pub attrs : Attrs V
  pub pc : ℕ

-- `N` are the handlers that records are passed on to
pub record LogEntry (V N : Type 0) : Type 0 where
  pub first_seen : ℕ
  pub last_seen : ℕ
  pub count : ℕ
  pub log : LogRecord V
  pub next : N

pub record Engine (V N : Type 0) : Type 0 where
  pub cache_expiry : ℕ
  pub max_cache_size : ℕ
  pub cache : Dict (LogEntry V N)
  pub cleanup_running : Bool
  pub started : Bool
  pub duplicate_log_window : ℕ

-- `New`, with the options as its arguments
unfoldable pub new : {V N : Type 0} → ℕ → ℕ → ℕ → Engine V N
new cache_expiry max_cache_size window = record {
  cache_expiry = cache_expiry;
  max_cache_size = max_cache_size;
  cache = [];
  cleanup_running = false;
  started = false;
  duplicate_log_window = window;
}

abbrev pub excluded_hash_fields : List Bytes
excluded_hash_fields =
    codes "ts"
    ∷ codes "time"
    ∷ codes "caller"
    ∷ codes "source"
    ∷ codes "original.time"
    ∷ codes "original.source"
    ∷ []

-- `handleRecord` drops a record, or passes it on, if it was seen before with its count and times
pub data Outcome : Type 0 where
  suppressed : Outcome
  passed : Outcome
  passed_again : ℕ → ℕ → ℕ → Outcome

module _ {V : Type 0} where
  unfoldable pub included : Attrs V → Attrs V
  unfolding contains
  included [] = []
  included ((key, value) ∷ attrs) =
      let rest = included attrs in
      if contains key excluded_hash_fields then rest else (key, value) ∷ rest

  module _ (digest : Attrs V → Bytes) where
    unfoldable pub hash_key_value_pairs : Attrs V → Bytes
    unfolding included
    hash_key_value_pairs keyvals = digest (included keyvals)

    unfoldable pub hash_record_with_handler_attrs : LogRecord V → Attrs V → Bytes
    unfolding hash_key_value_pairs
    hash_record_with_handler_attrs log handler_attrs = hash_key_value_pairs (
        ((codes "level", of_string log.level)
          ∷ (codes "msg", of_string log.message)
          ∷ included handler_attrs)
        ++ included log.attrs)

  -- the record that is passed on to `next`
  unfoldable pub passed_record : Outcome → LogRecord V → Option (LogRecord V)
  passed_record suppressed log = none
  passed_record passed log = some log
  passed_record (passed_again count first_seen last_seen) log = some (record log {
    attrs =
        log.attrs
        ++ (codes "duplicate_count", of_int count)
          ∷ (codes "first_seen", of_time first_seen)
          ∷ (codes "last_seen", of_time last_seen)
          ∷ [];
  })

  -- the record that sums up an entry
  unfoldable pub summary : {N : Type 0} → LogEntry V N → LogRecord V
  summary entry = record entry.log {
    attrs =
        entry.log.attrs
        ++ (codes "duplicate_count", of_int entry.count)
          ∷ (codes "original_msg", of_string entry.log.message)
          ∷ (codes "first_seen", of_time entry.first_seen)
          ∷ (codes "last_seen", of_time entry.last_seen)
          ∷ [];
  }

-- `sort.Slice`, which leaves open how entries of the same time are ordered
unfoldable pub place_item : Bytes × ℕ → List (Bytes × ℕ) → List (Bytes × ℕ)
place_item item [] = item ∷ []
place_item item (other ∷ items) =
    let rest = place_item item items in
    if leb item.1 other.1 then item ∷ other ∷ items else other ∷ rest

module _ {V N : Type 0} where
  -- with the lock: what becomes of the entry for the hash
  unfoldable pub see : ℕ → ℕ → LogRecord V → N → Option (LogEntry V N) → Outcome × LogEntry V N
  see window now log next none =
      (passed, record { first_seen = now; last_seen = now; count = 1; log = log; next = next })
  see window now log next (some entry) =
      if leb window (now - entry.first_seen)
      then (
        passed_again (suc entry.count) entry.first_seen now,
        record entry { first_seen = now; last_seen = now; count = 1; next = next },
      )
      else (suppressed, record entry { last_seen = now; count = suc entry.count; next = next })

  unfoldable pub handle_record :
      (Attrs V → Bytes) → ℕ → LogRecord V → Attrs V → N → Engine V N → Outcome × Engine V N
  unfolding see hash_record_with_handler_attrs
  handle_record digest now log handler_attrs next d =
      if not d.started || nat_eq d.duplicate_log_window 0
      then (passed, d)
      else let hash = hash_record_with_handler_attrs digest log handler_attrs in
        let (outcome, entry) = see d.duplicate_log_window now log next (Dict.lookup hash d.cache) in
        (outcome, record d { cache = Dict.insert hash entry d.cache })

  unfoldable pub set_duplicate_log_window : ℕ → Engine V N → Engine V N
  set_duplicate_log_window window d = record d { duplicate_log_window = window }

  -- `Start` and `Stop`, besides the worker that calls `performCleanup`
  unfoldable pub start : Engine V N → Engine V N
  start d = record d { started = true }

  unfoldable pub stop : Engine V N → Engine V N
  stop d = record d { started = false }

  -- a summary is made for an entry that stands for more than one record
  unfoldable pub to_emit : LogEntry V N → List (LogEntry V N)
  to_emit entry = if ltb 1 entry.count then entry ∷ [] else []

  -- the entries that stay, and the summaries of those that have expired
  unfoldable pub expire : ℕ → ℕ → Dict (LogEntry V N) → Dict (LogEntry V N) × List (LogEntry V N)
  unfolding to_emit
  expire expiry now [] = ([], [])
  expire expiry now ((hash, entry) ∷ cache) =
      let (kept, emitted) = expire expiry now cache in
      if leb (now - entry.last_seen) expiry
      then ((hash, entry) ∷ kept, emitted)
      else (kept, to_emit entry ++ emitted)

  unfoldable pub sorted_items : Dict (LogEntry V N) → List (Bytes × ℕ)
  unfolding place_item
  sorted_items [] = []
  sorted_items ((hash, entry) ∷ cache) = place_item (hash, entry.last_seen) (sorted_items cache)

  -- the first items are removed
  unfoldable pub evict :
      ℕ → List (Bytes × ℕ) → Dict (LogEntry V N) → Dict (LogEntry V N) × List (LogEntry V N)
  unfolding to_emit
  evict zero items cache = (cache, [])
  evict (suc n) [] cache = (cache, [])
  evict (suc n) ((hash, _) ∷ items) cache = elim (Dict.lookup hash cache) [
    | none ↦ evict n items cache
    | some entry ↦
        let (kept, emitted) = evict n items (Dict.delete hash cache) in
        (kept, to_emit entry ++ emitted)
  ]

  unfoldable pub shrink : ℕ → Dict (LogEntry V N) → Dict (LogEntry V N) × List (LogEntry V N)
  unfolding evict sorted_items
  shrink max_cache_size cache =
      if ltb max_cache_size (length cache)
      then evict (length cache - max_cache_size) (sorted_items cache) cache
      else (cache, [])

  -- the entries of which a summary is passed on, and the engine
  unfoldable pub perform_cleanup : ℕ → Engine V N → List (LogEntry V N) × Engine V N
  unfolding expire shrink
  perform_cleanup now d =
      if d.cleanup_running
      then ([], d)
      else let (unexpired, expired) = expire d.cache_expiry now d.cache in
        let (kept, evicted) = shrink d.max_cache_size unexpired in
        (expired ++ evicted, record d { cache = kept })
