-- ===== src/Publish/State.antt =====
-- pkg/osquery/log_publication_state.go: the limit on the bytes of a batch of logs, which follows the
-- success of the batches. Times are nanoseconds; `none` is the zero time, which is more than the
-- maximal duration ago. The limit of the options is a size, not negative.
use launcher.Base.{
  ℕ, ◌+◌, ◌-◌, min, max, Bool, false, not, ◌&&◌, Option, none, some, if◌then◌else◌, ltb, leb,
}

abbrev pub min_bytes_per_batch : ℕ
min_bytes_per_batch = 524288

abbrev pub batch_increment_amount : ℕ
batch_increment_amount = 524288

-- 20 seconds
abbrev pub max_publication_duration : ℕ
max_publication_duration = 20000000000

pub record LogPublicationState : Type 0 where
  pub max_bytes_per_batch : ℕ
  pub current_max_bytes_per_batch : ℕ
  pub current_batch_buffer_filled : Bool
  pub current_batch_start_time : Option ℕ

unfoldable pub new_log_publication_state : ℕ → LogPublicationState
new_log_publication_state limit = record {
  max_bytes_per_batch = limit;
  current_max_bytes_per_batch = limit;
  current_batch_buffer_filled = false;
  current_batch_start_time = none;
}

unfoldable pub begin_batch : ℕ → Bool → LogPublicationState → LogPublicationState
begin_batch start filled st = record st {
  current_batch_start_time = some start;
  current_batch_buffer_filled = filled;
}

unfoldable pub exceeds_max_batch_threshold : ℕ → LogPublicationState → Bool
exceeds_max_batch_threshold amount st = ltb st.max_bytes_per_batch amount

unfoldable pub exceeds_current_batch_threshold : ℕ → LogPublicationState → Bool
exceeds_current_batch_threshold amount st = ltb st.current_max_bytes_per_batch amount

unfoldable pub reduce_batch_threshold : LogPublicationState → LogPublicationState
reduce_batch_threshold st =
    if leb st.current_max_bytes_per_batch min_bytes_per_batch then st else record st {
      current_max_bytes_per_batch =
          max (st.current_max_bytes_per_batch - batch_increment_amount) min_bytes_per_batch;
    }

unfoldable pub increase_batch_threshold : LogPublicationState → LogPublicationState
increase_batch_threshold st =
    if leb st.max_bytes_per_batch st.current_max_bytes_per_batch then st else record st {
      current_max_bytes_per_batch =
          min (st.current_max_bytes_per_batch + batch_increment_amount) st.max_bytes_per_batch;
    }

-- `time.Since(start) < maxPublicationDuration`
unfoldable pub was_fast : ℕ → Option ℕ → Bool
was_fast now none = false
was_fast now (some start) = ltb (now - start) max_publication_duration

-- the deferred function of `EndBatch`
unfoldable pub reset_batch : LogPublicationState → LogPublicationState
reset_batch st = record st { current_batch_buffer_filled = false; current_batch_start_time = none }

unfoldable pub end_batch : ℕ → Bool → LogPublicationState → LogPublicationState
unfolding was_fast reset_batch increase_batch_threshold reduce_batch_threshold
end_batch now successful st =
    if successful && not st.current_batch_buffer_filled
    then reset_batch st
    else if not successful && was_fast now st.current_batch_start_time
    then reset_batch st
    else if successful
    then reset_batch (increase_batch_threshold st)
    else reset_batch (reduce_batch_threshold st)
