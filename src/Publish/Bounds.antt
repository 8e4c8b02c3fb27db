-- ===== src/Publish/Bounds.antt =====
-- pkg/osquery/log_publication_state.go: the limit stays between its bounds and moves as intended.
use launcher.Base.{ℕ, ◌≤◌, min, arith}
use launcher.Publish.State.{LogPublicationState, min_bytes_per_batch, new_log_publication_state}

-- The limit is at most that of the options, and at least half a megabyte or that of the options.
pub record IsValid (st : LogPublicationState) : Type 0 where
  pub upper : st.current_max_bytes_per_batch ≤ st.max_bytes_per_batch
  pub lower : min min_bytes_per_batch st.max_bytes_per_batch ≤ st.current_max_bytes_per_batch

pub new_log_publication_state-IsValid : (limit : ℕ) → IsValid (new_log_publication_state limit)
unfolding new_log_publication_state
new_log_publication_state-IsValid limit = record { upper = omega arith; lower = omega arith }
