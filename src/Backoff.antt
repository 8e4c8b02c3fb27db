-- ===== src/Backoff.antt =====
-- pkg/backoff/backoff.go: a call is tried again until it succeeds or the attempts are used up.
--
-- The calls of `runFunc` that `Run` makes give `outcome 0`, `outcome 1` and so on: `none` for a nil
-- error. The timers between the attempts only wait. `try` is on fuel, one for each attempt.
mod Attempts
mod Examples
use launcher.Base.{ℕ, zero, suc, Option, none, some, leb, if◌then◌else◌}

pub record Backoff : Type 0 where
  pub count : ℕ
  pub max_attempt : ℕ

unfoldable pub new : ℕ → Backoff
new max_attempt = record { count = 0; max_attempt = max_attempt }

-- nil, or the error of the last attempt; `out_of_fuel` is of this model only
pub data Tried (E : Type 0) : Type 0 where
  succeeded : Tried E
  done_trying : E → Tried E
  out_of_fuel : Tried E

module _ {E : Type 0} where
  unfoldable pub try_run : ℕ → (ℕ → Option E) → Backoff → Tried E × Backoff
  try_run zero outcome b = (out_of_fuel, b)
  try_run (suc fuel) outcome b =
      let b' : Backoff = record b { count = suc b.count } in
      let again = try_run fuel (λ i. outcome (suc i)) b' in
      elim (outcome 0) [
        | none ↦ (succeeded, b')
        | some e ↦ if leb b'.max_attempt b'.count then (done_trying e, b') else again
      ]

  unfoldable pub run : (ℕ → Option E) → Backoff → Tried E × Backoff
  unfolding try_run
  run outcome b = try_run (suc b.max_attempt) outcome b
