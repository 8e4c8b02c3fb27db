-- ===== src/Backoff/Examples.antt =====
-- Three attempts allowed, of which the third succeeds, and the theorem at this input.
use launcher.Base.{ℕ, zero, suc, ◌≡◌, refl, Option, none, some}
use launcher.Backoff.{new, run, succeeded, done_trying}
use launcher.Backoff.Attempts.{Attempted, attempts_lem}

abbrev outcome : ℕ → Option ℕ
outcome zero = some 7
outcome (suc zero) = some 8
outcome _ = none

third : (run outcome (new 3)).0 ≡ succeeded
unfolding run new
third = refl

-- a second `Run` has no attempts left but one
second_run : (run outcome (run outcome (new 3)).1).0 ≡ done_trying 7
unfolding run new
second_run = refl

attempts_lem_example : Attempted outcome (new 3) (run outcome (new 3))
attempts_lem_example = attempts_lem outcome (new 3)
