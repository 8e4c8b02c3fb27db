-- ===== src/SendBuffer/Drain.antt =====
-- `Drain` and `Run` of pkg/sendbuffer/sendbuffer.go. The wait between two sends is an argument, as
-- the network is: it answers true if the timer fires and false if the context is done first.
pub mod Quiet
pub mod Running
use launcher.Base.{ℕ, zero, suc, ◌-◌, Bool, true, false, ◌||◌, nat_eq, if◌then◌else◌, length}
use launcher.SendBuffer.{
  SendBuffer, Network, SendResult, sent, send_failed, panicked, send_and_purge,
}

abbrev pub Wait : Type 0 → Type 0
Wait W = SendBuffer → W → Bool × SendBuffer × W

pub data DrainResult : Type 0 where
  drained : DrainResult
  failed : DrainResult
  too_many_sends : DrainResult
  interrupted : DrainResult
  crashed : DrainResult

-- what happens in a wait of `Run`
abbrev pub Pause : Type 0 → Type 0
Pause W = SendBuffer → W → SendBuffer × W

-- nil, the error "already running", or a panic
pub data RunResult : Type 0 where
  run_ended : RunResult
  already_running : RunResult
  run_crashed : RunResult

abbrev pub Ran : Type 0 → Type 0
Ran W = RunResult × SendBuffer × W

abbrev Drained : Type 0 → Type 0
Drained W = DrainResult × SendBuffer × W

module _ {W : Type 0} where
  after_wait : (SendBuffer → W → Drained W) → Bool × SendBuffer × W → Drained W
  after_wait next (true, sb, w) = next sb w
  after_wait next (false, sb, w) = (interrupted, sb, w)

  -- a round after its send; `linesRemaining` below 0 ends the loop as 0 does
  after_send :
      (ℕ → SendBuffer → W → Drained W) → Wait W → ℕ → SendResult × SendBuffer × W → Drained W
  unfolding after_wait
  after_send next wait remaining (sent n, sb, w) =
      let waited = after_wait (next (remaining - n)) (wait sb w) in
      if nat_eq n 0 || nat_eq (remaining - n) 0 then (drained, sb, w) else waited
  after_send next wait remaining (send_failed, sb, w) = (failed, sb, w)
  after_send next wait remaining (panicked, sb, w) = (crashed, sb, w)

  -- the loop of `Drain` with `rounds` sends left
  drain_loop : Network W → Wait W → ℕ → ℕ → SendBuffer → W → Drained W
  drain_loop network wait zero remaining sb w = (too_many_sends, sb, w)
  drain_loop network wait (suc rounds) remaining sb w =
      let round =
        after_send (drain_loop network wait rounds) wait remaining (send_and_purge network sb w) in
      if nat_eq remaining 0 || nat_eq (length sb.logs) 0 then (drained, sb, w) else round

  unfoldable pub drain : Network W → Wait W → SendBuffer → W → DrainResult × SendBuffer × W
  unfolding drain_loop after_send
  drain network wait sb w = drain_loop network wait sb.max_drain_sends (length sb.logs) sb w

  -- a round of `Run` after its send, whose error is only logged; a panic ends the loop
  after_round : (SendBuffer → W → Ran W) → SendResult × SendBuffer × W → Ran W
  after_round next (sent n, sb, w) = next sb w
  after_round next (send_failed, sb, w) = next sb w
  after_round next (panicked, sb, w) = (run_crashed, sb, w)

  -- the loop of `Run`, which the context ends after `ticks` ticks of the timer
  run_loop : Network W → Pause W → ℕ → SendBuffer → W → Ran W
  unfolding after_round
  run_loop network pause zero sb w =
      after_round (λ sb' w'. (run_ended, sb', w')) (send_and_purge network sb w)
  run_loop network pause (suc ticks) sb w =
      after_round
        (λ sb' w'. let (sb'', w'') = pause sb' w' in run_loop network pause ticks sb'' w'')
        (send_and_purge network sb w)

  unfoldable pub run : Network W → Pause W → ℕ → SendBuffer → W → RunResult × SendBuffer × W
  unfolding run_loop
  run network pause ticks sb w =
      if sb.is_sending
      then (already_running, sb, w)
      else let (result, sb', w') =
          run_loop network pause ticks (record sb { is_sending = true }) w in
        (result, record sb' { is_sending = false }, w')
