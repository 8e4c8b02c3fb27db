-- ===== src/SendBuffer/Drain/Running.antt =====
-- `Run` of pkg/sendbuffer/sendbuffer.go while other goroutines use the buffer.
use launcher.Base.{ℕ, zero, suc, ◌≡◌, refl, ◌≢◌, ◌⊎◌, inl, inr, true, false, arith, Bool-cases}
use launcher.SendBuffer.{
  Bytes, SendBuffer, Network, SendResult, sent, send_failed, panicked, send_and_purge,
}
use launcher.SendBuffer.Size.{IsValid}
use launcher.SendBuffer.Interleave.{Reach, Reach-IsValid, send_and_purge-IsValid}
use launcher.SendBuffer.Drain.{Pause, Ran, run_ended, already_running, after_round, run_loop, run}

-- The loop of `Run` ends or crashes, in a valid buffer.
abbrev Loops : {W : Type 0} → Ran W → Type 0
Loops (result, sb, w) = (result ≢ already_running) × IsValid sb

after_round-Loops :
    {W : Type 0} (next : SendBuffer → W → Ran W) (r : SendResult × SendBuffer × W)
    → IsValid r.1
    → (IsValid r.1 → Loops (next r.1 r.2))
    → Loops (after_round next r)
unfolding after_round
after_round-Loops next (sent n, sb, w) v rest = rest v
after_round-Loops next (send_failed, sb, w) v rest = rest v
after_round-Loops next (panicked, sb, w) v rest = (λ e. cc, v)

module _ {W : Type 0} (network : Network W) (pause : Pause W)
    (others : (out : Bytes) (t : SendBuffer) (w : W) → Reach t (network out t w).1)
    (meanwhile : (t : SendBuffer) (w : W) → Reach t (pause t w).0) where
  run_loop-Loops :
      (ticks : ℕ) (sb : SendBuffer) (w : W) → IsValid sb → Loops (run_loop network pause ticks sb w)
  unfolding run_loop
  run_loop-Loops zero sb w v =
      after_round-Loops (λ sb' w'. (run_ended, sb', w')) (send_and_purge network sb w)
        (send_and_purge-IsValid network sb w (λ out t. others out t w) v) (λ v'. (λ e. cc, v'))
  run_loop-Loops (suc ticks) sb w v =
      let (_, sb', w') = send_and_purge network sb w in
      let (sb'', w'') = pause sb' w' in
      after_round-Loops _ (send_and_purge network sb w)
        (send_and_purge-IsValid network sb w (λ out t. others out t w) v)
        (λ v'. run_loop-Loops ticks sb'' w'' (Reach-IsValid (meanwhile sb' w') v'))

  -- Calls of `Write`, `UpdateData` and `DeleteAllData` by other goroutines come during the sends and
  -- between them, but no `Drain`. A second `Run` is refused, with no effect.
  -- Any other is not refused: it ends with the context, or it crashes; in both cases the size of
  -- the buffer equals the bytes held and is within the storage limit, as at the start, and the
  -- buffer may be run again.
  pub run-IsValid :
      (ticks : ℕ) (sb : SendBuffer) (w : W)
      → IsValid sb
      → let (result, sb', w') = run network pause ticks sb w in
        ((sb.is_sending ≡ true) × (result ≡ already_running) × (sb' ≡ sb) × (w' ≡ w))
        ⊎ ((sb.is_sending ≡ false)
            × (result ≢ already_running)
            × (sb'.is_sending ≡ false)
            × IsValid sb')
  unfolding run
  run-IsValid ticks sb w v = elim (Bool-cases sb.is_sending) [
    | inl busy ↦ rw busy (inl (refl, refl, refl, refl))
    | inr free ↦
        let start : SendBuffer = record sb { is_sending = true } in
        let (not_refused, v') = run_loop-Loops ticks start w (ground (arith, v)) in
        rw free (inr (refl, not_refused, refl, ground (arith, v')))
  ]
