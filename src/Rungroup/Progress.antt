-- ===== src/Rungroup/Progress.antt =====
-- pkg/rungroup/rungroup.go: `Run` returns, whatever the actors do.
use launcher.Base.{
  ℕ, zero, suc, ◌+◌, ◌*◌, ◌≤◌, ◌<◌, ◌≢◌, ◌≡◌, refl, ◌∙◌, Option, List, [], ◌∷◌, ◌++◌, arith, length,
}
use launcher.Rungroup.{
  Phase, awaiting_first, signalling, awaiting_interrupts, collecting, returned, Group, initial,
  RunStep, receive_first, signal, signalled, interrupts_done, interrupt_timeout, receive,
  execute_timeout, collected, ActorStep, execute_returns, interrupt_returns, Reach, here, runs,
  acts, Alone, still, then_runs,
}
use launcher.Rungroup.Shutdown.{Reach-actors, Reach-IsSound, Holds}

module _ {E : Type 0} where
  -- how many steps `Run` can still take
  abbrev left_of : Phase E → List ℕ → ℕ
  left_of awaiting_first actors = length actors + length actors + 4
  left_of (signalling e left) actors = length left + length actors + 3
  left_of (awaiting_interrupts e) actors = length actors + 2
  left_of (collecting e n) actors = n + 1
  left_of (returned e) actors = 0

  measure : Group E → ℕ
  measure s = left_of s.phase s.actors

  RunStep-measure : {s t : Group E} → RunStep s t → measure t < measure s
  unfolding measure
  RunStep-measure (receive_first s t e errors at got eq) = rw (eq, at) (omega arith)
  RunStep-measure (signal s t e a left at eq) = rw (eq, at) (omega arith)
  RunStep-measure (signalled s t e at eq) = rw (eq, at) (omega arith)
  RunStep-measure (interrupts_done s t e a left at done all eq) = rw (eq, at, all) (omega arith)
  RunStep-measure (interrupt_timeout s t e a left at all eq) = rw (eq, at, all) (omega arith)
  RunStep-measure (receive s t e x n errors at got eq) = rw (eq, at) (omega arith)
  RunStep-measure (execute_timeout s t e n at eq) = rw (eq, at) (omega arith)
  RunStep-measure (collected s t e at eq) = rw (eq, at) (omega arith)

  ActorStep-measure : {s t : Group E} → ActorStep s t → measure t ≡ measure s
  unfolding measure
  ActorStep-measure (execute_returns s t before after a x there e) = rw e refl
  ActorStep-measure (interrupt_returns s t before after a there e) = rw e refl

  -- the steps of `Run` among those that were taken
  abbrev pub run_steps : {s t : Group E} → Reach s t → ℕ
  run_steps here = 0
  run_steps (runs r st) = suc (run_steps r)
  run_steps (acts r st) = run_steps r

  run_steps-measure :
      (a : ℕ) (others : List ℕ) {t : Group E} (r : Reach (initial (a ∷ others)) t)
      → run_steps r + measure t ≤ 2 * length (a ∷ others) + 4
  unfolding measure
  run_steps-measure a others here = omega arith
  run_steps-measure a others (runs r st) =
      omega (arith, run_steps-measure a others r, RunStep-measure st)
  run_steps-measure a others (acts r st) =
      omega (arith, run_steps-measure a others r, ActorStep-measure st)

  -- from a phase on, `Run` and its timers reach the end alone
  Ends : Group E → Type 0
  Ends s = (t : Group E) × (e : Option E) × Alone s t × (t.phase ≡ returned e)

  before_end : (s t : Group E) → RunStep s t → Ends t → Ends s
  unfolding Ends
  before_end s t st (u, e, alone, end) = (u, e, first alone, end)
    where
      first : {u : Group E} → Alone t u → Alone s u
      first still = then_runs still st
      first (then_runs r st') = then_runs (first r) st'

  collecting-Ends : (s : Group E) (e : Option E) (n : ℕ) → s.phase ≡ collecting e n → Ends s
  unfolding Ends
  collecting-Ends s e zero at =
      (record s { phase = returned e }, e, then_runs still (collected s _ e at refl), refl)
  collecting-Ends s e (suc n) at =
      (record s { phase = returned e }, e, then_runs still (execute_timeout s _ e n at refl), refl)

  awaiting-Ends :
      (a : ℕ) (others : List ℕ) (s : Group E) (e : Option E)
      → s.actors ≡ a ∷ others
      → s.phase ≡ awaiting_interrupts e
      → Ends s
  awaiting-Ends a others s e all at =
      let t : Group E = record s { phase = collecting e (length others) } in
      before_end s t (interrupt_timeout s t e a others at all refl)
        (collecting-Ends t e (length others) refl)

  signalling-Ends :
      (a : ℕ) (others : List ℕ) (left : List ℕ) (s : Group E) (e : Option E)
      → s.actors ≡ a ∷ others
      → s.phase ≡ signalling e left
      → Ends s
  signalling-Ends a others [] s e all at =
      let t : Group E = record s { phase = awaiting_interrupts e } in
      before_end s t (signalled s t e at refl) (awaiting-Ends a others t e all refl)
  signalling-Ends a others (b ∷ left) s e all at =
      let t : Group E = record s {
        phase = signalling e left;
        interrupting = b ∷ s.interrupting;
        interrupted = s.interrupted ++ b ∷ [];
      } in
      before_end s t (signal s t e b left at refl) (signalling-Ends a others left t e all refl)

  -- Once some actor has returned or panicked, `Run` returns by steps of its own and of its timers,
  -- however many actors never return from `execute` or from `interrupt`. And `Run` takes at most four
  -- steps more than two for each actor, whatever the actors do between them.
  pub progress_lem :
      (a : ℕ) (others : List ℕ) (s : Group E) (r : Reach (initial (a ∷ others)) s)
      → s.sent ≢ []
      → (run_steps r ≤ 2 * length (a ∷ others) + 4)
        × ((t : Group E) × (e : Option E) × Alone s t × (t.phase ≡ returned e))
  unfolding Ends
  progress_lem a others s r some_sent = (
    omega (arith, run_steps-measure a others r),
    by_phase s.phase refl (Reach-IsSound a others r),
  )
    where
      all : s.actors ≡ a ∷ others
      all = Reach-actors (a ∷ others) r

      first :
          (sent channel : List (Option E))
          → s.phase ≡ awaiting_first
          → s.sent ≡ sent
          → sent ≡ channel
          → s.actor_errors ≡ channel
          → Ends s
      first sent [] at e f g = absurd (some_sent (e ∙ f))
      first sent (x ∷ errors) at e f g =
          let t : Group E = record s { phase = signalling x s.actors; actor_errors = errors } in
          before_end s t (receive_first s t x errors at g refl)
            (signalling-Ends a others s.actors t x all refl)

      by_phase :
          (p : Phase E)
          → s.phase ≡ p
          → Holds p s.actors s.interrupted s.sent s.actor_errors
          → Ends s
      by_phase awaiting_first at (_, e) = first s.sent s.actor_errors at refl e refl
      by_phase (signalling e left) at h = signalling-Ends a others left s e all at
      by_phase (awaiting_interrupts e) at h = awaiting-Ends a others s e all at
      by_phase (collecting e n) at h = collecting-Ends s e n at
      by_phase (returned e) at h = (s, e, still, at)
