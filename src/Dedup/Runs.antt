-- ===== src/Dedup/Runs.antt =====
-- pkg/log/dedup/dedup_middleware.go: calls of the engine in some order.
use launcher.Base.{ℕ, suc, ◌+◌, ◌≡◌, refl, List, [], ◌∷◌, arith, Bytes}
use launcher.Dedup.{
  Attrs, LogRecord, Engine, handle_record, perform_cleanup, set_duplicate_log_window, start, stop,
}
use launcher.Dedup.Entries.{IsSound, handle_record-IsSound, perform_cleanup-IsSound}
use launcher.Dedup.Totals.{held, summed_up, told, handle_record-held, perform_cleanup-held}

-- a call of the engine, with the time at which it comes
pub data Call (V N : Type 0) : Type 0 where
  handles : ℕ → LogRecord V → Attrs V → N → Call V N
  cleans : ℕ → Call V N
  sets : ℕ → Call V N
  starts : Call V N
  stops : Call V N

module _ {V N : Type 0} where
  -- how many records the calls hand to the engine
  unfoldable pub handed : List (Call V N) → ℕ
  handed [] = 0
  handed (handles now log handler_attrs next ∷ calls) = suc (handed calls)
  handed (cleans now ∷ calls) = handed calls
  handed (sets window ∷ calls) = handed calls
  handed (starts ∷ calls) = handed calls
  handed (stops ∷ calls) = handed calls

  module _ (digest : Attrs V → Bytes) where
    -- the number of records that a call tells of, and the engine
    unfoldable pub step : Call V N → Engine V N → ℕ × Engine V N
    unfolding handle_record perform_cleanup summed_up set_duplicate_log_window start stop
    step (handles now log handler_attrs next) d =
        let (outcome, d') = handle_record digest now log handler_attrs next d in (told outcome, d')
    step (cleans now) d = let (emitted, d') = perform_cleanup now d in (summed_up emitted, d')
    step (sets window) d = (0, set_duplicate_log_window window d)
    step starts d = (0, start d)
    step stops d = (0, stop d)

    unfoldable pub run : List (Call V N) → Engine V N → ℕ × Engine V N
    unfolding step
    run [] d = (0, d)
    run (c ∷ calls) d = let (n, d') = step c d in let (m, d'') = run calls d' in (n + m, d'')

    step-IsSound : (c : Call V N) (d : Engine V N) → IsSound d.cache → IsSound (step c d).1.cache
    unfolding step
    step-IsSound (handles now log handler_attrs next) d h =
        handle_record-IsSound digest now log handler_attrs next d h
    step-IsSound (cleans now) d h = perform_cleanup-IsSound now d h
    step-IsSound (sets window) d h = h
    step-IsSound starts d h = h
    step-IsSound stops d h = h

    step-held :
        (c : Call V N) (d : Engine V N)
        → IsSound d.cache
        → (step c d).0 + held (step c d).1.cache ≡ handed (c ∷ []) + held d.cache
    unfolding step handed
    step-held (handles now log handler_attrs next) d h =
        omega (arith, handle_record-held digest now log handler_attrs next d h)
    step-held (cleans now) d h = omega (arith, perform_cleanup-held now d h)
    step-held (sets window) d h = refl
    step-held starts d h = refl
    step-held stops d h = refl

    handed-cons :
        (c : Call V N) (calls : List (Call V N))
        → handed (c ∷ calls) ≡ handed (c ∷ []) + handed calls
    unfolding handed
    handed-cons (handles now log handler_attrs next) calls = omega arith
    handed-cons (cleans now) calls = omega arith
    handed-cons (sets window) calls = omega arith
    handed-cons starts calls = omega arith
    handed-cons stops calls = omega arith

    -- Whatever calls come, in whatever order and with whatever clocks: each record handed to the
    -- engine is passed on, or told of by one duplicate count, of a record or of a summary, or still
    -- waits in the cache, and only one of these. A duplicate count also counts one record that was
    -- passed on before; it is not counted again here.
    pub run_lem :
        (calls : List (Call V N)) (d : Engine V N)
        → IsSound d.cache
        → let (n, d') = run calls d in
          (n + held d'.cache ≡ handed calls + held d.cache) × IsSound d'.cache
    unfolding run handed
    run_lem [] d h = (refl, h)
    run_lem (c ∷ calls) d h =
        let (rest, sound) = run_lem calls (step c d).1 (step-IsSound c d h) in
        (omega (arith, rest, step-held c d h, handed-cons c calls), sound)
