-- ===== src/Rungroup/Examples.antt =====
-- Two actors, of which the first fails and the second never returns, and the theorems at such runs.
use launcher.Base.{ℕ, ◌+◌, ◌*◌, ◌≤◌, ◌≡◌, ◌≢◌, refl, Option, some, List, [], ◌∷◌, length}
use launcher.Rungroup.{
  signalling, awaiting_interrupts, collecting, returned, Group, initial, receive_first, signal,
  signalled, interrupt_timeout, execute_timeout, execute_returns, Reach, here, runs, acts, Alone,
}
use launcher.Rungroup.Shutdown.{returned_lem}
use launcher.Rungroup.Progress.{run_steps, progress_lem}

abbrev actors : List ℕ
actors = 0 ∷ 1 ∷ []

-- the error of actor 0 is the number 7
abbrev failed : Group ℕ
failed = record (initial actors) {
  running = 1 ∷ [];
  actor_errors = some 7 ∷ [];
  sent = some 7 ∷ [];
}

abbrev signalling_all : Group ℕ
signalling_all = record failed { phase = signalling (some 7) actors; actor_errors = [] }

abbrev signalling_one : Group ℕ
signalling_one = record signalling_all {
  phase = signalling (some 7) (1 ∷ []);
  interrupting = 0 ∷ [];
  interrupted = 0 ∷ [];
}

abbrev signalling_none : Group ℕ
signalling_none = record signalling_one {
  phase = signalling (some 7) [];
  interrupting = 1 ∷ 0 ∷ [];
  interrupted = actors;
}

abbrev awaiting : Group ℕ
awaiting = record signalling_none { phase = awaiting_interrupts (some 7) }

abbrev waiting_for_one : Group ℕ
waiting_for_one = record awaiting { phase = collecting (some 7) 1 }

abbrev over : Group ℕ
over = record waiting_for_one { phase = returned (some 7) }

reach_failed : Reach (initial actors) failed
reach_failed = acts here (execute_returns (initial actors) failed [] (1 ∷ []) 0 (some 7) refl refl)

reach_over : Reach (initial actors) over
reach_over =
    let one = runs reach_failed (receive_first failed signalling_all (some 7) [] refl refl refl) in
    let two = runs one (signal signalling_all signalling_one (some 7) 0 (1 ∷ []) refl refl) in
    let three = runs two (signal signalling_one signalling_none (some 7) 1 [] refl refl) in
    let four = runs three (signalled signalling_none awaiting (some 7) refl refl) in
    let five =
      runs four (interrupt_timeout awaiting waiting_for_one (some 7) 0 (1 ∷ []) refl refl refl) in
    runs five (execute_timeout waiting_for_one over (some 7) 0 refl refl)

returned_lem_example :
    (over.interrupted ≡ actors) × ((more : List (Option ℕ)) × (over.sent ≡ some 7 ∷ more))
returned_lem_example = returned_lem 0 (1 ∷ []) over (some 7) reach_over refl

some_sent : failed.sent ≢ []
some_sent e = cc

progress_lem_example :
    (run_steps reach_failed ≤ 2 * length actors + 4)
    × ((t : Group ℕ) × (e : Option ℕ) × Alone failed t × (t.phase ≡ returned e))
progress_lem_example = progress_lem 0 (1 ∷ []) failed reach_failed some_sent
