-- ===== src/Rungroup.antt =====
-- pkg/rungroup/rungroup.go: `Run` of a group of actors, as steps of the goroutine that runs it, of its
-- two timers, and of the actors.
--
-- An actor is its index in `actors`. An actor's `execute` sends its error to the channel when it
-- returns or panics; the channel has room for all. A `none` is a nil error. The semaphore has room for
-- all actors, so that it never blocks before its last call, which waits until no interrupt is under
-- way. Nothing else is known of an actor: it may ignore its interrupt, or never return.
mod Shutdown
mod Progress
mod Examples
use launcher.Base.{ℕ, zero, suc, ◌≡◌, Option, none, some, List, [], ◌∷◌, ◌++◌, length}

-- where `Run` is
pub data Phase (E : Type 0) : Type 0 where
  awaiting_first : Phase E
  -- interrupting the actors that are left, because of the initial error
  signalling : Option E → List ℕ → Phase E
  awaiting_interrupts : Option E → Phase E
  -- waiting for so many more actors
  collecting : Option E → ℕ → Phase E
  returned : Option E → Phase E

pub record Group (E : Type 0) : Type 0 where
  pub actors : List ℕ
  pub phase : Phase E
  -- the actors whose `execute` has not returned
  pub running : List ℕ
  -- the errors in the channel
  pub actor_errors : List (Option E)
  -- interrupts that have not returned
  pub interrupting : List ℕ
  -- the actors for which the goroutine of their interrupt was started, and the errors that were
  -- sent, so far
  pub interrupted : List ℕ
  pub sent : List (Option E)

-- an empty group returns at once
abbrev pub first_phase : {E : Type 0} → List ℕ → Phase E
first_phase [] = returned none
first_phase (a ∷ actors) = awaiting_first

abbrev pub initial : {E : Type 0} → List ℕ → Group E
initial actors = record {
  actors = actors;
  phase = first_phase actors;
  running = actors;
  actor_errors = [];
  interrupting = [];
  interrupted = [];
  sent = [];
}

module _ {E : Type 0} where
  -- `Run` and its timers
  pub data RunStep : Group E → Group E → Type 0 where
    receive_first :
        (s t : Group E) (e : Option E) (errors : List (Option E))
        → s.phase ≡ awaiting_first
        → s.actor_errors ≡ e ∷ errors
        → t ≡ record s { phase = signalling e s.actors; actor_errors = errors }
        → RunStep s t
    signal :
        (s t : Group E) (e : Option E) (a : ℕ) (actors : List ℕ)
        → s.phase ≡ signalling e (a ∷ actors)
        → t ≡ record s {
          phase = signalling e actors;
          interrupting = a ∷ s.interrupting;
          interrupted = s.interrupted ++ a ∷ [];
        }
        → RunStep s t
    signalled :
        (s t : Group E) (e : Option E)
        → s.phase ≡ signalling e []
        → t ≡ record s { phase = awaiting_interrupts e }
        → RunStep s t
    interrupts_done :
        (s t : Group E) (e : Option E) (a : ℕ) (actors : List ℕ)
        → s.phase ≡ awaiting_interrupts e
        → s.interrupting ≡ []
        → s.actors ≡ a ∷ actors
        → t ≡ record s { phase = collecting e (length actors) }
        → RunStep s t
    interrupt_timeout :
        (s t : Group E) (e : Option E) (a : ℕ) (actors : List ℕ)
        → s.phase ≡ awaiting_interrupts e
        → s.actors ≡ a ∷ actors
        → t ≡ record s { phase = collecting e (length actors) }
        → RunStep s t
    receive :
        (s t : Group E) (e x : Option E) (n : ℕ) (errors : List (Option E))
        → s.phase ≡ collecting e (suc n)
        → s.actor_errors ≡ x ∷ errors
        → t ≡ record s { phase = collecting e n; actor_errors = errors }
        → RunStep s t
    execute_timeout :
        (s t : Group E) (e : Option E) (n : ℕ)
        → s.phase ≡ collecting e (suc n)
        → t ≡ record s { phase = returned e }
        → RunStep s t
    collected :
        (s t : Group E) (e : Option E)
        → s.phase ≡ collecting e 0
        → t ≡ record s { phase = returned e }
        → RunStep s t

  -- the goroutines of the actors
  pub data ActorStep : Group E → Group E → Type 0 where
    execute_returns :
        (s t : Group E) (before after : List ℕ) (a : ℕ) (e : Option E)
        → s.running ≡ before ++ a ∷ after
        → t ≡ record s {
          running = before ++ after;
          actor_errors = s.actor_errors ++ e ∷ [];
          sent = s.sent ++ e ∷ [];
        }
        → ActorStep s t
    interrupt_returns :
        (s t : Group E) (before after : List ℕ) (a : ℕ)
        → s.interrupting ≡ before ++ a ∷ after
        → t ≡ record s { interrupting = before ++ after }
        → ActorStep s t

  pub data Reach (s : Group E) : Group E → Type 0 where
    here : Reach s s
    runs : {t u : Group E} → Reach s t → RunStep t u → Reach s u
    acts : {t u : Group E} → Reach s t → ActorStep t u → Reach s u

  -- steps of `Run` and its timers alone
  pub data Alone (s : Group E) : Group E → Type 0 where
    still : Alone s s
    then_runs : {t u : Group E} → Alone s t → RunStep t u → Alone s u
