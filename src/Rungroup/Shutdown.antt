-- ===== src/Rungroup/Shutdown.antt =====
-- pkg/rungroup/rungroup.go: what has happened when `Run` returns.
use launcher.Base.{
  ◌≢◌, ℕ, suc, ◌≡◌, refl, sym, ap, ◌∙◌, Option, none, List, [], ◌∷◌, ◌++◌, append_assoc, append-nil,
}
use mathlib.Core.Path.{subst}
use launcher.Rungroup.{
  Phase, awaiting_first, signalling, awaiting_interrupts, collecting, returned, Group, initial,
  RunStep, receive_first, signal, signalled, interrupts_done, interrupt_timeout, receive,
  execute_timeout, collected, ActorStep, execute_returns, interrupt_returns, Reach, here, runs,
  acts,
}

module _ {E : Type 0} where
  abbrev IsFirst : Option E → List (Option E) → Type 0
  IsFirst e sent = (more : List (Option E)) × (sent ≡ e ∷ more)

  -- what holds in a phase: of the actors, of those interrupted, of the errors sent and in the channel
  abbrev pub Holds : Phase E → List ℕ → List ℕ → List (Option E) → List (Option E) → Type 0
  Holds awaiting_first actors interrupted sent channel = (interrupted ≡ []) × (sent ≡ channel)
  Holds (signalling e left) actors interrupted sent channel =
      (interrupted ++ left ≡ actors) × IsFirst e sent
  Holds (awaiting_interrupts e) actors interrupted sent channel =
      (interrupted ≡ actors) × IsFirst e sent
  Holds (collecting e n) actors interrupted sent channel = (interrupted ≡ actors) × IsFirst e sent
  Holds (returned e) [] interrupted sent channel = (e ≡ none) × (interrupted ≡ [])
  Holds (returned e) (a ∷ actors) interrupted sent channel =
      (interrupted ≡ a ∷ actors) × IsFirst e sent

  abbrev pub IsSound : Group E → Type 0
  IsSound s = Holds s.phase s.actors s.interrupted s.sent s.actor_errors

  -- more errors in the channel and among those sent
  Holds-sent :
      (p : Phase E) (actors interrupted : List ℕ) (sent channel : List (Option E)) (x : Option E)
      → Holds p actors interrupted sent channel
      → Holds p actors interrupted (sent ++ x ∷ []) (channel ++ x ∷ [])
  Holds-sent awaiting_first actors interrupted sent channel x (a, b) = (a, ap (λ l. l ++ x ∷ []) b)
  Holds-sent (signalling e left) actors interrupted sent channel x (a, (more, b)) =
      (a, (more ++ x ∷ [], ap (λ l. l ++ x ∷ []) b))
  Holds-sent (awaiting_interrupts e) actors interrupted sent channel x (a, (more, b)) =
      (a, (more ++ x ∷ [], ap (λ l. l ++ x ∷ []) b))
  Holds-sent (collecting e n) actors interrupted sent channel x (a, (more, b)) =
      (a, (more ++ x ∷ [], ap (λ l. l ++ x ∷ []) b))
  Holds-sent (returned e) [] interrupted sent channel x h = h
  Holds-sent (returned e) (c ∷ actors) interrupted sent channel x (a, (more, b)) =
      (a, (more ++ x ∷ [], ap (λ l. l ++ x ∷ []) b))

  ActorStep-IsSound : {s t : Group E} → ActorStep s t → IsSound s → IsSound t
  ActorStep-IsSound (execute_returns s t before after a x there e) h =
      subst IsSound (sym e) (Holds-sent s.phase s.actors s.interrupted s.sent s.actor_errors x h)
  ActorStep-IsSound (interrupt_returns s t before after a there e) h =
      subst IsSound (sym e) (kept s.phase s.actors s.interrupted s.sent s.actor_errors h)
    where
      kept :
          (p : Phase E) (actors interrupted : List ℕ) (sent channel : List (Option E))
          → Holds p actors interrupted sent channel
          → Holds p actors interrupted sent channel
      kept p actors interrupted sent channel h = h

  -- what holds, where the phase is known
  at_phase :
      (s : Group E) (p : Phase E)
      → s.phase ≡ p
      → IsSound s
      → Holds p s.actors s.interrupted s.sent s.actor_errors
  at_phase s p e h = subst (λ q. Holds q s.actors s.interrupted s.sent s.actor_errors) e h

  -- a group that has interrupted its actors returns the initial error
  Holds-returned :
      (e : Option E) (actors interrupted : List ℕ) (sent channel : List (Option E)) (n : ℕ)
      → actors ≢ []
      → Holds (collecting e n) actors interrupted sent channel
      → Holds (returned e) actors interrupted sent channel
  Holds-returned e [] interrupted sent channel n full h = absurd (full refl)
  Holds-returned e (a ∷ actors) interrupted sent channel n full h = h

  RunStep-IsSound : {s t : Group E} → RunStep s t → s.actors ≢ [] → IsSound s → IsSound t
  RunStep-IsSound (receive_first s t e errors at got eq) full h =
      let (none_yet, all) = at_phase s awaiting_first at h in
      subst IsSound (sym eq) (ap (λ l. l ++ s.actors) none_yet, (errors, all ∙ got))
  RunStep-IsSound (signal s t e a left at eq) full h =
      let (split, first) = at_phase s (signalling e (a ∷ left)) at h in
      subst IsSound (sym eq) (append_assoc s.interrupted (a ∷ []) left ∙ split, first)
  RunStep-IsSound (signalled s t e at eq) full h =
      let (split, first) = at_phase s (signalling e []) at h in
      subst IsSound (sym eq) (sym (append-nil s.interrupted) ∙ split, first)
  RunStep-IsSound (interrupts_done s t e a left at done all eq) full h =
      subst IsSound (sym eq) (at_phase s (awaiting_interrupts e) at h)
  RunStep-IsSound (interrupt_timeout s t e a left at all eq) full h =
      subst IsSound (sym eq) (at_phase s (awaiting_interrupts e) at h)
  RunStep-IsSound (receive s t e x n errors at got eq) full h =
      subst IsSound (sym eq) (at_phase s (collecting e (suc n)) at h)
  RunStep-IsSound (execute_timeout s t e n at eq) full h = subst IsSound (sym eq) (
      Holds-returned e s.actors s.interrupted s.sent s.actor_errors n full
        (at_phase s (collecting e (suc n)) at h))
  RunStep-IsSound (collected s t e at eq) full h = subst IsSound (sym eq) (
      Holds-returned e s.actors s.interrupted s.sent s.actor_errors 0 full
        (at_phase s (collecting e 0) at h))

  RunStep-actors : {s t : Group E} → RunStep s t → t.actors ≡ s.actors
  RunStep-actors (receive_first s t e errors at got eq) = ap (λ u. u.actors) eq
  RunStep-actors (signal s t e a left at eq) = ap (λ u. u.actors) eq
  RunStep-actors (signalled s t e at eq) = ap (λ u. u.actors) eq
  RunStep-actors (interrupts_done s t e a left at done all eq) = ap (λ u. u.actors) eq
  RunStep-actors (interrupt_timeout s t e a left at all eq) = ap (λ u. u.actors) eq
  RunStep-actors (receive s t e x n errors at got eq) = ap (λ u. u.actors) eq
  RunStep-actors (execute_timeout s t e n at eq) = ap (λ u. u.actors) eq
  RunStep-actors (collected s t e at eq) = ap (λ u. u.actors) eq

  ActorStep-actors : {s t : Group E} → ActorStep s t → t.actors ≡ s.actors
  ActorStep-actors (execute_returns s t before after a x there e) = ap (λ u. u.actors) e
  ActorStep-actors (interrupt_returns s t before after a there e) = ap (λ u. u.actors) e

  pub Reach-actors : (actors : List ℕ) {s : Group E} → Reach (initial actors) s → s.actors ≡ actors
  Reach-actors actors here = refl
  Reach-actors actors (runs r st) = RunStep-actors st ∙ Reach-actors actors r
  Reach-actors actors (acts r st) = ActorStep-actors st ∙ Reach-actors actors r

  pub Reach-IsSound :
      (a : ℕ) (others : List ℕ) {s : Group E} → Reach (initial (a ∷ others)) s → IsSound s
  Reach-IsSound a others here = (refl, refl)
  Reach-IsSound a others (runs r st) =
      RunStep-IsSound st (λ e. some_actor (sym (Reach-actors (a ∷ others) r) ∙ e))
        (Reach-IsSound a others r)
    where
      some_actor : a ∷ others ≢ []
      some_actor e = cc
  Reach-IsSound a others (acts r st) = ActorStep-IsSound st (Reach-IsSound a others r)

  -- When `Run` of a group with some actor returns, it returns the first error that an actor sent,
  -- and it has started the interrupt of every actor once, in order; however the actors behave.
  pub returned_lem :
      (a : ℕ) (others : List ℕ) (s : Group E) (e : Option E)
      → Reach (initial (a ∷ others)) s
      → s.phase ≡ returned e
      → (s.interrupted ≡ a ∷ others) × ((more : List (Option E)) × (s.sent ≡ e ∷ more))
  returned_lem a others s e r at =
      subst (λ actors. Holds (returned e) actors s.interrupted s.sent s.actor_errors)
        (Reach-actors (a ∷ others) r) (at_phase s (returned e) at (Reach-IsSound a others r))
