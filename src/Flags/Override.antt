-- ===== src/Flags/Override.antt =====
-- ee/agent/flags/flag_value_override.go and `overrideFlag` of flag_controller.go: the override of one
-- flag, its timer, and the lock `overrideMutex`. One goroutine at a time calls `overrideFlag`; the
-- callback of a timer runs on its own, and waits for the lock.
--
-- `Start` stops the timer that it finds. If that timer has fired already, `Stop` returns false and
-- `Start` receives from the timer's channel, which is nil for a timer of `time.AfterFunc`: it waits
-- for ever, with the lock held.
use launcher.Base.{ap, ◌∙◌, ◌≡◌, refl, Bool, true, false, arith, ◌≢◌}

-- `fired`: its callback waits for the lock
pub data Timer : Type 0 where
  no_timer : Timer
  running : Timer
  fired : Timer

-- where the call of `overrideFlag` is, if there is one
pub data Caller : Type 0 where
  outside : Caller
  waiting : Caller  -- before `overrideMutex.Lock`
  holding : Caller  -- with the lock, before `Start`
  receiving : Caller  -- with the lock, at `<-o.timer.C`

-- `is_overridden`: the map has an override for the flag
pub record Override : Type 0 where
  pub caller : Caller
  pub is_overridden : Bool
  pub timer : Timer

abbrev pub initial : Override
initial = record { caller = outside; is_overridden = false; timer = no_timer }

-- the lock is held by `overrideFlag`
abbrev pub is_locked : Caller → Bool
is_locked outside = false
is_locked waiting = false
is_locked holding = true
is_locked receiving = true

pub data Step : Override → Override → Type 0 where
  -- a call of `overrideFlag`
  enter : (s t : Override) → s.caller ≡ outside → t ≡ record s { caller = waiting } → Step s t
  lock : (s t : Override) → s.caller ≡ waiting → t ≡ record s { caller = holding } → Step s t
  -- `Start` on a new override
  start :
      (s t : Override)
      → s.caller ≡ holding
      → s.is_overridden ≡ false
      → t ≡ record { caller = outside; is_overridden = true; timer = running }
      → Step s t
  -- `Start` on an override whose timer is stopped
  restart :
      (s t : Override)
      → s.caller ≡ holding
      → s.is_overridden ≡ true
      → s.timer ≡ running
      → t ≡ record { caller = outside; is_overridden = true; timer = running }
      → Step s t
  -- `Start` on an override whose timer has fired
  receive :
      (s t : Override)
      → s.caller ≡ holding
      → s.is_overridden ≡ true
      → s.timer ≡ fired
      → t ≡ record s { caller = receiving }
      → Step s t
  fire : (s t : Override) → s.timer ≡ running → t ≡ record s { timer = fired } → Step s t
  -- the callback takes the lock, deletes the override and unlocks
  expire :
      (s t : Override)
      → s.timer ≡ fired
      → is_locked s.caller ≡ false
      → t ≡ record s { is_overridden = false; timer = no_timer }
      → Step s t

pub data Reach (s : Override) : Override → Type 0 where
  here : Reach s s
  next : {t u : Override} → Reach s t → Step t u → Reach s u

-- An override has a timer, running or fired, that would end it; and there is a timer only for an
-- override.
pub record IsTimed (s : Override) : Type 0 where
  pub timed : s.is_overridden ≡ true → s.timer ≢ no_timer
  pub untimed : s.is_overridden ≡ false → s.timer ≡ no_timer

Step-IsTimed : {s t : Override} → Step s t → IsTimed s → IsTimed t
Step-IsTimed (enter s t at e) h = record {
  timed = ground (arith, h.timed);
  untimed = ground (arith, h.untimed);
}
Step-IsTimed (lock s t at e) h = record {
  timed = ground (arith, h.timed);
  untimed = ground (arith, h.untimed);
}
Step-IsTimed (start s t at no_override e) h = record {
  timed = ground arith;
  untimed = ground arith;
}
Step-IsTimed (restart s t at overridden on e) h = record {
  timed = ground arith;
  untimed = ground arith;
}
Step-IsTimed (receive s t at overridden gone e) h = record {
  timed = ground (arith, h.timed);
  untimed = ground (arith, h.untimed);
}
Step-IsTimed (fire s t on e) h = record {
  timed = ground arith;
  untimed = ground (arith, h.untimed);
}
Step-IsTimed (expire s t gone free e) h = record { timed = ground arith; untimed = ground arith }

initial-IsTimed : IsTimed initial
initial-IsTimed = record { timed = λ h. cc; untimed = λ h. refl }

-- In every state that is reached, an override has a timer, running or fired, that would end it, and
-- there is a timer only for an override.
pub Reach-IsTimed : {s : Override} → Reach initial s → IsTimed s
Reach-IsTimed here = initial-IsTimed
Reach-IsTimed (next r st) = Step-IsTimed st (Reach-IsTimed r)

receiving_stuck : {s t : Override} → Step s t → s.caller ≡ receiving → s.timer ≡ fired → ⊥
receiving_stuck (enter s t at e) h g = ground arith
receiving_stuck (lock s t at e) h g = ground arith
receiving_stuck (start s t at no_override e) h g = ground arith
receiving_stuck (restart s t at overridden on e) h g = ground arith
receiving_stuck (receive s t at overridden gone e) h g = ground arith
receiving_stuck (fire s t on e) h g = ground arith
receiving_stuck (expire s t gone free e) h g = ground arith

Reach-receiving : {s t : Override} → Reach s t → s.caller ≡ receiving → s.timer ≡ fired → t ≡ s
Reach-receiving here at gone = refl
Reach-receiving (next r st) at gone =
    let same = Reach-receiving r at gone in
    absurd (receiving_stuck st (ap (λ u. u.caller) same ∙ at) (ap (λ u. u.timer) same ∙ gone))

-- While an override is active, a call of `overrideFlag` whose timer fires after the call took the
-- lock waits for ever with the lock held: from then on nothing moves any more, so that the override
-- is never taken away, and nobody else ever gets the lock.
pub overridden_deadlock :
    (s : Override)
    → s.caller ≡ outside
    → s.is_overridden ≡ true
    → s.timer ≡ running
    → (t : Override) × Reach s t
      × (is_locked t.caller ≡ true)
      × (t.is_overridden ≡ true)
      × ((u : Override) → Reach t u → u ≡ t)
overridden_deadlock s at overridden on =
    let called : Override = record s { caller = waiting } in
    let locked : Override = record s { caller = holding } in
    let expired : Override = record s { caller = holding; timer = fired } in
    let stuck : Override = record s { caller = receiving; timer = fired } in
    let one = next here (enter s called at refl) in
    let two = next one (lock called locked refl refl) in
    let three = next two (fire locked expired on refl) in
    let four = next three (receive expired stuck refl overridden refl refl) in
    (stuck, four, refl, overridden, λ u r. Reach-receiving r refl refl)
