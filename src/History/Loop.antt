-- ===== src/History/Loop.antt =====
-- pkg/osquery/runtime/history/history.go: the loop that `SetConnected` and
-- `SetExited` share, for any step.
use mathlib.Core.Path.{subst}
use launcher.Base.{
  ◌≡◌, refl, sym, ◌⊎◌, inl, inr, Bool, true, false, none, some, List, [], ◌∷◌, arith, Bytes, ◌==◌,
  contains, map, Result, ok, err, Bool-cases,
}
use launcher.History.{Instance, Step, Marked, HistoryError, after_step, mark_first, mark_loop}

-- The two lists are as long as each other, and `R` holds of the entries at each place.
pub data Pointwise (R : Instance → Instance → Type 0) : List Instance → List Instance → Type 0 where
  nil : Pointwise R [] []
  cons :
      {i j : Instance} {is js : List Instance}
      → R i j
      → Pointwise R is js
      → Pointwise R (i ∷ is) (j ∷ js)

-- `R` changed the instances of the run, and nothing else changed.
abbrev pub Of : (Instance → Instance → Type 0) → Bytes → Instance → Instance → Type 0
Of R run i j = ((i.run_id == run) ≡ true → R i j) × ((i.run_id == run) ≡ false → j ≡ i)

-- Each instance is as it was, or `R` changed it and it is of the run.
abbrev pub Partly : (Instance → Instance → Type 0) → Bytes → Instance → Instance → Type 0
Partly R run i j = (j ≡ i) ⊎ (((i.run_id == run) ≡ true) × R i j)

abbrev pub runs : List Instance → List Bytes
runs = map (λ i. i.run_id)

-- `At` holds of the worlds that the loop comes through.
module _ {W : Type 0} (step : Step W) (At : W → Type 0) (R : Instance → Instance → Type 0)
    (step-At : (i : Instance) (w : W) → At w → At (step i w).1)
    (step_lem : (i j : Instance) (w : W) → At w → (step i w).0 ≡ ok j → R i j) where
  -- what a loop leaves of the instances `is`
  abbrev pub Loop : Bytes → List Instance → Marked W → Type 0
  Loop run is (e, found, js, w) =
      Pointwise (Partly R run) is js
      × (e ≡ none → Pointwise (Of R run) is js)
      × (e ≡ none → found ≡ contains run (runs is))
      × At w

  after_step_lem :
      (run : Bytes) (i : Instance) (is js : List Instance) (r : Result HistoryError Instance × W)
      → (i.run_id == run) ≡ true
      → Pointwise (Partly R run) is js
      → Pointwise (Of R run) is js
      → ((j : Instance) → r.0 ≡ ok j → R i j)
      → At r.1
      → Loop run (i ∷ is) (after_step i js r)
  unfolding after_step contains
  after_step_lem run i is js (err e, w) same partly all sound now = (
    cons (inl refl) partly,
    λ h. absurd (ground (arith, h)),
    λ h. absurd (ground (arith, h)),
    now,
  )
  after_step_lem run i is js (ok j, w) same partly all sound now = (
    cons (inr (same, sound j refl)) partly,
    λ h. cons (λ s. sound j refl, λ o. absurd (cc (same, o))) all,
    λ h. rw same refl,
    now,
  )

  mark_first-same :
      (run : Bytes) (i : Instance) (js : List Instance) (found : Bool) (w : W)
      → (i.run_id == run) ≡ true
      → mark_first step run i (none, found, js, w) ≡ after_step i js (step i w)
  unfolding mark_first
  mark_first-same run i js found w same = rw same refl

  mark_first_lem :
      (run : Bytes) (i : Instance) (is : List Instance) (m : Marked W)
      → Loop run is m
      → Loop run (i ∷ is) (mark_first step run i m)
  unfolding mark_first contains
  mark_first_lem run i is (some e, found, js, w) (partly, all, met, now) = (
    cons (inl refl) partly,
    λ h. absurd (ground (arith, h)),
    λ h. absurd (ground (arith, h)),
    now,
  )
  mark_first_lem run i is (none, found, js, w) (partly, all, met, now) =
      elim (Bool-cases (i.run_id == run)) [
        | inr other ↦
            rw (other, mark_first)
              (
                cons (inl refl) partly,
                λ h. cons (λ same. absurd (ground (arith, same, other)), λ o. refl) (all refl),
                λ h. met refl,
                now,
              )
        | inl same ↦ subst (Loop run (i ∷ is)) (sym (mark_first-same run i js found w same)) (
            after_step_lem run i is js (step i w) same partly (all refl) (λ j. step_lem i j w now)
              (step-At i w now))
      ]

  pub mark_loop_lem :
      (run : Bytes) (is : List Instance) (w : W) → At w → Loop run is (mark_loop step run is w)
  unfolding mark_loop contains
  mark_loop_lem run [] w now = (nil, λ h. nil, λ h. refl, now)
  mark_loop_lem run (i ∷ is) w now =
      mark_first_lem run i is (mark_loop step run is w) (mark_loop_lem run is w now)

module _ {W : Type 0} where
  -- With no instance of the run a loop does nothing.
  pub mark_loop-none :
      (step : Step W) (run : Bytes) (is : List Instance) (w : W)
      → contains run (runs is) ≡ false
      → mark_loop step run is w ≡ (none, false, is, w)
  unfolding mark_loop mark_first contains
  mark_loop-none step run [] w missing = refl
  mark_loop-none step run (i ∷ is) w missing =
      let rest : contains run (runs is) ≡ false = ground (arith, missing) in
      let other : (i.run_id == run) ≡ false = ground (arith, missing) in
      rw (mark_loop-none step run is w rest, mark_first, other) refl
