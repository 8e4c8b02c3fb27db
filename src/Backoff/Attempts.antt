-- ===== src/Backoff/Attempts.antt =====
-- pkg/backoff/backoff.go: how many attempts are made, and what comes of them.
use launcher.Base.{
  ℕ, zero, suc, ◌+◌, ◌-◌, ◌≡◌, ◌≢◌, refl, sym, ◌∙◌, ◌⊎◌, inl, inr, ◌≤◌, ◌<◌, max, true, false,
  Option, none, some, arith, leb, if◌then◌else◌, Bool-cases,
}
use launcher.Backoff.{Backoff, Tried, succeeded, done_trying, try_run, run}

module _ {E : Type 0} where
  some-none : (e : E) → some e ≢ none
  some-none e h = cc

  -- the first calls fail
  abbrev pub FailFirst : ℕ → (ℕ → Option E) → Type 0
  FailFirst zero outcome = Unit
  FailFirst (suc n) outcome = (outcome 0 ≢ none) × FailFirst n (λ i. outcome (suc i))

  -- after `n` failures, the last attempt succeeds, or it fails and was the last that is allowed
  abbrev pub Attempted : (ℕ → Option E) → Backoff → Tried E × Backoff → Type 0
  Attempted outcome b (tried, b') =
      (n : ℕ) × (b'.count ≡ b.count + suc n)
      × (b'.max_attempt ≡ b.max_attempt)
      × (suc n ≤ max 1 (b.max_attempt - b.count))
      × FailFirst n outcome
      × (((tried ≡ succeeded) × (outcome n ≡ none))
          ⊎ ((e : E) × (tried ≡ done_trying e)
              × (outcome n ≡ some e)
              × (suc n ≡ max 1 (b.max_attempt - b.count))))

  try_run-Attempted :
      (fuel : ℕ) (outcome : ℕ → Option E) (b : Backoff)
      → b.max_attempt - b.count < fuel
      → Attempted outcome b (try_run fuel outcome b)
  unfolding try_run
  try_run-Attempted zero outcome b enough = absurd (omega (arith, enough))
  try_run-Attempted (suc fuel) outcome b enough =
      go (outcome 0) refl (Bool-cases (leb b.max_attempt (suc b.count)))
        (try_run-Attempted fuel (λ i. outcome (suc i)) (record b { count = suc b.count }))
    where
      b' : Backoff
      b' = record b { count = suc b.count }

      go :
          (o : Option E)
          → outcome 0 ≡ o
          → (leb b.max_attempt (suc b.count) ≡ true) ⊎ (leb b.max_attempt (suc b.count) ≡ false)
          → (b.max_attempt - suc b.count < fuel
              → Attempted (λ i. outcome (suc i)) b' (try_run fuel (λ i. outcome (suc i)) b'))
          → Attempted outcome b (elim o [
            | none ↦ (succeeded, b')
            | some e ↦
                if leb b.max_attempt (suc b.count)
                then (done_trying e, b')
                else try_run fuel (λ i. outcome (suc i)) b'
          ])
      go none at test again = (0, omega arith, refl, omega arith, tt, inl (refl, at))
      go (some e) at (inl last) again =
          rw last (0, omega arith, refl, omega arith, tt, inr (e, refl, at, ground (arith, last)))
      go (some e) at (inr more) again =
          let over : suc b.count < b.max_attempt = ground (arith, more) in
          let (n, count, same, few, failed, end) = again (omega (arith, enough, over)) in
          rw more (
            suc n,
            omega (arith, count),
            same,
            omega (arith, few, over),
            (λ f. some-none e (sym at ∙ f), failed),
            elim end [
              | inl success ↦ inl success
              | inr (x, tried, last, all) ↦ inr (x, tried, last, omega (arith, all, over))
            ],
          )

  -- `Run` returns. It makes attempts until one succeeds, and then it returns nil; or until as many
  -- attempts have failed as are left, at least one, and then it returns the error of the last. The
  -- attempts of earlier calls of `Run` count too.
  pub attempts_lem : (outcome : ℕ → Option E) (b : Backoff) → Attempted outcome b (run outcome b)
  unfolding run
  attempts_lem outcome b = try_run-Attempted (suc b.max_attempt) outcome b (omega arith)
