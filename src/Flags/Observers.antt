-- ===== src/Flags/Observers.antt =====
-- ee/agent/flags/flag_controller.go: which observers are told of a change.
use mathlib.Core.Path.{subst}
use launcher.Base.{
  ℕ, ◌≡◌, refl, sym, Bool-cases, ◌≢◌, All, inl, inr, false, List, [], ◌∷◌, arith, Bytes, eq_iff,
  if◌then◌else◌, nat_eq, contains, ◌&&◌,
}
use launcher.Flags.{Calls, intersection, notify}

-- the keys that an observer has registered for
unfoldable pub observed_by : ℕ → List (ℕ × List Bytes) → List Bytes
observed_by o [] = []
observed_by o ((p, observed) ∷ observers) =
    let rest = observed_by o observers in if nat_eq p o then observed else rest

-- each observer stands in the list once
abbrev pub NoObserver : ℕ → List (ℕ × List Bytes) → Type 0
NoObserver o [] = Unit
NoObserver o ((p, observed) ∷ observers) = (nat_eq p o ≡ false) × NoObserver o observers

abbrev pub AreDistinct : List (ℕ × List Bytes) → Type 0
AreDistinct [] = Unit
AreDistinct ((o, observed) ∷ observers) = NoObserver o observers × AreDistinct observers

contains-intersection :
    (k : Bytes) (a b : List Bytes) → contains k (intersection a b) ≡ (contains k a && contains k b)
unfolding contains intersection
contains-intersection k a [] = ground arith
contains-intersection k a (j ∷ b) = ground (arith, contains-intersection k a b, eq_iff j k)

-- An observer that is told is told the keys that it observes.
told_none :
    (o : ℕ) (changed : List Bytes) (observers : List (ℕ × List Bytes))
    → NoObserver o observers
    → observed_by o (notify changed observers) ≡ []
unfolding notify observed_by
told_none o changed [] h = refl
told_none o changed ((p, observed) ∷ observers) h =
    elim (intersection observed changed)
      as (λ ks.
        observed_by o (elim ks [
          | [] ↦ notify changed observers
          | k ∷ ks ↦ (p, k ∷ ks) ∷ notify changed observers
        ])
        ≡ []) [
          | [] ↦ told_none o changed observers h.1
          | k ∷ ks ↦ rw h.0 (told_none o changed observers h.1)
        ]

intersection-nil : (b : List Bytes) → intersection [] b ≡ []
unfolding intersection contains
intersection-nil [] = refl
intersection-nil (k ∷ b) = intersection-nil b

-- a call with no key is not made
abbrev pub call_of : ℕ → List Bytes → Calls → Calls
call_of p [] rest = rest
call_of p (k ∷ ks) rest = (p, k ∷ ks) ∷ rest

notify-cons :
    (p : ℕ) (changed observed : List Bytes) (observers : List (ℕ × List Bytes))
    → notify changed ((p, observed) ∷ observers)
      ≡ call_of p (intersection observed changed) (notify changed observers)
unfolding notify
notify-cons p changed observed observers =
    elim (intersection observed changed)
      as (λ ks.
        (elim ks [
          | [] ↦ notify changed observers
          | k ∷ ks ↦ (p, k ∷ ks) ∷ notify changed observers
        ])
        ≡ call_of p ks (notify changed observers)) [ [] ↦ refl | k ∷ ks ↦ refl ]

observed_by-call_of :
    (o p : ℕ) (ks : List Bytes) (rest : Calls)
    → observed_by o (call_of p ks rest) ≡ (
        if nat_eq p o
        then (elim ks [ [] ↦ observed_by o rest | k ∷ ks ↦ k ∷ ks ])
        else observed_by o rest)
unfolding observed_by
observed_by-call_of o p [] rest = ground arith
observed_by-call_of o p (k ∷ ks) rest = refl

told :
    (o : ℕ) (changed : List Bytes) (observers : List (ℕ × List Bytes))
    → AreDistinct observers
    → observed_by o (notify changed observers) ≡ intersection (observed_by o observers) changed
unfolding notify observed_by
told o changed [] distinct = sym (intersection-nil changed)
told o changed ((p, observed) ∷ observers) distinct =
    rw
      (
        notify-cons p changed observed observers,
        observed_by-call_of o p (intersection observed changed) (notify changed observers),
      )
      (elim (Bool-cases (nat_eq p o)) [
        | inr other ↦ rw other (told o changed observers distinct.1)
        | inl same ↦
            let this : p ≡ o = ground (arith, same) in
            let absent : NoObserver o observers =
              subst (λ q. NoObserver q observers) this distinct.0 in
            let nothing : observed_by o (notify changed observers) ≡ [] =
              told_none o changed observers absent in
            rw same (
              call_lem (intersection observed changed) (observed_by o (notify changed observers))
                nothing)
      ])
  where
    call_lem :
        (ks rest : List Bytes)
        → rest ≡ []
        → ◌≡◌ {A = List Bytes} (elim ks [ [] ↦ rest | k ∷ ks ↦ k ∷ ks ]) ks
    call_lem [] rest h = h
    call_lem (k ∷ ks) rest h = refl

NoObserver-call_of :
    (o p : ℕ) (ks : List Bytes) (rest : Calls)
    → nat_eq p o ≡ false
    → NoObserver o rest
    → NoObserver o (call_of p ks rest)
NoObserver-call_of o p [] rest other h = h
NoObserver-call_of o p (k ∷ ks) rest other h = (other, h)

NoObserver-notify :
    (o : ℕ) (changed : List Bytes) (observers : List (ℕ × List Bytes))
    → NoObserver o observers
    → NoObserver o (notify changed observers)
unfolding notify
NoObserver-notify o changed [] h = tt
NoObserver-notify o changed ((p, observed) ∷ observers) h =
    rw (notify-cons p changed observed observers) (
      NoObserver-call_of o p (intersection observed changed) (notify changed observers) h.0
        (NoObserver-notify o changed observers h.1))

AreDistinct-notify :
    (changed : List Bytes) (observers : List (ℕ × List Bytes))
    → AreDistinct observers
    → AreDistinct (notify changed observers)
unfolding notify
AreDistinct-notify changed [] h = tt
AreDistinct-notify changed ((p, observed) ∷ observers) h =
    rw (notify-cons p changed observed observers)
      (called (intersection observed changed) (AreDistinct-notify changed observers h.1))
  where
    called :
        (ks : List Bytes)
        → AreDistinct (notify changed observers)
        → AreDistinct (call_of p ks (notify changed observers))
    called [] rest = rest
    called (k ∷ ks) rest = (NoObserver-notify p changed observers h.0, rest)

-- the call tells of some key
abbrev pub IsCall : ℕ × List Bytes → Type 0
IsCall (o, ks) = ks ≢ []

notify-IsCall :
    (changed : List Bytes) (observers : List (ℕ × List Bytes))
    → All IsCall (notify changed observers)
unfolding notify
notify-IsCall changed [] = tt
notify-IsCall changed ((p, observed) ∷ observers) =
    rw (notify-cons p changed observed observers)
      (called (intersection observed changed) (notify-IsCall changed observers))
  where
    called :
        (ks : List Bytes)
        → All IsCall (notify changed observers)
        → All IsCall (call_of p ks (notify changed observers))
    called [] rest = rest
    called (k ∷ ks) rest = (λ e. cc, rest)

-- A change calls each observer at most once, and only with some key; and what it tells an observer
-- are the keys that changed and that the observer has registered for.
pub notify_lem :
    (changed : List Bytes) (observers : List (ℕ × List Bytes))
    → AreDistinct observers
    → AreDistinct (notify changed observers)
      × All IsCall (notify changed observers)
      × ((o : ℕ) (k : Bytes)
          → contains k (observed_by o (notify changed observers))
            ≡ (contains k (observed_by o observers) && contains k changed))
notify_lem changed observers distinct = (
  AreDistinct-notify changed observers distinct,
  notify-IsCall changed observers,
  λ o k.
      rw (told o changed observers distinct)
        (contains-intersection k (observed_by o observers) changed),
)
