-- ===== src/Flatten/Affixes.antt =====
-- What ee/dataflatten/flatten.go uses of the package strings: what the tests for a prefix, a suffix and
-- a text within a text mean.
use launcher.Base.{
  ℕ, zero, suc, ◌-◌, ◌≡◌, refl, sym, ap, ◌∙◌, ◌↔◌, inl, inr, true, false, Option, none, some, [],
  ◌∷◌, ◌++◌, arith, Bytes, eq_refl, eq_sound, length, drop, length-append, Bool-cases,
}
use launcher.Flatten.Texts.{
  cut_prefix, has_prefix, has_suffix, has_infix, trim_prefix, trim_suffix, take_bytes,
}

cut_prefix-append : (p r : Bytes) → cut_prefix p (p ++ r) ≡ some r
unfolding cut_prefix
cut_prefix-append [] r = refl
cut_prefix-append (c ∷ p) r = ground (arith, cut_prefix-append p r)

cut_prefix_sound : (p s r : Bytes) → cut_prefix p s ≡ some r → s ≡ p ++ r
unfolding cut_prefix
cut_prefix_sound [] s r h = ground (arith, h)
cut_prefix_sound (c ∷ p) [] r h = cc
cut_prefix_sound (c ∷ p) (d ∷ s) r h = ground (arith, h, cut_prefix_sound p s r)

pub has_prefix_lem : (p s : Bytes) → (has_prefix p s ≡ true) ↔ ((r : Bytes) × (s ≡ p ++ r))
unfolding has_prefix
has_prefix_lem p s = (there (cut_prefix p s) refl, λ h. back h)
  where
    there :
        (o : Option Bytes)
        → cut_prefix p s ≡ o
        → (elim o [ none ↦ false | some rest ↦ true ]) ≡ true
        → (r : Bytes) × (s ≡ p ++ r)
    there none e h = absurd (ground (arith, h))
    there (some r) e h = (r, cut_prefix_sound p s r e)

    back :
        (r : Bytes) × (s ≡ p ++ r)
        → (elim (cut_prefix p s) [ none ↦ false | some rest ↦ true ]) ≡ true
    back (r, e) = rw (e, cut_prefix-append p r) refl

pub trim_prefix-append : (p r : Bytes) → trim_prefix p (p ++ r) ≡ r
unfolding trim_prefix
trim_prefix-append p r = rw (cut_prefix-append p r) refl

take_bytes-drop : (n : ℕ) (s : Bytes) → take_bytes n s ++ drop n s ≡ s
take_bytes-drop zero s = refl
take_bytes-drop (suc n) [] = refl
take_bytes-drop (suc n) (c ∷ s) = ap (λ t. c ∷ t) (take_bytes-drop n s)

take_bytes-append : (s t : Bytes) → take_bytes (length s) (s ++ t) ≡ s
take_bytes-append [] t = refl
take_bytes-append (c ∷ s) t = ap (λ u. c ∷ u) (take_bytes-append s t)

drop-length : (s t : Bytes) → drop (length s) (s ++ t) ≡ t
drop-length [] t = refl
drop-length (c ∷ s) t = drop-length s t

-- where a suffix begins
before : (s p : Bytes) → length (s ++ p) - length p ≡ length s
before s p = omega (arith, length-append s p)

pub has_suffix_lem : (p s : Bytes) → (has_suffix p s ≡ true) ↔ ((r : Bytes) × (s ≡ r ++ p))
unfolding has_suffix
has_suffix_lem p s = (
  λ h. (
    take_bytes (length s - length p) s,
    sym (take_bytes-drop (length s - length p) s)
        ∙ ap (λ t. take_bytes (length s - length p) s ++ t)
            (eq_sound (drop (length s - length p) s) p (ground (arith, h))),
  ),
  λ (r, e). rw (e, before r p, drop-length r p, eq_refl p) (ground (arith, length-append r p)),
)

pub trim_suffix-append : (r p : Bytes) → trim_suffix p (r ++ p) ≡ r
unfolding trim_suffix
trim_suffix-append r p =
    rw ((has_suffix_lem p (r ++ p)).1 (r, refl), before r p) (take_bytes-append r p)

pub has_infix_lem :
    (w s : Bytes) → (has_infix w s ≡ true) ↔ ((a : Bytes) × (b : Bytes) × (s ≡ a ++ w ++ b))
unfolding has_infix
has_infix_lem w s = (there s, λ (a, b, e). rw e (back a b))
  where
    there : (s : Bytes) → has_infix w s ≡ true → (a : Bytes) × (b : Bytes) × (s ≡ a ++ w ++ b)
    there [] h = let (b, e) = (has_prefix_lem w []).0 h in ([], b, e)
    there (c ∷ s) h = elim (Bool-cases (has_prefix w (c ∷ s))) [
      | inl first ↦ let (b, e) = (has_prefix_lem w (c ∷ s)).0 first in ([], b, e)
      | inr later ↦
          let (a, b, e) = there s (ground (arith, h, later)) in (c ∷ a, b, ap (λ t. c ∷ t) e)
    ]

    back : (a b : Bytes) → has_infix w (a ++ w ++ b) ≡ true
    back [] b = first (w ++ b) ((has_prefix_lem w (w ++ b)).1 (b, refl))
      where
        first : (s : Bytes) → has_prefix w s ≡ true → has_infix w s ≡ true
        first [] h = h
        first (c ∷ s) h = ground (arith, h)
    back (c ∷ a) b = ground (arith, back a b)
