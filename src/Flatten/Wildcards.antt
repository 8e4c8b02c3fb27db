-- ===== src/Flatten/Wildcards.antt =====
-- ee/dataflatten/flatten.go: what a term of a query with wildcards matches.
use launcher.Base.{
  ℕ, ◌≡◌, refl, sym, ap, ◌∙◌, ◌↔◌, ◌⊎◌, ◌≢◌, inl, inr, Bool, true, false, [], ◌∷◌, ◌++◌, append-nil,
  arith, Bytes, ◌==◌, eq_sound, eq_iff, if◌then◌else◌, Bool-cases,
}
use launcher.Flatten.Texts.{cut_prefix, has_prefix, has_suffix, has_infix, trim_prefix, trim_suffix}
use launcher.Flatten.Query.{query_wildcard, query_match_string}
use launcher.Flatten.Affixes.{
  has_prefix_lem, trim_prefix-append, has_suffix_lem, trim_suffix-append, has_infix_lem,
}

-- a term that is open at the left or at the right
abbrev pub wild : Bool → Bytes
wild at_end = if at_end then query_wildcard else []

abbrev pub term : Bool → Bool → Bytes → Bytes
term left right core = wild left ++ core ++ wild right

-- what is left to test of a term
abbrev tested : Bool → Bool → Bytes → Bytes → Bool
tested true true core v = has_infix core v
tested true false core v = has_suffix core v
tested false true core v = has_prefix core v
tested false false core v = v == core

has_suffix-cons :
    (c d : ℕ) (s : Bytes)
    → has_suffix query_wildcard (c ∷ d ∷ s) ≡ has_suffix query_wildcard (d ∷ s)
unfolding has_suffix
has_suffix-cons c d s = ground arith

star_starts : (s : Bytes) → has_prefix query_wildcard (query_wildcard ++ s) ≡ true
star_starts s = (has_prefix_lem query_wildcard (query_wildcard ++ s)).1 (s, refl)

star_ends : (s : Bytes) → has_suffix query_wildcard (s ++ query_wildcard) ≡ true
star_ends s = (has_suffix_lem query_wildcard (s ++ query_wildcard)).1 (s, refl)

-- a term with a star on both sides is longer than a star
longer : (s : Bytes) → (query_wildcard ++ s ++ query_wildcard == query_wildcard) ≡ false
unfolding ◌==◌
longer [] = refl
longer (c ∷ s) = refl

ends_later :
    (c : ℕ) (s : Bytes)
    → has_suffix query_wildcard s ≡ false
    → s ≢ []
    → has_suffix query_wildcard (c ∷ s) ≡ false
ends_later c [] h full = absurd (full refl)
ends_later c (d ∷ s) h full = has_suffix-cons c d s ∙ h

-- the four cases of the test, for a term that is no single star
module _ (t v : Bytes) (long : (t == query_wildcard) ≡ false) where
  match_infix :
      has_prefix query_wildcard t ≡ true
      → has_suffix query_wildcard t ≡ true
      → query_match_string v t
        ≡ has_infix (trim_suffix query_wildcard (trim_prefix query_wildcard t)) v
  unfolding query_match_string
  match_infix starts ends = rw (long, starts, ends) refl

  match_suffix :
      has_prefix query_wildcard t ≡ true
      → has_suffix query_wildcard t ≡ false
      → query_match_string v t ≡ has_suffix (trim_prefix query_wildcard t) v
  unfolding query_match_string
  match_suffix starts ends = rw (long, starts, ends) refl

  match_prefix :
      has_prefix query_wildcard t ≡ false
      → has_suffix query_wildcard t ≡ true
      → query_match_string v t ≡ has_prefix (trim_suffix query_wildcard t) v
  unfolding query_match_string
  match_prefix starts ends = rw (long, starts, ends) refl

  match_whole :
      has_prefix query_wildcard t ≡ false
      → has_suffix query_wildcard t ≡ false
      → query_match_string v t ≡ (v == t)
  unfolding query_match_string
  match_whole starts ends = rw (long, starts, ends) refl

match_all : (v : Bytes) → query_match_string v query_wildcard ≡ true
unfolding query_match_string ◌==◌
match_all v = refl

no_star : (t : Bytes) → has_prefix query_wildcard t ≡ false → (t == query_wildcard) ≡ false
no_star t h = elim (Bool-cases (t == query_wildcard)) [
  | inl same ↦ absurd (
      true_ne_false (
        sym (ap (has_prefix query_wildcard) (eq_sound t query_wildcard same) ∙ star_starts []) ∙ h))
  | inr other ↦ other
]
  where
    true_ne_false : true ≢ false
    true_ne_false e = cc

not_alone : (c : ℕ) (s : Bytes) → s ≢ [] → (c ∷ s == query_wildcard) ≡ false
unfolding ◌==◌
not_alone c [] full = absurd (full refl)
not_alone c (d ∷ s) full = ground arith

starts_before :
    (c : ℕ) (s t : Bytes)
    → has_prefix query_wildcard (c ∷ s) ≡ false
    → has_prefix query_wildcard (c ∷ s ++ t) ≡ false
unfolding has_prefix cut_prefix
starts_before c s t h = ground (arith, h)

query_match_string-term :
    (left right : Bool) (core v : Bytes)
    → has_prefix query_wildcard core ≡ false
    → has_suffix query_wildcard core ≡ false
    → query_match_string v (term left right core) ≡ tested left right core v
query_match_string-term true true core v no_left no_right =
    match_infix (term true true core) v (longer core) (star_starts (core ++ query_wildcard))
      (star_ends (query_wildcard ++ core))
    ∙ ap (λ t. has_infix (trim_suffix query_wildcard t) v)
        (trim_prefix-append query_wildcard (core ++ query_wildcard))
    ∙ ap (λ t. has_infix t v) (trim_suffix-append core query_wildcard)
query_match_string-term true false [] v no_left no_right =
    match_all v ∙ sym ((has_suffix_lem [] v).1 (v, sym (append-nil v)))
query_match_string-term true false (c ∷ core) v no_left no_right =
    ap (λ s. query_match_string v (query_wildcard ++ s)) (append-nil (c ∷ core))
    ∙ match_suffix (query_wildcard ++ c ∷ core) v (not_alone b'*' (c ∷ core) (λ e. cc))
        (star_starts (c ∷ core)) (ends_later b'*' (c ∷ core) no_right (λ e. cc))
    ∙ ap (λ t. has_suffix t v) (trim_prefix-append query_wildcard (c ∷ core))
query_match_string-term false true [] v no_left no_right =
    match_all v ∙ sym ((has_prefix_lem [] v).1 (v, refl))
query_match_string-term false true (c ∷ core) v no_left no_right =
    match_prefix (term false true (c ∷ core)) v
      (no_star (c ∷ core ++ query_wildcard) (starts_before c core query_wildcard no_left))
      (starts_before c core query_wildcard no_left) (star_ends (c ∷ core))
    ∙ ap (λ t. has_prefix t v) (trim_suffix-append (c ∷ core) query_wildcard)
query_match_string-term false false core v no_left no_right =
    ap (query_match_string v) (append-nil core)
    ∙ match_whole core v (no_star core no_left) no_left no_right

without_end : (v s b : Bytes) → v ≡ s ++ b → (false ≡ true) ⊎ (b ≡ []) → v ≡ s
without_end v s b e (inl h) = absurd (ground (arith, h))
without_end v s b e (inr h) = e ∙ ap (λ t. s ++ t) h ∙ append-nil s

without_start : (v s a b : Bytes) → v ≡ a ++ s ++ b → (false ≡ true) ⊎ (a ≡ []) → v ≡ s ++ b
without_start v s a b e (inl h) = absurd (ground (arith, h))
without_start v s a b e (inr h) = e ∙ ap (λ t. t ++ s ++ b) h

-- A term is a core with no star at its ends, and a star at the left end, at the right end, at both
-- or at none. It matches exactly the texts that are the core with some text before it, which is
-- empty unless there is a star at the left, and some text behind it, which is empty unless there is
-- a star at the right.
pub query_match_string_lem :
    (left right : Bool) (core v : Bytes)
    → has_prefix query_wildcard core ≡ false
    → has_suffix query_wildcard core ≡ false
    → (query_match_string v (term left right core) ≡ true) ↔ (
        (a : Bytes) × (b : Bytes) × (v ≡ a ++ core ++ b)
        × ((left ≡ true) ⊎ (a ≡ []))
        × ((right ≡ true) ⊎ (b ≡ [])))
query_match_string_lem left right core v no_left no_right =
    rw (query_match_string-term left right core v no_left no_right) (meaning left right)
  where
    meaning :
        (left right : Bool)
        → (tested left right core v ≡ true) ↔ (
            (a : Bytes) × (b : Bytes) × (v ≡ a ++ core ++ b)
            × ((left ≡ true) ⊎ (a ≡ []))
            × ((right ≡ true) ⊎ (b ≡ [])))
    meaning true true = (
      λ h. let (a, b, e) = (has_infix_lem core v).0 h in (a, b, e, inl refl, inl refl),
      λ (a, b, e, _, _). (has_infix_lem core v).1 (a, b, e),
    )
    meaning true false = (
      λ h.
          let (a, e) = (has_suffix_lem core v).0 h in
          (a, [], e ∙ sym (append-nil (a ++ core)), inl refl, inr refl),
      λ (a, b, e, _, end). (has_suffix_lem core v).1 (a, without_end v (a ++ core) b e end),
    )
    meaning false true = (
      λ h. let (b, e) = (has_prefix_lem core v).0 h in ([], b, e, inr refl, inl refl),
      λ (a, b, e, start, _). (has_prefix_lem core v).1 (b, without_start v core a b e start),
    )
    meaning false false = (
      λ h. ([], [], eq_sound v core h ∙ sym (append-nil core), inr refl, inr refl),
      λ (a, b, e, start, end).
          (eq_iff v core).1 (without_end v core b (without_start v core a b e start) end),
    )
