-- ===== src/Dedup/Totals.antt =====
-- pkg/log/dedup/dedup_middleware.go: no record is lost, and none is counted twice.
use launcher.Base.{
  ℕ, zero, suc, ◌+◌, ◌-◌, ◌≡◌, refl, ap, true, false, not, ◌||◌, Option, none, some, List, [], ◌∷◌,
  ◌++◌, arith, Bytes, ◌==◌, eq_sound, ltb, leb, nat_eq, length, Bool-cases, ◌⊎◌, inl, inr, ◌≤◌,
}
use launcher.Base.Dict
use launcher.Base.Dict.{Dict, Distinct, Absent, delete-Absent, Distinct-delete, Distinct-insert}
use mathlib.Core.Path.{subst}
use launcher.Dedup.Entries.{IsSound, lookup-IsCounted, expire-IsSound}
use launcher.Dedup.{
  Attrs, LogRecord, LogEntry, Engine, Outcome, suppressed, passed, passed_again, see, handle_record,
  to_emit, expire, evict, shrink, sorted_items, perform_cleanup, hash_record_with_handler_attrs,
}

module _ {V N : Type 0} where
  -- the records that an entry stands for, besides the one that was passed on
  unfoldable pub held : Dict (LogEntry V N) → ℕ
  held [] = 0
  held ((hash, entry) ∷ cache) = (entry.count - 1) + held cache

  -- the records that summaries tell of, besides those that were passed on
  unfoldable pub summed_up : List (LogEntry V N) → ℕ
  summed_up [] = 0
  summed_up (entry ∷ entries) = (entry.count - 1) + summed_up entries

-- the records that an outcome tells of: a count tells of one that was passed on before
abbrev pub told : Outcome → ℕ
told suppressed = 0
told passed = 1
told (passed_again count first_seen last_seen) = count - 1

module _ {V N : Type 0} where
  summed_up-append :
      (xs ys : List (LogEntry V N)) → summed_up (xs ++ ys) ≡ summed_up xs + summed_up ys
  unfolding summed_up
  summed_up-append [] ys = omega arith
  summed_up-append (x ∷ xs) ys = omega (arith, summed_up-append xs ys)

  summed_up-to_emit : (entry : LogEntry V N) → summed_up (to_emit entry) ≡ entry.count - 1
  unfolding summed_up to_emit
  summed_up-to_emit entry = ground arith

  expire-held :
      (expiry now : ℕ) (cache : Dict (LogEntry V N))
      → let (kept, emitted) = expire expiry now cache in held kept + summed_up emitted ≡ held cache
  unfolding expire held summed_up
  expire-held expiry now [] = refl
  expire-held expiry now ((hash, entry) ∷ cache) =
      elim (Bool-cases (leb (now - entry.last_seen) expiry)) [
        | inl young ↦ rw young (omega (arith, expire-held expiry now cache))
        | inr old ↦
            rw
              (
                old,
                summed_up-append (to_emit entry) (expire expiry now cache).1,
                summed_up-to_emit entry,
              )
              (omega (arith, expire-held expiry now cache))
      ]

  entry_there :
      (hash at : Bytes) (e entry : LogEntry V N) (cache : Dict (LogEntry V N))
      → Dict.lookup hash ((at, e) ∷ cache) ≡ some entry
      → ((at == hash ≡ true) × (e ≡ entry))
        ⊎ ((at == hash ≡ false) × (Dict.lookup hash cache ≡ some entry))
  unfolding Dict.lookup
  entry_there hash at e entry cache h = elim (Bool-cases (at == hash)) [
    | inl same ↦ inl (same, ground (arith, h, same))
    | inr other ↦ inr (other, ground (arith, h, other))
  ]

  abbrev count_of : Option (LogEntry V N) → ℕ
  count_of none = 0
  count_of (some entry) = entry.count - 1

  held-delete :
      (hash : Bytes) (entry : LogEntry V N) (cache : Dict (LogEntry V N))
      → Distinct (Dict.keys cache)
      → Dict.lookup hash cache ≡ some entry
      → held (Dict.delete hash cache) + (entry.count - 1) ≡ held cache
  unfolding held Dict.lookup Dict.delete
  held-delete hash entry [] distinct h = absurd (ground (arith, h))
  held-delete hash entry ((at, e) ∷ cache) distinct h = elim (entry_there hash at e entry cache h) [
    | inl (same, found) ↦
        let this : at ≡ hash = eq_sound at hash same in
        let gone : Dict.delete hash cache ≡ cache =
          delete-Absent hash cache (subst (λ k. Absent k (Dict.keys cache)) this distinct.0) in
        rw (same, gone) (omega (arith, ap (λ x. x.count) found))
    | inr (other, found) ↦ rw other (omega (arith, held-delete hash entry cache distinct.1 found))
  ]

  held-insert :
      (hash : Bytes) (entry : LogEntry V N) (cache : Dict (LogEntry V N))
      → Distinct (Dict.keys cache)
      → held (Dict.insert hash entry cache) + count_of (Dict.lookup hash cache)
        ≡ held cache + (entry.count - 1)
  unfolding held Dict.lookup Dict.insert
  held-insert hash entry [] distinct = omega arith
  held-insert hash entry ((at, e) ∷ cache) distinct = elim (Bool-cases (at == hash)) [
    | inl same ↦ rw same (omega arith)
    | inr other ↦ rw other (omega (arith, held-insert hash entry cache distinct.1))
  ]

  held-evict :
      (n : ℕ) (items : List (Bytes × ℕ)) (cache : Dict (LogEntry V N))
      → Distinct (Dict.keys cache)
      → let (kept, emitted) = evict n items cache in held kept + summed_up emitted ≡ held cache
  unfolding evict summed_up
  held-evict zero items cache distinct = omega arith
  held-evict (suc n) [] cache distinct = omega arith
  held-evict (suc n) ((hash, seen) ∷ items) cache distinct =
      go (Dict.lookup hash cache) refl (held-evict n items)
    where
      go :
          (o : Option (LogEntry V N))
          → Dict.lookup hash cache ≡ o
          → ((c : Dict (LogEntry V N))
              → Distinct (Dict.keys c)
              → held (evict n items c).0 + summed_up (evict n items c).1 ≡ held c)
          → let step : Dict (LogEntry V N) × List (LogEntry V N) = elim o [
            | none ↦ evict n items cache
            | some entry ↦
                let (kept, emitted) = evict n items (Dict.delete hash cache) in
                (kept, to_emit entry ++ emitted)
          ] in
            held step.0 + summed_up step.1 ≡ held cache
      go none e rest = rest cache distinct
      go (some entry) e rest =
          rw
            (
              summed_up-append (to_emit entry) (evict n items (Dict.delete hash cache)).1,
              summed_up-to_emit entry,
            )
            (omega (
              arith,
              rest (Dict.delete hash cache) (Distinct-delete hash cache distinct),
              held-delete hash entry cache distinct e,
            ))

  shrink-held :
      (size : ℕ) (cache : Dict (LogEntry V N))
      → Distinct (Dict.keys cache)
      → let (kept, emitted) = shrink size cache in held kept + summed_up emitted ≡ held cache
  unfolding shrink summed_up
  shrink-held size cache distinct = elim (Bool-cases (ltb size (length cache))) [
    | inl full ↦ rw full (held-evict (length cache - size) (sorted_items cache) cache distinct)
    | inr fits ↦ rw fits (omega arith)
  ]

  pub perform_cleanup-held :
      (now : ℕ) (d : Engine V N)
      → IsSound d.cache
      → let (emitted, d') = perform_cleanup now d in
        held d'.cache + summed_up emitted ≡ held d.cache
  unfolding perform_cleanup summed_up
  perform_cleanup-held now d h = elim (Bool-cases d.cleanup_running) [
    | inl busy ↦ rw busy (omega arith)
    | inr idle ↦
        let (kept, expired) = expire d.cache_expiry now d.cache in
        let first = expire-held d.cache_expiry now d.cache in
        let second =
          shrink-held d.max_cache_size kept
            (expire-IsSound d.cache_expiry now d.cache h).distinct in
        rw (idle, summed_up-append expired (shrink d.max_cache_size kept).1)
          (omega (arith, first, second))
  ]

  see-told :
      (window now : ℕ) (log : LogRecord V) (next : N) (o : Option (LogEntry V N))
      → ((entry : LogEntry V N) → o ≡ some entry → 1 ≤ entry.count)
      → let (outcome, entry) = see window now log next o in
        told outcome + (entry.count - 1) ≡ suc (count_of o)
  unfolding see
  see-told window now log next none h = omega arith
  see-told window now log next (some entry) h = ground (arith, h entry refl)

  pub handle_record-held :
      (digest : Attrs V → Bytes) (now : ℕ) (log : LogRecord V) (handler_attrs : Attrs V) (next : N)
      (d : Engine V N)
      → IsSound d.cache
      → let (outcome, d') = handle_record digest now log handler_attrs next d in
        told outcome + held d'.cache ≡ suc (held d.cache)
  unfolding handle_record
  handle_record-held digest now log handler_attrs next d h =
      let hash = hash_record_with_handler_attrs digest log handler_attrs in
      let o = Dict.lookup hash d.cache in
      let (outcome, entry) = see d.duplicate_log_window now log next o in
      elim (Bool-cases (not d.started || nat_eq d.duplicate_log_window 0)) [
        | inl off ↦ rw off (omega arith)
        | inr on ↦ rw on (
            omega (
              arith,
              see-told d.duplicate_log_window now log next o
                  (λ e. lookup-IsCounted hash e d.cache h.counted),
              held-insert hash entry d.cache h.distinct,
            ))
      ]
