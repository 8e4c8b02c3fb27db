-- ===== src/Dedup/Entries.antt =====
-- pkg/log/dedup/dedup_middleware.go: what always holds of the cache.
use launcher.Base.{
  ℕ, zero, suc, ◌-◌, ◌≡◌, not, ◌||◌, Option, none, some, List, [], ◌∷◌, ◌++◌, arith, Bytes, ltb,
  nat_eq, length, Bool-cases, inl, inr, ◌≤◌, All,
}
use launcher.Base.Dict
use launcher.Base.Dict.{Dict, Distinct, Absent, Distinct-delete, Distinct-insert}
use launcher.Dedup.{
  Attrs, LogRecord, LogEntry, Engine, see, handle_record, to_emit, expire, evict, shrink,
  sorted_items, perform_cleanup, hash_record_with_handler_attrs,
}

module _ {V N : Type 0} where
  -- an entry stands for some record
  abbrev pub IsCounted : Bytes × LogEntry V N → Type 0
  IsCounted (hash, entry) = 1 ≤ entry.count

  pub record IsSound (cache : Dict (LogEntry V N)) : Type 0 where
    pub distinct : Distinct (Dict.keys cache)
    pub counted : All IsCounted cache

  IsCounted-delete :
      (hash : Bytes) (cache : Dict (LogEntry V N))
      → All IsCounted cache
      → All IsCounted (Dict.delete hash cache)
  unfolding Dict.delete
  IsCounted-delete hash [] h = tt
  IsCounted-delete hash ((at, e) ∷ cache) h = ground (arith, h.0, IsCounted-delete hash cache h.1)

  IsCounted-insert :
      (hash : Bytes) (entry : LogEntry V N) (cache : Dict (LogEntry V N))
      → 1 ≤ entry.count
      → All IsCounted cache
      → All IsCounted (Dict.insert hash entry cache)
  unfolding Dict.insert
  IsCounted-insert hash entry [] one h = (one, tt)
  IsCounted-insert hash entry ((at, e) ∷ cache) one h =
      ground (arith, one, h.0, h.1, IsCounted-insert hash entry cache one h.1)

  pub lookup-IsCounted :
      (hash : Bytes) (entry : LogEntry V N) (cache : Dict (LogEntry V N))
      → All IsCounted cache
      → Dict.lookup hash cache ≡ some entry
      → 1 ≤ entry.count
  unfolding Dict.lookup
  lookup-IsCounted hash entry [] h e = absurd (ground (arith, e))
  lookup-IsCounted hash entry ((at, x) ∷ cache) h e =
      ground (arith, h.0, e, lookup-IsCounted hash entry cache h.1)

  delete-IsSound :
      (hash : Bytes) (cache : Dict (LogEntry V N))
      → IsSound cache
      → IsSound (Dict.delete hash cache)
  delete-IsSound hash cache h = record {
    distinct = Distinct-delete hash cache h.distinct;
    counted = IsCounted-delete hash cache h.counted;
  }

  insert-IsSound :
      (hash : Bytes) (entry : LogEntry V N) (cache : Dict (LogEntry V N))
      → 1 ≤ entry.count
      → IsSound cache
      → IsSound (Dict.insert hash entry cache)
  insert-IsSound hash entry cache one h = record {
    distinct = Distinct-insert hash entry cache h.distinct;
    counted = IsCounted-insert hash entry cache one h.counted;
  }

  Absent-expire :
      (hash : Bytes) (expiry now : ℕ) (cache : Dict (LogEntry V N))
      → Absent hash (Dict.keys cache)
      → Absent hash (Dict.keys (expire expiry now cache).0)
  unfolding expire
  Absent-expire hash expiry now [] h = tt
  Absent-expire hash expiry now ((at, e) ∷ cache) h =
      ground (arith, h.0, Absent-expire hash expiry now cache h.1)

  Distinct-expire :
      (expiry now : ℕ) (cache : Dict (LogEntry V N))
      → Distinct (Dict.keys cache)
      → Distinct (Dict.keys (expire expiry now cache).0)
  unfolding expire
  Distinct-expire expiry now [] h = tt
  Distinct-expire expiry now ((at, e) ∷ cache) h =
      ground (arith, Absent-expire at expiry now cache h.0, Distinct-expire expiry now cache h.1)

  IsCounted-expire :
      (expiry now : ℕ) (cache : Dict (LogEntry V N))
      → All IsCounted cache
      → All IsCounted (expire expiry now cache).0
  unfolding expire
  IsCounted-expire expiry now [] h = tt
  IsCounted-expire expiry now ((at, e) ∷ cache) h =
      ground (arith, h.0, IsCounted-expire expiry now cache h.1)

  pub expire-IsSound :
      (expiry now : ℕ) (cache : Dict (LogEntry V N))
      → IsSound cache
      → IsSound (expire expiry now cache).0
  expire-IsSound expiry now cache h = record {
    distinct = Distinct-expire expiry now cache h.distinct;
    counted = IsCounted-expire expiry now cache h.counted;
  }

  evict-IsSound :
      (n : ℕ) (items : List (Bytes × ℕ)) (cache : Dict (LogEntry V N))
      → IsSound cache
      → IsSound (evict n items cache).0
  unfolding evict
  evict-IsSound zero items cache h = h
  evict-IsSound (suc n) [] cache h = h
  evict-IsSound (suc n) ((hash, seen) ∷ items) cache h =
      elim (Dict.lookup hash cache)
        as (λ o.
          IsSound
            (elim o as (λ o. Dict (LogEntry V N) × List (LogEntry V N)) [
              | none ↦ evict n items cache
              | some entry ↦
                  let (kept, emitted) = evict n items (Dict.delete hash cache) in
                  (kept, to_emit entry ++ emitted)
            ]).0) [
              | none ↦ evict-IsSound n items cache h
              | some entry ↦
                  evict-IsSound n items (Dict.delete hash cache) (delete-IsSound hash cache h)
            ]

  shrink-IsSound :
      (size : ℕ) (cache : Dict (LogEntry V N)) → IsSound cache → IsSound (shrink size cache).0
  unfolding shrink
  shrink-IsSound size cache h = elim (Bool-cases (ltb size (length cache))) [
    | inl full ↦ rw full (evict-IsSound (length cache - size) (sorted_items cache) cache h)
    | inr fits ↦ rw fits h
  ]

  see-IsCounted :
      (window now : ℕ) (log : LogRecord V) (next : N) (o : Option (LogEntry V N))
      → 1 ≤ (see window now log next o).1.count
  unfolding see
  see-IsCounted window now log next none = omega arith
  see-IsCounted window now log next (some entry) = ground arith

  pub handle_record-IsSound :
      (digest : Attrs V → Bytes) (now : ℕ) (log : LogRecord V) (handler_attrs : Attrs V) (next : N)
      (d : Engine V N)
      → IsSound d.cache
      → IsSound (handle_record digest now log handler_attrs next d).1.cache
  unfolding handle_record
  handle_record-IsSound digest now log handler_attrs next d h =
      let hash = hash_record_with_handler_attrs digest log handler_attrs in
      elim (Bool-cases (not d.started || nat_eq d.duplicate_log_window 0)) [
        | inl off ↦ rw off h
        | inr on ↦ rw on (
            insert-IsSound hash
              (see d.duplicate_log_window now log next (Dict.lookup hash d.cache)).1 d.cache
              (see-IsCounted d.duplicate_log_window now log next (Dict.lookup hash d.cache)) h)
      ]

  pub perform_cleanup-IsSound :
      (now : ℕ) (d : Engine V N) → IsSound d.cache → IsSound (perform_cleanup now d).1.cache
  unfolding perform_cleanup
  perform_cleanup-IsSound now d h = elim (Bool-cases d.cleanup_running) [
    | inl busy ↦ rw busy h
    | inr idle ↦ rw idle (
        shrink-IsSound d.max_cache_size (expire d.cache_expiry now d.cache).0
          (expire-IsSound d.cache_expiry now d.cache h))
  ]
