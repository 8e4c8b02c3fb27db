-- ===== src/Dedup/Cleanup.antt =====
-- pkg/log/dedup/dedup_middleware.go: the size of the cache behind `performCleanup`.
use launcher.Base.{
  ℕ, zero, suc, ◌+◌, ◌-◌, ◌≡◌, refl, sym, ap, ◌∙◌, true, false, none, some, List, [], ◌∷◌, ◌++◌,
  arith, Bytes, ◌==◌, eq_refl, ◌≢◌, eq_sound, if◌then◌else◌, ltb, leb, length, Bool-cases, ltb→lt,
  ltb_false→le, ◌⊎◌, inl, inr, ◌≤◌, min, All,
}
use mathlib.Core.Path.{subst}
use launcher.Base.Dict
use launcher.Base.Dict.{
  Dict, Distinct, Absent, Distinct-delete, delete-Absent, lookup-Absent, Absent-delete,
}
use launcher.Dedup.{
  to_emit, LogEntry, Engine, expire, evict, shrink, place_item, sorted_items, perform_cleanup,
}
use launcher.Dedup.Entries.{IsSound, expire-IsSound}

module _ {V N : Type 0} where
  -- each item is a key of the cache, each once, and none is left out
  abbrev IsListed : List (Bytes × ℕ) → Dict (LogEntry V N) → Type 0
  IsListed [] cache = cache ≡ []
  IsListed ((hash, seen) ∷ items) cache =
      ((entry : LogEntry V N) × (Dict.lookup hash cache ≡ some entry) × (entry.last_seen ≡ seen))
      × IsListed items (Dict.delete hash cache)

  length-delete :
      (hash : Bytes) (entry : LogEntry V N) (cache : Dict (LogEntry V N))
      → Distinct (Dict.keys cache)
      → Dict.lookup hash cache ≡ some entry
      → suc (length (Dict.delete hash cache)) ≡ length cache
  unfolding Dict.lookup Dict.delete
  length-delete hash entry [] distinct h = absurd (ground (arith, h))
  length-delete hash entry ((at, e) ∷ cache) distinct h = elim (Bool-cases (at == hash)) [
    | inl same ↦
        let gone : Dict.delete hash cache ≡ cache =
          delete-Absent hash cache
            (subst (λ k. Absent k (Dict.keys cache)) (eq_sound at hash same) distinct.0) in
        rw (same, gone) refl
    | inr other ↦
        rw other
          (ap (λ n. suc n) (length-delete hash entry cache distinct.1 (ground (arith, h, other))))
  ]

  evict-some :
      (n seen : ℕ) (hash : Bytes) (items : List (Bytes × ℕ)) (entry : LogEntry V N)
      (cache : Dict (LogEntry V N))
      → Dict.lookup hash cache ≡ some entry
      → (evict (suc n) ((hash, seen) ∷ items) cache).0 ≡ (evict n items (Dict.delete hash cache)).0
  unfolding evict
  evict-some n seen hash items entry cache e = rw (evict, e) refl

  length-evict :
      (n : ℕ) (items : List (Bytes × ℕ)) (cache : Dict (LogEntry V N))
      → Distinct (Dict.keys cache)
      → IsListed items cache
      → n ≤ length cache
      → length (evict n items cache).0 + n ≡ length cache
  unfolding evict
  length-evict zero items cache distinct listed h = omega arith
  length-evict (suc n) [] cache distinct listed h = absurd (omega (arith, h, ap length listed))
  length-evict (suc n) ((hash, seen) ∷ items) cache distinct ((entry, e, last), listed) h =
      let shorter = length-delete hash entry cache distinct e in
      let rest =
        length-evict n items (Dict.delete hash cache) (Distinct-delete hash cache distinct) listed
          (omega (arith, h, shorter)) in
      omega (arith, shorter, rest, ap length (evict-some n seen hash items entry cache e))

  delete-first :
      (hash : Bytes) (entry : LogEntry V N) (cache : Dict (LogEntry V N))
      → Absent hash (Dict.keys cache)
      → Dict.delete hash ((hash, entry) ∷ cache) ≡ cache
  unfolding Dict.delete
  delete-first hash entry cache absent = rw (eq_refl hash, delete-Absent hash cache absent) refl

  lookup-first :
      (hash : Bytes) (entry : LogEntry V N) (cache : Dict (LogEntry V N))
      → Dict.lookup hash ((hash, entry) ∷ cache) ≡ some entry
  unfolding Dict.lookup
  lookup-first hash entry cache = rw (eq_refl hash) refl

  lookup-other :
      (hash other : Bytes) (entry : LogEntry V N) (cache : Dict (LogEntry V N))
      → (hash == other) ≡ false
      → Dict.lookup other ((hash, entry) ∷ cache) ≡ Dict.lookup other cache
  unfolding Dict.lookup
  lookup-other hash other entry cache differs = rw differs refl

  delete-other :
      (hash other : Bytes) (entry : LogEntry V N) (cache : Dict (LogEntry V N))
      → (hash == other) ≡ false
      → Dict.delete other ((hash, entry) ∷ cache) ≡ (hash, entry) ∷ Dict.delete other cache
  unfolding Dict.delete
  delete-other hash other entry cache differs = rw differs refl

  -- an entry that is found has another key than one that is absent
  other_key :
      (hash other : Bytes) (entry : LogEntry V N) (cache : Dict (LogEntry V N))
      → Absent hash (Dict.keys cache)
      → Dict.lookup other cache ≡ some entry
      → (hash == other) ≡ false
  other_key hash other entry cache absent e = elim (Bool-cases (hash == other)) [
    | inr differs ↦ differs
    | inl same ↦
        let missing = lookup-Absent hash cache absent in
        absurd
          (none_some (sym missing ∙ ap (λ k. Dict.lookup k cache) (eq_sound hash other same) ∙ e))
  ]
    where
      none_some : none ≢ some entry
      none_some e = cc

  place_item-IsListed :
      (hash : Bytes) (entry : LogEntry V N) (items : List (Bytes × ℕ)) (cache : Dict (LogEntry V N))
      → Absent hash (Dict.keys cache)
      → IsListed items cache
      → IsListed (place_item (hash, entry.last_seen) items) ((hash, entry) ∷ cache)
  unfolding place_item
  place_item-IsListed hash entry [] cache absent listed =
      ((entry, lookup-first hash entry cache, refl), delete-first hash entry cache absent ∙ listed)
  place_item-IsListed hash entry ((other, seen) ∷ items) cache absent ((x, e, last), listed) =
      let differs = other_key hash other x cache absent e in
      let behind =
        place_item-IsListed hash entry items (Dict.delete other cache)
          (Absent-delete hash other cache absent) listed in
      elim (leb entry.last_seen seen)
        as (λ b.
          IsListed
            (if b
              then (hash, entry.last_seen) ∷ (other, seen) ∷ items
              else (other, seen) ∷ place_item (hash, entry.last_seen) items)
            ((hash, entry) ∷ cache)) [
              | true ↦ (
                (entry, lookup-first hash entry cache, refl),
                subst (IsListed ((other, seen) ∷ items))
                    (sym (delete-first hash entry cache absent)) ((x, e, last), listed),
              )
              | false ↦ (
                (x, lookup-other hash other entry cache differs ∙ e, last),
                subst (IsListed (place_item (hash, entry.last_seen) items))
                    (sym (delete-other hash other entry cache differs)) behind,
              )
            ]

  sorted_items-IsListed :
      (cache : Dict (LogEntry V N))
      → Distinct (Dict.keys cache)
      → IsListed (sorted_items cache) cache
  unfolding sorted_items
  sorted_items-IsListed [] distinct = refl
  sorted_items-IsListed ((hash, entry) ∷ cache) distinct =
      place_item-IsListed hash entry (sorted_items cache) cache distinct.0
        (sorted_items-IsListed cache distinct.1)

  -- an entry that was seen not longer ago than entries may stay
  abbrev pub IsYoung : ℕ → ℕ → Bytes × LogEntry V N → Type 0
  IsYoung expiry now (hash, entry) = now - entry.last_seen ≤ expiry

  expire-IsYoung :
      (expiry now : ℕ) (cache : Dict (LogEntry V N))
      → All (IsYoung expiry now) (expire expiry now cache).0
  unfolding expire
  expire-IsYoung expiry now [] = tt
  expire-IsYoung expiry now ((hash, entry) ∷ cache) =
      ground (arith, expire-IsYoung expiry now cache)

  IsYoung-delete :
      (expiry now : ℕ) (hash : Bytes) (cache : Dict (LogEntry V N))
      → All (IsYoung expiry now) cache
      → All (IsYoung expiry now) (Dict.delete hash cache)
  unfolding Dict.delete
  IsYoung-delete expiry now hash [] h = tt
  IsYoung-delete expiry now hash ((at, e) ∷ cache) h =
      ground (arith, h.0, IsYoung-delete expiry now hash cache h.1)

  evict-IsYoung :
      (expiry now n : ℕ) (items : List (Bytes × ℕ)) (cache : Dict (LogEntry V N))
      → All (IsYoung expiry now) cache
      → All (IsYoung expiry now) (evict n items cache).0
  unfolding evict
  evict-IsYoung expiry now zero items cache h = h
  evict-IsYoung expiry now (suc n) [] cache h = h
  evict-IsYoung expiry now (suc n) ((hash, seen) ∷ items) cache h =
      elim (Dict.lookup hash cache)
        as (λ o.
          All (IsYoung expiry now)
            (elim o as (λ o. Dict (LogEntry V N) × List (LogEntry V N)) [
              | none ↦ evict n items cache
              | some entry ↦
                  let (kept, emitted) = evict n items (Dict.delete hash cache) in
                  (kept, to_emit entry ++ emitted)
            ]).0) [
              | none ↦ evict-IsYoung expiry now n items cache h
              | some entry ↦
                  evict-IsYoung expiry now n items (Dict.delete hash cache)
                    (IsYoung-delete expiry now hash cache h)
            ]

  shrink_lem :
      (expiry now size : ℕ) (cache : Dict (LogEntry V N))
      → Distinct (Dict.keys cache)
      → All (IsYoung expiry now) cache
      → (length (shrink size cache).0 ≡ min size (length cache))
        × All (IsYoung expiry now) (shrink size cache).0
  unfolding shrink
  shrink_lem expiry now size cache distinct young = elim (Bool-cases (ltb size (length cache))) [
    | inl full ↦
        let n = length cache - size in
        let left =
          length-evict n (sorted_items cache) cache distinct (sorted_items-IsListed cache distinct)
            (omega arith) in
        rw full (
          omega (arith, left, ltb→lt size (length cache) full),
          evict-IsYoung expiry now n (sorted_items cache) cache young,
        )
    | inr fits ↦ rw fits (omega (arith, ltb_false→le size (length cache) fits), young)
  ]

  -- A cleanup leaves no more entries than the cache may have, exactly so many if it had to evict
  -- some, and none that has expired; while another cleanup runs it does nothing.
  pub perform_cleanup_lem :
      (now : ℕ) (d : Engine V N)
      → IsSound d.cache
      → let (emitted, d') = perform_cleanup now d in
        ((d.cleanup_running ≡ true) × (emitted ≡ []) × (d' ≡ d))
        ⊎ ((d.cleanup_running ≡ false)
            × (length d'.cache
                ≡ min d.max_cache_size (length (expire d.cache_expiry now d.cache).0))
            × All (IsYoung d.cache_expiry now) d'.cache)
  unfolding perform_cleanup
  perform_cleanup_lem now d h =
      let (length_lem, young) =
        shrink_lem d.cache_expiry now d.max_cache_size (expire d.cache_expiry now d.cache).0
          (expire-IsSound d.cache_expiry now d.cache h).distinct
          (expire-IsYoung d.cache_expiry now d.cache) in
      elim (Bool-cases d.cleanup_running) [
        | inl busy ↦ inl (busy, rw busy refl, rw busy refl)
        | inr idle ↦ inr (idle, rw idle length_lem, rw idle young)
      ]
