-- ===== src/Publish/Purge.antt =====
-- pkg/osquery/extension.go: what `purgeBufferedLogsForType` deletes.
use mathlib.Core.Path.{subst}
use launcher.Base.{
  ℕ, zero, suc, ◌-◌, ◌≢◌, ◌≤◌, ◌<◌, ◌≡◌, refl, sym, ap, ◌∙◌, ◌⊎◌, inl, inr, Bool, true, false,
  Option, none, some, List, [], ◌∷◌, ◌++◌, append_assoc, append-nil, arith, Bytes, ◌==◌, leb,
  length, take, drop, take-append-drop, length-drop, All, Bool-cases,
}
use launcher.Base.Dict
use launcher.Base.Dict.{Dict, Distinct}
use launcher.Store.{StoreError}
use launcher.Store.InMemory.{after_visit}
use launcher.Store.InMemory.Laws.{visit_all}
use launcher.Publish.{
  LogStore, LogError, Visited, completed, stopped, unread, collect_overflow, nil_keys,
  after_overflow, purge_buffered_logs,
}
use launcher.Publish.Laws.{LogLaws, visited, without, without-keys, contains-nil_keys}

-- The callback collects the keys of the first entries, as many as are to go.
collect_overflow_loop :
    (d : ℕ) (logs : Dict Bytes) (n m : ℕ) (ids : List Bytes)
    → d - n ≡ m
    → (visit_all (collect_overflow d) logs (n, ids)).1.1 ≡ ids ++ Dict.keys (take m logs)
unfolding visit_all collect_overflow after_visit
collect_overflow_loop d [] n zero ids h = sym (append-nil ids)
collect_overflow_loop d [] n (suc m) ids h = sym (append-nil ids)
collect_overflow_loop d ((k, v) ∷ logs) n zero ids h =
    let done : leb d n ≡ true = ground (arith, h) in rw done (sym (append-nil ids))
collect_overflow_loop d ((k, v) ∷ logs) n (suc m) ids h =
    let more : leb d n ≡ false = ground (arith, h) in
    rw more (
      collect_overflow_loop d logs (suc n) m (ids ++ k ∷ []) (omega (arith, h))
      ∙ append_assoc ids (k ∷ []) (Dict.keys (take m logs)))

module _ {S : Type 0} (store : LogStore S) (laws : LogLaws store) where
  -- What a call did: it returned an error and left the store, it had nothing to delete, or it
  -- left the newest logs.
  abbrev pub Purges : ℕ → S → Option LogError × S → Type 0
  Purges max_buffered s (e, s') =
      ((e ≢ none) × (s' ≡ s))
      ⊎ ((length (laws.entries s) ≤ max_buffered) × (e ≡ none) × (s' ≡ s))
      ⊎ ((e ≡ none)
          × (laws.entries s' ≡ drop (length (laws.entries s) - max_buffered) (laws.entries s))
          × (length (laws.entries s') ≡ max_buffered))

  overflow-gone :
      (d : ℕ) (s : S)
      → laws.IsSound s
      → without (nil_keys d ++ Dict.keys (take d (laws.entries s))) (laws.entries s)
        ≡ drop d (laws.entries s)
  overflow-gone d s sound =
      let whole = take-append-drop d (laws.entries s) in
      let distinct : Distinct (Dict.keys (take d (laws.entries s) ++ drop d (laws.entries s))) =
        subst (λ m. Distinct (Dict.keys m)) (sym whole) (laws.distinct s sound) in
      let named =
        subst (λ m. All (λ k. (k == []) ≡ false) (Dict.keys m)) (sym whole) (laws.named s sound) in
      subst
        (λ m.
          without (nil_keys d ++ Dict.keys (take d (laws.entries s))) m ≡ drop d (laws.entries s))
        whole
        (without-keys (nil_keys d) (take d (laws.entries s)) (drop d (laws.entries s)) distinct
          (contains-nil_keys d _ named))

  after_overflow_lem :
      (max_buffered : ℕ) (s : S) (v : Visited) (n : ℕ) (ids : List Bytes)
      → laws.IsSound s
      → v ≢ unread
      → max_buffered < length (laws.entries s)
      → ids ≡ Dict.keys (take (length (laws.entries s) - max_buffered) (laws.entries s))
      → Purges max_buffered s
          (after_overflow store (length (laws.entries s) - max_buffered) s (v, (n, ids)))
  unfolding after_overflow
  after_overflow_lem max_buffered s unread n ids sound readable over taken = absurd (readable refl)
  after_overflow_lem max_buffered s v n ids sound readable over taken =
      go (store.delete (nil_keys d ++ ids) s) refl
    where
      d : ℕ
      d = length (laws.entries s) - max_buffered

      go :
          (r : Option StoreError × S)
          → store.delete (nil_keys d ++ ids) s ≡ r
          → Purges max_buffered s
              (elim r.0 [ none ↦ none | some x ↦ some LogError.delete_failed ], r.1)
      go (some e, s') gone = inl (
        λ h. ground (arith, h),
        ap (λ r. r.1) (sym gone) ∙ laws.delete_failed (nil_keys d ++ ids) s e (ap (λ r. r.0) gone),
      )
      go (none, s') gone =
          let left : laws.entries s' ≡ drop d (laws.entries s) =
            ap (λ r. laws.entries r.1) (sym gone)
            ∙ laws.delete_lem (nil_keys d ++ ids) s sound (ap (λ r. r.0) gone)
            ∙ ap (λ ks. without (nil_keys d ++ ks) (laws.entries s)) taken
            ∙ overflow-gone d s sound in
          inr (inr (refl, left, omega (arith, ap length left, length-drop d (laws.entries s))))

  -- All branches of `purgeBufferedLogsForType`: it returns an error and leaves the store; or there
  -- are no more logs than allowed and it leaves the store; or it deletes the oldest ones, so that
  -- just the allowed number is left, the newest.
  pub purge_buffered_logs_lem :
      (max_buffered : ℕ) (s : S)
      → laws.IsSound s
      → Purges max_buffered s (purge_buffered_logs store max_buffered s)
  unfolding purge_buffered_logs after_overflow
  purge_buffered_logs_lem max_buffered s sound = elim (laws.count_lem s sound) [
    | inl failed ↦
        let stays : purge_buffered_logs store max_buffered s ≡ (some LogError.unreadable, s) =
          rw (failed, purge_buffered_logs) refl in
        subst (Purges max_buffered s) (sym stays) (inl (λ h. ground (arith, h), refl))
    | inr counted ↦ elim (Bool-cases (leb (length (laws.entries s)) max_buffered)) [
      | inl few ↦
          let stays : purge_buffered_logs store max_buffered s ≡ (none, s) =
            rw (counted, purge_buffered_logs, few) refl in
          subst (Purges max_buffered s) (sym stays) (inr (inl (ground (arith, few), refl, refl)))
      | inr many ↦
          let purges : purge_buffered_logs store max_buffered s
              ≡ after_overflow store d s (store.for_each (collect_overflow d) (0, []) s) =
            rw (counted, purge_buffered_logs, many) refl in
          subst (Purges max_buffered s) (sym purges)
            (elim (laws.for_each_lem (collect_overflow d) (0, []) s sound) [
              | inr failed ↦ unread_lem (store.for_each (collect_overflow d) (0, []) s) failed
              | inl ran ↦
                  subst (λ r. Purges max_buffered s (after_overflow store d s r)) (sym ran)
                    (visited_lem (visit_all (collect_overflow d) (laws.entries s) (0, []))
                      (ground (arith, many))
                      (collect_overflow_loop d (laws.entries s) 0 d [] (omega arith)))
            ])
    ]
  ]
    where
      d : ℕ
      d = length (laws.entries s) - max_buffered

      unread_lem :
          (r : Visited × (ℕ × List Bytes))
          → r.0 ≡ unread
          → Purges max_buffered s (after_overflow store d s r)
      unread_lem (completed, b) h = absurd (ground (arith, h))
      unread_lem (stopped, b) h = absurd (ground (arith, h))
      unread_lem (unread, b) h = inl (λ e. ground (arith, e), refl)

      visited_lem :
          (r : Bool × (ℕ × List Bytes))
          → max_buffered < length (laws.entries s)
          → r.1.1 ≡ Dict.keys (take d (laws.entries s))
          → Purges max_buffered s (after_overflow store d s (visited r))
      visited_lem (true, (n, ids)) over taken =
          after_overflow_lem max_buffered s stopped n ids sound (λ h. ground (arith, h)) over taken
      visited_lem (false, (n, ids)) over taken =
          after_overflow_lem max_buffered s completed n ids sound (λ h. ground (arith, h)) over
            taken
