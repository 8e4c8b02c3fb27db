-- ===== src/Dedup/Windows.antt =====
-- pkg/log/dedup/dedup_middleware.go: how often equal records pass.
use launcher.Base.{
  ℕ, ◌+◌, ◌-◌, ◌*◌, ◌≡◌, refl, ap, ◌∙◌, true, false, not, ◌||◌, some, List, [], ◌∷◌, arith, Bytes,
  ◌==◌, if◌then◌else◌, leb, eq_sound, nat_eq, Bool-cases, inl, inr, ◌≤◌, ◌<◌, All,
}
use mathlib.Core.Path.{subst}
use native.Mathlib.Nat.{mul-add}
use launcher.Base.Dict
use launcher.Base.Dict.{Dict, lookup-insert}
use launcher.Dedup.{
  Attrs, LogRecord, LogEntry, Engine, Outcome, suppressed, passed, passed_again, see, handle_record,
  hash_record_with_handler_attrs,
}

-- a record that comes, with the attributes of its handler, the next handler and the time
pub record Arrival (V N : Type 0) : Type 0 where
  pub now : ℕ
  pub log : LogRecord V
  pub handler_attrs : Attrs V
  pub next : N

abbrev pub passes : Outcome → ℕ
passes suppressed = 0
passes passed = 1
passes (passed_again count first_seen last_seen) = 1

leb→le : (a b : ℕ) → leb a b ≡ true → a ≤ b
leb→le a b h = ground arith

module _ {V N : Type 0} (digest : Attrs V → Bytes) where
  abbrev pub hash_of : Arrival V N → Bytes
  hash_of a = hash_record_with_handler_attrs digest a.log a.handler_attrs

  -- how many of the records with a hash pass
  unfoldable pub passing : Bytes → List (Arrival V N) → Engine V N → ℕ
  unfolding handle_record
  passing hash [] d = 0
  passing hash (a ∷ arrivals) d =
      let (outcome, d') = handle_record digest a.now a.log a.handler_attrs a.next d in
      let rest = passing hash arrivals d' in
      if hash_of a == hash then passes outcome + rest else rest

  see_again :
      (window now latest : ℕ) (log : LogRecord V) (next : N) (entry : LogEntry V N)
      → 0 < window
      → now ≤ latest
      → entry.first_seen ≤ latest
      → let (outcome, entry') = see window now log next (some entry) in
        (entry.first_seen + window * passes outcome ≤ entry'.first_seen)
        × (entry'.first_seen ≤ latest)
  unfolding see
  see_again window now latest log next entry on bound before =
      elim (Bool-cases (leb window (now - entry.first_seen))) [
        | inl over ↦ rw over (omega (arith, on, leb→le window (now - entry.first_seen) over), bound)
        | inr within ↦ rw within (omega arith, before)
      ]

  -- one arrival, for the entry of the hash
  handle_again :
      (hash : Bytes) (a : Arrival V N) (d : Engine V N) (entry : LogEntry V N) (latest : ℕ)
      → d.started ≡ true
      → 0 < d.duplicate_log_window
      → Dict.lookup hash d.cache ≡ some entry
      → a.now ≤ latest
      → entry.first_seen ≤ latest
      → let (outcome, d') = handle_record digest a.now a.log a.handler_attrs a.next d in
        (d'.started ≡ true)
        × (d'.duplicate_log_window ≡ d.duplicate_log_window)
        × ((entry' : LogEntry V N) × (Dict.lookup hash d'.cache ≡ some entry')
            × (entry'.first_seen ≤ latest)
            × (entry.first_seen
                  + d.duplicate_log_window * (if hash_of a == hash then passes outcome else 0)
                ≤ entry'.first_seen))
  unfolding handle_record
  handle_again hash a d entry latest started on there bound before =
      let off : (not d.started || nat_eq d.duplicate_log_window 0) ≡ false =
        ground (arith, started, on) in
      let seen = see d.duplicate_log_window a.now a.log a.next (Dict.lookup (hash_of a) d.cache) in
      rw off (
        started,
        refl,
        elim (Bool-cases (hash_of a == hash)) [
          | inr other ↦ (
            entry,
            lookup-insert (hash_of a) hash seen.1 d.cache
                ∙ ap (λ b. if b then some seen.1 else Dict.lookup hash d.cache) other
                ∙ there,
            before,
            rw other (omega arith),
          )
          | inl same ↦
              let found : Dict.lookup (hash_of a) d.cache ≡ some entry =
                ap (λ k. Dict.lookup k d.cache) (eq_sound (hash_of a) hash same) ∙ there in
              let again =
                see_again d.duplicate_log_window a.now latest a.log a.next entry on bound before in
              (
                seen.1,
                lookup-insert (hash_of a) hash seen.1 d.cache
                    ∙ ap (λ b. if b then some seen.1 else Dict.lookup hash d.cache) same,
                rw found again.1,
                rw (same, found) again.0,
              )
        ],
      )

  -- In calls of `handleRecord` one after the other, with no cleanup, `Stop` or change of the window
  -- in between, on a started engine with a positive window: records that arrive no later than
  -- `latest` and have the hash of an entry pass at most once for each window between the start of
  -- the entry's own and `latest`; no clock need be monotonic.
  pub passing_lem :
      (hash : Bytes) (arrivals : List (Arrival V N)) (d : Engine V N) (entry : LogEntry V N)
      (latest : ℕ)
      → d.started ≡ true
      → 0 < d.duplicate_log_window
      → Dict.lookup hash d.cache ≡ some entry
      → All (λ a. a.now ≤ latest) arrivals
      → entry.first_seen ≤ latest
      → entry.first_seen + d.duplicate_log_window * passing hash arrivals d ≤ latest
  unfolding passing
  passing_lem hash [] d entry latest started on there bound before = omega (arith, before)
  passing_lem hash (a ∷ arrivals) d entry latest started on there bound before =
      let (outcome, d') = handle_record digest a.now a.log a.handler_attrs a.next d in
      let window = d.duplicate_log_window in
      let (started', same, (entry', there', before', moved)) =
        handle_again hash a d entry latest started on there bound.0 before in
      let rest =
        passing_lem hash arrivals d' entry' latest started' (omega (arith, on, same)) there' bound.1
          before' in
      let rest' : entry'.first_seen + window * passing hash arrivals d' ≤ latest =
        subst (λ w. entry'.first_seen + w * passing hash arrivals d' ≤ latest) same rest in
      elim (Bool-cases (hash_of a == hash)) [
        | inl equal ↦
            rw (equal, mul-add window (passes outcome) (passing hash arrivals d'))
              (omega (
                arith,
                rest',
                subst
                    (λ b.
                      entry.first_seen + window * (if b then passes outcome else 0)
                      ≤ entry'.first_seen)
                    equal moved,
              ))
        | inr other ↦ rw other (
            omega (
              arith,
              rest',
              subst
                  (λ b.
                    entry.first_seen + window * (if b then passes outcome else 0)
                    ≤ entry'.first_seen)
                  other moved,
            ))
      ]
