-- ===== src/Publish/Collect.antt =====
-- pkg/osquery/extension.go: what the callback of `writeBufferedLogsForType` collects.
use launcher.Base.{
  ℕ, ◌+◌, ◌≤◌, ◌<◌, ◌≡◌, refl, sym, ap, ◌∙◌, inl, inr, Bool, true, false, ◌&&◌, List, [], ◌∷◌, ◌++◌,
  append_assoc, append-nil, arith, Bytes, if◌then◌else◌, ltb, length, Bool-cases,
}
use launcher.Base.Dict
use launcher.Base.Dict.{Dict}
use launcher.Store.InMemory.{after_visit}
use launcher.Store.InMemory.Laws.{visit_all}
use launcher.Publish.{Batch, collect}
use launcher.Publish.State.{
  LogPublicationState, exceeds_max_batch_threshold, exceeds_current_batch_threshold,
}

-- the logs that are not too large for any batch
unfoldable pub fitting : LogPublicationState → Dict Bytes → List Bytes
fitting st [] = []
fitting st ((k, v) ∷ logs) =
    let rest = fitting st logs in
    if exceeds_max_batch_threshold (length v) st then rest else v ∷ rest

abbrev pub bytes_of : List Bytes → ℕ
bytes_of [] = 0
bytes_of (v ∷ vs) = length v + bytes_of vs

-- The batch `b'` is `b` with the logs of `taken`, and there is nothing left, or the first that is
-- left would make it too large.
pub record Collected (st : LogPublicationState) (b : Batch) (logs taken left : Dict Bytes)
    (full : Bool) (b' : Batch) : Type 0 where
  pub split : logs ≡ taken ++ left
  pub ids : b'.log_ids ≡ b.log_ids ++ Dict.keys taken
  pub values : b'.logs ≡ b.logs ++ fitting st taken
  pub total : b'.total_bytes ≡ b.total_bytes + bytes_of (fitting st taken)
  pub bound : b.total_bytes ≤ st.max_bytes_per_batch → b'.total_bytes ≤ st.max_bytes_per_batch
  pub complete : full ≡ false → left ≡ []
  pub filled :
      full ≡ true
      → (0 < b'.total_bytes)
        × (k v : Bytes) × (others : Dict Bytes) × (left ≡ (k, v) ∷ others)
        × (st.current_max_bytes_per_batch < b'.total_bytes + length v)

abbrev pub Collects : LogPublicationState → Batch → Dict Bytes → Bool × Batch → Type 0
Collects st b logs (full, b') = (taken left : Dict Bytes) × Collected st b logs taken left full b'

collect_nil : (st : LogPublicationState) (b : Batch) → Collects st b [] (false, b)
unfolding fitting
collect_nil st b = (
  [],
  [],
  record {
    split = refl;
    ids = sym (append-nil b.log_ids);
    values = sym (append-nil b.logs);
    total = omega arith;
    bound = λ h. h;
    complete = λ h. refl;
    filled = λ h. absurd (ground (arith, h));
  },
)

-- A log that is too large for any batch is left out, but noted for deletion.
collect_large :
    (st : LogPublicationState) (b : Batch) (k v : Bytes) (logs : Dict Bytes) (r : Bool × Batch)
    → exceeds_max_batch_threshold (length v) st ≡ true
    → Collects st (record b { log_ids = b.log_ids ++ k ∷ [] }) logs r
    → Collects st b ((k, v) ∷ logs) r
unfolding fitting
collect_large st b k v logs (full, b') large (taken, left, c) = (
  (k, v) ∷ taken,
  left,
  record {
    split = ap (λ m. (k, v) ∷ m) c.split;
    ids = c.ids ∙ append_assoc b.log_ids (k ∷ []) (Dict.keys taken);
    values = rw large c.values;
    total = rw large c.total;
    bound = c.bound;
    complete = c.complete;
    filled = c.filled;
  },
)

collect_fits :
    (st : LogPublicationState) (b : Batch) (k v : Bytes) (logs : Dict Bytes) (r : Bool × Batch)
    → st.current_max_bytes_per_batch ≤ st.max_bytes_per_batch
    → exceeds_max_batch_threshold (length v) st ≡ false
    → (exceeds_current_batch_threshold (b.total_bytes + length v) st && ltb 0 b.total_bytes) ≡ false
    → Collects st
        (record {
          logs = b.logs ++ v ∷ [];
          log_ids = b.log_ids ++ k ∷ [];
          total_bytes = b.total_bytes + length v;
        })
        logs
        r
    → Collects st b ((k, v) ∷ logs) r
unfolding fitting exceeds_current_batch_threshold exceeds_max_batch_threshold
collect_fits st b k v logs (full, b') upper small room (taken, left, c) = (
  (k, v) ∷ taken,
  left,
  record {
    split = ap (λ m. (k, v) ∷ m) c.split;
    ids = c.ids ∙ append_assoc b.log_ids (k ∷ []) (Dict.keys taken);
    values = rw small (c.values ∙ append_assoc b.logs (v ∷ []) (fitting st taken));
    total = rw small (omega (arith, c.total));
    bound = λ h. c.bound (ground (arith, h, upper, small, room));
    complete = c.complete;
    filled = c.filled;
  },
)

collect_full :
    (st : LogPublicationState) (b : Batch) (k v : Bytes) (logs : Dict Bytes)
    → (exceeds_current_batch_threshold (b.total_bytes + length v) st && ltb 0 b.total_bytes) ≡ true
    → Collects st b ((k, v) ∷ logs) (true, b)
unfolding fitting exceeds_current_batch_threshold
collect_full st b k v logs over = (
  [],
  (k, v) ∷ logs,
  record {
    split = refl;
    ids = sym (append-nil b.log_ids);
    values = sym (append-nil b.logs);
    total = omega arith;
    bound = λ h. h;
    complete = λ h. absurd (ground (arith, h));
    filled = λ h. (ground (arith, over), k, v, logs, refl, ground (arith, over));
  },
)

pub collect_loop :
    (st : LogPublicationState) (logs : Dict Bytes) (b : Batch)
    → st.current_max_bytes_per_batch ≤ st.max_bytes_per_batch
    → Collects st b logs (visit_all (collect st) logs b)
unfolding visit_all collect after_visit
collect_loop st [] b upper = collect_nil st b
collect_loop st ((k, v) ∷ logs) b upper =
    elim (Bool-cases (exceeds_max_batch_threshold (length v) st)) [
      | inl large ↦ rw large (
          collect_large st b k v logs (visit_all (collect st) logs _) large
            (collect_loop st logs _ upper))
      | inr small ↦
          elim (Bool-cases (
            exceeds_current_batch_threshold (b.total_bytes + length v) st && ltb 0 b.total_bytes)) [
              | inl over ↦ rw (small, over) (collect_full st b k v logs over)
              | inr room ↦
                  rw (small, room)
                    (collect_fits st b k v logs (visit_all (collect st) logs _) upper small room
                      (collect_loop st logs _ upper))
            ]
    ]
