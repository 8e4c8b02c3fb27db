-- ===== src/ActionQueue/Cleanup.antt =====
-- `cleanupActions` of ee/control/actionqueue/actionqueue.go over the in-memory store, which the
-- queue falls back to: the records that it forgets.
use launcher.Base.{
  ℕ, ◌≡◌, Bool, true, false, ◌||◌, Option, none, some, List, [], ◌∷◌, ◌++◌, arith, Bytes, eq_iff,
  ok, if◌then◌else◌, pos, ltbℤ, ◌+ℤ◌, contains, contains-append, is_some, Bool-cases, inl, inr,
}
use launcher.Base.Dict
use launcher.Base.Dict.{Dict, Distinct, Absent, keys, lookup-Absent}
use launcher.Store.InMemory.{InMemory, Pointer, get}
use launcher.Store.InMemory.Order.{IsValid}
use launcher.Store.InMemory.Laws.{in_memory_kv, visit_all, for_each_lem, get-delete}
use launcher.ActionQueue.{
  Action, Codec, ActionQueue, action_retention_period, collect_expired, cleanup_actions,
}

-- The records before the first that does not decode.
unfoldable pub before_undecodable : Codec → Dict Bytes → Dict Bytes
before_undecodable codec [] = []
before_undecodable codec ((k, v) ∷ m) =
    let rest = before_undecodable codec m in
    if is_some (codec.unmarshal v) then (k, v) ∷ rest else []

Absent-before_undecodable :
    (codec : Codec) (k : Bytes) (m : Dict Bytes)
    → Absent k (keys m)
    → Absent k (keys (before_undecodable codec m))
unfolding before_undecodable
Absent-before_undecodable codec k [] a = tt
Absent-before_undecodable codec k ((j, v) ∷ m) a =
    ground (arith, a.0, Absent-before_undecodable codec k m a.1)

-- The record was processed longer ago than the retention period.
abbrev pub is_expired_action : ℕ → Option Action → Bool
is_expired_action now none = false
is_expired_action now (some a) = ltbℤ (a.processed_at +ℤ pos action_retention_period) (pos now)

abbrev pub is_expired : Codec → ℕ → Option Bytes → Bool
is_expired codec now none = false
is_expired codec now (some v) = is_expired_action now (codec.unmarshal v)

module _ {W : Type 0} (codec : Codec) (read_clock : W → ℕ × W) (now : ℕ)
    (still : (w : W) → (read_clock w).0 ≡ now) where
  collect :
      (k v : Bytes) (acc : List Bytes) (w : W)
      → is_some (codec.unmarshal v) ≡ true
      → collect_expired codec (in_memory_kv (List Bytes × W)) read_clock k v (acc, w)
        ≡ (false, (if is_expired codec now (some v) then acc ++ k ∷ [] else acc, (read_clock w).1))
  unfolding collect_expired
  collect k v acc w h = ground (arith, h, still w)

  undecodable :
      (k v : Bytes) (acc : List Bytes) (w : W)
      → is_some (codec.unmarshal v) ≡ false
      → collect_expired codec (in_memory_kv (List Bytes × W)) read_clock k v (acc, w)
        ≡ (true, (acc, w))
  unfolding collect_expired
  undecodable k v acc w h = ground (arith, h)

  collected :
      (m : Dict Bytes) (j : Bytes) (acc : List Bytes) (w : W)
      → Distinct (keys m)
      → contains j
          (visit_all
            (collect_expired codec (in_memory_kv (List Bytes × W)) read_clock)
            m
            (acc, w)).1.0
        ≡ (contains j acc || is_expired codec now (Dict.lookup j (before_undecodable codec m)))
  unfolding visit_all Dict.lookup before_undecodable
  collected [] j acc w d = ground arith
  collected ((k, v) ∷ m) j acc w d = elim (Bool-cases (is_some (codec.unmarshal v))) [
    | inr bad ↦ rw (undecodable k v acc w bad, bad) (ground arith)
    | inl good ↦
        let acc' = if is_expired codec now (some v) then acc ++ k ∷ [] else acc in
        let absent = Absent-before_undecodable codec k m d.0 in
        rw (collect k v acc w good, good)
          (ground (
            arith,
            collected m j acc' (read_clock w).1 d.1,
            contains-append j k acc,
            lookup-Absent k (before_undecodable codec m) absent,
            eq_iff k j,
          ))
  ]

  -- Over a valid in-memory store, with a clock that stands still: the cleanup forgets the actions
  -- that were processed longer ago than the retention period and stand before the first record, in
  -- the order of the store, that does not decode; every other key of the store reads as before, with
  -- the expired actions behind such a record.
  pub cleanup_actions_lem :
      (aq : ActionQueue Pointer W) (s : InMemory) (w : W) (j : Bytes)
      → aq.store ≡ some s
      → IsValid s
      → get j (cleanup_actions codec (in_memory_kv (List Bytes × W)) read_clock aq w).0.store ≡ (
          if is_expired codec now (Dict.lookup j (before_undecodable codec s.items))
          then ok none
          else get j (some s))
  unfolding cleanup_actions contains
  cleanup_actions_lem aq s w j at v = rw (
    at,
    for_each_lem (collect_expired codec (in_memory_kv (List Bytes × W)) read_clock) s ([], w) v,
    get-delete,
    collected s.items j [] w v.distinct,
    contains,
  )
