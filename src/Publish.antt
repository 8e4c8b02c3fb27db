-- ===== src/Publish.antt =====
-- pkg/osquery/extension.go: the logs of osquery that the extension buffers in a store per type, and
-- sends in batches. The enrollment, the service client and the clock act on the world `W`.
-- pkg/osquery/log_publication_state.go is Publish/State.
--
-- A store is a `LogStore`. `none` as a key is the nil key. The publication to the agent ingester
-- has no effect on the state but on the world, and its error is logged only.
pub mod State
mod Reenroll
pub mod Bounds
pub mod Laws
pub mod InMemory
pub mod Collect
pub mod Write
pub mod Purge
mod Examples
unfoldable pub use Reenroll.*
use launcher.Base.{
  ℕ, zero, ◌+◌, ◌-◌, suc, Bool, true, false, not, ◌&&◌, ◌||◌, Option, none, some, List, [], ◌∷◌,
  ◌++◌, Bytes, ◌==◌, if◌then◌else◌, ltb, leb, nat_eq, length,
}
use launcher.Store.{StoreError, Visit}
use launcher.Publish.State.{
  LogPublicationState, begin_batch, end_batch, exceeds_max_batch_threshold,
  exceeds_current_batch_threshold,
}

-- How a call of `ForEach` ended: without error, with the error of its callback, or with its own.
pub data Visited : Type 0 where
  completed : Visited
  stopped : Visited
  unread : Visited

-- what the extension uses of a `KVStore`
pub record LogStore (S : Type 0) : Type 1 where
  pub for_each : {C : Type 0} → Visit C → C → S → Visited × C
  pub delete : List Bytes → S → Option StoreError × S
  pub count : S → Option ℕ
  pub append_values : List Bytes → S → Option StoreError × S

-- `storeForLogType`; `none` is its error
pub data StoreName : Type 0 where
  result_store : StoreName
  status_store : StoreName

unfoldable pub store_for_log_type : LogType → Option StoreName
store_for_log_type type_string = some result_store
store_for_log_type type_snapshot = some result_store
store_for_log_type type_status = some status_store
store_for_log_type type_health = none
store_for_log_type type_init = none
store_for_log_type (type_other n) = none

-- the variables of `writeBufferedLogsForType` that the callback sets
pub record Batch : Type 0 where
  pub logs : List Bytes
  pub log_ids : List Bytes
  pub total_bytes : ℕ

abbrev pub empty_batch : Batch
empty_batch = record { logs = []; log_ids = []; total_bytes = 0 }

-- the callback; true is `iterationTerminatedError`
unfoldable pub collect : LogPublicationState → Visit Batch
collect st k v b =
    if exceeds_max_batch_threshold (length v) st
    then (false, record b { log_ids = b.log_ids ++ k ∷ [] })
    else if exceeds_current_batch_threshold (b.total_bytes + length v) st && ltb 0 b.total_bytes
    then (true, b)
    else (
      false,
      record {
        logs = b.logs ++ v ∷ [];
        log_ids = b.log_ids ++ k ∷ [];
        total_bytes = b.total_bytes + length v;
      },
    )

-- the variables of the callback of `purgeBufferedLogsForType`
unfoldable pub collect_overflow : ℕ → Visit (ℕ × List Bytes)
collect_overflow delete_count k v (n, ids) =
    if leb delete_count n then (true, (n, ids)) else (false, (suc n, ids ++ k ∷ []))

-- `make([][]byte, n)`: nil keys
abbrev pub nil_keys : ℕ → List Bytes
nil_keys zero = []
nil_keys (suc n) = [] ∷ nil_keys n

module _ {W S : Type 0} (service : Service W) (store : LogStore S) where
  open service use {publish_to_ingester, now}

  after_delete :
      LogPublicationState
      → W
      → Option StoreError × S
      → Option LogError × LogPublicationState × W × S
  after_delete st w (none, s) = (none, st, w, s)
  after_delete st w (some e, s) = (some delete_failed, st, w, s)

  after_write : LogType → Batch → S → Outcome W → Option LogError × LogPublicationState × W × S
  unfolding after_delete
  after_write typ b s (some e, st, w) = (some e, st, w, s)
  after_write typ b s (none, st, w) =
      after_delete st (publish_to_ingester typ b.logs w) (store.delete b.log_ids s)

  -- the collected batch is sent
  send_batch :
      LogType
      → Bool
      → Batch
      → LogPublicationState
      → W
      → S
      → Option LogError × LogPublicationState × W × S
  unfolding after_write write_logs_with_reenroll
  send_batch typ filled b st w s =
      if nat_eq (length b.logs) 0
      then (none, st, w, s)
      else after_write typ b s
          (write_logs_with_reenroll service typ b.logs (begin_batch (now w) filled st) w)

  after_collect :
      LogType
      → LogPublicationState
      → W
      → S
      → Visited × Batch
      → Option LogError × LogPublicationState × W × S
  unfolding send_batch
  after_collect typ st w s (unread, b) = (some unreadable, st, w, s)
  after_collect typ st w s (stopped, b) = send_batch typ true b st w s
  after_collect typ st w s (completed, b) = send_batch typ false b st w s

  -- `writeBufferedLogsForType` on the store of the type
  unfoldable pub write_buffered_logs :
      LogType → LogPublicationState → W → S → Option LogError × LogPublicationState × W × S
  unfolding after_collect collect
  write_buffered_logs typ st w s =
      after_collect typ st w s (store.for_each (collect st) empty_batch s)

module _ {S : Type 0} (store : LogStore S) where
  after_overflow : ℕ → S → Visited × (ℕ × List Bytes) → Option LogError × S
  after_overflow delete_count s (unread, b) = (some unreadable, s)
  after_overflow delete_count s (visited, (n, ids)) =
      let (e, s') = store.delete (nil_keys delete_count ++ ids) s in
      (elim e [ none ↦ none | some x ↦ some delete_failed ], s')

  -- `purgeBufferedLogsForType` on the store of the type
  unfoldable pub purge_buffered_logs : ℕ → S → Option LogError × S
  unfolding after_overflow collect_overflow
  purge_buffered_logs max_buffered s = elim (store.count s) [
    | none ↦ (some unreadable, s)
    | some total ↦
        if leb total max_buffered
        then (none, s)
        else after_overflow (total - max_buffered) s
            (store.for_each (collect_overflow (total - max_buffered)) (0, []) s)
  ]

-- the store of a name, and its update
abbrev pub store_at {ℓ} : {S : Type ℓ} → StoreName → S × S → S
store_at result_store (results, statuses) = results
store_at status_store (results, statuses) = statuses

abbrev pub put_store {ℓ} : {S : Type ℓ} → StoreName → S → S × S → S × S
put_store result_store s (results, statuses) = (s, statuses)
put_store status_store s (results, statuses) = (results, s)

module _ {S : Type 0} (store : LogStore S) where
  -- the pair is `ResultLogsStore` and `StatusLogsStore`
  unfoldable pub log_string : LogType → Bytes → S × S → Option LogError × (S × S)
  unfolding store_for_log_type
  log_string type_init text stores = (none, stores)
  log_string typ text stores = elim (store_for_log_type typ) [
    | none ↦ (some unsupported_type, stores)
    | some name ↦
        let (e, s) = store.append_values (text ∷ []) (store_at name stores) in
        (elim e [ none ↦ none | some x ↦ some append_failed ], put_store name s stores)
  ]

  -- a round of `writeAndPurgeLogs`, for the logs of one type; errors are logged only
  write_and_purge :
      {W : Type 0}
      → Service W
      → ℕ
      → LogType
      → LogPublicationState
      → W
      → S × S
      → LogPublicationState × W × (S × S)
  unfolding store_for_log_type write_buffered_logs purge_buffered_logs
  write_and_purge service max_buffered typ st w stores = elim (store_for_log_type typ) [
    | none ↦ (st, w, stores)
    | some name ↦
        let (e, st', w', s) = write_buffered_logs service store typ st w (store_at name stores) in
        let (e', s') = purge_buffered_logs store max_buffered s in
        (st', w', put_store name s' stores)
  ]

  unfoldable pub write_and_purge_logs :
      {W : Type 0}
      → Service W
      → ℕ
      → LogPublicationState
      → W
      → S × S
      → LogPublicationState × W × (S × S)
  unfolding write_and_purge
  write_and_purge_logs service max_buffered st w stores =
      let (st', w', stores') = write_and_purge service max_buffered type_status st w stores in
      write_and_purge service max_buffered type_string st' w' stores'
