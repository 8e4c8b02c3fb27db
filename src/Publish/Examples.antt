-- ===== src/Publish/Examples.antt =====
-- The in-memory store as the store of the logs, a service that accepts each batch, and the theorems
-- at such inputs.
use launcher.Base.{ℕ, suc, ◌≡◌, refl, true, none, some, [], ◌∷◌, Bytes, ◌==◌}
use launcher.Base.Dict
use launcher.Base.Dict.{Dict}
use launcher.Store.InMemory.{
  Pointer, after_visit, for_each, for_each_key, delete, delete_each, delete_one, remove_first,
  count,
}
use launcher.Publish.{
  type_string, Service, accepted, collect, collect_overflow, write_logs_with_reenroll,
  write_buffered_logs, purge_buffered_logs,
}
use launcher.Publish.State.{
  LogPublicationState, exceeds_max_batch_threshold, exceeds_current_batch_threshold,
}
use launcher.Publish.InMemory.{in_memory_logs, in_memory_logs-LogLaws, logs_for_each, HoldsLogs}
use launcher.Publish.Purge.{Purges, purge_buffered_logs_lem}

-- the world counts the batches that were accepted
abbrev accepting : Service ℕ
accepting = record {
  node_key = λ w. 1 ∷ [];
  enroll = λ w. (some (1 ∷ []), w);
  publish_logs = λ key typ logs w. (accepted, suc w);
  publish_to_ingester = λ typ logs w. w;
  uninstall = λ w. w;
  require_reenroll = λ w. w;
  now = λ w. w;
}

-- the second log is too large for the limit of three bytes
abbrev buffered : Dict Bytes
buffered =
    (1 ∷ [], 5 ∷ 5 ∷ [])
    ∷ (2 ∷ [], 6 ∷ 6 ∷ 6 ∷ 6 ∷ [])
    ∷ (3 ∷ [], 7 ∷ [])
    ∷ (4 ∷ [], 8 ∷ 8 ∷ [])
    ∷ []

abbrev logs_after : Dict Bytes → Pointer
logs_after logs = some (record { items = logs; order = Dict.keys logs; sequence = 4 })

buffered-HoldsLogs : HoldsLogs (logs_after buffered)
unfolding ◌==◌
buffered-HoldsLogs = (
  record {
    listed = refl;
    distinct = ((refl, (refl, (refl, tt))), ((refl, (refl, tt)), ((refl, tt), (tt, tt))));
  },
  (refl, (refl, (refl, (refl, tt)))),
)

abbrev state : LogPublicationState
state = record {
  max_bytes_per_batch = 3;
  current_max_bytes_per_batch = 3;
  current_batch_buffer_filled = true;
  current_batch_start_time = some 0;
}

-- one batch of two logs goes out, the large one is dropped, the last log stays
write_run :
    let (e, st, w, s) =
      write_buffered_logs accepting in_memory_logs type_string state 0 (logs_after buffered) in
    (e ≡ none) × (w ≡ 1) × (s ≡ logs_after ((4 ∷ [], 8 ∷ 8 ∷ []) ∷ []))
unfolding write_buffered_logs logs_for_each for_each for_each_key after_visit delete delete_each
    delete_one remove_first count Dict.lookup Dict.delete collect exceeds_max_batch_threshold
    exceeds_current_batch_threshold ◌==◌ write_logs_with_reenroll
write_run = (refl, refl, refl)

purge_run :
    purge_buffered_logs in_memory_logs 1 (logs_after buffered)
    ≡ (none, logs_after ((4 ∷ [], 8 ∷ 8 ∷ []) ∷ []))
unfolding purge_buffered_logs logs_for_each for_each for_each_key after_visit delete delete_each
    delete_one remove_first count Dict.lookup Dict.delete collect_overflow ◌==◌
purge_run = refl

purge_buffered_logs_lem_example :
    Purges in_memory_logs in_memory_logs-LogLaws 1
      (logs_after buffered)
      (purge_buffered_logs in_memory_logs 1 (logs_after buffered))
purge_buffered_logs_lem_example =
    purge_buffered_logs_lem in_memory_logs in_memory_logs-LogLaws 1 (logs_after buffered)
      buffered-HoldsLogs
