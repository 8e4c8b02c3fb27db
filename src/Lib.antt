-- ===== src/Lib.antt =====
-- A verification library for the core of the launcher: the parts of the agent that keep state and
-- decide, written as functions on explicit states, with the theorems that make them correct.
--
-- The parts, and how they interact. Paths are from the repository's root.
--
-- Base: shared helpers. Base/Tests and Base/Lists are tests on numbers and functions on lists,
--   Base/Text is Go's `[]byte` and `string` as lists of bytes, Base/Dict is Go's map with string
--   keys, Base/Int is the signed integers.
-- Store: ee/agent/types/keyvalue_store.go, the interface of the key-value stores, with what its
--   comments promise. Store/InMemory: ee/agent/storage/inmemory/keyvalue_store_in_memory.go, every
--   method of it (`get`, `set`, `delete`, `delete_all`, `for_each`, `update`, `count`,
--   `append_values`), and the proof that it has the laws of the interface.
-- ActionQueue: ee/control/actionqueue/actionqueue.go. It performs the actions that the control
--   server sends and records them in a key-value store, which is a parameter; `update` is `Update`,
--   `update_one` a round of its loop, `cleanup_actions` and `run_cleanup` the cleanup.
-- SendBuffer: pkg/sendbuffer/sendbuffer.go, the bounded buffer of the log shipper. SendBuffer has
--   the buffer and `write`, `delete_all_data`, `copy_logs`, `send_and_purge`; SendBuffer/Update has
--   `UpdateData`, SendBuffer/Drain has `Drain` and `Run`. SendBuffer/Interleave lets other
--   goroutines call methods while a send is under way; a send that panics ends `Drain` and `Run`
--   with a result of its own.
-- Control: ee/control/control.go, the control service: `fetch` is `Fetch`, `fetch_one` a round of its
--   loop, `fetch_and_update` and `update` the methods of these names, `start_loop` the loop of
--   `Start`. Consumers and subscribers call back into the part of the service that its mutexes
--   protect, `Shared`; the action queue above is one of the consumers.
-- History: pkg/osquery/runtime/history, the last ten instances of osquery and their copy in a
--   key-value store. History/Entry is instance.go; `new_instance`, `set_connected`, `set_exited`
--   are the methods of these names, `mark_loop` the loop that the last two share. A restart
--   reads texts back as the codec coerces them (History/Coerce), since encoding/json writes U+FFFD for
--   what is not UTF-8.
-- Publish: pkg/osquery/extension.go, the buffered logs of osquery: `write_buffered_logs` and
--   `purge_buffered_logs` are `writeBufferedLogsForType` and `purgeBufferedLogsForType`,
--   Publish/Reenroll is `writeLogsWithReenroll`, Publish/State is
--   pkg/osquery/log_publication_state.go. Publish/Laws says what is relied on in a store, and
--   Publish/InMemory that the in-memory store has it.
-- Flags: ee/agent/flags, the flag controller. Flags/Values is the value of a flag from its default,
--   the control server and an override (flag_value_*.go); Flags/Switches and Flags/Settings list the
--   flags; `flag_value` at a flag is its getter, `set_flag` its setter, `update` the method `Update`.
--   Flags/Override has the timer of an override and the lock as steps. A consumer of the control
--   service calls `Update`; the store is a parameter, and the in-memory store fills it.
-- Flatten: ee/dataflatten/flatten.go, which turns nested data into rows of paths and values:
--   `flatten` and `flatten_each` are `Flatten` and `FlattenEach`, `descend` and
--   `descend_maybe_plist` the methods of these names. Flatten/Tree is the data, Flatten/Query the
--   terms of a query, Flatten/Texts what is used of the package strings.
-- Dedup: pkg/log/dedup/dedup_middleware.go, the engine that suppresses bursts of equal log records:
--   `handle_record` is `handleRecord` and `perform_cleanup` is `performCleanup`.
-- Rungroup: pkg/rungroup/rungroup.go, which runs the actors of the process: `Run` is a step relation,
--   `RunStep` for its goroutine and its timers and `ActorStep` for the actors.
-- Backoff: pkg/backoff/backoff.go, which tries a call again: `run` and `try_run` are `Run` and `try`.
--
-- Concurrency. A mutex that a method holds from end to end makes the method one step. Where the
-- code lets go of a lock in the middle, as `sendAndPurge` does while it sends, an argument of the
-- definition says what happens to the shared state there; the theorems range over such arguments.
--
-- Bounds and fuel. Lengths and sizes are natural numbers with no bound: they count bytes in memory.
-- The sequence of the in-memory store wraps at 2 ^ 64. A loop recurs on its list, or on the rounds that
-- the program itself counts (`maxDrainSends`, ticks of a timer). Two definitions are on fuel:
-- `descend_maybe_plist`, for plists inside plists, each a unit, so that one more than their depth is
-- enough; and `try_run`, for attempts, of which there are at most as many as the program allows.
--
-- Parameters. encoding/json, the clock, the network, actors, consumers and other callbacks are
-- arguments, with hypotheses only where a theorem names them. A panic is `none` or a result of its
-- own. Loggers, spans and metrics are left out: they do not act on the state.
--
-- Not modelled: the osquery tables, the desktop process, the autoupdater, packaging, and the
-- platform glue; they are mostly calls of the operating system or of third-party libraries.
pub mod ActionQueue
pub mod Backoff
pub mod Base
pub mod Control
pub mod Dedup
pub mod Flags
pub mod Flatten
pub mod History
pub mod Publish
pub mod Rungroup
pub mod SendBuffer
pub mod Store
