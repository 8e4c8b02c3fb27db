-- ===== src/SendBuffer/Update.antt =====
-- `UpdateData` of pkg/sendbuffer/sendbuffer.go: rewrite each log in place, mark those to drop, and
-- then delete the marked indexes from left to right. `f` returns `none` for an error.
pub mod Spec
use launcher.Base.{
  ℕ, zero, suc, ◌+◌, ◌-◌, Bool, true, false, Option, none, some, List, [], ◌∷◌, ltb, nat_eq,
  if◌then◌else◌, length,
}
use launcher.SendBuffer.{Bytes, SendBuffer}

-- The tests on the new length. The results: what stays at the index, the size, and whether the
-- index is marked for deletion.
place : SendBuffer → ℕ → Bytes → Bytes × ℕ × Bool
place sb size out =
    if nat_eq (length out) 0
    then ([], size, true)
    else if ltb sb.max_send_size_bytes (length out)
    then ([], size, true)
    else if ltb sb.max_storage_size_bytes (length out + size)
    then ([], size, true)
    else (out, size + length out, false)

update_entry : (Bytes → Option Bytes) → SendBuffer → ℕ → Bytes → Bytes × ℕ × Bool
unfolding place
update_entry f sb size l = elim (f l) [
  | none ↦ (l, size, false)
  | some out ↦ place sb (size - length l) out
]

-- the first loop, from index `i` on: the logs, the size and `indexesToDelete`
update_loop : (Bytes → Option Bytes) → SendBuffer → ℕ → ℕ → List Bytes → List Bytes × ℕ × List ℕ
update_loop f sb i size [] = ([], size, [])
update_loop f sb i size (l ∷ logs) =
    let (entry, size', marked) = update_entry f sb size l in
    let (logs', size'', indexes) = update_loop f sb (suc i) size' logs in
    (entry ∷ logs', size'', if marked then i ∷ indexes else indexes)

-- `append(logs[:k], logs[k+1:]...)`
delete_at : ℕ → List Bytes → Option (List Bytes)
delete_at k [] = none
delete_at zero (l ∷ logs) = some logs
delete_at (suc k) (l ∷ logs) = elim (delete_at k logs) [ none ↦ none | some rest ↦ some (l ∷ rest) ]

-- the second loop, from its round `i` on; an index below 0 or past the end panics
delete_marked : ℕ → List ℕ → List Bytes → Option (List Bytes)
delete_marked i [] logs = some logs
delete_marked i (x ∷ indexes) logs = if ltb x i then none else elim (delete_at (x - i) logs) [
  | none ↦ none
  | some logs' ↦ delete_marked (suc i) indexes logs'
]

unfoldable pub update_data : (Bytes → Option Bytes) → SendBuffer → Option SendBuffer
unfolding update_loop update_entry delete_marked delete_at
update_data f sb =
    let (logs, size, indexes) = update_loop f sb 0 sb.size sb.logs in
    elim (delete_marked 0 indexes logs) [
      | none ↦ none
      | some logs' ↦ some (record sb { logs = logs'; size = size })
    ]
