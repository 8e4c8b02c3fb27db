-- ===== src/SendBuffer/Copy.antt =====
-- `copyLogs` of pkg/sendbuffer/sendbuffer.go: the batch that one send ships.
use launcher.Base.{
  ℕ, suc, ◌+◌, ◌≤◌, ◌<◌, ◌≡◌, refl, ◌⊎◌, inl, List, [], ◌∷◌, flatten, arith, length, take,
  length-append, All,
}
use launcher.SendBuffer.{Bytes, SendBuffer, copy_from, copy_logs}
use launcher.SendBuffer.Size.{total, IsSendable, IsEntry}

-- How many of the logs go into a batch that holds `size` bytes already.
abbrev pub batch : ℕ → ℕ → List Bytes → ℕ
batch max size logs = (copy_from max size logs).0

pub batch-le-length : (max size : ℕ) (logs : List Bytes) → batch max size logs ≤ length logs
unfolding copy_from
batch-le-length max size [] = omega arith
batch-le-length max size (l ∷ logs) = ground (arith, batch-le-length max (length l + size) logs)

pub copied-eq-take :
    (max size : ℕ) (logs : List Bytes)
    → (copy_from max size logs).1 ≡ flatten (take (batch max size logs) logs)
unfolding copy_from flatten
copied-eq-take max size [] = refl
copied-eq-take max size (l ∷ logs) = ground (arith, copied-eq-take max (length l + size) logs)

pub batch_fits :
    (max size : ℕ) (logs : List Bytes)
    → size ≤ max
    → size + total (take (batch max size logs) logs) ≤ max
unfolding copy_from
batch_fits max size [] h = omega arith
batch_fits max size (l ∷ logs) h = ground (arith, batch_fits max (length l + size) logs)

pub batch_full :
    (max size : ℕ) (logs : List Bytes)
    → (batch max size logs ≡ length logs)
      ⊎ (max < size + total (take (suc (batch max size logs)) logs))
unfolding copy_from
batch_full max size [] = inl refl
batch_full max size (l ∷ logs) = ground (arith, batch_full max (length l + size) logs)

-- The batch of `copyLogs` is the first logs of the buffer, in order. They fit the limit, and they
-- are as many as do: either all logs of the buffer, or one more would exceed the limit.
pub copy_logs_lem :
    (max : ℕ) (sb : SendBuffer)
    → let (n, out) = copy_logs max sb in
      (out ≡ flatten (take n sb.logs))
      × (total (take n sb.logs) ≤ max)
      × ((n ≡ length sb.logs) ⊎ (max < total (take (suc n) sb.logs)))
unfolding copy_logs
copy_logs_lem max sb = (
  copied-eq-take max 0 sb.logs,
  omega (arith, batch_fits max 0 sb.logs),
  ground (arith, batch_full max 0 sb.logs),
)

pub length-flatten : (logs : List Bytes) → length (flatten logs) ≡ total logs
unfolding flatten
length-flatten [] = refl
length-flatten (l ∷ logs) = omega (arith, length-append l (flatten logs), length-flatten logs)

pub copy_logs-le : (max : ℕ) (sb : SendBuffer) → (copy_logs max sb).0 ≤ length sb.logs
unfolding copy_logs
copy_logs-le max sb = batch-le-length max 0 sb.logs

pub copy_logs-length :
    (max : ℕ) (sb : SendBuffer)
    → length (copy_logs max sb).1 ≡ total (take (copy_logs max sb).0 sb.logs)
copy_logs-length max sb =
    let (copied, _, _) = copy_logs_lem max sb in
    rw copied (length-flatten (take (copy_logs max sb).0 sb.logs))

-- A buffer that holds anything ships at least one log, and at least one byte.
pub copy_logs-progress :
    (sb : SendBuffer)
    → IsSendable sb
    → 0 < length sb.logs
    → (0 < (copy_logs sb.max_send_size_bytes sb).0)
      × (0 < length (copy_logs sb.max_send_size_bytes sb).1)
unfolding copy_logs copy_from
copy_logs-progress sb v h = go sb.logs v.entries h
  where
    go :
        (logs : List Bytes)
        → All (IsEntry sb.max_send_size_bytes) logs
        → 0 < length logs
        → (0 < (copy_from sb.max_send_size_bytes 0 logs).0)
          × (0 < length (copy_from sb.max_send_size_bytes 0 logs).1)
    go [] e h = absurd (omega arith)
    go (l ∷ logs) e h =
        ground (arith, e, length-append l (copy_from sb.max_send_size_bytes (length l + 0) logs).1)
