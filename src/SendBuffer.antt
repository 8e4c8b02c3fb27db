-- ===== src/SendBuffer.antt =====
-- pkg/sendbuffer/sendbuffer.go: the bounded buffer of log lines that the log shipper writes to and
-- that a goroutine ships in batches. `[]byte` is a list of bytes. A method on `*SendBuffer` returns
-- the new record, and `none` stands for a panic. `sendMutex` is the field `send_locked`;
-- `writeMutex` makes each method below one step. The logger and the clock are left out.
-- `-` on sizes stops at 0: the subtrahend is never larger (child `Size`).
pub mod Size
pub mod Write
pub mod Copy
pub mod Update
pub mod Send
pub mod Interleave
pub mod Drain
mod Examples
pub use launcher.Base.{Bytes}
use launcher.Base.{
  ℕ, zero, suc, ◌+◌, ◌-◌, ◌*◌, Bool, true, false, ◌||◌, Option, none, some, List, [], ◌∷◌, ◌++◌,
  ltb, nat_eq, if◌then◌else◌, length, drop,
}

-- `maxWriteBytes`
abbrev pub max_write_bytes : ℕ
max_write_bytes = 8 * 1024

pub record SendBuffer : Type 0 where
  pub logs : List Bytes
  pub size : ℕ
  pub logs_just_purged : Bool
  pub send_locked : Bool
  pub is_sending : Bool
  pub max_storage_size_bytes : ℕ
  pub max_send_size_bytes : ℕ
  pub max_drain_sends : ℕ

-- `New` with the default options
unfoldable pub new : SendBuffer
new = record {
  logs = [];
  size = 0;
  logs_just_purged = false;
  send_locked = false;
  is_sending = false;
  max_storage_size_bytes = 1024 * 1024;
  max_send_size_bytes = 512 * 1024;
  max_drain_sends = 5;
}

-- the loop of `deleteLogs`, which panics past the end
unfoldable pub size_deleted : ℕ → List Bytes → Option ℕ
size_deleted zero logs = some 0
size_deleted (suc n) [] = none
size_deleted (suc n) (l ∷ logs) = elim (size_deleted n logs) [
  | none ↦ none
  | some s ↦ some (length l + s)
]

unfoldable pub delete_logs : ℕ → SendBuffer → Option SendBuffer
delete_logs to_index sb = elim (size_deleted to_index sb.logs) [
  | none ↦ none
  | some s ↦ some (record sb { logs = drop to_index sb.logs; size = sb.size - s })
]

-- the purge of `Write`
purge : SendBuffer → Option SendBuffer
unfolding delete_logs
purge sb = elim (delete_logs (length sb.logs) sb) [
  | none ↦ none
  | some sb' ↦ some (record sb' { logs_just_purged = true })
]

-- `Write`; its first result, `len(in)`, and its nil error are the same on every branch
unfoldable pub write : Bytes → SendBuffer → Option SendBuffer
unfolding purge
write input sb =
    if nat_eq (length input) 0
    then some sb
    else if ltb max_write_bytes (length input)
    then some sb
    else if ltb sb.max_storage_size_bytes (length input + sb.size)
    then purge sb
    else some (record sb { logs = sb.logs ++ input ∷ []; size = sb.size + length input })

unfoldable pub delete_all_data : SendBuffer → SendBuffer
delete_all_data sb = record sb { logs = []; size = 0 }

-- the loop of `copyLogs`: how many logs are copied, and the bytes written. A write to a
-- `bytes.Buffer` returns no error.
unfoldable pub copy_from : ℕ → ℕ → List Bytes → ℕ × Bytes
copy_from max size [] = (0, [])
copy_from max size (l ∷ logs) =
    let rest = copy_from max (length l + size) logs in
    if ltb max (length l + size) then (0, []) else (suc rest.0, l ++ rest.1)

unfoldable pub copy_logs : ℕ → SendBuffer → ℕ × Bytes
unfolding copy_from
copy_logs max_size sb = copy_from max_size 0 sb.logs

-- What happens from the end of `copyLogs` until the purge takes `writeMutex`: the sender answers
-- (true for a nil error), and other goroutines may use the buffer and the rest of the world, `W`.
abbrev pub Network : Type 0 → Type 0
Network W = Bytes → SendBuffer → W → Bool × SendBuffer × W

pub data SendResult : Type 0 where
  sent : ℕ → SendResult
  send_failed : SendResult
  panicked : SendResult

-- the end of `sendAndPurge`, after a successful send
unfoldable pub finish_send : ℕ → SendBuffer → SendResult × SendBuffer
unfolding delete_logs
finish_send last_key sb =
    if sb.logs_just_purged
    then (sent 0, record sb { logs_just_purged = false; send_locked = false })
    else elim (delete_logs last_key sb) [
      | none ↦ (panicked, record sb { send_locked = false })
      | some sb' ↦ (sent last_key, record sb' { send_locked = false })
    ]

module _ {W : Type 0} where
  unfoldable pub after_network : ℕ → Bool × SendBuffer × W → SendResult × SendBuffer × W
  unfolding finish_send
  after_network last_key (true, sb, w) = let (r, sb') = finish_send last_key sb in (r, sb', w)
  after_network last_key (false, sb, w) = (send_failed, record sb { send_locked = false }, w)

  unfoldable pub send_and_purge : Network W → SendBuffer → W → SendResult × SendBuffer × W
  unfolding copy_logs after_network
  send_and_purge network sb w =
      if sb.send_locked
      then (sent 0, sb, w)
      else let (last_key, buff) = copy_logs sb.max_send_size_bytes sb in
        if nat_eq (length buff) 0
        then (sent 0, sb, w)
        else after_network last_key (network buff (record sb { send_locked = true }) w)
