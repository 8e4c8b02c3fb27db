-- ===== src/SendBuffer/Write.antt =====
-- `Write` of pkg/sendbuffer/sendbuffer.go.
use launcher.Base.{
  ◌+◌, ◌-◌, ◌≡◌, true, some, [], ◌∷◌, ◌++◌, arith, length, nat_eq, ltb, if◌then◌else◌,
}
use launcher.SendBuffer.{Bytes, SendBuffer, max_write_bytes, purge, write}
use launcher.SendBuffer.Size.{
  IsValid, IsSendable, IsEntry, total, total-append, size_deleted-length, drop-length, All-append,
}

purge_lem :
    (sb : SendBuffer)
    → purge sb
      ≡ some (record sb { logs = []; size = sb.size - total sb.logs; logs_just_purged = true })
unfolding purge
purge_lem sb = ground (arith, size_deleted-length sb.logs, drop-length sb.logs)

-- What `Write` stores: nothing for an input that is empty or too large, the input behind the
-- others where it fits, and else nothing at all.
abbrev pub written : Bytes → SendBuffer → SendBuffer
written input sb =
    if nat_eq (length input) 0
    then sb
    else if ltb max_write_bytes (length input)
    then sb
    else if ltb sb.max_storage_size_bytes (length input + total sb.logs)
    then record sb { logs = []; size = 0; logs_just_purged = true }
    else record sb { logs = sb.logs ++ input ∷ []; size = total (sb.logs ++ input ∷ []) }

-- In a buffer whose size is the sum of its lengths, `Write` does not panic and leaves the buffer as
-- `written` says: unchanged for an input that is empty or longer than `maxWriteBytes`, with the
-- input appended if it fits the storage limit, and else emptied with the purge marked.
pub write_lem :
    (input : Bytes) (sb : SendBuffer) → IsValid sb → write input sb ≡ some (written input sb)
unfolding write
write_lem input sb v = ground (arith, purge_lem sb, total-append sb.logs (input ∷ []))

pub write-IsValid :
    (input : Bytes) (sb sb' : SendBuffer) → IsValid sb → write input sb ≡ some sb' → IsValid sb'
write-IsValid input sb sb' v e =
    ground (arith, write_lem input sb v, total-append sb.logs (input ∷ []))

pub write-IsSendable :
    (input : Bytes) (sb sb' : SendBuffer)
    → IsSendable sb
    → write input sb ≡ some sb'
    → IsSendable sb'
unfolding write
write-IsSendable input sb sb' v e =
    ground
      (arith, purge_lem sb, All-append (IsEntry sb.max_send_size_bytes) sb.logs input v.entries)
