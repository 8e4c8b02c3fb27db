-- ===== src/SendBuffer/Interleave.antt =====
-- `sendAndPurge` of pkg/sendbuffer/sendbuffer.go while other goroutines use the buffer.
use launcher.Base.{
  ℕ, ◌≤◌, ◌<◌, ◌≡◌, ap, ◌⊎◌, inl, inr, Bool, true, false, Option, some, List, [], ◌∷◌, ◌++◌, arith,
  length, if◌then◌else◌, drop, append_assoc, append-nil, length-append, ◌∙◌, drop-append,
  Bool-cases, ltb, not, ◌&&◌, ◌+◌, none,
}
use launcher.SendBuffer.{
  Bytes, SendBuffer, Network, sent, panicked, copy_logs, finish_send, after_network, send_and_purge,
  write, max_write_bytes, delete_all_data,
}
use launcher.SendBuffer.Size.{
  IsValid, IsSendable, delete_logs_lem, delete_logs-beyond, total-take-drop, total-append,
}
use launcher.SendBuffer.Write.{write-IsValid, write_lem, written}
use launcher.SendBuffer.Update.{update_data}
use launcher.SendBuffer.Update.Spec.{update_data-IsValid}
use launcher.SendBuffer.Copy.{copy_logs-le, copy_logs-progress}
use launcher.SendBuffer.Send.{finish_send_lem, send_and_purge-busy}

-- What other goroutines do to the buffer: calls of its methods, one at a time.
pub data Step : SendBuffer → SendBuffer → Type 0 where
  writes : {sb sb' : SendBuffer} (input : Bytes) → write input sb ≡ some sb' → Step sb sb'
  updates :
      {sb sb' : SendBuffer} (f : Bytes → Option Bytes) → update_data f sb ≡ some sb' → Step sb sb'
  deletes : {sb sb' : SendBuffer} → delete_all_data sb ≡ sb' → Step sb sb'

pub data Reach (sb : SendBuffer) : SendBuffer → Type 0 where
  here : Reach sb sb
  next : {t u : SendBuffer} → Reach sb t → Step t u → Reach sb u

pub Step-IsValid : {sb sb' : SendBuffer} → Step sb sb' → IsValid sb → IsValid sb'
Step-IsValid {sb} {sb'} (writes input e) v = write-IsValid input sb sb' v e
Step-IsValid {sb} {sb'} (updates f e) v = update_data-IsValid f sb sb' v e
Step-IsValid {sb} {sb'} (deletes e) v = unfold delete_all_data in ground arith

pub Reach-IsValid : {sb sb' : SendBuffer} → Reach sb sb' → IsValid sb → IsValid sb'
Reach-IsValid here v = v
Reach-IsValid (next r s) v = Step-IsValid s (Reach-IsValid r v)

finish_send-IsValid : (n : ℕ) (sb : SendBuffer) → IsValid sb → IsValid (finish_send n sb).1
unfolding finish_send
finish_send-IsValid n sb v = elim (Bool-cases (ltb (length sb.logs) n)) [
  | inl beyond ↦ ground (arith, delete_logs-beyond n sb)
  | inr within ↦ ground (arith, delete_logs_lem n sb, total-take-drop n sb.logs)
]

after_network-IsValid :
    {W : Type 0} (n : ℕ) (r : Bool × SendBuffer × W) → IsValid r.1 → IsValid (after_network n r).1
unfolding after_network
after_network-IsValid n (true, sb, w) v = finish_send-IsValid n sb v
after_network-IsValid n (false, sb, w) v = ground arith

-- `sendAndPurge` keeps the accounting of the buffer, whatever the sender answers and whatever other
-- goroutines do to the buffer in the meantime.
pub send_and_purge-IsValid :
    {W : Type 0} (network : Network W) (sb : SendBuffer) (w : W)
    → ((out : Bytes) (t : SendBuffer) → Reach t (network out t w).1)
    → IsValid sb
    → IsValid (send_and_purge network sb w).1
unfolding send_and_purge
send_and_purge-IsValid network sb w others v =
    let (n, out) = copy_logs sb.max_send_size_bytes sb in
    let locked = record sb { send_locked = true } in
    let v' : IsValid locked = ground arith in
    ground
      (arith, after_network-IsValid n (network out locked w) (Reach-IsValid (others out locked) v'))

-- Writes by other goroutines, one after the other.
unfoldable pub write_all : List Bytes → SendBuffer → Option SendBuffer
write_all [] sb = some sb
write_all (input ∷ inputs) sb = elim (write input sb) [ none ↦ none | some t ↦ write_all inputs t ]

-- `Write` stores an input if it has bytes, and no more than its limit.
unfoldable pub is_stored : Bytes → Bool
is_stored input = ltb 0 (length input) && not (ltb max_write_bytes (length input))

unfoldable pub stored : List Bytes → List Bytes
unfolding is_stored
stored [] = []
stored (input ∷ inputs) = let rest = stored inputs in if is_stored input then input ∷ rest else rest

-- One of the inputs does not fit in the `max` bytes any more, of which `size` are taken at first.
unfoldable pub overflows : ℕ → ℕ → List Bytes → Bool
unfolding is_stored
overflows max size [] = false
overflows max size (input ∷ inputs) =
    let same = overflows max size inputs in
    let longer = overflows max (size + length input) inputs in
    if is_stored input then (if ltb max (length input + size) then true else longer) else same

-- What writes of the inputs leave of `sb`: they all fit, and those that are stored are behind the
-- logs; or one did not fit, and the buffer is marked as purged.
abbrev Written : List Bytes → SendBuffer → SendBuffer → Type 0
Written inputs sb t =
    ((overflows sb.max_storage_size_bytes sb.size inputs ≡ false)
      × (t.logs ≡ sb.logs ++ stored inputs)
      × (t.logs_just_purged ≡ sb.logs_just_purged))
    ⊎ ((overflows sb.max_storage_size_bytes sb.size inputs ≡ true) × (t.logs_just_purged ≡ true))

Written-write :
    (input : Bytes) (inputs : List Bytes) (sb t : SendBuffer)
    → IsValid sb
    → Written inputs (written input sb) t
    → Written (input ∷ inputs) sb t
unfolding overflows stored is_stored
Written-write input inputs sb t v (inl (fits, same, mark)) = ground (
  arith,
  fits,
  same,
  mark,
  v.counted,
  total-append sb.logs (input ∷ []),
  append_assoc sb.logs (input ∷ []) (stored inputs),
)
Written-write input inputs sb t v (inr (over, mark)) =
    ground (arith, over, mark, v.counted, total-append sb.logs (input ∷ []))

write_all-Written :
    (inputs : List Bytes) (sb t : SendBuffer)
    → IsValid sb
    → write_all inputs sb ≡ some t
    → Written inputs sb t
unfolding write_all overflows stored
write_all-Written [] sb t v e = ground (arith, e, append-nil sb.logs)
write_all-Written (input ∷ inputs) sb t v e =
    let once = write_lem input sb v in
    Written-write input inputs sb t v (
      write_all-Written inputs (written input sb) t
        (write-IsValid input sb (written input sb) v once) (ground (arith, e, once)))

finish_send-Written :
    (n : ℕ) (inputs : List Bytes) (sb t : SendBuffer)
    → n ≤ length sb.logs
    → sb.logs_just_purged ≡ false
    → Written inputs sb t
    → let (result, sb') = finish_send n t in
      ((overflows sb.max_storage_size_bytes sb.size inputs ≡ false)
        × (result ≡ sent n)
        × (sb'.logs ≡ drop n sb.logs ++ stored inputs))
      ⊎ ((overflows sb.max_storage_size_bytes sb.size inputs ≡ true)
          × (result ≡ sent 0)
          × (sb'.logs ≡ t.logs)
          × (sb'.logs_just_purged ≡ false))
finish_send-Written n inputs sb t h clean (inl (fits, same, mark)) =
    let within : n ≤ length t.logs =
      rw same (omega (arith, h, length-append sb.logs (stored inputs))) in
    let deleted = finish_send_lem n t within (mark ∙ clean) in
    inl (
      fits,
      ap (λ r. r.0) deleted,
      ap (λ r. r.1.logs) deleted ∙ ap (drop n) same ∙ drop-append n sb.logs (stored inputs) h,
    )
finish_send-Written n inputs sb t h clean (inr (over, purged)) =
    inr (unfold finish_send in ground arith)

-- A valid buffer with no purge marked is not locked and has logs to send, the sender accepts them,
-- and in the meantime other goroutines write `inputs`, and do nothing else. Then `sendAndPurge` does
-- not panic. If each input fits the storage limit at its turn, exactly the logs that were sent are
-- gone: the others stay in order, and the stored inputs are behind them. If an input does not fit,
-- its write has purged the buffer: then no log is deleted and the mark of the purge is cleared.
pub send_and_purge-write_all :
    {W : Type 0} (network : Network W) (inputs : List Bytes) (sb t : SendBuffer) (w w' : W)
    → IsValid sb
    → sb.logs_just_purged ≡ false
    → sb.send_locked ≡ false
    → 0 < length (copy_logs sb.max_send_size_bytes sb).1
    → write_all inputs (record sb { send_locked = true }) ≡ some t
    → network (copy_logs sb.max_send_size_bytes sb).1 (record sb { send_locked = true }) w
      ≡ (true, t, w')
    → let n = (copy_logs sb.max_send_size_bytes sb).0 in
      let (result, sb', _) = send_and_purge network sb w in
      ((overflows sb.max_storage_size_bytes sb.size inputs ≡ false)
        × (result ≡ sent n)
        × (sb'.logs ≡ drop n sb.logs ++ stored inputs))
      ⊎ ((overflows sb.max_storage_size_bytes sb.size inputs ≡ true)
          × (result ≡ sent 0)
          × (sb'.logs ≡ t.logs)
          × (sb'.logs_just_purged ≡ false))
send_and_purge-write_all network inputs sb t w w' v clean free some_out wrote answer =
    let locked = record sb { send_locked = true } in
    rw (send_and_purge-busy network sb w free some_out, answer)
      (unfold after_network in
        finish_send-Written (copy_logs sb.max_send_size_bytes sb).0 inputs locked t
          (copy_logs-le sb.max_send_size_bytes sb) clean
          (write_all-Written inputs locked t (ground arith) wrote))

-- If the buffer loses all its logs by `DeleteAllData` while a successful send is under way, and no
-- purge is marked, the deletion of the logs that were sent runs past the end: it panics.
pub send_and_purge-deleted :
    {W : Type 0} (network : Network W) (sb : SendBuffer) (w w' : W)
    → IsSendable sb
    → 0 < length sb.logs
    → sb.logs_just_purged ≡ false
    → sb.send_locked ≡ false
    → network (copy_logs sb.max_send_size_bytes sb).1 (record sb { send_locked = true }) w
      ≡ (true, delete_all_data (record sb { send_locked = true }), w')
    → (send_and_purge network sb w).0 ≡ panicked
send_and_purge-deleted network sb w w' v busy clean free answer =
    let (some_logs, some_out) = copy_logs-progress sb v busy in
    rw (send_and_purge-busy network sb w free some_out, answer)
      (unfold after_network finish_send delete_all_data in
        ground (
          arith,
          delete_logs-beyond (copy_logs sb.max_send_size_bytes sb).0
              (record sb { logs = []; size = 0; send_locked = true }),
        ))
