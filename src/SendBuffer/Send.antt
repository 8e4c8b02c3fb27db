-- ===== src/SendBuffer/Send.antt =====
-- `sendAndPurge` of pkg/sendbuffer/sendbuffer.go, where nobody else uses the buffer while the
-- network is busy, and what a stale mark of a purge does to it.
use launcher.Base.{
  ℕ, zero, suc, ◌+◌, ◌-◌, ◌≤◌, ◌<◌, ◌≡◌, refl, ap, Bool, true, false, some, List, [], ◌∷◌, ◌++◌,
  arith, length, if◌then◌else◌, take, drop, flatten, append-nil,
}
use launcher.SendBuffer.{
  Bytes, SendBuffer, Network, sent, send_failed, copy_logs, finish_send, after_network,
  send_and_purge, write, max_write_bytes,
}
use launcher.SendBuffer.Write.{write_lem}
use launcher.SendBuffer.Size.{IsValid, IsSendable, total, delete_logs_lem}
use launcher.SendBuffer.Copy.{copy_logs_lem, copy_logs-le, copy_logs-progress}

-- A network that answers by `answer`, keeps a record of what it accepted, and during which nobody
-- uses the buffer.
abbrev pub quiet : (Bytes → Bool) → Network (List Bytes)
quiet answer out sb accepted =
    (answer out, sb, if answer out then accepted ++ out ∷ [] else accepted)

-- The buffer behind a successful send of its first `n` logs.
abbrev pub shipped : ℕ → SendBuffer → SendBuffer
shipped n sb = record sb {
  logs = drop n sb.logs;
  size = sb.size - total (take n sb.logs);
  send_locked = false;
}

pub finish_send_lem :
    (n : ℕ) (sb : SendBuffer)
    → n ≤ length sb.logs
    → sb.logs_just_purged ≡ false
    → finish_send n sb ≡ (sent n, shipped n sb)
unfolding finish_send
finish_send_lem n sb h p = ground (arith, delete_logs_lem n sb)

module _ {W : Type 0} (network : Network W) (sb : SendBuffer) (w : W) where
  -- With the lock held by another send, nothing happens.
  pub send_and_purge-locked : sb.send_locked ≡ true → send_and_purge network sb w ≡ (sent 0, sb, w)
  unfolding send_and_purge
  send_and_purge-locked h = rw h

  pub send_and_purge-empty :
      length (copy_logs sb.max_send_size_bytes sb).1 ≡ 0
      → send_and_purge network sb w ≡ (sent 0, sb, w)
  unfolding send_and_purge
  send_and_purge-empty h = ground arith

  pub send_and_purge-busy :
      sb.send_locked ≡ false
      → 0 < length (copy_logs sb.max_send_size_bytes sb).1
      → let (n, out) = copy_logs sb.max_send_size_bytes sb in
        send_and_purge network sb w
        ≡ after_network n (network out (record sb { send_locked = true }) w)
  unfolding send_and_purge
  send_and_purge-busy l h = ground arith

module _ (answer : Bytes → Bool) (sb : SendBuffer) (accepted : List Bytes) where
  -- A send that the sender accepts, in a buffer with no mark of a purge: the first logs are handed
  -- over in one piece and leave the buffer, and the result is their number.
  pub send_and_purge-accepted :
      IsSendable sb
      → 0 < length sb.logs
      → sb.logs_just_purged ≡ false
      → sb.send_locked ≡ false
      → answer (copy_logs sb.max_send_size_bytes sb).1 ≡ true
      → let n = (copy_logs sb.max_send_size_bytes sb).0 in
        send_and_purge (quiet answer) sb accepted
        ≡ (sent n, shipped n sb, accepted ++ flatten (take n sb.logs) ∷ [])
  send_and_purge-accepted v busy clean free yes_sent =
      let (n, out) = copy_logs sb.max_send_size_bytes sb in
      let locked = record sb { send_locked = true } in
      rw
        (
          send_and_purge-busy (quiet answer) sb accepted free (copy_logs-progress sb v busy).1,
          yes_sent,
        )
        (unfold after_network in
          ground (
            arith,
            finish_send_lem n locked (copy_logs-le sb.max_send_size_bytes sb) clean,
            (copy_logs_lem sb.max_send_size_bytes sb).0,
          ))

  -- A send that the sender refuses leaves the buffer as it was.
  pub send_and_purge-refused :
      IsSendable sb
      → 0 < length sb.logs
      → sb.send_locked ≡ false
      → answer (copy_logs sb.max_send_size_bytes sb).1 ≡ false
      → send_and_purge (quiet answer) sb accepted ≡ (send_failed, sb, accepted)
  send_and_purge-refused v busy free refused =
      rw
        (
          send_and_purge-busy (quiet answer) sb accepted free (copy_logs-progress sb v busy).1,
          refused,
        )
        (unfold after_network in ground (arith, free))

  -- A mark of a purge that is older than the send: the sender accepts the logs, and all of them
  -- stay in the buffer. The mark is cleared, so the next send hands the same bytes over again.
  pub send_and_purge-stale_mark :
      IsSendable sb
      → 0 < length sb.logs
      → sb.logs_just_purged ≡ true
      → sb.send_locked ≡ false
      → answer (copy_logs sb.max_send_size_bytes sb).1 ≡ true
      → let n = (copy_logs sb.max_send_size_bytes sb).0 in
        send_and_purge (quiet answer) sb accepted ≡ (
          sent 0,
          record sb { logs_just_purged = false },
          accepted ++ flatten (take n sb.logs) ∷ [],
        )
  send_and_purge-stale_mark v busy marked free yes_sent =
      rw
        (
          send_and_purge-busy (quiet answer) sb accepted free (copy_logs-progress sb v busy).1,
          yes_sent,
        )
        (unfold after_network finish_send in
          ground (arith, free, marked, (copy_logs_lem sb.max_send_size_bytes sb).0))

take_one : (x : Bytes) (n : ℕ) → n ≤ 1 → 0 < n → flatten (take n (x ∷ [])) ≡ x
unfolding flatten
take_one x zero h p = absurd (omega arith)
take_one x (suc zero) h p = append-nil x
take_one x (suc (suc n)) h p = absurd (omega arith)

one_batch :
    (x : Bytes) (sb : SendBuffer)
    → IsSendable sb
    → sb.logs ≡ x ∷ []
    → 0 < length sb.logs
    → flatten (take (copy_logs sb.max_send_size_bytes sb).0 (x ∷ [])) ≡ x
one_batch x sb v one busy =
    take_one x (copy_logs sb.max_send_size_bytes sb).0
      (omega (arith, ap (λ (l : List Bytes). length l) one, copy_logs-le sb.max_send_size_bytes sb))
      (copy_logs-progress sb v busy).0

-- A write that does not fit purges the buffer and marks it, also with no send under way. A log that
-- is written next is then handed to the sender twice, although the sender accepted it at once.
pub write-send_and_purge-resends :
    (sb sb₁ sb₂ : SendBuffer) (big x : Bytes)
    → IsValid sb
    → IsSendable sb
    → sb.send_locked ≡ false
    → length big ≤ max_write_bytes
    → sb.max_storage_size_bytes < length big + sb.size
    → 0 < length big
    → 0 < length x
    → length x ≤ max_write_bytes
    → length x ≤ sb.max_storage_size_bytes
    → write big sb ≡ some sb₁
    → write x sb₁ ≡ some sb₂
    → let (_, sb₃, accepted) = send_and_purge (quiet (λ out. true)) sb₂ [] in
      (send_and_purge (quiet (λ out. true)) sb₃ accepted).2 ≡ x ∷ x ∷ []
write-send_and_purge-resends sb sb₁ sb₂ big x v s free big_ok full big_some x_some x_ok fits e₁ e₂ =
    let one : List Bytes = x ∷ [] in
    let marked : SendBuffer = record sb { logs = one; size = length x; logs_just_purged = true } in
    let clean : SendBuffer = record marked { logs_just_purged = false } in
    let empty : SendBuffer = record sb { logs = []; size = 0; logs_just_purged = true } in
    let p₁ : empty ≡ sb₁ = ground (arith, write_lem big sb v) in
    let p₂ : marked ≡ sb₂ = ground (arith, write_lem x empty) in
    let s₁ : IsSendable marked = ground (arith, s.configured) in
    let s₂ : IsSendable clean = ground (arith, s.configured) in
    rw
      (
        ← p₂,
        send_and_purge-stale_mark (λ out. true) marked [] s₁ (omega arith) refl free refl,
        one_batch x marked s₁ refl (omega arith),
        send_and_purge-accepted (λ out. true) clean (x ∷ []) s₂ (omega arith) refl free refl,
      )
      (ap (λ y. x ∷ y ∷ []) (one_batch x clean s₂ refl (omega arith)))
