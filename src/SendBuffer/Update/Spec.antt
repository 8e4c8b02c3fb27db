-- ===== src/SendBuffer/Update/Spec.antt =====
-- What `UpdateData` does, in one pass: an entry whose update fails stays, one whose update fits
-- is replaced, and any other is dropped.
use launcher.Base.{
  ℕ, suc, ◌+◌, ◌-◌, ◌≤◌, ◌≡◌, refl, ap, ◌⊎◌, inl, inr, true, Option, some, List, [], ◌∷◌, ◌++◌,
  append_assoc, arith, length, if◌then◌else◌, Bool-cases, All, length-append,
}
use launcher.SendBuffer.{Bytes, SendBuffer}
use launcher.SendBuffer.Size.{IsValid, IsSendable, IsEntry, total}
use launcher.SendBuffer.Update.{
  place, update_entry, update_loop, delete_at, delete_marked, update_data,
}

delete_at_middle :
    (pre : List Bytes) (l : Bytes) (post : List Bytes)
    → delete_at (length pre) (pre ++ l ∷ post) ≡ some (pre ++ post)
unfolding delete_at
delete_at_middle [] l post = refl
delete_at_middle (x ∷ pre) l post = ground (arith, delete_at_middle pre l post)

module _ (f : Bytes → Option Bytes) (sb : SendBuffer) where
  -- The entries that stay, and the size behind them.
  pub kept : ℕ → List Bytes → List Bytes × ℕ
  unfolding update_entry
  kept size [] = ([], size)
  kept size (l ∷ logs) =
      let (entry, size', marked) = update_entry f sb size l in
      let (rest, size'') = kept size' logs in (if marked then rest else entry ∷ rest, size'')

  size-kept :
      (i size : ℕ) (logs : List Bytes) → (update_loop f sb i size logs).1 ≡ (kept size logs).1
  unfolding update_loop kept
  size-kept i size [] = refl
  size-kept i size (l ∷ logs) = size-kept (suc i) (update_entry f sb size l).1 logs

  -- From index `i` on, with the entries `pre` kept of those before and `j` dropped.
  delete_marked-update_loop :
      (pre : List Bytes) (i j size : ℕ) (logs : List Bytes)
      → i ≡ length pre + j
      → let (logs', _, indexes) = update_loop f sb i size logs in
        delete_marked j indexes (pre ++ logs') ≡ some (pre ++ (kept size logs).0)
  unfolding update_loop delete_marked kept
  delete_marked-update_loop pre i j size [] at = refl
  delete_marked-update_loop pre i j size (l ∷ logs) at =
      let (entry, size', marked) = update_entry f sb size l in
      let rest = (update_loop f sb (suc i) size' logs).0 in
      elim (Bool-cases marked) [
        | inl drops ↦ ground (
          arith,
          drops,
          (let e : i - j ≡ length pre = omega arith in
              ap (λ k. delete_at k (pre ++ entry ∷ rest)) e),
          delete_at_middle pre entry rest,
          delete_marked-update_loop pre (suc i) (suc j) size' logs (omega arith),
        )
        | inr stays ↦ ground (
          arith,
          stays,
          append_assoc pre (entry ∷ []) rest,
          append_assoc pre (entry ∷ []) (kept size' logs).0,
          delete_marked-update_loop (pre ++ entry ∷ []) (suc i) j size' logs
              (omega (arith, length-append pre (entry ∷ []))),
        )
      ]

  -- The deletion of the marked indexes from left to right does not panic, although each deletion
  -- moves the entries behind it: `UpdateData` leaves the entries of `kept`, in order, and its size.
  pub update_data_lem :
      let (logs, size) = kept sb.size sb.logs in
      update_data f sb ≡ some (record sb { logs = logs; size = size })
  unfolding update_data
  update_data_lem = ground (
    arith,
    size-kept 0 sb.size sb.logs,
    delete_marked-update_loop [] 0 0 sb.size sb.logs (omega arith),
  )

  entry_size :
      (size : ℕ) (l : Bytes)
      → length l ≤ size
      → let (entry, size', marked) = update_entry f sb size l in
        size' + length l ≡ size + (if marked then 0 else length entry)
  unfolding update_entry place
  entry_size size l h = ground arith

  kept_size :
      (size : ℕ) (logs : List Bytes)
      → total logs ≤ size
      → (kept size logs).1 + total logs ≡ size + total (kept size logs).0
  unfolding kept
  kept_size size [] h = omega arith
  kept_size size (l ∷ logs) h =
      let (entry, size', marked) = update_entry f sb size l in
      ground (arith, entry_size size l, kept_size size' logs)

  entry_bounded :
      (size : ℕ) (l : Bytes)
      → size ≤ sb.max_storage_size_bytes
      → (update_entry f sb size l).1 ≤ sb.max_storage_size_bytes
  unfolding update_entry place
  entry_bounded size l h = ground arith

  kept_bounded :
      (size : ℕ) (logs : List Bytes)
      → size ≤ sb.max_storage_size_bytes
      → (kept size logs).1 ≤ sb.max_storage_size_bytes
  unfolding kept
  kept_bounded size [] h = h
  kept_bounded size (l ∷ logs) h =
      kept_bounded (update_entry f sb size l).1 logs (entry_bounded size l h)

  placed_fits :
      (size : ℕ) (l : Bytes)
      → IsEntry sb.max_send_size_bytes l
      → let (entry, _, marked) = update_entry f sb size l in
        (marked ≡ true) ⊎ IsEntry sb.max_send_size_bytes entry
  unfolding update_entry place
  placed_fits size l h = ground arith

  kept_sendable :
      (size : ℕ) (logs : List Bytes)
      → All (IsEntry sb.max_send_size_bytes) logs
      → All (IsEntry sb.max_send_size_bytes) (kept size logs).0
  unfolding kept
  kept_sendable size [] h = h
  kept_sendable size (l ∷ logs) h =
      let (entry, size', marked) = update_entry f sb size l in
      ground (arith, placed_fits size l h.0, kept_sendable size' logs h.1)

pub update_data-IsValid :
    (f : Bytes → Option Bytes) (sb sb' : SendBuffer)
    → IsValid sb
    → update_data f sb ≡ some sb'
    → IsValid sb'
update_data-IsValid f sb sb' v e =
    ground (
      arith,
      update_data_lem f sb,
      kept_size f sb sb.size sb.logs,
      kept_bounded f sb sb.size sb.logs,
    )

pub update_data-IsSendable :
    (f : Bytes → Option Bytes) (sb sb' : SendBuffer)
    → IsSendable sb
    → update_data f sb ≡ some sb'
    → IsSendable sb'
update_data-IsSendable f sb sb' v e =
    ground (arith, update_data_lem f sb, kept_sendable f sb sb.size sb.logs)
