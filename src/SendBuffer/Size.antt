-- ===== src/SendBuffer/Size.antt =====
-- The accounting of `size` in pkg/sendbuffer/sendbuffer.go: what `deleteLogs` subtracts, and the
-- invariant of the buffer.
use launcher.Base.{
  ℕ, zero, suc, ◌+◌, ◌-◌, ◌≤◌, ◌<◌, ◌≡◌, refl, none, some, List, [], ◌∷◌, ◌++◌, arith, length, take,
  drop, All,
}
use launcher.SendBuffer.{Bytes, SendBuffer, max_write_bytes, size_deleted, delete_logs}

abbrev pub total : List Bytes → ℕ
total [] = 0
total (l ∷ logs) = length l + total logs

pub total-append : (xs ys : List Bytes) → total (xs ++ ys) ≡ total xs + total ys
total-append [] ys = omega arith
total-append (x ∷ xs) ys = omega (arith, total-append xs ys)

pub total-take-drop : (n : ℕ) (xs : List Bytes) → total (take n xs) + total (drop n xs) ≡ total xs
total-take-drop zero xs = omega arith
total-take-drop (suc n) [] = omega arith
total-take-drop (suc n) (x ∷ xs) = omega (arith, total-take-drop n xs)

pub size_deleted_lem :
    (n : ℕ) (xs : List Bytes) → n ≤ length xs → size_deleted n xs ≡ some (total (take n xs))
unfolding size_deleted
size_deleted_lem zero xs h = refl
size_deleted_lem (suc n) [] h = absurd (omega arith)
size_deleted_lem (suc n) (x ∷ xs) h = ground (arith, size_deleted_lem n xs)

pub size_deleted-beyond : (n : ℕ) (xs : List Bytes) → length xs < n → size_deleted n xs ≡ none
unfolding size_deleted
size_deleted-beyond zero xs h = absurd (omega arith)
size_deleted-beyond (suc n) [] h = refl
size_deleted-beyond (suc n) (x ∷ xs) h = ground (arith, size_deleted-beyond n xs)

pub size_deleted-length : (xs : List Bytes) → size_deleted (length xs) xs ≡ some (total xs)
unfolding size_deleted
size_deleted-length [] = refl
size_deleted-length (x ∷ xs) = ground (arith, size_deleted-length xs)

pub drop-length : (xs : List Bytes) → drop (length xs) xs ≡ []
drop-length [] = refl
drop-length (x ∷ xs) = drop-length xs

-- The size is the sum of the lengths, within the storage limit.
pub record IsValid (sb : SendBuffer) : Type 0 where
  pub counted : sb.size ≡ total sb.logs
  pub bounded : sb.size ≤ sb.max_storage_size_bytes

-- An entry is not empty, and fits into one send.
abbrev pub IsEntry : ℕ → Bytes → Type 0
IsEntry max l = (0 < length l) × (length l ≤ max)

pub record IsSendable (sb : SendBuffer) : Type 0 where
  pub configured : max_write_bytes ≤ sb.max_send_size_bytes
  pub entries : All (IsEntry sb.max_send_size_bytes) sb.logs

pub delete_logs_lem :
    (n : ℕ) (sb : SendBuffer)
    → n ≤ length sb.logs
    → delete_logs n sb
      ≡ some (record sb { logs = drop n sb.logs; size = sb.size - total (take n sb.logs) })
unfolding delete_logs
delete_logs_lem n sb h = ground (arith, size_deleted_lem n sb.logs)

pub delete_logs-beyond : (n : ℕ) (sb : SendBuffer) → length sb.logs < n → delete_logs n sb ≡ none
unfolding delete_logs
delete_logs-beyond n sb h = ground (arith, size_deleted-beyond n sb.logs)

pub delete_logs-IsValid :
    (n : ℕ) (sb sb' : SendBuffer)
    → n ≤ length sb.logs
    → IsValid sb
    → delete_logs n sb ≡ some sb'
    → IsValid sb'
delete_logs-IsValid n sb sb' h v e =
    ground (arith, delete_logs_lem n sb h, total-take-drop n sb.logs)

pub All-append {ℓ κ} :
    {A : Type ℓ} (P : A → Type κ) (xs : List A) (y : A) → All P xs → P y → All P (xs ++ y ∷ [])
All-append P [] y h p = (p, tt)
All-append P (x ∷ xs) y h p = (h.0, All-append P xs y h.1 p)

pub All-drop {ℓ κ} :
    {A : Type ℓ} (P : A → Type κ) (n : ℕ) (xs : List A) → All P xs → All P (drop n xs)
All-drop P zero xs h = h
All-drop P (suc n) [] h = h
All-drop P (suc n) (x ∷ xs) h = All-drop P n xs h.1
