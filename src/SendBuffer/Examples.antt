-- ===== src/SendBuffer/Examples.antt =====
-- Runs of a small buffer, and the theorems about it at such inputs.
use launcher.Base.{
  ℕ, suc, ◌<◌, ◌≡◌, ◌≢◌, refl, ◌⊎◌, Bool, true, false, Option, none, some, [], ◌∷◌, ◌++◌, arith,
  length, drop, if◌then◌else◌, nat_eq, ltb,
}
use launcher.SendBuffer.{
  Bytes, SendBuffer, Network, sent, panicked, size_deleted, delete_logs, write, delete_all_data,
  copy_logs, send_and_purge, finish_send,
}
use launcher.SendBuffer.Size.{IsValid, IsSendable}
use launcher.SendBuffer.Write.{written, write_lem}
use launcher.SendBuffer.Update.{update_data}
use launcher.SendBuffer.Update.Spec.{kept, update_data_lem}
use launcher.SendBuffer.Send.{quiet, write-send_and_purge-resends}
use launcher.SendBuffer.Interleave.{
  write_all, stored, overflows, here, send_and_purge-write_all, send_and_purge-deleted,
}
use launcher.SendBuffer.Drain.{Pause, already_running, run_crashed, drained, drain, run}
use launcher.SendBuffer.Drain.Quiet.{quiet_wait, IsIdle, Drains, drain_lem, drain_enough}
use launcher.SendBuffer.Drain.Running.{run-IsValid}

abbrev log_a : Bytes
log_a = 1 ∷ 2 ∷ []

abbrev log_b : Bytes
log_b = 3 ∷ []

abbrev log_c : Bytes
log_c = 4 ∷ 5 ∷ 6 ∷ []

-- A buffer with room for eight bytes and three logs in it; every log fits one send.
abbrev three : SendBuffer
three = record {
  logs = log_a ∷ log_b ∷ log_c ∷ [];
  size = 6;
  logs_just_purged = false;
  send_locked = false;
  is_sending = false;
  max_storage_size_bytes = 8;
  max_send_size_bytes = 8192;
  max_drain_sends = 5;
}

three-IsValid : IsValid three
three-IsValid = omega arith

three-IsSendable : IsSendable three
three-IsSendable = omega arith

three-IsIdle : IsIdle three
three-IsIdle = record { sendable = three-IsSendable; clean = refl; free = refl }

-- a smaller limit on one send
abbrev narrow : SendBuffer
narrow = record three { max_send_size_bytes = 3 }

copy_two : copy_logs 3 narrow ≡ (2, 1 ∷ 2 ∷ 3 ∷ [])
unfolding copy_logs
copy_two = refl

write_purges :
    write log_c three ≡ some (record three { logs = []; size = 0; logs_just_purged = true })
unfolding write delete_logs size_deleted
write_purges = refl

write_lem_example : write log_c three ≡ some (written log_c three)
write_lem_example = write_lem log_c three three-IsValid

-- drops log_a, keeps log_b as it is, and replaces log_c
abbrev rewrite : Bytes → Option Bytes
rewrite l =
    if nat_eq (length l) 2 then some [] else if nat_eq (length l) 3 then some (9 ∷ []) else none

update_run :
    update_data rewrite three ≡ some (record three { logs = log_b ∷ (9 ∷ []) ∷ []; size = 2 })
unfolding update_data
update_run = refl

update_data_lem_example :
    let (logs, size) = kept rewrite three three.size three.logs in
    update_data rewrite three ≡ some (record three { logs = logs; size = size })
update_data_lem_example = update_data_lem rewrite three

-- While the three logs are on their way, another goroutine writes one byte.
abbrev late : SendBuffer
late = record three { logs = log_a ∷ log_b ∷ log_c ∷ (7 ∷ []) ∷ []; size = 7; send_locked = true }

abbrev accepts_late : Network ℕ
accepts_late out sb w = (true, late, suc w)

copied_some : 0 < length (copy_logs three.max_send_size_bytes three).1
unfolding copy_logs
copied_some = omega arith

write_all-late : write_all ((7 ∷ []) ∷ []) (record three { send_locked = true }) ≡ some late
unfolding write_all write
write_all-late = refl

send_and_purge-write_all_example :
    let n = (copy_logs three.max_send_size_bytes three).0 in
    let (result, sb', _) = send_and_purge accepts_late three 0 in
    ((overflows 8 6 ((7 ∷ []) ∷ []) ≡ false)
      × (result ≡ sent n)
      × (sb'.logs ≡ drop n three.logs ++ stored ((7 ∷ []) ∷ [])))
    ⊎ ((overflows 8 6 ((7 ∷ []) ∷ []) ≡ true)
        × (result ≡ sent 0)
        × (sb'.logs ≡ late.logs)
        × (sb'.logs_just_purged ≡ false))
send_and_purge-write_all_example =
    send_and_purge-write_all accepts_late ((7 ∷ []) ∷ []) three late 0 1 three-IsValid refl refl
      copied_some write_all-late refl

send_late : (send_and_purge accepts_late three 0).1.logs ≡ (7 ∷ []) ∷ []
unfolding send_and_purge copy_logs finish_send delete_logs size_deleted
send_late = refl

abbrev accepts_deleted : Network ℕ
accepts_deleted out sb w = (true, delete_all_data sb, w)

send_and_purge-deleted_example : (send_and_purge accepts_deleted three 0).0 ≡ panicked
send_and_purge-deleted_example =
    send_and_purge-deleted accepts_deleted three 0 0 three-IsSendable (omega arith) refl refl refl

marked_empty :
    write log_c three ≡ some (record three { logs = []; size = 0; logs_just_purged = true })
marked_empty = write_purges

write_after_purge :
    write log_b (record three { logs = []; size = 0; logs_just_purged = true })
    ≡ some (record three { logs = log_b ∷ []; size = 1; logs_just_purged = true })
unfolding write
write_after_purge = refl

write-send_and_purge-resends_example :
    let marked : SendBuffer = record three {
      logs = log_b ∷ [];
      size = 1;
      logs_just_purged = true;
    } in
    let (_, sb₃, accepted) = send_and_purge (quiet (λ out. true)) marked [] in
    (send_and_purge (quiet (λ out. true)) sb₃ accepted).2 ≡ log_b ∷ log_b ∷ []
write-send_and_purge-resends_example =
    write-send_and_purge-resends three
      (record three { logs = []; size = 0; logs_just_purged = true })
      (record three { logs = log_b ∷ []; size = 1; logs_just_purged = true }) log_c log_b
      three-IsValid three-IsSendable refl (omega arith) (omega arith) (omega arith) (omega arith)
      (omega arith) (omega arith) marked_empty write_after_purge

-- a sender that refuses what begins with 3
abbrev picky : Bytes → Bool
picky [] = true
picky (x ∷ xs) = ltb x 3

drain_lem_example : Drains three.logs [] (drain (quiet picky) (quiet_wait (λ sb. true)) three [])
drain_lem_example = drain_lem picky (λ sb. true) three [] three-IsIdle

drain_enough_example : (drain (quiet (λ out. true)) (quiet_wait (λ t. true)) three []).0 ≡ drained
drain_enough_example = drain_enough three [] three-IsIdle (omega arith) (omega arith)

abbrev accepts : Network ℕ
accepts out sb w = (true, sb, suc w)

abbrev pauses : Pause ℕ
pauses sb w = (sb, w)

run-IsValid_example :
    let (result, sb', w') = run accepts pauses 2 three 0 in
    ((three.is_sending ≡ true) × (result ≡ already_running) × (sb' ≡ three) × (w' ≡ 0))
    ⊎ ((three.is_sending ≡ false)
        × (result ≢ already_running)
        × (sb'.is_sending ≡ false)
        × IsValid sb')
run-IsValid_example =
    run-IsValid accepts pauses (λ out t w. here) (λ t w. here) 2 three 0 three-IsValid

-- a `DeleteAllData` during the first send crashes the loop
run_deleted : (run accepts_deleted pauses 2 three 0).0 ≡ run_crashed
unfolding run send_and_purge copy_logs finish_send delete_logs size_deleted delete_all_data
run_deleted = refl
