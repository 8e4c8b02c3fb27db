-- ===== src/SendBuffer/Drain/Quiet.antt =====
-- `Drain` and `Run` of pkg/sendbuffer/sendbuffer.go: what leaves the buffer arrives at the sender.
use launcher.Base.{
  length-drop, ℕ, zero, suc, ◌-◌, ◌≤◌, ◌<◌, ◌≡◌, ◌≢◌, refl, sym, ap, ◌∙◌, Bool, true, false, List,
  [], ◌∷◌, ◌++◌, append_assoc, append-nil, arith, nat_eq, length, take, drop, flatten, Bool-cases,
  take-append-drop, inl, inr,
}
use launcher.SendBuffer.{Bytes, SendBuffer, sent, copy_logs}
use launcher.SendBuffer.Size.{IsSendable, IsEntry, All-drop}
use launcher.SendBuffer.Copy.{copy_logs-progress}
use launcher.SendBuffer.Send.{quiet, shipped, send_and_purge-accepted, send_and_purge-refused}
use launcher.SendBuffer.Drain.{
  Wait, DrainResult, drained, crashed, after_send, after_wait, drain_loop, drain,
}

-- nobody uses the buffer in the wait; the answer, timer or context, may depend on it
abbrev pub quiet_wait : (SendBuffer → Bool) → Wait (List Bytes)
quiet_wait alive sb accepted = (alive sb, sb, accepted)

-- A buffer between two sends of a drain: no mark of a purge is left, no send is under way, every log
-- has bytes and fits one send, and the limit of a send is at least `maxWriteBytes`.
pub record IsIdle (sb : SendBuffer) : Type 0 where
  pub sendable : IsSendable sb
  pub clean : sb.logs_just_purged ≡ false
  pub free : sb.send_locked ≡ false

flatten-append : (xs ys : List Bytes) → flatten (xs ++ ys) ≡ flatten xs ++ flatten ys
unfolding flatten
flatten-append [] ys = refl
flatten-append (x ∷ xs) ys =
    ap (λ zs. x ++ zs) (flatten-append xs ys) ∙ sym (append_assoc x (flatten xs) (flatten ys))

-- sending the first `n` logs keeps all bytes, in order
ship_keeps :
    (accepted logs : List Bytes) (n : ℕ)
    → flatten (accepted ++ flatten (take n logs) ∷ []) ++ flatten (drop n logs)
      ≡ flatten accepted ++ flatten logs
ship_keeps accepted logs n =
    let x = flatten (take n logs) in
    let rest = flatten (drop n logs) in
    let kept : x ++ rest ≡ flatten logs =
      sym (flatten-append (take n logs) (drop n logs)) ∙ ap flatten (take-append-drop n logs) in
    rw (flatten-append accepted (x ∷ []), append_assoc (flatten accepted) (flatten (x ∷ [])) rest)
      (ap (λ y. flatten accepted ++ y) (unfold flatten in rw (append-nil x) kept))

-- What a drain does in a buffer with `logs`, from `accepted` on.
pub record Drains (logs accepted : List Bytes) (r : DrainResult × SendBuffer × List Bytes)
    : Type 0 where
  pub conserved : flatten r.2 ++ flatten r.1.logs ≡ flatten accepted ++ flatten logs
  pub emptied : r.0 ≡ drained → r.1.logs ≡ []
  pub safe : r.0 ≢ crashed

length_zero : (xs : List Bytes) → length xs ≡ 0 → xs ≡ []
length_zero [] h = refl
length_zero (x ∷ xs) h = absurd (omega arith)

shipped-IsIdle : (n : ℕ) (sb : SendBuffer) → IsIdle sb → IsIdle (shipped n sb)
shipped-IsIdle n sb h = record {
  sendable = record {
    configured = h.sendable.configured;
    entries = All-drop (IsEntry sb.max_send_size_bytes) n sb.logs h.sendable.entries;
  };
  clean = h.clean;
  free = refl;
}

Drains-ship :
    (n : ℕ) (logs accepted : List Bytes) (r : DrainResult × SendBuffer × List Bytes)
    → Drains (drop n logs) (accepted ++ flatten (take n logs) ∷ []) r
    → Drains logs accepted r
Drains-ship n logs accepted r d = record {
  conserved = d.conserved ∙ ship_keeps accepted logs n;
  emptied = d.emptied;
  safe = d.safe;
}

module _ (answer : Bytes → Bool) (alive : SendBuffer → Bool) where
  after_send-Drains :
      (next : ℕ → SendBuffer → List Bytes → DrainResult × SendBuffer × List Bytes) (n : ℕ)
      (sb : SendBuffer) (accepted : List Bytes)
      → 0 < n
      → (length sb.logs ≡ 0 → sb.logs ≡ [])
      → Drains sb.logs accepted (next (length sb.logs) sb accepted)
      → (m : ℕ) → length sb.logs ≡ m - n
      → Drains sb.logs accepted (after_send next (quiet_wait alive) m (sent n, sb, accepted))
  unfolding after_send after_wait
  after_send-Drains next n sb accepted pos nothing d m left =
      rw (← left) (ground (arith, d.conserved, d.emptied, d.safe))

  drain_loop-Drains :
      (rounds : ℕ) (sb : SendBuffer) (accepted : List Bytes)
      → IsIdle sb
      → Drains sb.logs accepted
          (drain_loop (quiet answer) (quiet_wait alive) rounds (length sb.logs) sb accepted)
  unfolding drain_loop
  drain_loop-Drains zero sb accepted h = record {
    conserved = refl;
    emptied = λ e. cc;
    safe = λ e. cc;
  }
  drain_loop-Drains (suc rounds) sb accepted h = elim (Bool-cases (nat_eq (length sb.logs) 0)) [
    | inl nothing ↦ rw nothing (record {
      conserved = refl;
      emptied = λ e. length_zero sb.logs (ground arith);
      safe = λ e. cc;
    })
    | inr something ↦
        let busy : 0 < length sb.logs = ground arith in
        let n = (copy_logs sb.max_send_size_bytes sb).0 in
        let accepted' = accepted ++ flatten (take n sb.logs) ∷ [] in
        elim (Bool-cases (answer (copy_logs sb.max_send_size_bytes sb).1)) [
          | inl accepts ↦
              rw
                (
                  something,
                  send_and_purge-accepted answer sb accepted h.sendable busy h.clean h.free accepts,
                )
                (Drains-ship n sb.logs accepted _ (
                  after_send-Drains (drain_loop (quiet answer) (quiet_wait alive) rounds) n
                    (shipped n sb) accepted' (copy_logs-progress sb h.sendable busy).0
                    (length_zero (drop n sb.logs))
                    (drain_loop-Drains rounds (shipped n sb) accepted' (shipped-IsIdle n sb h))
                    (length sb.logs) (length-drop n sb.logs)))
          | inr refuses ↦
              rw
                (
                  something,
                  send_and_purge-refused answer sb accepted h.sendable busy h.free refuses,
                )
                (unfold after_send in
                  record { conserved = refl; emptied = λ e. cc; safe = λ e. cc })
        ]
  ]

  -- The buffer is idle: no mark of a purge is left, no send is under way, every log has bytes and
  -- fits one send, and the limit of a send is at least `maxWriteBytes`. Nobody else uses the buffer; the sender accepts or refuses as it likes, and
  -- the context may end in any wait. Then `Drain` does not panic, the bytes that the sender accepted
  -- and those left in the buffer are together the bytes that were there, in order, and the buffer is
  -- empty if `Drain` returns no error.
  pub drain_lem :
      (sb : SendBuffer) (accepted : List Bytes)
      → IsIdle sb
      → Drains sb.logs accepted (drain (quiet answer) (quiet_wait alive) sb accepted)
  unfolding drain
  drain_lem sb accepted h = drain_loop-Drains sb.max_drain_sends sb accepted h

drain_loop_enough :
    (rounds : ℕ) (sb : SendBuffer) (accepted : List Bytes)
    → IsIdle sb
    → length sb.logs ≤ rounds
    → 0 < rounds
    → (drain_loop
        (quiet (λ out. true))
        (quiet_wait (λ t. true))
        rounds
        (length sb.logs)
        sb
        accepted).0
      ≡ drained
unfolding drain_loop after_send after_wait
drain_loop_enough zero sb accepted h enough some_rounds = absurd (omega arith)
drain_loop_enough (suc rounds) sb accepted h enough some_rounds =
    elim (Bool-cases (nat_eq (length sb.logs) 0)) [
      | inl nothing ↦ rw nothing
      | inr something ↦
          let busy : 0 < length sb.logs = ground arith in
          let n = (copy_logs sb.max_send_size_bytes sb).0 in
          rw
            (
              something,
              send_and_purge-accepted (λ out. true) sb accepted h.sendable busy h.clean h.free refl,
              ← length-drop n sb.logs,
            )
            (ground (
              arith,
              length-drop n sb.logs,
              (copy_logs-progress sb h.sendable busy).0,
              drain_loop_enough rounds (shipped n sb) (accepted ++ flatten (take n sb.logs) ∷ [])
                  (shipped-IsIdle n sb h),
            ))
    ]

-- The buffer is idle, as above, and nobody else uses it. With a sender that accepts everything and a
-- context that stays alive, as many sends as there are logs are enough if at least one is allowed:
-- `Drain` returns no error.
pub drain_enough :
    (sb : SendBuffer) (accepted : List Bytes)
    → IsIdle sb
    → length sb.logs ≤ sb.max_drain_sends
    → 0 < sb.max_drain_sends
    → (drain (quiet (λ out. true)) (quiet_wait (λ t. true)) sb accepted).0 ≡ drained
unfolding drain
drain_enough sb accepted h enough some_rounds =
    drain_loop_enough sb.max_drain_sends sb accepted h enough some_rounds
