-- ===== src/History/Calls.antt =====
-- pkg/osquery/runtime/history: sequences of calls, and restarts of the launcher between them.
use launcher.Base.{
  ◌≤◌, ◌≡◌, refl, ◌⊎◌, inl, inr, true, false, Option, none, some, List, [], ◌∷◌, arith, Bytes,
  eq_refl, Result, ok, err, length, ap, ◌∙◌,
}
use launcher.Store.{StoreError, KvStore, KvLaws}
use launcher.History.{
  max_instances, osquery_history_instance_key, Instance, Step, Marked, History, Codec, World,
  HistoryError, load, init_history, after_set, save, with_hostname, new_instance, after_step,
  mark_first, mark_loop, after_marks, set_connected, set_exited, connected, exited,
}
use launcher.History.Coerce.{IsFaithful, AreClean, map-cleaned, length-cleaned, coerced}
use launcher.History.Latest.{save-instances, add_instance_to_history_lem}

pub data Call : Type 0 where
  opens : Bytes → Bytes → Call
  connects : Bytes → Call
  exits : Bytes → Option Bytes → Call

module _ {S C W : Type 0} (kv : KvStore S C) (codec : Codec) (world : World W) where
  unfoldable pub call : Call → History S → W → (Option HistoryError × History S) × W
  unfolding new_instance set_connected set_exited
  call (opens enrollment run) h w = new_instance kv codec world enrollment run h w
  call (connects run) h w = set_connected kv codec world run h w
  call (exits run exit_error) h w = set_exited kv codec world run exit_error h w

  unfoldable pub calls : List Call → History S → W → History S
  unfolding call
  calls [] h w = h
  calls (c ∷ cs) h w = let ((e, h'), w') = call c h w in calls cs h' w'

module _ {S C : Type 0} (kv : KvStore S C) (codec : Codec) where
  -- What the call left in the store is read back by a restart with its texts coerced, if it
  -- returned no error.
  abbrev pub Persists :
      {W : Type 0} → (Bytes → Bytes) → (Option HistoryError × History S) × W → Type 0
  Persists clean ((e, h), w) =
      e ≡ none
      → (init_history kv codec h.store ≡ ok (coerced clean h))
        × (AreClean clean h.instances → init_history kv codec h.store ≡ ok h)

  -- At most ten instances are held, and at most ten would be held after a restart.
  abbrev pub IsBounded : History S → Type 0
  IsBounded h =
      (length h.instances ≤ max_instances)
      × ((h' : History S)
          → init_history kv codec h.store ≡ ok h'
          → length h'.instances ≤ max_instances)

module _ {S C W : Type 0} (kv : KvStore S C) (laws : KvLaws kv) (codec : Codec)
    (clean : Bytes → Bytes) (faithful : IsFaithful clean codec) (world : World W) where
  init_history-save :
      (h : History S)
      → (save kv codec h).0 ≡ none
      → init_history kv codec (save kv codec h).1.store ≡ ok (coerced clean (save kv codec h).1)
  unfolding save after_set init_history load
  init_history-save h saved = go (codec.marshal h.instances) refl saved
    where
      go :
          (o : Option Bytes)
          → codec.marshal h.instances ≡ o
          → (save kv codec h).0 ≡ none
          → init_history kv codec (save kv codec h).1.store ≡ ok (coerced clean (save kv codec h).1)
      go none at saved = absurd (ground (arith, at, saved))
      go (some bytes) at saved =
          let no_error : (kv.set osquery_history_instance_key bytes h.store).0 ≡ none =
            ground (arith, at, saved) in
          ground (
            arith,
            at,
            no_error,
            laws.get-set osquery_history_instance_key bytes h.store no_error
                osquery_history_instance_key,
            eq_refl osquery_history_instance_key,
            faithful h.instances bytes at,
          )

  save-Persists : (h : History S) (w : W) → Persists kv codec clean (save kv codec h, w)
  save-Persists h w saved =
      let again = init_history-save h saved in
      let h' = (save kv codec h).1 in
      (
        again,
        λ valid.
            again
            ∙ ap (λ is. ok (record h' { instances = is })) (map-cleaned clean h'.instances valid),
      )

  after_marks-Persists :
      (h : History S) (m : Marked W) → Persists kv codec clean (after_marks kv codec world h m)
  unfolding after_marks
  after_marks-Persists h (some e, found, is, w) ended = absurd (ground (arith, ended))
  after_marks-Persists h (none, false, is, w) ended = absurd (ground (arith, ended))
  after_marks-Persists h (none, true, is, w) ended =
      save-Persists (record h { instances = is }) w ended

  with_hostname-Persists :
      (enrollment run : Bytes) (h : History S) (r : Option Bytes × W)
      → Persists kv codec clean (with_hostname kv codec world enrollment run h r)
  unfolding with_hostname
  with_hostname-Persists enrollment run h (none, w) ended = absurd (ground (arith, ended))
  with_hostname-Persists enrollment run h (some name, w) ended = save-Persists _ w ended

  -- After a call of `NewInstance`, `SetConnected` or `SetExited` that returned no error, over a
  -- store that keeps its promises, the launcher starts again with the instances that the call left,
  -- all of them in their order, each text as the codec coerces it; so with the same history if the
  -- codec coerces none of its texts.
  pub call-Persists :
      (c : Call) (h : History S) (w : W) → Persists kv codec clean (call kv codec world c h w)
  unfolding call new_instance set_connected set_exited
  call-Persists (opens enrollment run) h w =
      with_hostname-Persists enrollment run h (world.hostname_of w)
  call-Persists (connects run) h w =
      after_marks-Persists h (mark_loop (connected world) run h.instances w)
  call-Persists (exits run exit_error) h w =
      after_marks-Persists h (mark_loop (exited world exit_error) run h.instances w)

  length-after_step :
      (i : Instance) (is : List Instance) (r : Result HistoryError Instance × W)
      → length (after_step i is r).2 ≡ length (i ∷ is)
  unfolding after_step
  length-after_step i is (err e, w) = refl
  length-after_step i is (ok j, w) = refl

  length-mark_loop :
      (step : Step W) (run : Bytes) (is : List Instance) (w : W)
      → length (mark_loop step run is w).2 ≡ length is
  unfolding mark_loop mark_first
  length-mark_loop step run [] w = refl
  length-mark_loop step run (i ∷ is) w =
      go (mark_loop step run is w) (length-mark_loop step run is w)
    where
      go :
          (m : Marked W)
          → length m.2 ≡ length is
          → length (mark_first step run i m).2 ≡ length (i ∷ is)
      go (some e, found, js, w') h = omega (arith, h)
      go (none, found, js, w') h = ground (arith, h, length-after_step i js (step i w'))

  -- Whatever `save` does, a restart finds what was to be saved or what was in the store before.
  save-store :
      (h : History S)
      → (init_history kv codec (save kv codec h).1.store ≡ ok (coerced clean (save kv codec h).1))
        ⊎ ((save kv codec h).1.store ≡ h.store)
  unfolding save after_set
  save-store h = go (codec.marshal h.instances) refl (save kv codec h).0 refl
    where
      unsaved :
          (bytes : Bytes)
          → codec.marshal h.instances ≡ some bytes
          → (f : Option StoreError) → (kv.set osquery_history_instance_key bytes h.store).0 ≡ f
          → (e : HistoryError) → (save kv codec h).0 ≡ some e
          → (init_history kv codec (save kv codec h).1.store
              ≡ ok (coerced clean (save kv codec h).1))
            ⊎ ((save kv codec h).1.store ≡ h.store)
      unsaved bytes at none set e ended = absurd (ground (arith, at, set, ended))
      unsaved bytes at (some f) set e ended = inr (
          ground (arith, at, set, laws.set_failed osquery_history_instance_key bytes h.store f set))

      go :
          (o : Option Bytes)
          → codec.marshal h.instances ≡ o
          → (e : Option HistoryError) → (save kv codec h).0 ≡ e
          → (init_history kv codec (save kv codec h).1.store
              ≡ ok (coerced clean (save kv codec h).1))
            ⊎ ((save kv codec h).1.store ≡ h.store)
      go o at none ended = inl (init_history-save h ended)
      go none at (some e) ended = inr (ground (arith, at))
      go (some bytes) at (some e) ended =
          unsaved bytes at (kv.set osquery_history_instance_key bytes h.store).0 refl e ended

  save-IsBounded :
      (h : History S) (is : List Instance)
      → length is ≤ max_instances
      → IsBounded kv codec h
      → IsBounded kv codec (save kv codec (record h { instances = is })).1
  save-IsBounded h is short bounded =
      let new : History S = record h { instances = is } in
      let kept : length (save kv codec new).1.instances ≤ max_instances =
        rw (save-instances kv codec new) short in
      (
        kept,
        λ h' again. elim (save-store new) [
          | inl loaded ↦
              ground
                (arith, loaded, again, kept, length-cleaned clean (save kv codec new).1.instances)
          | inr same ↦ bounded.1 h' (rw same at again)
        ],
      )

  after_marks-IsBounded :
      (h : History S) (m : Marked W)
      → IsBounded kv codec h
      → length m.2 ≤ max_instances
      → IsBounded kv codec (after_marks kv codec world h m).0.1
  unfolding after_marks
  after_marks-IsBounded h (some e, found, is, w) bounded short = (short, bounded.1)
  after_marks-IsBounded h (none, false, is, w) bounded short = (short, bounded.1)
  after_marks-IsBounded h (none, true, is, w) bounded short = save-IsBounded h is short bounded

  with_hostname-IsBounded :
      (enrollment run : Bytes) (h : History S) (r : Option Bytes × W)
      → IsBounded kv codec h
      → IsBounded kv codec (with_hostname kv codec world enrollment run h r).0.1
  unfolding with_hostname
  with_hostname-IsBounded enrollment run h (none, w) bounded = bounded
  with_hostname-IsBounded enrollment run h (some name, w) bounded =
      save-IsBounded h _ (add_instance_to_history_lem _ h.instances).4 bounded

  call-IsBounded :
      (c : Call) (h : History S) (w : W)
      → IsBounded kv codec h
      → IsBounded kv codec (call kv codec world c h w).0.1
  unfolding call new_instance set_connected set_exited
  call-IsBounded (opens enrollment run) h w bounded =
      with_hostname-IsBounded enrollment run h (world.hostname_of w) bounded
  call-IsBounded (connects run) h w bounded =
      after_marks-IsBounded h (mark_loop (connected world) run h.instances w) bounded
        (rw (length-mark_loop (connected world) run h.instances w) bounded.0)
  call-IsBounded (exits run exit_error) h w bounded =
      after_marks-IsBounded h (mark_loop (exited world exit_error) run h.instances w) bounded
        (rw (length-mark_loop (exited world exit_error) run h.instances w) bounded.0)

  -- A history that starts with at most ten instances, in memory and in the store, has at most ten
  -- after any sequence of calls, whatever fails, and so has one that starts again from its store.
  pub calls-IsBounded :
      (cs : List Call) (h : History S) (w : W)
      → IsBounded kv codec h
      → IsBounded kv codec (calls kv codec world cs h w)
  unfolding calls
  calls-IsBounded [] h w bounded = bounded
  calls-IsBounded (c ∷ cs) h w bounded =
      let ((e, h'), w') = call kv codec world c h w in
      calls-IsBounded cs h' w' (call-IsBounded c h w bounded)
