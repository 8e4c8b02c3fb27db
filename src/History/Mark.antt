-- ===== src/History/Mark.antt =====
-- pkg/osquery/runtime/history/history.go: the loops of `SetConnected` and `SetExited`.
use launcher.Base.{
  ◌≡◌, refl, true, false, Option, none, some, List, [], ◌∷◌, arith, Bytes, contains, Result, ok,
  err, codes,
}
use launcher.Base.Dict
use launcher.Base.Dict.{Dict}
use launcher.Store.{KvStore}
use launcher.History.{
  Instance, Marked, History, Codec, World, HistoryError, no_instances, no_instance_id, no_version,
  after_step, mark_first, mark_loop, after_marks, exited, connected, connected_rows, set_exited,
  set_connected,
}
use launcher.History.Latest.{save-instances}
use launcher.History.Loop.{Pointwise, Of, Partly, runs, mark_loop_lem, mark_loop-none}

-- The world at a time in a call that started at `start`.
pub data Since {W : Type 0} (world : World W) (start : W) : W → Type 0 where
  begun : Since world start start
  timed : {w : W} → Since world start w → Since world start (world.time_now w).1
  queried : {w : W} → Since world start w → Since world start (world.query w).1

-- The instance has exited: its exit time is a reading of the clock in the call, and it has the error
-- that was given, if any.
abbrev pub Exit : {W : Type 0} → World W → W → Option Bytes → Instance → Instance → Type 0
Exit {W} world start exit_error i j =
    (w : W) × Since world start w
    × (j ≡ record i {
      error = elim exit_error [ none ↦ i.error | some e ↦ e ];
      exit_time = (world.time_now w).0;
    })

-- The instance is connected: its connect time is a reading of the clock in the call, and it has
-- osquery's id and the version.
abbrev pub Connection : {W : Type 0} → World W → W → Instance → Instance → Type 0
Connection {W} world start i j =
    (w : W) × Since world start w
    × (j ≡ record i {
      connect_time = (world.time_now w).0;
      instance_id = j.instance_id;
      version = j.version;
    })

module _ {W : Type 0} (world : World W) (start : W) where
  exited-Since :
      (exit_error : Option Bytes) (i : Instance) (w : W)
      → Since world start w
      → Since world start (exited world exit_error i w).1
  unfolding exited
  exited-Since exit_error i w since = timed since

  connected_rows-Since :
      (i : Instance) (r : Option (List (Dict Bytes)) × W)
      → Since world start r.1
      → Since world start (connected_rows world r i).1
  unfolding connected_rows
  connected_rows-Since i (none, w) since = since
  connected_rows-Since i (some [], w) since = since
  connected_rows-Since i (some (row ∷ rows), w) since =
      has_id (Dict.lookup (codes "instance_id") row) (Dict.lookup (codes "version") row)
    where
      has_id :
          (id version : Option Bytes)
          → Since world start
              (elim id as (λ o. Result HistoryError Instance × W) [
                | none ↦ (err no_instance_id, w)
                | some x ↦ elim version as (λ o. Result HistoryError Instance × W) [
                  | none ↦ (err no_version, w)
                  | some v ↦
                      let (now, w') = world.time_now w in
                      (ok (record i { connect_time = now; instance_id = x; version = v }), w')
                ]
              ]).1
      has_id none version = since
      has_id (some x) none = since
      has_id (some x) (some v) = timed since

  connected-Since :
      (i : Instance) (w : W) → Since world start w → Since world start (connected world i w).1
  unfolding connected
  connected-Since i w since = connected_rows-Since i (world.query w) (queried since)

  exited_sound :
      (exit_error : Option Bytes) (i j : Instance) (w : W)
      → Since world start w
      → (exited world exit_error i w).0 ≡ ok j
      → Exit world start exit_error i j
  unfolding exited
  exited_sound exit_error i j w since h = (w, since, ground (arith, h))

  connected_sound :
      (i j : Instance) (w : W)
      → Since world start w
      → (connected world i w).0 ≡ ok j
      → Connection world start i j
  unfolding connected connected_rows
  connected_sound i j w since h = go (world.query w) (queried since) h
    where
      go :
          (r : Option (List (Dict Bytes)) × W)
          → Since world start r.1
          → (connected_rows world r i).0 ≡ ok j
          → Connection world start i j
      go (none, w') since' h = absurd (ground (arith, h))
      go (some [], w') since' h = absurd (ground (arith, h))
      go (some (row ∷ rows), w') since' h = (w', since', ground (arith, h))

module _ {W : Type 0} (world : World W) where
  mark_loop-exited :
      (exit_error : Option Bytes) (run : Bytes) (is : List Instance) (w : W)
      → (mark_loop (exited world exit_error) run is w).0 ≡ none
  unfolding mark_loop mark_first after_step exited
  mark_loop-exited exit_error run [] w = refl
  mark_loop-exited exit_error run (i ∷ is) w =
      go (mark_loop (exited world exit_error) run is w) (mark_loop-exited exit_error run is w)
    where
      go : (m : Marked W) → m.0 ≡ none → (mark_first (exited world exit_error) run i m).0 ≡ none
      go (none, found, js, w') h = ground arith
      go (some e, found, js, w') h = absurd (ground (arith, h))

module _ {S C W : Type 0} (kv : KvStore S C) (codec : Codec) (world : World W) where
  after_marks-instances :
      (h : History S) (m : Marked W) → (after_marks kv codec world h m).0.1.instances ≡ m.2
  unfolding after_marks
  after_marks-instances h (some e, found, is, w) = refl
  after_marks-instances h (none, false, is, w) = refl
  after_marks-instances h (none, true, is, w) =
      save-instances kv codec (record h { instances = is })

  after_marks-none :
      (h : History S) (m : Marked W) → (after_marks kv codec world h m).0.0 ≡ none → m.0 ≡ none
  unfolding after_marks
  after_marks-none h (some e, found, is, w) ended = absurd (ground (arith, ended))
  after_marks-none h (none, found, is, w) ended = refl

  -- `SetExited` gives every instance of the run a reading of the clock in the call as its exit time,
  -- and the error if there is one, and changes nothing else. If there is no instance of the run, it returns an error, with the history
  -- and its store as they were.
  pub set_exited_lem :
      (run : Bytes) (exit_error : Option Bytes) (h : History S) (w : W)
      → let ((e, h'), w') = set_exited kv codec world run exit_error h w in
        Pointwise (Of (Exit world w exit_error) run) h.instances h'.instances
        × (contains run (runs h.instances) ≡ false → (e ≡ some no_instances) × (h' ≡ h))
  unfolding set_exited
  set_exited_lem run exit_error h w =
      let m = mark_loop (exited world exit_error) run h.instances w in
      let (_, all, _, _) =
        mark_loop_lem (exited world exit_error) (Since world w) (Exit world w exit_error)
          (exited-Since world w exit_error) (exited_sound world w exit_error) run h.instances w
          begun in
      (
        rw (after_marks-instances h m) (all (mark_loop-exited world exit_error run h.instances w)),
        λ missing.
            rw (mark_loop-none (exited world exit_error) run h.instances w missing, after_marks)
              (refl, refl),
      )

  -- `SetConnected` with no error gives every instance of the run a reading of the clock in the
  -- call as its connect time, osquery's id and the version, and changes nothing else. On an error each instance is as it was, or it is of the
  -- run and was changed in that way. With no instance of the run it returns an error and the
  -- history and its store are as they were.
  pub set_connected_lem :
      (run : Bytes) (h : History S) (w : W)
      → let ((e, h'), w') = set_connected kv codec world run h w in
        (e ≡ none → Pointwise (Of (Connection world w) run) h.instances h'.instances)
        × Pointwise (Partly (Connection world w) run) h.instances h'.instances
        × (contains run (runs h.instances) ≡ false → (e ≡ some no_instances) × (h' ≡ h))
  unfolding set_connected
  set_connected_lem run h w =
      let m = mark_loop (connected world) run h.instances w in
      let (partly, all, _, _) =
        mark_loop_lem (connected world) (Since world w) (Connection world w)
          (connected-Since world w) (connected_sound world w) run h.instances w begun in
      (
        λ ended. rw (after_marks-instances h m) (all (after_marks-none h m ended)),
        rw (after_marks-instances h m) partly,
        λ missing.
            rw (mark_loop-none (connected world) run h.instances w missing, after_marks)
              (refl, refl),
      )
