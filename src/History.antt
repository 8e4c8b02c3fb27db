-- ===== src/History.antt =====
-- pkg/osquery/runtime/history/history.go, instance.go and storage.go: the last ten instances of
-- osquery, oldest first, and their copy in a key-value store.
--
-- `W` is the world that the clock, the host's name and the querier of osquery read. The JSON codec
-- is a `Codec`; it gives no null entries. A nil slice and an empty one are both the empty list.
mod Entry
pub mod Latest
pub mod Coerce
pub mod Loop
pub mod Mark
pub mod Calls
mod Examples
unfoldable pub use Entry.*
use launcher.Base.{
  ℕ, ◌+◌, ◌-◌, ◌/◌, Bool, true, false, ◌||◌, Option, none, some, List, [], ◌∷◌, ◌++◌, Bytes, codes,
  ◌==◌, Result, ok, err, if◌then◌else◌, leb, length, drop, map, ℤ, pos, negsuc, ◌-ℤ◌,
}
use launcher.Base.Dict
use launcher.Base.Dict.{Dict}
use launcher.Store.{StoreError, KvStore}

abbrev pub max_instances : ℕ
max_instances = 10

abbrev pub osquery_history_instance_key : Bytes
osquery_history_instance_key = codes "osquery_instance_history"

pub record History (S : Type 0) : Type 0 where
  pub instances : List Instance
  pub store : S

pub record Codec : Type 0 where
  pub marshal : List Instance → Option Bytes
  pub unmarshal : Bytes → Option (List Instance)

-- Go's division of an `int64`, which rounds towards 0
abbrev quotient : ℤ → ℕ → ℤ
quotient (pos n) d = pos (n / d)
quotient (negsuc n) d = pos 0 -ℤ pos ((1 + n) / d)

-- the last of the instances with this enrollment id
unfoldable pub latest_instance : Bytes → List Instance → Option Instance
latest_instance enrollment [] = none
latest_instance enrollment (i ∷ is) = elim (latest_instance enrollment is) [
  | some later ↦ some later
  | none ↦ if i.enrollment_id == enrollment then some i else none
]

-- `append`, and the slice from `len - maxInstances` on
unfoldable pub add_instance_to_history : Instance → List Instance → List Instance
add_instance_to_history new is =
    let longer = is ++ new ∷ [] in
    if leb max_instances (length longer)
    then drop (length longer - max_instances) longer
    else longer

-- the result of a loop over the instances: its error, whether it met the run, the instances
abbrev pub Marked : Type 0 → Type 0
Marked W = Option HistoryError × Bool × List Instance × W

module _ {W : Type 0} where
  after_step : Instance → List Instance → Result HistoryError Instance × W → Marked W
  after_step i is (err e, w) = (some e, true, i ∷ is, w)
  after_step i is (ok i', w) = (none, true, i' ∷ is, w)

  -- the rest of the list has been visited
  mark_first : Step W → Bytes → Instance → Marked W → Marked W
  unfolding after_step
  mark_first step run i (some e, found, is, w) = (some e, found, i ∷ is, w)
  mark_first step run i (none, found, is, w) =
      if i.run_id == run then after_step i is (step i w) else (none, found, i ∷ is, w)

  -- the loops of `SetConnected` and `SetExited`, from the last instance to the first; an error ends
  -- them
  unfoldable pub mark_loop : Step W → Bytes → List Instance → W → Marked W
  unfolding mark_first
  mark_loop step run [] w = (none, false, [], w)
  mark_loop step run (i ∷ is) w = mark_first step run i (mark_loop step run is w)

module _ {S : Type 0} where
  unfoldable pub get_history : History S → Result HistoryError (List (Dict Bytes))
  unfolding to_map
  get_history h = elim h.instances [ [] ↦ err no_instances | i ∷ is ↦ ok (map to_map (i ∷ is)) ]

  unfoldable pub latest_instance_stats : Bytes → History S → Result HistoryError (Dict Bytes)
  unfolding latest_instance to_map
  latest_instance_stats enrollment h = elim (latest_instance enrollment h.instances) [
    | none ↦ err no_instances
    | some i ↦ ok (to_map i)
  ]

  unfoldable pub latest_instance_id : Bytes → History S → Result HistoryError Bytes
  unfolding latest_instance
  latest_instance_id enrollment h = elim (latest_instance enrollment h.instances) [
    | none ↦ err no_instances
    | some i ↦ ok i.instance_id
  ]

  -- `parse` is `time.Parse` and then `Unix`, `now` the time in seconds
  unfoldable pub latest_instance_uptime_minutes :
      (Bytes → Option ℤ) → ℤ → Bytes → History S → Result HistoryError ℤ
  unfolding latest_instance
  latest_instance_uptime_minutes parse now enrollment h =
      elim (latest_instance enrollment h.instances) [
        | none ↦ err no_instances
        | some i ↦ elim i.exit_time [
          | c ∷ cs ↦ ok (pos 0)
          | [] ↦ elim (parse i.start_time) [
            | none ↦ err bad_start_time
            | some start ↦ ok (quotient (now -ℤ start) 60)
          ]
        ]
      ]

module _ {S C : Type 0} (kv : KvStore S C) (codec : Codec) where
  unfoldable pub load : S → Result HistoryError (List Instance)
  load s = elim (kv.get osquery_history_instance_key s) [
    | err e ↦ err load_failed
    | ok found ↦ elim found [
      | none ↦ ok []
      | some bytes ↦ elim (codec.unmarshal bytes) [ none ↦ err load_failed | some is ↦ ok is ]
    ]
  ]

  unfoldable pub init_history : S → Result HistoryError (History S)
  unfolding load
  init_history s = elim (load s) [
    | err e ↦ err e
    | ok is ↦ ok (record { instances = is; store = s })
  ]

  after_set : History S → Option StoreError × S → Option HistoryError × History S
  after_set h (some e, s) = (some save_failed, record h { store = s })
  after_set h (none, s) = (none, record h { store = s })

  unfoldable pub save : History S → Option HistoryError × History S
  unfolding after_set
  save h = elim (codec.marshal h.instances) [
    | none ↦ (some save_failed, h)
    | some bytes ↦ after_set h (kv.set osquery_history_instance_key bytes h.store)
  ]

  module _ {W : Type 0} (world : World W) where
    open world use {time_now, hostname_of}

    -- `NewInstance` behind the call of `os.Hostname`
    with_hostname :
        Bytes → Bytes → History S → Option Bytes × W → (Option HistoryError × History S) × W
    unfolding save add_instance_to_history
    with_hostname enrollment run h (none, w) = ((some hostname_failed, h), w)
    with_hostname enrollment run h (some name, w) =
        let (now, w') = time_now w in
        let new : Instance = record {
          enrollment_id = enrollment;
          run_id = run;
          start_time = now;
          connect_time = [];
          exit_time = [];
          hostname = name;
          instance_id = [];
          version = [];
          error = [];
        } in
        (save (record h { instances = add_instance_to_history new h.instances }), w')

    unfoldable pub new_instance :
        Bytes → Bytes → History S → W → (Option HistoryError × History S) × W
    unfolding with_hostname
    new_instance enrollment run h w = with_hostname enrollment run h (hostname_of w)

    -- behind the loop: an error leaves what was marked, unsaved
    after_marks : History S → Marked W → (Option HistoryError × History S) × W
    unfolding save
    after_marks h (some e, found, is, w) = ((some e, record h { instances = is }), w)
    after_marks h (none, false, is, w) = ((some no_instances, record h { instances = is }), w)
    after_marks h (none, true, is, w) = (save (record h { instances = is }), w)

    unfoldable pub set_connected : Bytes → History S → W → (Option HistoryError × History S) × W
    unfolding after_marks mark_loop connected
    set_connected run h w = after_marks h (mark_loop (connected world) run h.instances w)

    unfoldable pub set_exited :
        Bytes → Option Bytes → History S → W → (Option HistoryError × History S) × W
    unfolding after_marks mark_loop exited
    set_exited run exit_error h w =
        after_marks h (mark_loop (exited world exit_error) run h.instances w)
