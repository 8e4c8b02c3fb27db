-- ===== src/History/Entry.antt =====
-- pkg/osquery/runtime/history/instance.go: one instance of osquery, with what its methods read.
use launcher.Base.{Option, none, some, List, [], ◌∷◌, Bytes, codes, Result, ok, err}
use launcher.Base.Dict
use launcher.Base.Dict.{Dict}

pub record Instance : Type 0 where
  pub enrollment_id : Bytes
  pub run_id : Bytes
  pub start_time : Bytes
  pub connect_time : Bytes
  pub exit_time : Bytes
  pub hostname : Bytes
  pub instance_id : Bytes
  pub version : Bytes
  pub error : Bytes

-- what the methods read of the world; a querier that fails is `none`, its rows are maps
pub record World (W : Type 0) : Type 0 where
  pub time_now : W → Bytes × W
  pub hostname_of : W → Option Bytes × W
  pub query : W → Option (List (Dict Bytes)) × W

pub data HistoryError : Type 0 where
  no_instances : HistoryError
  load_failed : HistoryError
  save_failed : HistoryError
  hostname_failed : HistoryError
  query_failed : HistoryError
  no_rows : HistoryError
  no_instance_id : HistoryError
  no_version : HistoryError
  bad_start_time : HistoryError

-- the map of `GetHistory` and `LatestInstanceStats`
unfoldable pub to_map : Instance → Dict Bytes
to_map i =
    (codes "enrollment_id", i.enrollment_id)
    ∷ (codes "instance_run_id", i.run_id)
    ∷ (codes "start_time", i.start_time)
    ∷ (codes "connect_time", i.connect_time)
    ∷ (codes "exit_time", i.exit_time)
    ∷ (codes "hostname", i.hostname)
    ∷ (codes "instance_id", i.instance_id)
    ∷ (codes "version", i.version)
    ∷ (codes "errors", i.error)
    ∷ []

-- What a step did to an instance: an error leaves it as it was.
abbrev pub Step : Type 0 → Type 0
Step W = Instance → W → Result HistoryError Instance × W

module _ {W : Type 0} (world : World W) where
  open world use {time_now, query}

  -- `Connected` behind its query
  unfoldable pub connected_rows :
      Option (List (Dict Bytes)) × W → Instance → Result HistoryError Instance × W
  connected_rows (none, w) i = (err query_failed, w)
  connected_rows (some [], w) i = (err no_rows, w)
  connected_rows (some (row ∷ rows), w) i = elim (Dict.lookup (codes "instance_id") row) [
    | none ↦ (err no_instance_id, w)
    | some id ↦ elim (Dict.lookup (codes "version") row) [
      | none ↦ (err no_version, w)
      | some v ↦
          let (now, w') = time_now w in
          (ok (record i { connect_time = now; instance_id = id; version = v }), w')
    ]
  ]

  unfoldable pub connected : Step W
  unfolding connected_rows
  connected i w = connected_rows (query w) i

  -- the text of the error, if there is one
  unfoldable pub exited : Option Bytes → Step W
  exited exit_error i w =
      let (now, w') = time_now w in
      (
        ok (record i { error = elim exit_error [ none ↦ i.error | some e ↦ e ]; exit_time = now }),
        w',
      )
