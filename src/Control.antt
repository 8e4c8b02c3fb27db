-- ===== src/Control.antt =====
-- ee/control/control.go: fetches what the control server has changed, hands it to the consumer of
-- the subsystem, pings the subscribers, and remembers the hash of what it fetched.
--
-- `W` is the rest of the world: the data provider, the flags that the knapsack reports, and what
-- consumers and subscribers act on. Consumers and subscribers may call back into the service: they
-- work on its `Shared` part, which the two mutexes and the atomic interval protect. A range over
-- the map of subsystems goes through its pairs in the order of the decoded list.
pub mod Freshness
pub mod Locking
mod Examples
use launcher.Base.{
  ℕ, Bool, true, false, not, ◌&&◌, ◌||◌, Option, none, some, List, [], ◌∷◌, ◌++◌, Bytes, ◌==◌,
  Result, ok, err, if◌then◌else◌, nat_eq, is_some,
}
use launcher.Base.Dict
use launcher.Base.Dict.{Dict}
use launcher.Store.{StoreError, KvStore}

pub record Shared : Type 0 where
  pub fetch_locked : Bool  -- `fetchMutex`
  pub fetch_full : Bool
  pub request_interval : ℕ

-- `Update`; true stands for an error
abbrev pub Consumer : Type 0 → Type 0
Consumer W = Bytes → Shared → W → Bool × Shared × W

-- `Ping`
abbrev pub Subscriber : Type 0 → Type 0
Subscriber W = Shared → W → Shared × W

pub record ControlService (S W : Type 0) : Type 0 where
  pub consumers : Dict (Consumer W)
  pub subscribers : Dict (List (Subscriber W))
  pub last_fetched : Dict Bytes
  pub store : Option S

-- What the service uses of the rest of the world. A reader that is nil is `none`.
pub record Provider (W : Type 0) : Type 0 where
  pub get_config : W → Bool × Option Bytes × W
  pub get_subsystem_data : Bytes → W → Bool × Option Bytes × W
  pub decode_subsystems : Bytes → Option (Dict Bytes)
  pub send_startup : W → Bool × W
  pub in_modern_standby : W → Bool
  pub force_control_subsystems : W → Bool
  pub control_request_interval : W → ℕ

pub data FetchError : Type 0 where
  already_fetching : FetchError
  config_failed : FetchError
  config_nil : FetchError
  decode_failed : FetchError

module _ {W : Type 0} where
  abbrev pub registered : Option (List (Subscriber W)) → List (Subscriber W)
  registered none = []
  registered (some subscribers) = subscribers

  unfoldable pub ping_all : List (Subscriber W) → Shared → W → Shared × W
  ping_all [] sh w = (sh, w)
  ping_all (ping ∷ pings) sh w = let (sh', w') = ping sh w in ping_all pings sh' w'

  -- the pings of `update`, unless the consumer failed
  after_consumer : List (Subscriber W) → Bool × Shared × W → Bool × Shared × W
  unfolding ping_all
  after_consumer pings (true, sh, w) = (true, sh, w)
  after_consumer pings (false, sh, w) = let (sh', w') = ping_all pings sh w in (false, sh', w')

module _ {S W : Type 0} where
  -- `knownSubsystem`
  unfoldable pub known_subsystem : Bytes → ControlService S W → Bool
  known_subsystem subsystem cs =
      is_some (Dict.lookup subsystem cs.consumers) || is_some (Dict.lookup subsystem cs.subscribers)

  -- `none` is the error of a second registration
  unfoldable pub register_consumer :
      Bytes → Consumer W → ControlService S W → Option (ControlService S W)
  register_consumer subsystem consumer cs =
      if is_some (Dict.lookup subsystem cs.consumers)
      then none
      else some (record cs { consumers = Dict.insert subsystem consumer cs.consumers })

  unfoldable pub register_subscriber :
      Bytes → Subscriber W → ControlService S W → ControlService S W
  register_subscriber subsystem subscriber cs = record cs {
    subscribers =
        Dict.insert subsystem (registered (Dict.lookup subsystem cs.subscribers) ++ subscriber ∷ [])
          cs.subscribers;
  }

  unfoldable pub update : Bytes → Bytes → ControlService S W → Shared → W → Bool × Shared × W
  unfolding after_consumer
  update subsystem reader cs sh w =
      let pings = registered (Dict.lookup subsystem cs.subscribers) in
      elim (Dict.lookup subsystem cs.consumers) [
        | none ↦ after_consumer pings (false, sh, w)
        | some consumer ↦ after_consumer pings (consumer reader sh w)
      ]

-- `Do`, the action "force_full_control_data_fetch"; it returns no error
unfoldable pub do_force_full : Shared → Shared
do_force_full sh = record sh { fetch_full = true }

module _ {S C W : Type 0} (kv : KvStore S C) (provider : Provider W) where
  open provider use {
    get_config, get_subsystem_data, decode_subsystems, send_startup, in_modern_standby,
    force_control_subsystems, control_request_interval,
  }

  -- the hash is remembered in memory, and in the store if there is one; an error of the store is
  -- logged only
  unfoldable pub remember : Bytes → Bytes → ControlService S W → ControlService S W
  remember subsystem hash cs = record cs {
    last_fetched = Dict.insert subsystem hash cs.last_fetched;
    store = elim cs.store [ none ↦ none | some s ↦ some (kv.set subsystem hash s).1 ];
  }

  after_update :
      Bytes
      → Bytes
      → ControlService S W
      → Bool × Shared × W
      → Bool × ControlService S W × Shared × W
  unfolding remember
  after_update subsystem hash cs (true, sh, w) = (true, cs, sh, w)
  after_update subsystem hash cs (false, sh, w) = (false, remember subsystem hash cs, sh, w)

  after_data :
      Bytes
      → Bytes
      → ControlService S W
      → Shared
      → Bool × Option Bytes × W
      → Bool × ControlService S W × Shared × W
  unfolding after_update update
  after_data subsystem hash cs sh (true, data', w) = (true, cs, sh, w)
  after_data subsystem hash cs sh (false, none, w) = (true, cs, sh, w)
  after_data subsystem hash cs sh (false, some reader, w) =
      after_update subsystem hash cs (update subsystem reader cs sh w)

  -- its first result is true for an error
  unfoldable pub fetch_and_update :
      Bytes → Bytes → ControlService S W → Shared → W → Bool × ControlService S W × Shared × W
  unfolding after_data
  fetch_and_update subsystem hash cs sh w =
      after_data subsystem hash cs sh (get_subsystem_data hash w)

  -- `string(storedHash)` of what the store has; an error and a missing key read as ""
  stored_hash : Bytes → Option S → Bytes
  stored_hash subsystem none = []
  stored_hash subsystem (some s) = elim (kv.get subsystem s) [
    | err e ↦ []
    | ok found ↦ elim found [ none ↦ [] | some hash ↦ hash ]
  ]

  unfoldable pub last_hash : Bytes → ControlService S W → Bytes
  unfolding stored_hash
  last_hash subsystem cs = elim (Dict.lookup subsystem cs.last_fetched) [
    | none ↦ stored_hash subsystem cs.store
    | some hash ↦ hash
  ]

  -- a round of the loop of `Fetch`, for one subsystem; an error of the update is logged only
  unfoldable pub fetch_one :
      Bool → Bytes → Bytes → ControlService S W → Shared → W → ControlService S W × Shared × W
  unfolding last_hash fetch_and_update
  fetch_one full subsystem hash cs sh w =
      if not (known_subsystem subsystem cs)
      then (cs, sh, w)
      else if hash == last_hash subsystem cs && not (force_control_subsystems w) && not full
      then (cs, sh, w)
      else let (_, cs', sh', w') = fetch_and_update subsystem hash cs sh w in (cs', sh', w')

  unfoldable pub fetch_loop :
      Bool → Dict Bytes → ControlService S W → Shared → W → ControlService S W × Shared × W
  unfolding fetch_one
  fetch_loop full [] cs sh w = (cs, sh, w)
  fetch_loop full ((subsystem, hash) ∷ subsystems) cs sh w =
      let (cs', sh', w') = fetch_one full subsystem hash cs sh w in
      fetch_loop full subsystems cs' sh' w'

  unlocked :
      Option FetchError
      → ControlService S W × Shared × W
      → Option FetchError × ControlService S W × Shared × W
  unlocked e (cs, sh, w) = (e, cs, record sh { fetch_locked = false }, w)

  -- `Fetch` behind the call of `GetConfig`, with the lock held
  after_config :
      ControlService S W
      → Shared
      → Bool × Option Bytes × W
      → Option FetchError × ControlService S W × Shared × W
  unfolding fetch_loop unlocked
  after_config cs sh (true, data', w) = unlocked (some config_failed) (cs, sh, w)
  after_config cs sh (false, none, w) = unlocked (some config_nil) (cs, sh, w)
  after_config cs sh (false, some reader, w) = elim (decode_subsystems reader) [
    | none ↦ unlocked (some decode_failed) (cs, sh, w)
    | some subsystems ↦
        unlocked none (fetch_loop sh.fetch_full subsystems cs (record sh { fetch_full = false }) w)
  ]

  unfoldable pub fetch :
      ControlService S W → Shared → W → Option FetchError × ControlService S W × Shared × W
  unfolding after_config
  fetch cs sh w =
      if in_modern_standby w
      then (none, cs, sh, w)
      else if sh.fetch_locked
      then (some already_fetching, cs, sh, w)
      else after_config cs (record sh { fetch_locked = true }) (get_config w)

  -- an error of the fetch is logged only
  unfoldable pub request_interval_changed :
      ℕ → ControlService S W → Shared → W → ControlService S W × Shared × W
  unfolding fetch
  request_interval_changed new_interval cs sh w =
      if nat_eq new_interval sh.request_interval
      then (cs, sh, w)
      else let (_, cs', sh', w') = fetch cs sh w in
        (cs', record sh' { request_interval = new_interval }, w')

  -- which of the two flags are among the changed keys
  unfoldable pub flags_changed :
      Bool → Bool → ControlService S W → Shared → W → ControlService S W × Shared × W
  unfolding request_interval_changed
  flags_changed interval_key standby_key cs sh w =
      let (cs', sh', w') =
        if interval_key
        then request_interval_changed (control_request_interval w) cs sh w
        else (cs, sh, w) in
      let (_, cs'', sh'', w'') = fetch cs' sh' w' in
      if standby_key && not (in_modern_standby w') then (cs'', sh'', w'') else (cs', sh', w')

  -- a round of the loop of `Start`: the startup message goes out behind a fetch with no error,
  -- until it has been sent once
  start_round :
      Bool
      → Option FetchError × ControlService S W × Shared × W
      → Bool × ControlService S W × Shared × W
  start_round sent_already (some e, cs, sh, w) = (sent_already, cs, sh, w)
  start_round true (none, cs, sh, w) = (true, cs, sh, w)
  start_round false (none, cs, sh, w) =
      let (failed, w') = send_startup w in (not failed, cs, sh, w')

  -- the loop of `Start`, which the context ends after `ticks` ticks
  unfoldable pub start_loop :
      List (Shared → W → Shared × W)
      → Bool
      → ControlService S W
      → Shared
      → W
      → Bool × ControlService S W × Shared × W
  unfolding start_round fetch
  start_loop [] sent_already cs sh w = start_round sent_already (fetch cs sh w)
  start_loop (wait ∷ ticks) sent_already cs sh w =
      let (sent', cs', sh', w') = start_round sent_already (fetch cs sh w) in
      let (sh'', w'') = wait sh' w' in start_loop ticks sent' cs' sh'' w''
