-- ===== src/Control/Locking.antt =====
-- ee/control/control.go: the two mutexes. A consumer runs inside `Fetch` and may call back.
use launcher.Base.{
  ℕ, ◌≡◌, refl, ◌⊎◌, inl, inr, Bool, true, false, not, Option, none, some, List, [], ◌∷◌, ◌++◌,
  arith, Bytes, Bool-cases, All,
}
use launcher.Base.Dict
use launcher.Base.Dict.{Dict}
use launcher.Store.{KvStore}
use launcher.Control.{
  Shared, Consumer, Subscriber, ControlService, Provider, FetchError, already_fetching,
  known_subsystem, registered, ping_all, after_consumer, update, remember, after_update, after_data,
  fetch_and_update, fetch_one, fetch_loop, unlocked, after_config, fetch, request_interval_changed,
}

module _ {S C W : Type 0} (kv : KvStore S C) (provider : Provider W) where
  -- A reentrant `Fetch` is refused and changes nothing.
  fetch_locked :
      (cs : ControlService S W) (sh : Shared) (w : W)
      → provider.in_modern_standby w ≡ false
      → sh.fetch_locked ≡ true
      → fetch kv provider cs sh w ≡ (some already_fetching, cs, sh, w)
  unfolding fetch
  fetch_locked cs sh w awake locked = ground (arith, awake, locked)

  after_config-unlocks :
      (cs : ControlService S W) (sh : Shared) (r : Bool × Option Bytes × W)
      → (after_config kv provider cs sh r).2.fetch_locked ≡ false
  unfolding after_config unlocked
  after_config-unlocks cs sh (true, data', w) = refl
  after_config-unlocks cs sh (false, none, w) = refl
  after_config-unlocks cs sh (false, some reader, w) = ground arith

  after_config_error :
      (cs : ControlService S W) (sh : Shared) (r : Bool × Option Bytes × W) (e : FetchError)
      → (after_config kv provider cs sh r).0 ≡ some e
      → ((after_config kv provider cs sh r).1 ≡ cs)
        × ((after_config kv provider cs sh r).2 ≡ record sh { fetch_locked = false })
  unfolding after_config unlocked
  after_config_error cs sh (true, data', w) e h = (refl, refl)
  after_config_error cs sh (false, none, w) e h = (refl, refl)
  after_config_error cs sh (false, some reader, w) e h = ground arith

  -- On every path `Fetch` leaves the lock as it found it. If it returns an error, the service and a
  -- request for a full fetch are as before; and if it found the lock taken, it does return an
  -- error, except in modern standby, where it does nothing.
  pub fetch_lem :
      (cs : ControlService S W) (sh : Shared) (w : W)
      → let (e, cs', sh', _) = fetch kv provider cs sh w in
        (sh.fetch_locked ≡ false → sh'.fetch_locked ≡ false)
        × ((x : FetchError) → e ≡ some x → (cs' ≡ cs) × (sh' ≡ sh))
        × (sh.fetch_locked ≡ true
            → (cs' ≡ cs)
              × (sh' ≡ sh)
              × ((e ≡ some already_fetching) ⊎ (provider.in_modern_standby w ≡ true)))
  unfolding fetch
  fetch_lem cs sh w =
      let locked : Shared = record sh { fetch_locked = true } in
      let r = provider.get_config w in
      (
        λ free. ground (arith, free, after_config-unlocks cs locked r),
        λ x h. ground (arith, after_config_error cs locked r x),
        λ taken. ground (arith, taken),
      )

module _ {W : Type 0} where
  -- The subscriber, or consumer, does not withdraw a request for a full fetch.
  abbrev pub PingKeeps : Subscriber W → Type 0
  PingKeeps ping = (sh : Shared) (w : W) → sh.fetch_full ≡ true → (ping sh w).0.fetch_full ≡ true

  abbrev pub ConsumerKeeps : Consumer W → Type 0
  ConsumerKeeps consumer =
      (reader : Bytes) (sh : Shared) (w : W)
      → sh.fetch_full ≡ true
      → (consumer reader sh w).1.fetch_full ≡ true

  ping_all_keeps :
      (pings : List (Subscriber W)) (sh : Shared) (w : W)
      → All PingKeeps pings
      → sh.fetch_full ≡ true
      → (ping_all pings sh w).0.fetch_full ≡ true
  unfolding ping_all
  ping_all_keeps [] sh w keeps h = h
  ping_all_keeps (ping ∷ pings) sh w keeps h =
      let (sh', w') = ping sh w in ping_all_keeps pings sh' w' keeps.1 (keeps.0 sh w h)

  after_consumer_keeps :
      (pings : List (Subscriber W)) (r : Bool × Shared × W)
      → All PingKeeps pings
      → r.1.fetch_full ≡ true
      → (after_consumer pings r).1.fetch_full ≡ true
  unfolding after_consumer
  after_consumer_keeps pings (true, sh, w) keeps h = h
  after_consumer_keeps pings (false, sh, w) keeps h = ping_all_keeps pings sh w keeps h

-- No consumer and no subscriber withdraws a request for a full fetch.
pub record KeepsRequest {S W : Type 0} (cs : ControlService S W) : Type 0 where
  pub consumers_keep :
      (k : Bytes) (c : Consumer W) → Dict.lookup k cs.consumers ≡ some c → ConsumerKeeps c
  pub subscribers_keep : (k : Bytes) → All PingKeeps (registered (Dict.lookup k cs.subscribers))

module _ {S C W : Type 0} (kv : KvStore S C) (provider : Provider W) where
  update_keeps :
      (subsystem reader : Bytes) (cs : ControlService S W) (sh : Shared) (w : W)
      → KeepsRequest cs
      → sh.fetch_full ≡ true
      → (update subsystem reader cs sh w).1.fetch_full ≡ true
  unfolding update
  update_keeps subsystem reader cs sh w keeps h = go (Dict.lookup subsystem cs.consumers) refl
    where
      go :
          (o : Option (Consumer W))
          → Dict.lookup subsystem cs.consumers ≡ o
          → (update subsystem reader cs sh w).1.fetch_full ≡ true
      go none e =
          rw (e, update)
            (after_consumer_keeps (registered (Dict.lookup subsystem cs.subscribers)) (false, sh, w)
              (keeps.subscribers_keep subsystem) h)
      go (some consumer) e =
          rw (e, update)
            (after_consumer_keeps (registered (Dict.lookup subsystem cs.subscribers))
              (consumer reader sh w) (keeps.subscribers_keep subsystem)
              (keeps.consumers_keep subsystem consumer e reader sh w h))

  -- No request is withdrawn between the shared part `sh` and a later state of the service.
  abbrev pub Kept : Shared → ControlService S W × Shared × W → Type 0
  Kept sh (cs', sh', w') = KeepsRequest cs' × (sh.fetch_full ≡ true → sh'.fetch_full ≡ true)

  after_update_keeps :
      (subsystem hash : Bytes) (cs : ControlService S W) (sh : Shared) (r : Bool × Shared × W)
      → KeepsRequest cs
      → (sh.fetch_full ≡ true → r.1.fetch_full ≡ true)
      → let (_, cs', sh', w') = after_update kv provider subsystem hash cs r in
        Kept sh (cs', sh', w')
  unfolding after_update remember
  after_update_keeps subsystem hash cs sh (true, sh', w) keeps h = (keeps, h)
  after_update_keeps subsystem hash cs sh (false, sh', w) keeps h = (
    record { consumers_keep = keeps.consumers_keep; subscribers_keep = keeps.subscribers_keep },
    h,
  )

  after_data_keeps :
      (subsystem hash : Bytes) (cs : ControlService S W) (sh : Shared) (r : Bool × Option Bytes × W)
      → KeepsRequest cs
      → let (_, cs', sh', w') = after_data kv provider subsystem hash cs sh r in
        Kept sh (cs', sh', w')
  unfolding after_data
  after_data_keeps subsystem hash cs sh (true, data', w) keeps = (keeps, λ h. h)
  after_data_keeps subsystem hash cs sh (false, none, w) keeps = (keeps, λ h. h)
  after_data_keeps subsystem hash cs sh (false, some reader, w) keeps =
      after_update_keeps subsystem hash cs sh (update subsystem reader cs sh w) keeps
        (update_keeps subsystem reader cs sh w keeps)

  fetch_one_cases :
      (full : Bool) (subsystem hash : Bytes) (cs : ControlService S W) (sh : Shared) (w : W)
      → (fetch_one kv provider full subsystem hash cs sh w ≡ (cs, sh, w))
        ⊎ (let (_, cs', sh', w') = fetch_and_update kv provider subsystem hash cs sh w in
            fetch_one kv provider full subsystem hash cs sh w ≡ (cs', sh', w'))
  unfolding fetch_one
  fetch_one_cases full subsystem hash cs sh w =
      elim (Bool-cases (not (known_subsystem subsystem cs))) [
        | inl unknown ↦ inl (rw (unknown, fetch_one))
        | inr known ↦ ground (arith, known)
      ]

  fetch_one_keeps :
      (full : Bool) (subsystem hash : Bytes) (cs : ControlService S W) (sh : Shared) (w : W)
      → KeepsRequest cs
      → Kept sh (fetch_one kv provider full subsystem hash cs sh w)
  unfolding fetch_and_update
  fetch_one_keeps full subsystem hash cs sh w keeps =
      elim (fetch_one_cases full subsystem hash cs sh w) [
        | inl same ↦ rw same (keeps, λ h. h)
        | inr fetched ↦
            rw fetched
              (after_data_keeps subsystem hash cs sh (provider.get_subsystem_data hash w) keeps)
      ]

  fetch_loop_keeps :
      (full : Bool) (subsystems : Dict Bytes) (cs : ControlService S W) (sh : Shared) (w : W)
      → KeepsRequest cs
      → Kept sh (fetch_loop kv provider full subsystems cs sh w)
  unfolding fetch_loop
  fetch_loop_keeps full [] cs sh w keeps = (keeps, λ h. h)
  fetch_loop_keeps full ((subsystem, hash) ∷ subsystems) cs sh w keeps =
      let (cs', sh', w') = fetch_one kv provider full subsystem hash cs sh w in
      let (keeps', h') = fetch_one_keeps full subsystem hash cs sh w keeps in
      let (keeps'', h'') = fetch_loop_keeps full subsystems cs' sh' w' keeps' in
      (keeps'', λ h. h'' (h' h))

  fetch_loop-append :
      (full : Bool) (before after : Dict Bytes) (cs : ControlService S W) (sh : Shared) (w : W)
      → let (cs', sh', w') = fetch_loop kv provider full before cs sh w in
        fetch_loop kv provider full (before ++ after) cs sh w
        ≡ fetch_loop kv provider full after cs' sh' w'
  unfolding fetch_loop
  fetch_loop-append full [] after cs sh w = refl
  fetch_loop-append full ((subsystem, hash) ∷ before) after cs sh w =
      let (cs', sh', w') = fetch_one kv provider full subsystem hash cs sh w in
      fetch_loop-append full before after cs' sh' w'

  -- A request for a full fetch that comes in during a `Fetch`, from a consumer of one of its
  -- subsystems, is still there when that `Fetch` ends: it is left to the next one, provided that no
  -- consumer or subscriber withdraws it.
  pub request_survives :
      (before after : Dict Bytes) (reader : Bytes) (cs : ControlService S W) (sh : Shared)
      (w w' : W)
      → KeepsRequest cs
      → provider.in_modern_standby w ≡ false
      → sh.fetch_locked ≡ false
      → provider.get_config w ≡ (false, some reader, w')
      → provider.decode_subsystems reader ≡ some (before ++ after)
      → (fetch_loop kv provider sh.fetch_full before cs
          (record sh { fetch_locked = true; fetch_full = false })
          w').1.fetch_full
        ≡ true
      → ((fetch kv provider cs sh w).0 ≡ none) × ((fetch kv provider cs sh w).2.fetch_full ≡ true)
  unfolding fetch after_config unlocked
  request_survives before after reader cs sh w w' keeps awake free config decoded requested =
      let busy : Shared = record sh { fetch_locked = true; fetch_full = false } in
      let (cs₁, sh₁, w₁) = fetch_loop kv provider sh.fetch_full before cs busy w' in
      let (keeps₁, _) = fetch_loop_keeps sh.fetch_full before cs busy w' keeps in
      let (_, survives) = fetch_loop_keeps sh.fetch_full after cs₁ sh₁ w₁ keeps₁ in
      ground (
        arith,
        awake,
        free,
        config,
        decoded,
        fetch_loop-append sh.fetch_full before after cs busy w',
        survives requested,
      )

  -- A changed interval is stored whatever the fetch before it returns, an equal one changes nothing
  -- and causes no fetch, and the fetch lock is left free if it was.
  pub request_interval_changed_lem :
      (new_interval : ℕ) (cs : ControlService S W) (sh : Shared) (w : W)
      → let r = request_interval_changed kv provider new_interval cs sh w in
        (r.1.request_interval ≡ new_interval)
        × (new_interval ≡ sh.request_interval → r ≡ (cs, sh, w))
        × (sh.fetch_locked ≡ false → r.1.fetch_locked ≡ false)
  unfolding request_interval_changed
  request_interval_changed_lem new_interval cs sh w = (
    ground arith,
    λ same. ground arith,
    λ free. ground (arith, (fetch_lem kv provider cs sh w).0),
  )
