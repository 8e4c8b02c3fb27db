-- ===== src/Control/Examples.antt =====
-- A service with two consumers over the in-memory store, and the theorems at such inputs.
use mathlib.Core.Path.{subst}
use launcher.Base.{
  ℕ, suc, ◌≡◌, refl, ◌⊎◌, inl, inr, true, false, none, some, [], ◌∷◌, arith, Bytes, ◌==◌,
  Bool-cases,
}
use launcher.Base.Dict
use launcher.Base.Dict.{Dict}
use launcher.Store.{KvStore}
use launcher.Store.InMemory.{Pointer, new_store, get, set, put}
use launcher.Store.InMemory.Laws.{in_memory_kv, in_memory_kv-KvLaws}
use launcher.Control.{
  Shared, Consumer, ControlService, Provider, FetchError, already_fetching, known_subsystem, update,
  fetch_and_update, fetch_one, fetch_loop, fetch,
}
use launcher.Control.Freshness.{fetch_one_settled, fetch_one_restarted}
use launcher.Control.Locking.{KeepsRequest, ConsumerKeeps, fetch_lem, request_survives}

abbrev actions : Bytes
actions = 1 ∷ []

abbrev flags : Bytes
flags = 2 ∷ []

abbrev hash : Bytes
hash = 9 ∷ []

-- the world counts the updates; the configuration lists both subsystems
abbrev toy : Provider ℕ
toy = record {
  get_config = λ w. (false, some [], w);
  get_subsystem_data = λ h w. (false, some h, w);
  decode_subsystems = λ reader. some ((actions, hash) ∷ (flags, hash) ∷ []);
  send_startup = λ w. (false, w);
  in_modern_standby = λ w. false;
  force_control_subsystems = λ w. false;
  control_request_interval = λ w. 5;
}

-- the action queue may ask for a full fetch
abbrev asks : Consumer ℕ
asks reader sh w = (false, record sh { fetch_full = true }, suc w)

abbrev takes : Consumer ℕ
takes reader sh w = (false, sh, suc w)

abbrev service : ControlService Pointer ℕ
service = record {
  consumers = (actions, asks) ∷ (flags, takes) ∷ [];
  subscribers = [];
  last_fetched = [];
  store = some (some new_store);
}

abbrev idle : Shared
idle = record { fetch_locked = false; fetch_full = false; request_interval = 60 }

abbrev kv : KvStore Pointer ℕ
kv = in_memory_kv ℕ

-- the second fetch is a full one, the third has nothing to do but the subsystem that asked
fetch_run :
    let (_, cs, sh, w) = fetch kv toy service idle 0 in
    let (_, cs', sh', w') = fetch kv toy cs sh w in (w ≡ 2) × (sh.fetch_full ≡ true) × (w' ≡ 4)
unfolding fetch known_subsystem update new_store get set put ◌==◌ Dict.lookup Dict.insert
fetch_run = (refl, refl, refl)

fetched : (fetch_and_update kv toy flags hash service idle 0).0 ≡ false
unfolding fetch_and_update update Dict.lookup ◌==◌
fetched = refl

fetch_one_settled_example :
    let cs' = (fetch_and_update kv toy flags hash service idle 0).1 in
    fetch_one kv toy false flags hash cs' idle 7 ≡ (cs', idle, 7)
fetch_one_settled_example = fetch_one_settled kv toy flags hash service idle idle 0 7 fetched refl

-- the service after a restart
abbrev restarted : ControlService Pointer ℕ
restarted = record service { store = (fetch_and_update kv toy flags hash service idle 0).1.store }

fetch_one_restarted_example :
    fetch_one kv toy false flags hash restarted idle 0 ≡ (restarted, idle, 0)
unfolding set ◌==◌
fetch_one_restarted_example =
    fetch_one_restarted kv (in_memory_kv-KvLaws ℕ) toy flags hash service restarted (some new_store)
      idle idle 0 0 refl fetched refl refl refl refl

fetch_lem_example :
    let (e, cs', sh', _) = fetch kv toy service idle 0 in
    (idle.fetch_locked ≡ false → sh'.fetch_locked ≡ false)
    × ((x : FetchError) → e ≡ some x → (cs' ≡ service) × (sh' ≡ idle))
    × (idle.fetch_locked ≡ true
        → (cs' ≡ service)
          × (sh' ≡ idle)
          × ((e ≡ some already_fetching) ⊎ (toy.in_modern_standby 0 ≡ true)))
fetch_lem_example = fetch_lem kv toy service idle 0

asks-ConsumerKeeps : ConsumerKeeps asks
asks-ConsumerKeeps reader sh w h = refl

takes-ConsumerKeeps : ConsumerKeeps takes
takes-ConsumerKeeps reader sh w h = h

service_keeps :
    (k : Bytes) (c : Consumer ℕ) → Dict.lookup k service.consumers ≡ some c → ConsumerKeeps c
unfolding Dict.lookup
service_keeps k c e = elim (Bool-cases (actions == k)) [
  | inl first ↦
      let same : asks ≡ c = cc (rw first at e) in subst ConsumerKeeps same asks-ConsumerKeeps
  | inr other ↦ elim (Bool-cases (flags == k)) [
    | inl second ↦
        let same : takes ≡ c = cc (rw second at (rw other at e)) in
        subst ConsumerKeeps same takes-ConsumerKeeps
    | inr neither ↦ absurd (ground (arith, e, other, neither))
  ]
]

service-KeepsRequest : KeepsRequest service
unfolding Dict.lookup
service-KeepsRequest = record { consumers_keep = service_keeps; subscribers_keep = λ k. tt }

request_survives_example :
    ((fetch kv toy service idle 0).0 ≡ none) × ((fetch kv toy service idle 0).2.fetch_full ≡ true)
unfolding fetch_loop known_subsystem update new_store get set put ◌==◌ Dict.lookup Dict.insert
request_survives_example =
    request_survives kv toy ((actions, hash) ∷ []) ((flags, hash) ∷ []) [] service idle 0 0
      service-KeepsRequest refl refl refl refl refl
