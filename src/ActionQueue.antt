-- ===== src/ActionQueue.antt =====
-- ee/control/actionqueue/actionqueue.go: performs the actions that the control server sends, each
-- at most once, by a record of the finished ones in a key-value store.
--
-- `W` is the rest of the world: the actors work on it and the clock is read from it. The JSON codec
-- is a parameter. An interface value that may be nil is an `Option`. The logger is left out.
pub mod Once
pub mod Cleanup
mod Examples
use launcher.Base.{
  ℕ, ◌*◌, ◌/◌, Bool, true, false, not, ◌&&◌, Option, none, some, List, [], ◌∷◌, ◌++◌, Bytes, ◌==◌,
  Result, ok, err, if◌then◌else◌, ℤ, pos, ltbℤ, lebℤ, ◌+ℤ◌,
}
use launcher.Base.Dict
use launcher.Base.Dict.{Dict}
use launcher.Store.{StoreError, KvStore}

-- nanoseconds
abbrev pub second : ℕ
second = 1000000000

-- `actionRetentionPeriod`
abbrev pub action_retention_period : ℕ
action_retention_period = second * 3600 * 24 * 30 * 6

pub record Action : Type 0 where
  pub id : Bytes
  pub valid_until : ℤ
  pub action_type : Bytes
  pub processed_at : ℤ

-- encoding/json, as far as it is used
pub record Codec : Type 0 where
  pub decode_actions : Bytes → Option (List Bytes)
  pub unmarshal : Bytes → Option Action
  pub marshal : Action → Option Bytes

-- `Do`; true stands for an error
abbrev pub Actor : Type 0 → Type 0
Actor W = Bytes → W → Bool × W

pub record ActionQueue (S W : Type 0) : Type 0 where
  pub actors : Dict (Actor W)
  pub store : S
  pub old_notifications_store : Option S
  pub done : Bool

pub data UpdateError : Type 0 where
  decode_failed : UpdateError
  do_failed : Bytes → UpdateError

pub data CleanupEvent : Type 0 where
  ctx_done stopped ticked : CleanupEvent

module _ {S W : Type 0} where
  unfoldable pub register_actor : Bytes → Actor W → ActionQueue S W → ActionQueue S W
  register_actor actor_type actor aq = record aq { actors = Dict.insert actor_type actor aq.actors }

  -- `none` is each of the three errors
  unfoldable pub actor_for_action : Action → ActionQueue S W → Option (Actor W)
  actor_for_action a aq = elim aq.actors [
    | [] ↦ none
    | _ ∷ _ ↦ if a.action_type == [] then none else Dict.lookup a.action_type aq.actors
  ]

  -- closes `done` unless it is closed
  unfoldable pub stop_cleanup : ActionQueue S W → ActionQueue S W
  stop_cleanup aq = if aq.done then aq else record aq { done = true }

abbrev pub latest : Option UpdateError → Option UpdateError → Option UpdateError
latest process_error none = process_error
latest process_error (some e) = some e

-- `time.Now()` in nanoseconds since 1970; to read the clock may change the world
module _ {S W : Type 0} (codec : Codec) (kv : KvStore S (List Bytes × W))
    (read_clock : W → ℕ × W) where
  unfoldable pub store_action_record : Action → ActionQueue S W → ActionQueue S W
  store_action_record a aq = elim (codec.marshal a) [
    | none ↦ aq
    | some raw ↦ record aq { store = (kv.set a.id raw aq.store).1 }
  ]

  -- nothing under the key
  is_missing : Bytes → S → Bool
  is_missing id s = elim (kv.get id s) [
    | err e ↦ false
    | ok found ↦ elim found [ none ↦ true | some raw ↦ false ]
  ]

  unfoldable pub is_action_new : Bytes → ActionQueue S W → Bool
  unfolding is_missing
  is_action_new id aq =
      if is_missing id aq.store
      then elim aq.old_notifications_store [ none ↦ true | some old ↦ is_missing id old ]
      else false

  unfoldable pub is_action_valid : Action → W → Bool × W
  is_action_valid a w =
      if a.id == []
      then (false, w)
      else if lebℤ a.valid_until (pos 0)
      then (false, w)
      else let (now, w') = read_clock w in (ltbℤ (pos (now / second)) a.valid_until, w')

  -- the end of a round, once `Do` has returned
  after_do : Action → ActionQueue S W → Bool × W → Option UpdateError × ActionQueue S W × W
  unfolding store_action_record
  after_do a aq (true, w) = (some (do_failed a.action_type), aq, w)
  after_do a aq (false, w) =
      let (now, w') = read_clock w in
      (none, store_action_record (record a { processed_at = pos now }) aq, w')

  act : Bytes → Action → ActionQueue S W → W → Option UpdateError × ActionQueue S W × W
  unfolding actor_for_action after_do
  act raw a aq w = elim (actor_for_action a aq) [
    | none ↦ (none, aq, w)
    | some actor ↦ after_do a aq (actor raw w)
  ]

  -- a round of `Update`, for one raw action; its error, if any
  unfoldable pub update_one : Bytes → ActionQueue S W → W → Option UpdateError × ActionQueue S W × W
  unfolding is_action_valid is_action_new act
  update_one raw aq w = elim (codec.unmarshal raw) [
    | none ↦ (none, aq, w)
    | some a ↦
        let (valid, w') = is_action_valid a w in
        if valid && is_action_new a.id aq then act raw a aq w' else (none, aq, w')
  ]

  unfoldable pub update_loop :
      List Bytes
      → Option UpdateError
      → ActionQueue S W
      → W
      → Option UpdateError × ActionQueue S W × W
  unfolding update_one
  update_loop [] process_error aq w = (process_error, aq, w)
  update_loop (raw ∷ raws) process_error aq w =
      let (error, aq', w') = update_one raw aq w in
      update_loop raws (latest process_error error) aq' w'

  unfoldable pub update : Bytes → ActionQueue S W → W → Option UpdateError × ActionQueue S W × W
  unfolding update_loop
  update payload aq w = elim (codec.decode_actions payload) [
    | none ↦ (some decode_failed, aq, w)
    | some raws ↦ update_loop raws none aq w
  ]

  -- the callback of `cleanupActions`
  unfoldable pub collect_expired : Bytes → Bytes → List Bytes × W → Bool × (List Bytes × W)
  collect_expired k v (keys_to_delete, w) = elim (codec.unmarshal v) [
    | none ↦ (true, (keys_to_delete, w))
    | some a ↦
        let (now, w') = read_clock w in
        let expired = ltbℤ (a.processed_at +ℤ pos action_retention_period) (pos now) in
        (false, (if expired then keys_to_delete ++ k ∷ [] else keys_to_delete, w'))
  ]

  -- errors of the iteration and of the deletion are logged only
  unfoldable pub cleanup_actions : ActionQueue S W → W → ActionQueue S W × W
  unfolding collect_expired
  cleanup_actions aq w =
      let (_, (keys_to_delete, w')) = kv.for_each collect_expired ([], w) aq.store in
      (record aq { store = (kv.delete keys_to_delete aq.store).1 }, w')

  -- the loop of `runCleanup`, over the events that its `select` sees
  unfoldable pub run_cleanup : List CleanupEvent → ActionQueue S W → W → ActionQueue S W × W
  unfolding cleanup_actions
  run_cleanup [] aq w = (aq, w)
  run_cleanup (ctx_done ∷ events) aq w = (aq, w)
  run_cleanup (stopped ∷ events) aq w = (aq, w)
  run_cleanup (ticked ∷ events) aq w =
      let (aq', w') = cleanup_actions aq w in run_cleanup events aq' w'
