-- ===== src/Publish/Reenroll.antt =====
-- pkg/osquery/extension.go: `writeLogsWithReenroll`, which publishes a batch of logs and enrolls the
-- device again, once, if the server calls it invalid.
use launcher.Base.{ℕ, Option, none, some, List, [], Bytes, ◌==◌, true, false, if◌then◌else◌}
use launcher.Publish.State.{LogPublicationState, end_batch}

pub data LogType : Type 0 where
  type_string : LogType
  type_snapshot : LogType
  type_status : LogType
  type_health : LogType
  type_init : LogType
  type_other : ℕ → LogType

pub data LogError : Type 0 where
  unsupported_type : LogError
  unreadable : LogError
  enroll_failed : LogError
  device_disabled : LogError
  transport_failed : LogError
  reenroll_disabled : LogError
  reenroll_failed : LogError
  delete_failed : LogError
  append_failed : LogError

-- what `PublishLogs` returned: that the device is disabled, another error, which may tell that the
-- node is invalid, or no error, with the flag for an invalid node
pub data Published : Type 0 where
  disabled : Published
  failed : Published
  invalid_node : Published
  accepted : Published

pub record Service (W : Type 0) : Type 0 where
  pub node_key : W → Bytes
  pub enroll : W → Option Bytes × W  -- `none`: an error or an invalid node
  pub publish_logs : Bytes → LogType → List Bytes → W → Published × W
  pub publish_to_ingester : LogType → List Bytes → W → W
  pub uninstall : W → W
  pub require_reenroll : W → W
  pub now : W → ℕ

-- the service, the publication state and the world of a call
abbrev pub Outcome : Type 0 → Type 0
Outcome W = Option LogError × LogPublicationState × W

module _ {W : Type 0} (service : Service W) where
  open service use {
    node_key, enroll, publish_logs, publish_to_ingester, uninstall, require_reenroll, now,
  }

  -- behind the call of `PublishLogs`; `again` is what follows on an invalid node
  unfoldable pub after_publish :
      (LogPublicationState → W → Outcome W) → LogPublicationState → Published × W → Outcome W
  after_publish again st (disabled, w) = (some device_disabled, st, uninstall w)
  after_publish again st (failed, w) = (some transport_failed, end_batch (now w) false st, w)
  after_publish again st (invalid_node, w) = again st w
  after_publish again st (accepted, w) = (none, end_batch (now w) true st, w)

  unfoldable pub with_key :
      (LogPublicationState → W → Outcome W)
      → LogType
      → List Bytes
      → LogPublicationState
      → Option Bytes × W
      → Outcome W
  unfolding after_publish
  with_key again typ logs st (none, w) = (some enroll_failed, st, w)
  with_key again typ logs st (some [], w) = (some enroll_failed, st, w)
  with_key again typ logs st (some key, w) = after_publish again st (publish_logs key typ logs w)

  -- an attempt of `writeLogsWithReenroll`
  unfoldable pub attempt :
      (LogPublicationState → W → Outcome W)
      → LogType
      → List Bytes
      → LogPublicationState
      → W
      → Outcome W
  unfolding with_key
  attempt again typ logs st w =
      with_key again typ logs st (if node_key w == [] then enroll w else (some (node_key w), w))

  unfoldable pub after_reenroll :
      LogType → List Bytes → LogPublicationState → Option Bytes × W → Outcome W
  unfolding attempt
  after_reenroll typ logs st (none, w) = (some reenroll_failed, st, w)
  after_reenroll typ logs st (some key, w) =
      attempt (λ st' w'. (some reenroll_disabled, st', w')) typ logs st w

  -- `writeLogsWithReenroll` with `reenroll` true; its second attempt has it false
  unfoldable pub write_logs_with_reenroll :
      LogType → List Bytes → LogPublicationState → W → Outcome W
  unfolding attempt after_reenroll
  write_logs_with_reenroll typ logs st w =
      attempt (λ st' w'. after_reenroll typ logs st' (enroll (require_reenroll w'))) typ logs st w
