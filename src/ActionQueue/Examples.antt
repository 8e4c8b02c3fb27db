-- ===== src/ActionQueue/Examples.antt =====
-- A queue with one actor over the in-memory store, and the theorems at such inputs.
use launcher.Base.{
  ℕ, suc, ◌*◌, ◌≡◌, refl, ◌⊎◌, true, false, Option, none, some, List, [], ◌∷◌, Bytes, ◌==◌, ok,
  if◌then◌else◌, pos,
}
use launcher.Base.Dict
use launcher.Store.{KvStore}
use launcher.Store.InMemory.{InMemory, Pointer, new_store, get, set, put, delete, for_each}
use launcher.Store.InMemory.Order.{IsValid}
use launcher.Store.InMemory.Laws.{in_memory_kv, in_memory_kv-KvLaws}
use launcher.ActionQueue.{
  Action, Actor, Codec, ActionQueue, second, actor_for_action, is_action_new, is_action_valid,
  update_one, update_loop, update, cleanup_actions,
}
use launcher.ActionQueue.Once.{IsDue, performed_once, update_one_guard}
use launcher.ActionQueue.Cleanup.{before_undecodable, is_expired, cleanup_actions_lem}

-- a message is the ID, the second until which it is valid, the type and the time of its processing
abbrev unmarshal : Bytes → Option Action
unmarshal (i ∷ v ∷ t ∷ at ∷ []) =
    some (record { id = i ∷ []; valid_until = pos v; action_type = t ∷ []; processed_at = pos at })
unmarshal _ = none

abbrev toy_codec : Codec
toy_codec = record {
  decode_actions = λ payload. some (payload ∷ payload ∷ []);
  unmarshal = unmarshal;
  marshal = λ a. some (1 ∷ 1 ∷ 1 ∷ 0 ∷ []);
}

abbrev kv : KvStore Pointer (List Bytes × ℕ)
kv = in_memory_kv (List Bytes × ℕ)

-- the world counts the runs of the actor; the clock stands at 8 months after 1970
abbrev clock : ℕ → ℕ × ℕ
clock w = (8 * 30 * 24 * 3600 * second, w)

abbrev counts : Actor ℕ
counts raw w = (false, suc w)

abbrev fails : Actor ℕ
fails raw w = (true, suc w)

abbrev queue : ActionQueue Pointer ℕ
queue = record {
  actors = (7 ∷ [], counts) ∷ (8 ∷ [], fails) ∷ [];
  store = some new_store;
  old_notifications_store = none;
  done = false;
}

abbrev far : ℕ
far = 100000000

abbrev message : Bytes
message = 1 ∷ far ∷ 7 ∷ 0 ∷ []

abbrev failing : Bytes
failing = 2 ∷ far ∷ 8 ∷ 0 ∷ []

abbrev action : Action
action = record { id = 1 ∷ []; valid_until = pos far; action_type = 7 ∷ []; processed_at = pos 0 }

abbrev failing_action : Action
failing_action = record {
  id = 2 ∷ [];
  valid_until = pos far;
  action_type = 8 ∷ [];
  processed_at = pos 0;
}

-- the batch holds the message twice, and the actor runs once
update_once : (update toy_codec kv clock message queue 0).2 ≡ 1
unfolding update new_store get set put ◌==◌ Dict.lookup Dict.insert
update_once = refl

performed_once_example :
    let (_, aq₁, w₁) = update_one toy_codec kv clock message queue 0 in
    let (_, aq₂, w₂) = update_loop toy_codec kv clock (failing ∷ []) none aq₁ w₁ in
    update_one toy_codec kv clock message aq₂ w₂
    ≡ (none, aq₂, (is_action_valid toy_codec kv clock action w₂).1)
unfolding is_action_valid is_action_new actor_for_action new_store get set ◌==◌ Dict.lookup
performed_once_example =
    performed_once toy_codec kv (in_memory_kv-KvLaws (List Bytes × ℕ)) clock message action counts
      queue 0 0 refl refl refl refl (1 ∷ 1 ∷ 1 ∷ 0 ∷ []) refl refl refl (failing ∷ []) none message
      action refl refl

update_one_guard_example :
    ((update_one toy_codec kv clock message queue 0 ≡ (none, queue, 0))
      ⊎ (update_one toy_codec kv clock message queue 0 ≡ (none, queue, (clock 0).1)))
    ⊎ IsDue toy_codec kv clock message queue 0
update_one_guard_example = update_one_guard toy_codec kv clock message queue 0

-- a record from 1970, one from a month ago, one that does not decode, and another from 1970
abbrev history : InMemory
history = record {
  items =
      (1 ∷ [], 1 ∷ 1 ∷ 1 ∷ 0 ∷ [])
      ∷ (2 ∷ [], 2 ∷ 1 ∷ 1 ∷ (7 * 30 * 24 * 3600 * second) ∷ [])
      ∷ (3 ∷ [], 9 ∷ [])
      ∷ (4 ∷ [], 4 ∷ 1 ∷ 1 ∷ 0 ∷ [])
      ∷ [];
  order = (1 ∷ []) ∷ (2 ∷ []) ∷ (3 ∷ []) ∷ (4 ∷ []) ∷ [];
  sequence = 0;
}

history-IsValid : IsValid history
unfolding ◌==◌
history-IsValid = record {
  listed = refl;
  distinct = ((refl, (refl, (refl, tt))), ((refl, (refl, tt)), ((refl, tt), (tt, tt))));
}

abbrev old_queue : ActionQueue Pointer ℕ
old_queue = record queue { store = some history }

cleanup_forgets :
    (get (1 ∷ []) (cleanup_actions toy_codec kv clock old_queue 0).0.store ≡ ok none)
    × (get (2 ∷ []) (cleanup_actions toy_codec kv clock old_queue 0).0.store
        ≡ get (2 ∷ []) (some history))
    × (get (4 ∷ []) (cleanup_actions toy_codec kv clock old_queue 0).0.store
        ≡ get (4 ∷ []) (some history))
unfolding cleanup_actions get delete for_each ◌==◌ Dict.lookup Dict.delete
cleanup_forgets = (refl, refl, refl)

cleanup_actions_lem_example :
    get (1 ∷ []) (cleanup_actions toy_codec kv clock old_queue 0).0.store ≡ (
      if is_expired toy_codec
        (clock 0).0
        (Dict.lookup (1 ∷ []) (before_undecodable toy_codec history.items))
      then ok none
      else get (1 ∷ []) (some history))
cleanup_actions_lem_example =
    cleanup_actions_lem toy_codec clock (clock 0).0 (λ w. refl) old_queue history 0 (1 ∷ []) refl
      history-IsValid
