-- ===== src/ActionQueue/Once.antt =====
-- `Update` of ee/control/actionqueue/actionqueue.go: which actions are performed, and how often.
use launcher.Base.{
  ℕ, ◌/◌, ◌≡◌, ◌≢◌, refl, ◌⊎◌, inl, inr, Bool, true, false, Option, none, some, List, [], ◌∷◌, ◌++◌,
  arith, Bytes, eq_iff, eq_refl, Result, ok, err, pos, ltbℤ, Bool-cases,
}
use launcher.Base.Dict
use launcher.Store.{StoreError, KvStore, KvLaws}
use launcher.ActionQueue.{
  Action, Actor, Codec, ActionQueue, UpdateError, do_failed, second, actor_for_action,
  store_action_record, is_action_new, is_action_valid, after_do, act, update_one, latest,
  update_loop,
}

abbrev holds : Result StoreError (Option Bytes) → Bool
holds (err e) = false
holds (ok none) = false
holds (ok (some v)) = true

module _ {S W : Type 0} (codec : Codec) (kv : KvStore S (List Bytes × W))
    (read_clock : W → ℕ × W) where
  -- The store holds a record under the key.
  abbrev pub IsRecorded : Bytes → ActionQueue S W → Type 0
  IsRecorded id aq = holds (kv.get id aq.store) ≡ true

  recorded_not_new :
      (id : Bytes) (aq : ActionQueue S W)
      → IsRecorded id aq
      → is_action_new codec kv read_clock id aq ≡ false
  unfolding is_action_new
  recorded_not_new id aq h = ground arith

  -- A recorded action is not performed: only the clock may be read.
  pub update_one_recorded :
      (raw : Bytes) (a : Action) (aq : ActionQueue S W) (w : W)
      → codec.unmarshal raw ≡ some a
      → IsRecorded a.id aq
      → update_one codec kv read_clock raw aq w
        ≡ (none, aq, (is_action_valid codec kv read_clock a w).1)
  unfolding update_one
  update_one_recorded raw a aq w decoded h = ground (arith, decoded, recorded_not_new a.id aq h)

  -- A message that is no action is dropped, and nothing else happens.
  update_one_malformed :
      (raw : Bytes) (aq : ActionQueue S W) (w : W)
      → codec.unmarshal raw ≡ none
      → update_one codec kv read_clock raw aq w ≡ (none, aq, w)
  unfolding update_one
  update_one_malformed raw aq w h = rw (h, update_one)

  -- A message of a batch that is no action has no effect on the others, wherever it stands.
  pub update_loop_malformed :
      (before after : List Bytes) (raw : Bytes) (e : Option UpdateError) (aq : ActionQueue S W)
      (w : W)
      → codec.unmarshal raw ≡ none
      → update_loop codec kv read_clock (before ++ raw ∷ after) e aq w
        ≡ update_loop codec kv read_clock (before ++ after) e aq w
  unfolding update_loop
  update_loop_malformed [] after raw e aq w h = rw (update_one_malformed raw aq w h, update_loop)
  update_loop_malformed (x ∷ before) after raw e aq w h =
      let (error, aq', w') = update_one codec kv read_clock x aq w in
      update_loop_malformed before after raw (latest e error) aq' w' h

  -- What must hold for an actor to run on a message.
  pub record IsDue (raw : Bytes) (aq : ActionQueue S W) (w : W) : Type 0 where
    pub action : Action
    pub actor : Actor W
    pub decoded : codec.unmarshal raw ≡ some action
    pub named : action.id ≢ []
    pub unexpired : ltbℤ (pos ((read_clock w).0 / second)) action.valid_until ≡ true
    pub unrecorded : kv.get action.id aq.store ≡ ok none
    pub typed : action.action_type ≢ []
    pub registered : Dict.lookup action.action_type aq.actors ≡ some actor

actor_for_action-some :
    {S W : Type 0} (a : Action) (aq : ActionQueue S W) (actor : Actor W)
    → actor_for_action a aq ≡ some actor
    → (a.action_type ≢ []) × (Dict.lookup a.action_type aq.actors ≡ some actor)
unfolding actor_for_action
actor_for_action-some a aq actor h =
    (λ e. ground (arith, (eq_iff a.action_type []).1 e), ground arith)

module _ {S W : Type 0} (codec : Codec) (kv : KvStore S (List Bytes × W)) (read_clock : W → ℕ × W)
    (raw : Bytes) (aq : ActionQueue S W) (w : W) where
  -- the round does nothing, or only reads the clock
  abbrev Unchanged : Type 0
  Unchanged =
      (update_one codec kv read_clock raw aq w ≡ (none, aq, w))
      ⊎ (update_one codec kv read_clock raw aq w ≡ (none, aq, (read_clock w).1))

  idle :
      (a : Action)
      → codec.unmarshal raw ≡ some a
      → (is_action_valid codec kv read_clock a w).0 ≡ false
        ⊎ (is_action_new codec kv read_clock a.id aq ≡ false)
        ⊎ (actor_for_action a aq ≡ none)
      → Unchanged
  unfolding is_action_valid
  idle a e h =
      let same : update_one codec kv read_clock raw aq w
          ≡ (none, aq, (is_action_valid codec kv read_clock a w).1) =
        unfold update_one act in ground arith in
      rw same (ground arith)

  -- A round changes nothing but the clock, or its message is due: it decodes to an action with an
  -- ID, which is not expired, is not recorded as done, and has a registered actor for its type.
  pub update_one_guard :
      ((update_one codec kv read_clock raw aq w ≡ (none, aq, w))
        ⊎ (update_one codec kv read_clock raw aq w ≡ (none, aq, (read_clock w).1)))
      ⊎ IsDue codec kv read_clock raw aq w
  unfolding is_action_valid is_action_new
  update_one_guard = decode_cases (codec.unmarshal raw) refl
    where
      actor_cases :
          (a : Action) (o : Option (Actor W))
          → codec.unmarshal raw ≡ some a
          → actor_for_action a aq ≡ o
          → Unchanged ⊎ IsDue codec kv read_clock raw aq w
      actor_cases a none e found = inl (idle a e (inr (inr found)))
      actor_cases a (some actor) e found =
          elim (Bool-cases (is_action_new codec kv read_clock a.id aq)) [
            | inr old ↦ inl (idle a e (inr (inl old)))
            | inl new ↦ elim (Bool-cases (is_action_valid codec kv read_clock a w).0) [
              | inr invalid ↦ inl (idle a e (inl invalid))
              | inl valid ↦ inr (record {
                action = a;
                actor = actor;
                decoded = e;
                named = λ blank. ground (arith, (eq_iff a.id []).1 blank);
                unexpired = ground arith;
                unrecorded = ground arith;
                typed = (actor_for_action-some a aq actor found).0;
                registered = (actor_for_action-some a aq actor found).1;
              })
            ]
          ]

      decode_cases :
          (o : Option Action)
          → codec.unmarshal raw ≡ o
          → Unchanged ⊎ IsDue codec kv read_clock raw aq w
      decode_cases none e = inl (inl (update_one_malformed codec kv read_clock raw aq w e))
      decode_cases (some a) e = actor_cases a (actor_for_action a aq) e refl

module _ {S W : Type 0} (codec : Codec) (kv : KvStore S (List Bytes × W)) (laws : KvLaws kv)
    (read_clock : W → ℕ × W) where
  set-IsRecorded :
      (id k raw : Bytes) (s : S)
      → holds (kv.get id s) ≡ true
      → holds (kv.get id (kv.set k raw s).1) ≡ true
  set-IsRecorded id k raw s h = set_cases (kv.set k raw s).0 refl
    where
      set_cases :
          (e : Option StoreError)
          → (kv.set k raw s).0 ≡ e
          → holds (kv.get id (kv.set k raw s).1) ≡ true
      set_cases none done = rw (laws.get-set k raw s done id) (ground arith)
      set_cases (some e) failed = rw (laws.set_failed k raw s e failed) h

  store_record-IsRecorded :
      (id : Bytes) (a : Action) (aq : ActionQueue S W)
      → IsRecorded codec kv read_clock id aq
      → IsRecorded codec kv read_clock id (store_action_record codec kv read_clock a aq)
  unfolding store_action_record
  store_record-IsRecorded id a aq h = marshal_cases (codec.marshal a) refl
    where
      marshal_cases :
          (m : Option Bytes)
          → codec.marshal a ≡ m
          → IsRecorded codec kv read_clock id (store_action_record codec kv read_clock a aq)
      marshal_cases none e = rw (e, store_action_record) h
      marshal_cases (some raw) e =
          rw (e, store_action_record) (set-IsRecorded id a.id raw aq.store h)

  after_do-IsRecorded :
      (id : Bytes) (a : Action) (aq : ActionQueue S W) (r : Bool × W)
      → IsRecorded codec kv read_clock id aq
      → IsRecorded codec kv read_clock id (after_do codec kv read_clock a aq r).1
  unfolding after_do
  after_do-IsRecorded id a aq (true, w) h = h
  after_do-IsRecorded id a aq (false, w) h =
      store_record-IsRecorded id (record a { processed_at = pos (read_clock w).0 }) aq h

  act-IsRecorded :
      (id raw : Bytes) (a : Action) (aq : ActionQueue S W) (w : W)
      → IsRecorded codec kv read_clock id aq
      → IsRecorded codec kv read_clock id (act codec kv read_clock raw a aq w).1
  unfolding act
  act-IsRecorded id raw a aq w h = actor_cases (actor_for_action a aq) refl
    where
      actor_cases :
          (o : Option (Actor W))
          → actor_for_action a aq ≡ o
          → IsRecorded codec kv read_clock id (act codec kv read_clock raw a aq w).1
      actor_cases none e = rw (e, act) h
      actor_cases (some actor) e = rw (e, act) (after_do-IsRecorded id a aq (actor raw w) h)

  update_one-IsRecorded :
      (id raw : Bytes) (aq : ActionQueue S W) (w : W)
      → IsRecorded codec kv read_clock id aq
      → IsRecorded codec kv read_clock id (update_one codec kv read_clock raw aq w).1
  unfolding update_one
  update_one-IsRecorded id raw aq w h = decode_cases (codec.unmarshal raw) refl
    where
      decode_cases :
          (o : Option Action)
          → codec.unmarshal raw ≡ o
          → IsRecorded codec kv read_clock id (update_one codec kv read_clock raw aq w).1
      decode_cases none e = rw (e, update_one) h
      decode_cases (some a) e =
          let w' = (is_action_valid codec kv read_clock a w).1 in
          rw (e, update_one) (ground (arith, h, act-IsRecorded id raw a aq w' h))

  -- A record is never lost by an update.
  update_loop-IsRecorded :
      (id : Bytes) (raws : List Bytes) (e : Option UpdateError) (aq : ActionQueue S W) (w : W)
      → IsRecorded codec kv read_clock id aq
      → IsRecorded codec kv read_clock id (update_loop codec kv read_clock raws e aq w).1
  unfolding update_loop
  update_loop-IsRecorded id [] e aq w h = h
  update_loop-IsRecorded id (raw ∷ raws) e aq w h =
      let (error, aq', w') = update_one codec kv read_clock raw aq w in
      update_loop-IsRecorded id raws (latest e error) aq' w' (update_one-IsRecorded id raw aq w h)

  after_do-store :
      (a : Action) (r : Bytes) (aq : ActionQueue S W) (result : Bool × W)
      → result.0 ≡ false
      → codec.marshal (record a { processed_at = pos (read_clock result.1).0 }) ≡ some r
      → (after_do codec kv read_clock a aq result).1.store ≡ (kv.set a.id r aq.store).1
  unfolding after_do store_action_record
  after_do-store a r aq (true, w) failed e = cc
  after_do-store a r aq (false, w) succeeded e = ground (arith, e)

  module _ (raw : Bytes) (a : Action) (actor : Actor W) (aq : ActionQueue S W) (w w' : W)
      (decoded : codec.unmarshal raw ≡ some a)
      (valid : is_action_valid codec kv read_clock a w ≡ (true, w'))
      (new : is_action_new codec kv read_clock a.id aq ≡ true)
      (registered : actor_for_action a aq ≡ some actor) where
    update_one_due :
        update_one codec kv read_clock raw aq w ≡ after_do codec kv read_clock a aq (actor raw w')
    unfolding update_one act
    update_one_due = ground (arith, decoded, valid, new, registered)

    -- An actor that fails leaves the queue as it was, so that the action is new when the server
    -- sends it again; the round returns the error with the action's type.
    pub update_one_failed :
        (actor raw w').0 ≡ true
        → update_one codec kv read_clock raw aq w
          ≡ (some (do_failed a.action_type), aq, (actor raw w').1)
    unfolding after_do
    update_one_failed failed = rw update_one_due (ground (arith, failed))

    module _ (r : Bytes) (succeeded : (actor raw w').0 ≡ false)
        (encoded : codec.marshal (record a { processed_at = pos (read_clock (actor raw w').1).0 })
          ≡ some r)
        (stored : (kv.set a.id r aq.store).0 ≡ none) where
      update_one_records :
          IsRecorded codec kv read_clock a.id (update_one codec kv read_clock raw aq w).1
      update_one_records =
          rw (update_one_due, after_do-store a r aq (actor raw w') succeeded encoded)
            (rw (laws.get-set a.id r aq.store stored a.id, eq_refl a.id))

      -- An action that was performed and stored is not performed again: after any further batch,
      -- the same message, or another with the same ID, only reads the clock.
      pub performed_once :
          (raws : List Bytes) (e : Option UpdateError) (again : Bytes) (b : Action)
          → codec.unmarshal again ≡ some b
          → b.id ≡ a.id
          → let (_, aq₁, w₁) = update_one codec kv read_clock raw aq w in
            let (_, aq₂, w₂) = update_loop codec kv read_clock raws e aq₁ w₁ in
            update_one codec kv read_clock again aq₂ w₂
            ≡ (none, aq₂, (is_action_valid codec kv read_clock b w₂).1)
      performed_once raws e again b decoded_again same =
          let (_, aq₁, w₁) = update_one codec kv read_clock raw aq w in
          let (_, aq₂, w₂) = update_loop codec kv read_clock raws e aq₁ w₁ in
          update_one_recorded codec kv read_clock again b aq₂ w₂ decoded_again
            (rw same (update_loop-IsRecorded a.id raws e aq₁ w₁ update_one_records))
