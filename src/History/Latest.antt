-- ===== src/History/Latest.antt =====
-- pkg/osquery/runtime/history/history.go: the instance that counts as the latest, and the bound on
-- the number of instances.
use launcher.Base.{
  length-drop, suc, ◌-◌, ◌≤◌, ◌<◌, ◌≡◌, refl, sym, ap, ◌∙◌, ◌⊎◌, inl, inr, true, false, Option,
  none, some, List, [], ◌∷◌, ◌++◌, arith, Bytes, ◌==◌, eq_refl, leb, length, take, drop,
  length-append, take-append-drop, drop-append, All, Bool-cases,
}
use launcher.Store.{KvStore}
use launcher.History.{
  max_instances, Instance, History, Codec, World, HistoryError, latest_instance,
  add_instance_to_history, after_set, save, with_hostname, new_instance,
}

-- The instance is not of the enrollment.
abbrev pub Other : Bytes → Instance → Type 0
Other enrollment i = (i.enrollment_id == enrollment) ≡ false

-- The latest instance of an enrollment is the last in the list with its id, and there is none only
-- if no instance has the id.
pub latest_instance_lem :
    (enrollment : Bytes) (is : List Instance)
    → ((latest_instance enrollment is ≡ none) × All (Other enrollment) is)
      ⊎ ((before : List Instance) × (i : Instance) × (after : List Instance) × (latest_instance
              enrollment is
            ≡ some i)
          × (is ≡ before ++ i ∷ after)
          × ((i.enrollment_id == enrollment) ≡ true)
          × All (Other enrollment) after)
unfolding latest_instance
latest_instance_lem enrollment [] = inl (refl, tt)
latest_instance_lem enrollment (i ∷ is) = elim (latest_instance_lem enrollment is) [
  | inr (before, j, after, found, split, same, others) ↦
      inr (i ∷ before, j, after, rw (found, latest_instance), ap (λ xs. i ∷ xs) split, same, others)
  | inl (missing, others) ↦ elim (Bool-cases (i.enrollment_id == enrollment)) [
    | inl same ↦ inr ([], i, is, ground (arith, missing, same), refl, same, others)
    | inr other ↦ inl (ground (arith, missing, other), (other, others))
  ]
]

latest_instance-append :
    (enrollment : Bytes) (is : List Instance) (new : Instance)
    → (new.enrollment_id == enrollment) ≡ true
    → latest_instance enrollment (is ++ new ∷ []) ≡ some new
unfolding latest_instance
latest_instance-append enrollment [] new same = ground (arith, same)
latest_instance-append enrollment (i ∷ is) new same =
    rw (latest_instance-append enrollment is new same, latest_instance)

add_instance_to_history-drop :
    (new : Instance) (is : List Instance)
    → add_instance_to_history new is ≡ drop (suc (length is) - max_instances) is ++ new ∷ []
unfolding add_instance_to_history
add_instance_to_history-drop new is =
    let longer : length (is ++ new ∷ []) ≡ suc (length is) =
      omega (arith, length-append is (new ∷ [])) in
    let trimmed = drop-append (suc (length is) - max_instances) is (new ∷ []) (omega arith) in
    rw longer (elim (Bool-cases (leb max_instances (suc (length is)))) [
      | inl full ↦ rw full trimmed
      | inr room ↦
          let none_over : suc (length is) - max_instances ≡ 0 = ground (arith, room) in
          rw (room, none_over) refl
    ])

-- A new instance goes behind the others, of which the oldest are dropped, to leave at most ten.
pub add_instance_to_history_lem :
    (new : Instance) (is : List Instance)
    → (dropped kept : List Instance) × (is ≡ dropped ++ kept)
      × (add_instance_to_history new is ≡ kept ++ new ∷ [])
      × (length (add_instance_to_history new is) ≤ max_instances)
      × (length is < max_instances → dropped ≡ [])
unfolding add_instance_to_history
add_instance_to_history_lem new is =
    let n = suc (length is) - max_instances in
    let added = add_instance_to_history-drop new is in
    (
      take n is,
      drop n is,
      sym (take-append-drop n is),
      added,
      rw added (omega (arith, length-append (drop n is) (new ∷ []), length-drop n is)),
      λ room. let empty : n ≡ 0 = omega arith in rw empty refl,
    )

module _ {S C : Type 0} (kv : KvStore S C) (codec : Codec) where
  pub save-instances : (h : History S) → (save kv codec h).1.instances ≡ h.instances
  unfolding save after_set
  save-instances h = ground arith

module _ {S C W : Type 0} (kv : KvStore S C) (codec : Codec) (world : World W) where
  -- `NewInstance` makes an instance of the given run the latest of its enrollment, also when it
  -- cannot be saved; the instances dropped for it are the oldest, none as long as there are fewer
  -- than ten, and no more than ten are left. With no host name nothing changes.
  pub new_instance_lem :
      (enrollment run : Bytes) (h : History S) (w : W)
      → let ((e, h'), w') = new_instance kv codec world enrollment run h w in
        ((e ≡ some HistoryError.hostname_failed) × (h' ≡ h))
        ⊎ ((new : Instance) × (dropped kept : List Instance) × (new.run_id ≡ run)
            × (new.exit_time ≡ [])
            × (latest_instance enrollment h'.instances ≡ some new)
            × (h.instances ≡ dropped ++ kept)
            × (h'.instances ≡ kept ++ new ∷ [])
            × (length h'.instances ≤ max_instances)
            × (length h.instances < max_instances → dropped ≡ []))
  unfolding new_instance with_hostname
  new_instance_lem enrollment run h w = go (world.hostname_of w) refl
    where
      go :
          (r : Option Bytes × W)
          → world.hostname_of w ≡ r
          → let ((e, h'), w') = with_hostname kv codec world enrollment run h r in
            ((e ≡ some HistoryError.hostname_failed) × (h' ≡ h))
            ⊎ ((new : Instance) × (dropped kept : List Instance) × (new.run_id ≡ run)
                × (new.exit_time ≡ [])
                × (latest_instance enrollment h'.instances ≡ some new)
                × (h.instances ≡ dropped ++ kept)
                × (h'.instances ≡ kept ++ new ∷ [])
                × (length h'.instances ≤ max_instances)
                × (length h.instances < max_instances → dropped ≡ []))
      go (none, w') at = inl (refl, refl)
      go (some name, w') at =
          let new : Instance = record {
            enrollment_id = enrollment;
            run_id = run;
            start_time = (world.time_now w').0;
            connect_time = [];
            exit_time = [];
            hostname = name;
            instance_id = [];
            version = [];
            error = [];
          } in
          let (dropped, kept, split, added, bound, room) =
            add_instance_to_history_lem new h.instances in
          let longer : History S = record h {
            instances = add_instance_to_history new h.instances;
          } in
          let saved = save-instances kv codec longer in
          inr (
            new,
            dropped,
            kept,
            refl,
            refl,
            rw (saved, added) (latest_instance-append enrollment kept new (eq_refl enrollment)),
            split,
            saved ∙ added,
            rw saved bound,
            room,
          )
