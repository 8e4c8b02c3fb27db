-- ===== src/Control/Freshness.antt =====
-- ee/control/control.go: what is fetched again, and what a failure leaves behind.
use launcher.Base.{
  ◌≡◌, refl, ap, ◌⊎◌, inl, inr, Bool, true, false, Option, none, some, [], arith, Bytes, eq_refl,
}
use launcher.Base.Dict
use launcher.Base.Dict.{Dict, lookup-insert}
use launcher.Store.{KvStore, KvLaws}
use launcher.Control.{
  Shared, Consumer, ControlService, Provider, known_subsystem, register_consumer, update, remember,
  after_update, after_data, fetch_and_update, stored_hash, last_hash, fetch_one,
}

module _ {S W : Type 0} where
  -- A subsystem has at most one consumer: the second registration is refused, and the first is what
  -- an update calls.
  pub register_consumer_lem :
      (subsystem : Bytes) (first second : Consumer W) (cs : ControlService S W)
      → Dict.lookup subsystem cs.consumers ≡ none
      → (cs' : ControlService S W) × (register_consumer subsystem first cs ≡ some cs')
        × (register_consumer subsystem second cs' ≡ none)
        × (Dict.lookup subsystem cs'.consumers ≡ some first)
        × (known_subsystem subsystem cs' ≡ true)
  unfolding register_consumer known_subsystem
  register_consumer_lem subsystem first second cs fresh =
      let cs' : ControlService S W = record cs {
        consumers = Dict.insert subsystem first cs.consumers;
      } in
      let found : Dict.lookup subsystem cs'.consumers ≡ some first =
        rw (lookup-insert, eq_refl subsystem) in
      (cs', ground (arith, fresh), ground (arith, found), found, ground (arith, found))

module _ {S C W : Type 0} (kv : KvStore S C) (provider : Provider W) where
  -- The last hash of a subsystem whose hash is remembered.
  last_hash-remember :
      (subsystem hash : Bytes) (cs : ControlService S W)
      → last_hash kv provider subsystem (remember kv provider subsystem hash cs) ≡ hash
  unfolding last_hash remember
  last_hash-remember subsystem hash cs =
      ground (arith, lookup-insert subsystem subsystem hash cs.last_fetched, eq_refl subsystem)

  -- A subsystem whose hash is the last one is not fetched, unless all are forced to be.
  fetch_one-fresh :
      (subsystem hash : Bytes) (cs : ControlService S W) (sh : Shared) (w : W)
      → last_hash kv provider subsystem cs ≡ hash
      → provider.force_control_subsystems w ≡ false
      → fetch_one kv provider false subsystem hash cs sh w ≡ (cs, sh, w)
  unfolding fetch_one
  fetch_one-fresh subsystem hash cs sh w last quiet = ground (arith, last, quiet, eq_refl hash)

  -- How `fetchAndUpdate` may end: on an error the remembered hashes are as they were, in memory
  -- and in the store; on success the hash is remembered.
  abbrev pub Ends :
      Bytes → Bytes → ControlService S W → Bool × ControlService S W × Shared × W → Type 0
  Ends subsystem hash cs (failed, cs', _, _) =
      ((failed ≡ true) × (cs' ≡ cs))
      ⊎ ((failed ≡ false)
          × (cs' ≡ remember kv provider subsystem hash cs)
          × (last_hash kv provider subsystem cs' ≡ hash))

  after_update-Ends :
      (subsystem hash : Bytes) (cs : ControlService S W) (r : Bool × Shared × W)
      → Ends subsystem hash cs (after_update kv provider subsystem hash cs r)
  unfolding after_update
  after_update-Ends subsystem hash cs (true, sh, w) = inl (refl, refl)
  after_update-Ends subsystem hash cs (false, sh, w) =
      inr (refl, refl, last_hash-remember subsystem hash cs)

  after_data-Ends :
      (subsystem hash : Bytes) (cs : ControlService S W) (sh : Shared) (r : Bool × Option Bytes × W)
      → Ends subsystem hash cs (after_data kv provider subsystem hash cs sh r)
  unfolding after_data
  after_data-Ends subsystem hash cs sh (true, data', w) = inl (refl, refl)
  after_data-Ends subsystem hash cs sh (false, none, w) = inl (refl, refl)
  after_data-Ends subsystem hash cs sh (false, some reader, w) =
      after_update-Ends subsystem hash cs (update subsystem reader cs sh w)

  -- An update that fails, at the provider or at the consumer, leaves the remembered hashes as they
  -- were, so that the next fetch tries again; one that succeeds remembers the hash.
  pub fetch_and_update_lem :
      (subsystem hash : Bytes) (cs : ControlService S W) (sh : Shared) (w : W)
      → Ends subsystem hash cs (fetch_and_update kv provider subsystem hash cs sh w)
  unfolding fetch_and_update
  fetch_and_update_lem subsystem hash cs sh w =
      after_data-Ends subsystem hash cs sh (provider.get_subsystem_data hash w)

  -- Once a subsystem was fetched with no error, a round for the same hash does nothing, whatever the
  -- state of the rest of the world, unless a full fetch is asked for or forced.
  pub fetch_one_settled :
      (subsystem hash : Bytes) (cs : ControlService S W) (sh sh' : Shared) (w w' : W)
      → (fetch_and_update kv provider subsystem hash cs sh w).0 ≡ false
      → provider.force_control_subsystems w' ≡ false
      → let cs' = (fetch_and_update kv provider subsystem hash cs sh w).1 in
        fetch_one kv provider false subsystem hash cs' sh' w' ≡ (cs', sh', w')
  fetch_one_settled subsystem hash cs sh sh' w w' succeeded quiet =
      elim (fetch_and_update_lem subsystem hash cs sh w) [
        | inl (failed, _) ↦ absurd (cc (failed, succeeded))
        | inr (_, _, last) ↦
            fetch_one-fresh subsystem hash (fetch_and_update kv provider subsystem hash cs sh w).1
              sh' w' last quiet
      ]

  -- A full fetch takes no notice of the remembered hashes: every known subsystem is fetched.
  pub fetch_one_full :
      (subsystem hash : Bytes) (cs : ControlService S W) (sh : Shared) (w : W)
      → known_subsystem subsystem cs ≡ true
      → let (_, cs', sh', w') = fetch_and_update kv provider subsystem hash cs sh w in
        fetch_one kv provider true subsystem hash cs sh w ≡ (cs', sh', w')
  unfolding fetch_one
  fetch_one_full subsystem hash cs sh w known = ground (arith, known)

module _ {S C W : Type 0} (kv : KvStore S C) (laws : KvLaws kv) (provider : Provider W) where
  -- The hash survives a restart: a service that starts with nothing in memory, over the store that
  -- a successful update left behind, does not fetch the same hash again.
  pub fetch_one_restarted :
      (subsystem hash : Bytes) (cs fresh : ControlService S W) (s : S) (sh sh' : Shared) (w w' : W)
      → cs.store ≡ some s
      → (fetch_and_update kv provider subsystem hash cs sh w).0 ≡ false
      → (kv.set subsystem hash s).0 ≡ none
      → fresh.last_fetched ≡ []
      → fresh.store ≡ (fetch_and_update kv provider subsystem hash cs sh w).1.store
      → provider.force_control_subsystems w' ≡ false
      → fetch_one kv provider false subsystem hash fresh sh' w' ≡ (fresh, sh', w')
  unfolding remember last_hash stored_hash Dict.lookup
  fetch_one_restarted subsystem hash cs fresh s sh sh' w w' at succeeded saved empty same quiet =
      elim (fetch_and_update_lem kv provider subsystem hash cs sh w) [
        | inl (failed, _) ↦ absurd (cc (failed, succeeded))
        | inr (_, remembered, _) ↦
            let stored : fresh.store ≡ some (kv.set subsystem hash s).1 =
              ground (arith, at, same, ap (λ (c : ControlService S W). c.store) remembered) in
            let last : last_hash kv provider subsystem fresh ≡ hash = ground (
              arith,
              empty,
              stored,
              laws.get-set subsystem hash s saved subsystem,
              eq_refl subsystem,
            ) in
            fetch_one-fresh kv provider subsystem hash fresh sh' w' last quiet
      ]
