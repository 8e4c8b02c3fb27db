-- ===== src/Publish/Write.antt =====
-- pkg/osquery/extension.go: what `writeBufferedLogsForType` sends and deletes.
use launcher.Base.{
  ◌+◌, ◌≢◌, ◌≤◌, ◌<◌, ◌≡◌, ◌⊎◌, Bool, true, false, Option, none, [], ◌∷◌, ◌++◌, Bytes, length,
}
use launcher.Base.Dict
use launcher.Base.Dict.{Dict}
use launcher.Publish.{LogType, LogStore, LogError, Service, write_logs_with_reenroll}
use launcher.Publish.State.{LogPublicationState, begin_batch}
use launcher.Publish.Collect.{fitting, bytes_of}
use launcher.Publish.Laws.{LogLaws}

module _ {W S : Type 0} (service : Service W) (store : LogStore S) (laws : LogLaws store) where
  -- The logs `taken` were sent in one batch and accepted, and were then deleted with those that are
  -- too large for any batch.
  pub record Sent (typ : LogType) (st : LogPublicationState) (w : W) (s s' : S) : Type 0 where
    pub taken : Dict Bytes
    pub left : Dict Bytes
    pub full : Bool
    pub split : laws.entries s ≡ taken ++ left
    pub accepted_batch :
        (write_logs_with_reenroll service typ
          (fitting st taken)
          (begin_batch (service.now w) full st)
          w).0
        ≡ none
    pub deleted : laws.entries s' ≡ left
    pub bound : bytes_of (fitting st taken) ≤ st.max_bytes_per_batch
    pub whole : full ≡ false → left ≡ []
    pub overfull :
        full ≡ true
        → (k v : Bytes) × (others : Dict Bytes) × (left ≡ (k, v) ∷ others)
          × (st.current_max_bytes_per_batch < bytes_of (fitting st taken) + length v)

  -- What a call did: it returned an error and left the store, it had nothing to send and left the
  -- store, or it sent a batch and deleted it.
  abbrev pub Writes :
      LogType → LogPublicationState → W → S → Option LogError × LogPublicationState × W × S → Type 0
  Writes typ st w s (e, st', w', s') =
      ((e ≢ none) × (s' ≡ s))
      ⊎ ((e ≡ none) × (s' ≡ s) × (fitting st (laws.entries s) ≡ []))
      ⊎ Sent typ st w s s'
