-- ===== src/Store.antt =====
-- ee/agent/types/keyvalue_store.go: the key-value stores that the rest of the launcher is written
-- against, as operations on the type of the store's contents, with what the interface documents.
-- An error that a call returns is `true` in the place of Go's non-nil error.
pub mod InMemory
use launcher.Base.{
  ◌≡◌, Bool, true, false, Option, none, some, List, Bytes, ◌==◌, Result, ok, if◌then◌else◌,
}

pub data StoreError : Type 0 where
  store_is_nil : StoreError
  key_is_blank : StoreError
  callback_failed : StoreError
  backend_failed : StoreError

-- A callback of `ForEach` on a state `C` of the caller; true stands for an error.
abbrev pub Visit : Type 0 → Type 0
Visit C = Bytes → Bytes → C → Bool × C

-- `Getter`, `Setter`, `Deleter` and `Iterator`
pub record KvStore (S C : Type 0) : Type 0 where
  pub get : Bytes → S → Result StoreError (Option Bytes)
  pub set : Bytes → Bytes → S → Option StoreError × S
  pub delete : List Bytes → S → Option StoreError × S
  pub for_each : Visit C → C → S → Bool × C

-- What the comments of the interface say: a value that was set is read back and no other key is
-- touched, whatever the call returns; a call that fails changes nothing.
pub record KvLaws {S C : Type 0} (kv : KvStore S C) : Type 0 where
  pub get-set :
      (k v : Bytes) (s : S)
      → (kv.set k v s).0 ≡ none
      → (j : Bytes) → kv.get j (kv.set k v s).1 ≡ (if k == j then ok (some v) else kv.get j s)
  pub set_failed :
      (k v : Bytes) (s : S) (e : StoreError) → (kv.set k v s).0 ≡ some e → (kv.set k v s).1 ≡ s
