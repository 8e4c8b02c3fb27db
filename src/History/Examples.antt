-- ===== src/History/Examples.antt =====
-- A history over the in-memory store, with a codec that writes a question mark for what is not
-- ASCII and ends each field with a zero, and the theorems at such inputs.
use launcher.Base.{
  ℕ, zero, suc, ◌≡◌, refl, sym, ap, false, map, ltb, if◌then◌else◌, none, some, List, [], ◌∷◌,
  arith, Bytes, codes, contains,
}
use launcher.Base.Dict
use launcher.Base.Dict.{Dict}
use launcher.Store.{KvStore}
use launcher.Store.InMemory.{Pointer, new_store, get}
use launcher.Store.InMemory.Laws.{in_memory_kv, in_memory_kv-KvLaws}
use launcher.History.{Instance, History, Codec, World, no_instances, load, init_history, set_exited}
use launcher.History.Loop.{Pointwise, Of, runs}
use launcher.History.Mark.{Exit, set_exited_lem}
use launcher.History.Coerce.{cleaned, IsFaithful}
use launcher.History.Calls.{
  Call, opens, connects, exits, call, Persists, call-Persists, calls, IsBounded, calls-IsBounded,
}

ended : Bytes → Bytes → Bytes
ended [] after = 0 ∷ after
ended (c ∷ cs) after = suc c ∷ ended cs after

written : List Instance → Bytes
unfolding ended
written [] = []
written (i ∷ is) = ended i.enrollment_id (
    ended i.run_id (
      ended i.start_time (
        ended i.connect_time (
          ended i.exit_time (
            ended i.hostname
              (ended i.instance_id (ended i.version (ended i.error (written is)))))))))

-- The character goes to the front of the first field.
first_char : ℕ → List Bytes → List Bytes
first_char c [] = []
first_char c (field ∷ fields) = (c ∷ field) ∷ fields

read_fields : Bytes → List Bytes
unfolding first_char
read_fields [] = []
read_fields (zero ∷ cs) = [] ∷ read_fields cs
read_fields (suc c ∷ cs) = first_char c (read_fields cs)

read_instances : List Bytes → List Instance
read_instances (f1 ∷ f2 ∷ f3 ∷ f4 ∷ f5 ∷ f6 ∷ f7 ∷ f8 ∷ f9 ∷ fields) =
    record {
      enrollment_id = f1;
      run_id = f2;
      start_time = f3;
      connect_time = f4;
      exit_time = f5;
      hostname = f6;
      instance_id = f7;
      version = f8;
      error = f9;
    }
    ∷ read_instances fields
read_instances _ = []

abbrev to_ascii : Bytes → Bytes
to_ascii = map (λ c. if ltb c 128 then c else 63)

abbrev codec : Codec
codec = record {
  marshal = λ is. some (written (map (cleaned to_ascii) is));
  unmarshal = λ bytes. some (read_instances (read_fields bytes));
}

read_fields-ended : (cs after : Bytes) → read_fields (ended cs after) ≡ cs ∷ read_fields after
unfolding read_fields ended first_char
read_fields-ended [] after = refl
read_fields-ended (c ∷ cs) after = rw (read_fields-ended cs after) refl

read_instances-written : (is : List Instance) → read_instances (read_fields (written is)) ≡ is
unfolding written read_instances read_fields
read_instances-written [] = refl
read_instances-written (i ∷ is) =
    rw
      (
        read_fields-ended, read_fields-ended, read_fields-ended, read_fields-ended,
        read_fields-ended, read_fields-ended, read_fields-ended, read_fields-ended,
        read_fields-ended,
      )
      (ap (λ js. i ∷ js) (read_instances-written is))

codec-IsFaithful : IsFaithful to_ascii codec
codec-IsFaithful is bytes h =
    let same : written (map (cleaned to_ascii) is) ≡ bytes = ground (arith, h) in
    rw (sym same) (ap some (read_instances-written (map (cleaned to_ascii) is)))

abbrev toy : World ℕ
toy = record {
  time_now = λ w. (suc w ∷ [], suc w);
  hostname_of = λ w. (some (codes "host"), w);
  query = λ w. (some (((codes "instance_id", 7 ∷ []) ∷ (codes "version", 5 ∷ []) ∷ []) ∷ []), w);
}

abbrev kv : KvStore Pointer ℕ
kv = in_memory_kv ℕ

abbrev empty_history : History Pointer
empty_history = record { instances = []; store = some new_store }

abbrev one : Instance
one = record {
  enrollment_id = 1 ∷ [];
  run_id = 2 ∷ [];
  start_time = 3 ∷ [];
  connect_time = [];
  exit_time = [];
  hostname = [];
  instance_id = [];
  version = [];
  error = [];
}

abbrev two : Instance
two = record one { run_id = 8 ∷ [] }

abbrev pair : History Pointer
pair = record { instances = one ∷ two ∷ []; store = some new_store }

abbrev session : List Call
session = opens (1 ∷ []) (2 ∷ []) ∷ connects (2 ∷ []) ∷ exits (2 ∷ []) (some (9 ∷ [])) ∷ []

set_exited_lem_example :
    let ((e, h'), w') = set_exited kv codec toy (8 ∷ []) none pair 0 in
    Pointwise (Of (Exit toy 0 none) (8 ∷ [])) pair.instances h'.instances
    × (contains (8 ∷ []) (runs pair.instances) ≡ false → (e ≡ some no_instances) × (h' ≡ pair))
set_exited_lem_example = set_exited_lem kv codec toy (8 ∷ []) none pair 0

call-Persists_example : Persists kv codec to_ascii (call kv codec toy (exits (8 ∷ []) none) pair 0)
call-Persists_example =
    call-Persists kv (in_memory_kv-KvLaws ℕ) codec to_ascii codec-IsFaithful toy
      (exits (8 ∷ []) none) pair 0

empty_history-IsBounded : IsBounded kv codec empty_history
unfolding init_history load new_store get Dict.lookup
empty_history-IsBounded = (omega arith, λ h' h. ground (arith, h))

calls-IsBounded_example : IsBounded kv codec (calls kv codec toy session empty_history 0)
calls-IsBounded_example =
    calls-IsBounded kv (in_memory_kv-KvLaws ℕ) codec to_ascii codec-IsFaithful toy session
      empty_history 0 empty_history-IsBounded
