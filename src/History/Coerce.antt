-- ===== src/History/Coerce.antt =====
-- What the JSON codec of pkg/osquery/runtime/history/storage.go does to the texts of the instances.
use launcher.Base.{◌≡◌, refl, some, List, [], ◌∷◌, arith, Bytes, length, map, All, ap, ◌∙◌}
use launcher.History.{Instance, History, Codec}

-- An instance with every text of it rewritten.
unfoldable pub cleaned : (Bytes → Bytes) → Instance → Instance
cleaned clean i = record {
  enrollment_id = clean i.enrollment_id;
  run_id = clean i.run_id;
  start_time = clean i.start_time;
  connect_time = clean i.connect_time;
  exit_time = clean i.exit_time;
  hostname = clean i.hostname;
  instance_id = clean i.instance_id;
  version = clean i.version;
  error = clean i.error;
}

-- The codec reads back what it wrote, with its texts coerced by `clean`: encoding/json puts U+FFFD
-- for what is not UTF-8.
abbrev pub IsFaithful : (Bytes → Bytes) → Codec → Type 0
IsFaithful clean codec =
    (is : List Instance) (bytes : Bytes)
    → codec.marshal is ≡ some bytes
    → codec.unmarshal bytes ≡ some (map (cleaned clean) is)

-- `clean` keeps the instances as they are.
abbrev pub AreClean : (Bytes → Bytes) → List Instance → Type 0
AreClean clean = All (λ i. cleaned clean i ≡ i)

pub map-cleaned :
    (clean : Bytes → Bytes) (is : List Instance) → AreClean clean is → map (cleaned clean) is ≡ is
map-cleaned clean [] h = refl
map-cleaned clean (i ∷ is) h =
    ap (λ j. j ∷ map (cleaned clean) is) h.0 ∙ ap (λ js. i ∷ js) (map-cleaned clean is h.1)

pub length-cleaned :
    (clean : Bytes → Bytes) (is : List Instance) → length (map (cleaned clean) is) ≡ length is
length-cleaned clean [] = refl
length-cleaned clean (i ∷ is) = omega (arith, length-cleaned clean is)

-- The history with its texts coerced.
abbrev pub coerced : {S : Type 0} → (Bytes → Bytes) → History S → History S
coerced clean h = record h { instances = map (cleaned clean) h.instances }
