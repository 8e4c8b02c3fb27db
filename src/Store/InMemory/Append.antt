-- ===== src/Store/InMemory/Append.antt =====
-- ee/agent/storage/inmemory: `AppendValues` under ascending sequence keys.
use launcher.Base.{ℕ, suc, ◌+◌, ◌*◌, ◌^◌, ◌<◌, ◌≡◌, none, List, [], ◌∷◌, Bytes, length}
use launcher.Base.Dict
use launcher.Base.Dict.{Dict}
use launcher.Store.InMemory.{InMemory, big_endian}

from_big_endian : Bytes → ℕ
from_big_endian [] = 0
from_big_endian (b ∷ bs) = b * 256 ^ length bs + from_big_endian bs

-- What appending `values` adds to a store that has used the sequence numbers up to `n`.
pub appended : ℕ → List Bytes → Dict Bytes
appended n [] = []
appended n (v ∷ values) = (big_endian 8 (suc n), v) ∷ appended (suc n) values

-- No key of the store is that of a later sequence number.
abbrev pub IsAhead : ℕ → Dict Bytes → Type 0
IsAhead n m = (i : ℕ) → n < i → i < 2 ^ 64 → Dict.lookup (big_endian 8 i) m ≡ none
