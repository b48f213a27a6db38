-- ===== src/Kv/Mem/Json.antt =====
-- `GetSnapshot` and `RecoverFromSnapshot` of kv/mem_kv.go. encoding/json is not in the repository: it enters
-- by `Json`.
use curp.Kv.Mem.{MemStore}
use curp.Prelude.{String, Option, List}

-- `Marshal` of a map, and `Unmarshal` of a text into a map that may hold entries.
pub record Json : Type 1 where
  pub Bytes : Type 0
  pub marshal : List (String × String) → Bytes × Option String
  pub unmarshal : Bytes → List (String × String) → List (String × String) × Option String

abbrev pub get_snapshot : (J : Json) → MemStore → J.Bytes × Option String
get_snapshot J m = J.marshal m.kv

unfoldable pub recover_from_snapshot : (J : Json) → MemStore → J.Bytes → MemStore × Option String
recover_from_snapshot J m snapshot =
    let (kv, err) = J.unmarshal snapshot m.kv in (record { kv = kv }, err)
