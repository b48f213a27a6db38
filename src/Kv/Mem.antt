-- ===== src/Kv/Mem.antt =====
-- kv/mem_kv.go: the store in memory. Each method holds the store's lock from its first line to its
-- return, so it is one step.
pub mod Interface
pub mod Json
pub mod Rollback
pub mod Snapshot
use curp.Prelude.{
  String_discrete, insert, delete, String, ite, Bool, true, false, Option, none, some, List, [],
  ◌∷◌, lookup,
}

pub record MemStore : Type 0 where
  pub kv : List (String × String)

abbrev pub GoResult : Type 0
GoResult = String × Option String

abbrev pub key_not_found : Option String
key_not_found = some "key not found"

abbrev pub new_mem_store : MemStore
new_mem_store = record { kv = [] }

-- `v, ok := m.kv[k]`, and the two returns.
abbrev read : Option String → GoResult
read (some v) = (v, none)
read none = ("", key_not_found)

unfoldable pub get : MemStore → String → GoResult
get m k = read (lookup String_discrete k m.kv)

unfoldable pub put : MemStore → String → String → MemStore × Option String
put m k v = (record { kv = insert String_discrete k v m.kv }, none)

unfoldable pub delete_key : MemStore → String → MemStore × Option String
delete_key m k = (record { kv = delete String_discrete k m.kv }, none)

unfoldable pub put_with_old_value : MemStore → String → String → MemStore × String × Option String
put_with_old_value m k v =
    let (old_v, err) = read (lookup String_discrete k m.kv) in
    (record { kv = insert String_discrete k v m.kv }, old_v, err)

unfoldable pub rollback_put_with_old_value : MemStore → String → String → MemStore × Option String
rollback_put_with_old_value m k old_v =
    ite (String_discrete old_v "") (record { kv = delete String_discrete k m.kv }, none)
      (record { kv = insert String_discrete k old_v m.kv }, none)

unfoldable pub rollback_delete_with_old_value :
    MemStore → String → String → MemStore × Option String
rollback_delete_with_old_value m k old_v =
    (record { kv = insert String_discrete k old_v m.kv }, none)

unfoldable pub delete_with_old_value : MemStore → String → MemStore × String × Option String
delete_with_old_value m k =
    let (old_v, err) = read (lookup String_discrete k m.kv) in
    (record { kv = delete String_discrete k m.kv }, old_v, err)

abbrev pub destroy : MemStore → MemStore
destroy m = new_mem_store

-- The loop of `Equal` over the entries of `m.kv`, in any order; both reads are of `m.kv`.
equal_from : MemStore → List (String × String) → Bool
equal_from m [] = true
equal_from m ((key, val1) ∷ entries) = elim (lookup String_discrete key m.kv) [
  | none ↦ false
  | some val2 ↦ ite (String_discrete val1 val2) (equal_from m entries) false
]

unfoldable pub equal : MemStore → MemStore → Bool
unfolding equal_from
equal m kv = equal_from m m.kv
