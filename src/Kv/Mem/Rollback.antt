-- ===== src/Kv/Mem/Rollback.antt =====
-- The calls of kv/mem_kv.go that report an old value, and their rollbacks.
use curp.Kv.Mem.{MemStore, get, put_with_old_value, rollback_put_with_old_value, key_not_found}
use curp.Prelude.{String_discrete, lookup-insert, lookup-delete, String, ◌≡◌, ◌≢◌, none, arith}

-- Rolling back a `PutWithOldValue` with the value that it returned gives back every read, unless the
-- key held the empty text.
pub get-rollback_put :
    (m : MemStore) (k v j : String)
    → get m k ≢ ("", none)
    → get
        (rollback_put_with_old_value (put_with_old_value m k v).0 k (put_with_old_value m k v).1).0
        j
      ≡ get m j
unfolding get put_with_old_value rollback_put_with_old_value
get-rollback_put m k v j h = ground (
  arith,
  lookup-insert String_discrete j k v m.kv,
  lookup-insert String_discrete j k (put_with_old_value m k v).1 (put_with_old_value m k v).0.kv,
  lookup-delete String_discrete j k (put_with_old_value m k v).0.kv,
)

-- A key that held the empty text is gone after the rollback of a `PutWithOldValue`.
pub rollback_put_loses_empty :
    (m : MemStore) (k v : String)
    → get m k ≡ ("", none)
    → get
        (rollback_put_with_old_value (put_with_old_value m k v).0 k (put_with_old_value m k v).1).0
        k
      ≡ ("", key_not_found)
unfolding get put_with_old_value rollback_put_with_old_value
rollback_put_loses_empty m k v h =
    ground (arith, lookup-delete String_discrete k k (put_with_old_value m k v).0.kv)
