-- ===== src/Kv/Mem/Interface.antt =====
-- kv/mem_kv.go as an implementation of the interface of kv/kv.go.
use curp.Kv.{KvStore, IsStore}
use curp.Kv.Mem
use curp.Kv.Mem.{MemStore}
use curp.Prelude.{String_discrete, lookup-insert, lookup-delete, String, ◌≡◌, ite, none, arith}

abbrev pub mem_kv : KvStore
mem_kv = record {
  Store = MemStore;
  get = Mem.get;
  put = Mem.put;
  delete = Mem.delete_key;
  put_with_old_value = Mem.put_with_old_value;
  rollback_put_with_old_value = Mem.rollback_put_with_old_value;
  rollback_delete_with_old_value = Mem.rollback_delete_with_old_value;
  delete_with_old_value = Mem.delete_with_old_value;
  destroy = Mem.destroy;
}

get-put :
    (m : MemStore) (k v j : String)
    → Mem.get (Mem.put m k v).0 j ≡ ite (String_discrete j k) (v, none) (Mem.get m j)
unfolding Mem.get Mem.put
get-put m k v j = ground (arith, lookup-insert String_discrete j k v m.kv)

get-delete :
    (m : MemStore) (k j : String)
    → Mem.get (Mem.delete_key m k).0 j
      ≡ ite (String_discrete j k) ("", Mem.key_not_found) (Mem.get m j)
unfolding Mem.get Mem.delete_key
get-delete m k j = ground (arith, lookup-delete String_discrete j k m.kv)

-- The store in memory meets the laws that the state machine relies on: a read after `Put` and after
-- `Delete` gives the new value, the error of a missing key, or for another key what it gave before.
pub mem_kv-IsStore : IsStore mem_kv
mem_kv-IsStore = record { missing = "key not found"; get-put = get-put; get-delete = get-delete }
