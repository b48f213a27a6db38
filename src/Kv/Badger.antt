-- ===== src/Kv/Badger.antt =====
-- kv/badger_kv.go: the store in a Badger database in memory. Badger is not in the repository: a database
-- enters by `BadgerDb`. Each method is one transaction.
pub mod Files
pub mod Reads
use curp.Kv.{GoError, KvStore}
use curp.Prelude.{String_discrete, delete, String, ite, none, some}

-- What `txn.Get` gives: an item, with what `ValueCopy` makes of it, or an error.
pub data Item : Type 0 where
  found : String → GoError → Item
  failed : String → Item

-- `txn_set` and `txn_delete` give the database beside the error; `update` is what `DB.Update` makes of the
-- database before and of what the function of the transaction gave, and `view` what `DB.View` returns.
pub record BadgerDb : Type 1 where
  pub Db : Type 0
  pub txn_get : Db → String → Item
  pub txn_set : Db → String → String → Db × GoError
  pub txn_delete : Db → String → Db × GoError
  pub view : Db → GoError → GoError
  pub update : Db → Db × GoError → Db × GoError
  pub closed : Db

module _ (B : BadgerDb) where
  unfoldable pub put : B.Db → String → String → B.Db × GoError
  put s key value = B.update s (B.txn_set s key value)

  read : B.Db → Item → String × GoError
  read s (failed err) = ("", B.view s (some err))
  read s (found val_copy err) = (val_copy, B.view s err)

  unfoldable pub get : B.Db → String → String × GoError
  unfolding read
  get s key = read s (B.txn_get s key)

  unfoldable pub delete_key : B.Db → String → B.Db × GoError
  delete_key s key = B.update s (B.txn_delete s key)

  -- The text and the error that `PutWithOldValue` returns, of the item that it read and of the error of
  -- its transaction.
  old_value : Item → GoError → String × GoError
  old_value (failed read_err) err = ("", some read_err)
  old_value (found value (some read_err)) err = ("", some read_err)
  old_value (found value none) err = (value, err)

  unfoldable pub put_with_old_value : B.Db → String → String → B.Db × String × GoError
  unfolding old_value
  put_with_old_value s key value =
      let (t, err) = B.update s (B.txn_set s key value) in
      let (old, read_err) = old_value (B.txn_get s key) err in (t, old, read_err)

  unfoldable pub rollback_put_with_old_value : B.Db → String → String → B.Db × GoError
  unfolding delete_key put
  rollback_put_with_old_value s key old =
      ite (String_discrete old "") (delete_key s key) (put s key old)

  unfoldable pub rollback_delete_with_old_value : B.Db → String → String → B.Db × GoError
  unfolding put
  rollback_delete_with_old_value s key old = put s key old

  -- The transaction of `DeleteWithOldValue`, and the text that it has read.
  delete_item : B.Db → String → Item → (B.Db × GoError) × String
  delete_item s key (failed err) = ((s, some err), "")
  delete_item s key (found value (some err)) = ((s, some err), value)
  delete_item s key (found value none) = (B.txn_delete s key, value)

  unfoldable pub delete_with_old_value : B.Db → String → B.Db × String × GoError
  unfolding delete_item
  delete_with_old_value s key =
      let (transaction, value) = delete_item s key (B.txn_get s key) in
      let (t, err) = B.update s transaction in (t, value, err)

  -- `Destroy` closes the database and removes its files.
  abbrev pub destroy : B.Db → B.Db
  destroy s = B.closed

  abbrev pub badger_kv : KvStore
  badger_kv = record {
    Store = B.Db;
    get = get;
    put = put;
    delete = delete_key;
    put_with_old_value = put_with_old_value;
    rollback_put_with_old_value = rollback_put_with_old_value;
    rollback_delete_with_old_value = rollback_delete_with_old_value;
    delete_with_old_value = delete_with_old_value;
    destroy = destroy;
  }
