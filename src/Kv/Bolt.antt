-- ===== src/Kv/Bolt.antt =====
-- kv/blot_kv.go: the store in a bucket of a Bolt database. Bolt is not in the repository: a database
-- enters by `BoltDb`, with the bucket that `NewBoltStore` makes sure of. Each method is one transaction.
pub mod Equal
pub mod Files
pub mod Reads
use curp.Kv.{GoError, KvStore}
use curp.Prelude.{String_discrete, delete, String, ite, Option, none, some, List}

-- A transaction on the bucket: `keys` is what a cursor runs through, in its order;
-- `bucket_put` and `bucket_delete` give the bucket beside the error;
-- `update` is what `DB.Update` makes of the bucket before and of what the function of the transaction gave.
pub record BoltDb : Type 1 where
  pub Bucket : Type 0
  pub bucket_get : Bucket → String → Option String
  pub bucket_put : Bucket → String → String → Bucket × GoError
  pub bucket_delete : Bucket → String → Bucket × GoError
  pub update : Bucket → Bucket × GoError → Bucket × GoError
  pub bucket_not_found : String
  pub keys : Bucket → List String
  pub closed : Bucket

module _ (B : BoltDb) where
  unfoldable pub put : B.Bucket → String → String → B.Bucket × GoError
  put s key value = B.update s (B.bucket_put s key value)

  -- `string(value), err`: the text of no bytes is empty.
  abbrev pub text_of : Option String → String
  text_of none = ""
  text_of (some value) = value

  abbrev pub error_of : Option String → GoError
  error_of none = some B.bucket_not_found
  error_of (some value) = none

  unfoldable pub get : B.Bucket → String → String × GoError
  get s key = (text_of (B.bucket_get s key), error_of (B.bucket_get s key))

  unfoldable pub delete_key : B.Bucket → String → B.Bucket × GoError
  delete_key s key = B.update s (B.bucket_delete s key)

  unfoldable pub put_with_old_value : B.Bucket → String → String → B.Bucket × String × GoError
  put_with_old_value s key value =
      let old_value = B.bucket_get s key in
      let (t, err) = B.update s (B.bucket_put s key value) in (t, text_of old_value, err)

  unfoldable pub rollback_put_with_old_value : B.Bucket → String → String → B.Bucket × GoError
  unfolding delete_key put
  rollback_put_with_old_value s key old_value =
      ite (String_discrete old_value "") (delete_key s key) (put s key old_value)

  unfoldable pub rollback_delete_with_old_value : B.Bucket → String → String → B.Bucket × GoError
  unfolding put
  rollback_delete_with_old_value s key old_value = put s key old_value

  unfoldable pub delete_with_old_value : B.Bucket → String → B.Bucket × String × GoError
  delete_with_old_value s key =
      let value = B.bucket_get s key in
      let (t, err) = B.update s (B.bucket_delete s key) in (t, text_of value, err)

  -- `Destroy` closes the database and removes its file.
  abbrev pub destroy : B.Bucket → B.Bucket
  destroy s = B.closed

  abbrev pub bolt_kv : KvStore
  bolt_kv = record {
    Store = B.Bucket;
    get = get;
    put = put;
    delete = delete_key;
    put_with_old_value = put_with_old_value;
    rollback_put_with_old_value = rollback_put_with_old_value;
    rollback_delete_with_old_value = rollback_delete_with_old_value;
    delete_with_old_value = delete_with_old_value;
    destroy = destroy;
  }
