-- ===== src/Kv.antt =====
-- The interface of kv/kv.go that the state machine and the tests of the stores are written against.
-- A Go pair `(string, error)` is the text beside the error's message, which is none for `nil`.
pub mod Badger
pub mod Bolt
pub mod Mem
use curp.Prelude.{String_discrete, delete, String, ◌≡◌, ite, Option, none, some}

abbrev pub GoError : Type 0
GoError = Option String

-- A method that changes the store returns the new store beside its result.
pub record KvStore : Type 1 where
  pub Store : Type 0
  pub get : Store → String → String × GoError
  pub put : Store → String → String → Store × GoError
  pub delete : Store → String → Store × GoError
  pub put_with_old_value : Store → String → String → Store × String × GoError
  pub rollback_put_with_old_value : Store → String → String → Store × GoError
  pub rollback_delete_with_old_value : Store → String → String → Store × GoError
  pub delete_with_old_value : Store → String → Store × String × GoError
  pub destroy : Store → Store

-- What the state machine relies on: a read sees the last write of its key and nothing else, and a
-- key that is not there is an error beside the empty text.
pub record IsStore (K : KvStore) : Type 0 where
  pub missing : String
  pub get-put :
      (s : K.Store) (k v j : String)
      → K.get (K.put s k v).0 j ≡ ite (String_discrete j k) (v, none) (K.get s j)
  pub get-delete :
      (s : K.Store) (k j : String)
      → K.get (K.delete s k).0 j ≡ ite (String_discrete j k) ("", some missing) (K.get s j)
