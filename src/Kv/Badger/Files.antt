-- ===== src/Kv/Badger/Files.antt =====
-- How a store of kv/badger_kv.go is opened and closed. What Badger does is a parameter.
use curp.Kv.{GoError}
use curp.Prelude.{String, Bool, true, Option, none, some}

-- `badger.Options`, of which the source sets two.
pub record Options : Type 0 where
  pub dir : String
  pub in_memory : Bool

-- The database that `badger.Open` returns, none where it is nil, beside the error.
pub record BadgerFiles : Type 1 where
  pub Db : Type 0
  pub open_db : Options → Option Db × GoError
  pub close : Db → Db

module _ (F : BadgerFiles) where
  pub record BadgerStore : Type 0 where
    pub path : String
    pub db : Option F.Db

  -- The store is made also where the database could not be opened.
  unfoldable pub new_badger_store : String → BadgerStore × GoError
  new_badger_store db_path =
      let options : Options = record { dir = db_path; in_memory = true } in
      let (db, err) = F.open_db options in (record { path = db_path; db = db }, err)

  -- None: the panic of a nil database.
  unfoldable pub close_store : BadgerStore → Option BadgerStore
  close_store s = elim s.db [ none ↦ none | some db ↦ some (record s { db = some (F.close db) }) ]
