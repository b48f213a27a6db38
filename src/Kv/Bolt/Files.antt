-- ===== src/Kv/Bolt/Files.antt =====
-- How a store of kv/blot_kv.go is opened and closed, and the transactions that it hands out. What Bolt does
-- with its file is a parameter.
use curp.Kv.{GoError}
use curp.Prelude.{String, Option, none, some}

-- `open_file` is `bolt.Open(path, 0600, nil)`; `create_bucket` is the transaction that makes sure of the bucket;
-- `begin` starts a transaction that may write.
pub record BoltFiles : Type 1 where
  pub Db : Type 0
  pub Tx : Type 0
  pub open_file : String → Db × GoError
  pub create_bucket : Db → String → Db × GoError
  pub close : Db → Db
  pub begin : Db → Tx × GoError
  pub commit : Tx → GoError
  pub rollback : Tx → GoError

module _ (F : BoltFiles) where
  pub record BoltStore : Type 0 where
    pub path : String
    pub db : F.Db
    pub bucket_name : String

  -- A store, or an error beside the database that was closed for it, if it had been opened.
  pub data Opening : Type 0 where
    opened : BoltStore → Opening
    failed : (err : String) → Option F.Db → Opening

  with_bucket : String → String → F.Db × GoError → Opening
  with_bucket db_path bucket_name (db, none) =
      opened (record { path = db_path; db = db; bucket_name = bucket_name })
  with_bucket db_path bucket_name (db, some err) = failed err (some (F.close db))

  unfoldable pub new_bolt_store : (db_path bucket_name : String) → Opening
  unfolding with_bucket
  new_bolt_store db_path bucket_name =
      let (db, err) = F.open_file db_path in
      elim err [
        | some e ↦ failed e none
        | none ↦ with_bucket db_path bucket_name (F.create_bucket db bucket_name)
      ]

  abbrev pub close_store : BoltStore → BoltStore
  close_store s = record s { db = F.close s.db }

  abbrev pub begin : BoltStore → F.Tx × GoError
  begin s = F.begin s.db

  abbrev pub commit : BoltStore → F.Tx → GoError
  commit s tx = F.commit tx

  abbrev pub rollback : BoltStore → F.Tx → GoError
  rollback s tx = F.rollback tx
