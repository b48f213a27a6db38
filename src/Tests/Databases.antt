-- ===== src/Tests/Databases.antt =====
-- The theorems on the stores of kv/blot_kv.go and kv/badger_kv.go, at databases that are lists.
use curp.Kv.{GoError}
use curp.Kv.Bolt.{
  BoltDb, get, put, delete_key, put_with_old_value, rollback_put_with_old_value,
  rollback_delete_with_old_value, delete_with_old_value, bolt_kv,
}
use curp.Command.{CurpClientCommand, reply}
use curp.Command.Status
use curp.Witness.{any_conflict, insert_if_not_conflict}
use curp.Machine.{StateMachine, leader}
use curp.Machine.Commits.{initial}
use curp.Machine.DroppedErrors.{refused_put_accepted}
use curp.Machine.Steps.{propose, propose_resumes, work_fast, work_slow, wait_synced}
use curp.Tests.Samples.{put_x, id_x, no_gob}
use curp.Kv.Bolt.Reads.{IsBolt, rollback_delete_makes_key}
use curp.Kv.Bolt.Equal.{same, panicked, equal}
use curp.Kv.Bolt.Equal.Compares.{Agrees, bolt_equal_iff}
use curp.Kv.Badger
use curp.Kv.Badger.{BadgerDb, Item, found, failed}
use curp.Kv.Badger.Reads.{IsBadger, badger_get-rollback_delete}
use curp.Prelude.{
  String_discrete, get_elem?, set, All, insert, delete, lookup-insert, lookup-delete, ℕ, String,
  ◌≡◌, refl, sym, ap, ◌≢◌, ◌↔◌, ◌⊎◌, ite, if_neg, false, Option, none, some, List, [], ◌∷◌, map,
  lookup, arith,
}

-- A put refuses the empty key.
abbrev list_put : List (String × String) → String → String → List (String × String) × GoError
list_put s k v =
    (insert String_discrete k v s, ite (String_discrete k "") (some "key required") none)

-- What is left after a transaction.
abbrev list_update :
    List (String × String) → List (String × String) × GoError → List (String × String) × GoError
list_update s (t, none) = (t, none)
list_update s (t, some err) = (s, some err)

abbrev list_db : BoltDb
list_db = record {
  Bucket = List (String × String);
  bucket_get = λ s k. lookup String_discrete k s;
  bucket_put = list_put;
  bucket_delete = λ s k. (delete String_discrete k s, none);
  update = list_update;
  bucket_not_found = "bucket not found";
  keys = map (λ (e : String × String). e.0);
  closed = [];
}

abbrev list_db-IsBolt : IsBolt list_db
list_db-IsBolt = record {
  Accepts = λ k v. k ≢ "";
  commits = λ s t. refl;
  put_accepted = λ s k v a. if_neg (String_discrete k "") a _ _;
  delete_done = λ s k. refl;
  get-put = λ s k v j a. lookup-insert String_discrete j k v s;
  get-delete = λ s k j. lookup-delete String_discrete j k s;
}

-- The definitions that a run computes with.
program : Unit {0}
unfolding any_conflict insert_if_not_conflict lookup insert delete String_discrete get put
    delete_key put_with_old_value rollback_put_with_old_value rollback_delete_with_old_value
    delete_with_old_value
program = tt

rollback_delete_makes_key_example :
    ((delete_with_old_value list_db [] "x").2 ≡ none)
    × (get list_db [] "x" ≡ ("", some "bucket not found"))
    × (get list_db (("x", "") ∷ []) "x" ≡ ("", none))
unfolding program
rollback_delete_makes_key_example =
    rollback_delete_makes_key list_db list_db-IsBolt [] "x" (λ h. cc) refl

-- The second bucket lacks a key of the first.
abbrev both : List (String × String)
both = ("x", "1") ∷ ("y", "2") ∷ []

only_x :
    (k v : String)
    → lookup String_discrete k (("x", "1") ∷ []) ≡ some v
    → (j : ℕ) × (get_elem? ("x" ∷ []) j ≡ some k)
unfolding lookup
only_x k v e = elim (String_discrete k "x") [
  | yes q ↦ (0, ap some (sym q))
  | no n ↦ absurd (ground arith)
]

x_or_y :
    (k v : String)
    → lookup String_discrete k both ≡ some v
    → (j : ℕ) × (get_elem? ("x" ∷ "y" ∷ []) j ≡ some k)
unfolding lookup
x_or_y k v e = elim (String_discrete k "x") [
  | yes q ↦ (0, ap some (sym q))
  | no n ↦ elim (String_discrete k "y") [
    | yes q ↦ (1, ap some (sym q))
    | no m ↦ absurd (ground arith)
  ]
]

-- A database with one bucket.
abbrev only_test : List (String × String) → String → Option (List (String × String))
only_test b name = ite (String_discrete name "test") (some b) none

bolt_equal_iff_example :
    (equal list_db "test" (only_test both) (only_test (("x", "1") ∷ [])) ≢ panicked)
    × ((equal list_db "test" (only_test both) (only_test (("x", "1") ∷ [])) ≡ same)
        ↔ All (Agrees list_db both (("x", "1") ∷ [])) ("x" ∷ []))
unfolding program
bolt_equal_iff_example =
    bolt_equal_iff list_db "test" (only_test both) (only_test (("x", "1") ∷ [])) {b = both}
      {c = ("x", "1") ∷ []} refl refl
      (record { found = ((λ h. cc), ((λ h. cc), tt)); all = x_or_y })
      (record { found = ((λ h. cc), tt); all = only_x })

abbrev item_of : Option String → Item
item_of none = failed "Key not found"
item_of (some value) = found value none

abbrev list_badger : BadgerDb
list_badger = record {
  Db = List (String × String);
  txn_get = λ s k. item_of (lookup String_discrete k s);
  txn_set = list_put;
  txn_delete =
      λ s k. (delete String_discrete k s, ite (String_discrete k "") (some "key required") none);
  view = λ s e. e;
  update = list_update;
  closed = [];
}

item_ite :
    (j k : String) (set old : Option String) {o : Option String}
    → o ≡ ite (String_discrete j k) set old
    → item_of o ≡ ite (String_discrete j k) (item_of set) (item_of old)
item_ite j k set old e = ground arith

abbrev list_badger-IsBadger : IsBadger list_badger
list_badger-IsBadger = record {
  Accepts = λ k. k ≢ "";
  key_not_found = "Key not found";
  views = λ s e. refl;
  commits = λ s t. refl;
  aborts = λ s t e. refl;
  set_accepted = λ s k v a. if_neg (String_discrete k "") a _ _;
  delete_accepted = λ s k a. if_neg (String_discrete k "") a _ _;
  get-set = λ s k v j a.
      item_ite j k (some v) (lookup String_discrete j s) (lookup-insert String_discrete j k v s);
  get-delete = λ s k j a.
      item_ite j k none (lookup String_discrete j s) (lookup-delete String_discrete j k s);
}

badger_get-rollback_delete_example :
    (((Badger.delete_with_old_value list_badger both "x").2 ≡ none)
      × (Badger.get list_badger (("x", "1") ∷ ("y", "2") ∷ []) "x" ≡ ("1", none)))
    ⊎ (((Badger.delete_with_old_value list_badger both "x").2 ≢ none)
        × ((Badger.delete_with_old_value list_badger both "x").0 ≡ both))
unfolding program Badger.get Badger.put Badger.delete_with_old_value
    Badger.rollback_delete_with_old_value
badger_get-rollback_delete_example =
    badger_get-rollback_delete list_badger list_badger-IsBadger both "x" "x" (λ h. cc)

-- A leader on a Bolt store, and a write that Bolt does not take.
abbrev bolt_leader : StateMachine (bolt_kv list_db)
bolt_leader = record (initial (bolt_kv list_db) []) { raft_state = leader }

abbrev put_no_key : CurpClientCommand
put_no_key = record put_x { key = "" }

refused_put_accepted_example :
    (t : StateMachine (bolt_kv list_db)) × (u : StateMachine (bolt_kv list_db)) × (v : StateMachine
      (bolt_kv list_db))
    × (work_fast
          (bolt_kv list_db)
          (propose (bolt_kv list_db) no_gob bolt_leader put_no_key).0
          put_no_key
        ≡ some t)
    × (propose_resumes (bolt_kv list_db) no_gob t put_no_key false
        ≡ some (u, reply "" Status.accepted))
    × (work_slow (bolt_kv list_db) u put_no_key ≡ some v)
    × ((wait_synced (bolt_kv list_db) v id_x).1 ≡ some (reply "" Status.accepted))
    × (v.kv_store ≡ [])
unfolding program
refused_put_accepted_example =
    refused_put_accepted (bolt_kv list_db) no_gob bolt_leader put_no_key {err = "key required"} refl
      refl (record { not_executed = refl; no_result = refl; no_er = refl; no_asr = refl }) refl refl
