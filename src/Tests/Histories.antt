-- ===== src/Tests/Histories.antt =====
-- The theorems on the witness of curp/witness/witness.go and on histories of the state machine of
-- curp/state.go, at concrete commands.
use curp.Command.{ProposeId-discrete, conflict, propose_id}
use curp.Command.Op
use curp.Kv.Mem.{new_mem_store, get, put, delete_key}
use curp.Kv.Mem.Interface.{mem_kv, mem_kv-IsStore}
use curp.Board.{insert_er, notify_asr, wait_for_er, receive_er}
use curp.Witness.{Witness, any_conflict, insert_if_not_conflict, remove}
use curp.Witness.Invariant.{Inv}
use curp.Machine.{StateMachine, leader, execute_sync, execute_async}
use curp.Machine.EarlyReads.{uncommitted_read}
use curp.Machine.Steps.{
  announce, await_er, propose, propose_resumes, work_fast, work_slow, listen_raft_state,
}
use curp.Machine.Reach.{
  selects, Reach, Executed, start, later, records, announces, awaits, works_fast, changes_role,
}
use curp.Machine.Safety.{Reach-witness, resumes-Executed}
use curp.Tests.Samples.{put_x, get_x, get_x_again, id_x, leader_state, no_gob}
use curp.Prelude.{String_discrete, insert, delete, ◌≡◌, refl, false, none, some, [], ◌∷◌, lookup}

-- The definitions that a run computes with.
program : Unit {0}
unfolding any_conflict lookup insert delete String_discrete ProposeId-discrete conflict get put
    delete_key insert_er notify_asr wait_for_er receive_er insert_if_not_conflict remove
    execute_sync execute_async announce await_er propose propose_resumes work_fast work_slow
    listen_raft_state Op.format
program = tt

abbrev holds_x : Witness
holds_x = record { command_map = (id_x, put_x) ∷ [] }

-- A leader whose witness holds a GET.
abbrev reading : StateMachine mem_kv
reading = record leader_state { witness = record { command_map = (propose_id get_x, get_x) ∷ [] } }

-- The same after a PUT was proposed and executed, and the GET committed.
abbrev read_early : StateMachine mem_kv
read_early = record leader_state {
  kv_store = record { kv = ("x", "1") ∷ [] };
  command_board = record {
    er_notifiers = (id_x, some "") ∷ [];
    asr_notifiers = [];
    er_buffer = (id_x, "") ∷ [];
    asr_buffer = (propose_id get_x, tt) ∷ [];
  };
  fast_path = put_x ∷ [];
  proposed = "x" ∷ [];
  command_set = (id_x, tt) ∷ [];
}

uncommitted_read_example :
    (lookup ProposeId-discrete id_x read_early.witness.command_map ≡ none)
    × (lookup ProposeId-discrete id_x read_early.command_set ≡ some tt)
    × ((insert_if_not_conflict read_early.witness get_x_again).1 ≡ false)
    × ((execute_sync mem_kv read_early.kv_store get_x_again).1 ≡ "1")
unfolding program
uncommitted_read_example =
    uncommitted_read mem_kv mem_kv-IsStore no_gob reading get_x put_x get_x_again "x" "1" refl
      (refl, refl, refl) refl refl (λ h. cc) refl refl refl tt refl refl

Reach-witness_example : Inv holds_x
unfolding program
Reach-witness_example =
    Reach-witness mem_kv no_gob {kv = new_mem_store} (later start (records put_x))

-- A leader that was asked for a key that is not there, and has executed the GET.
executed : StateMachine mem_kv
executed = record leader_state {
  command_board = record {
    er_notifiers = (propose_id get_x, some "NOT FOUND IN STATE") ∷ [];
    asr_notifiers = [];
    er_buffer = (propose_id get_x, "NOT FOUND IN STATE") ∷ [];
    asr_buffer = [];
  };
  proposed = "x" ∷ [];
  command_set = (propose_id get_x, tt) ∷ [];
}

executed-Reach : Reach mem_kv no_gob new_mem_store executed selects
unfolding program executed
executed-Reach =
    later
      (later (later (later start (changes_role leader)) (announces get_x false))
        (awaits get_x false))
      (works_fast [] [] get_x refl refl refl)

resumes-Executed_example :
    Executed mem_kv no_gob executed-Reach (propose_id get_x) "NOT FOUND IN STATE"
unfolding program executed
resumes-Executed_example =
    resumes-Executed mem_kv no_gob {s = executed} get_x false executed-Reach refl
