-- ===== src/Tests/Machines.antt =====
-- Runs of the state machine of curp/state.go, and its theorems at concrete commands.
use curp.Command.{ProposeId-discrete, reply, propose_id, conflict}
use curp.Command.Op
use curp.Command.Status
use curp.Kv.Mem.{new_mem_store, get, put, delete_key}
use curp.Kv.Mem.Interface.{mem_kv, mem_kv-IsStore}
use curp.Board.{
  insert_er, notify_asr, wait_for_er, receive_er, wait_for_asr, receive_asr, resume_asr,
}
use curp.Witness.{any_conflict, Witness, insert_if_not_conflict, remove}
use curp.Witness.Invariant.{Inv}
use curp.Machine.{StateMachine, execute_sync, execute_async}
use curp.Machine.Execute.{Same, execute_sync_comm}
use curp.Machine.EarlySyncs.{early_sync_not_found}
use curp.Machine.Progress.{run-Rooms}
use curp.Board.{new_board}
use curp.Machine.Replay.{swap}
use curp.Machine.Agreement.{fast, slow, fasts, slows, work, run, replicas_agree}
use curp.Machine.Anomalies.{replicas_diverge, late_fast_path}
use curp.Machine.Proposals.{propose-panics_iff}
use curp.Machine.Rounds.{command_completes}
use curp.Machine.Steps.{
  panics, waits, propose, propose_resumes, work_fast, work_slow, wait_synced, wait_synced_resumes,
}
use curp.Tests.Samples.{
  get_x, put_x, put_x_again, put_y, id_x, follower_state, leader_state, no_gob,
}
use curp.Prelude.{
  String_discrete, insert, delete, ◌<◌, ◌≡◌, refl, ◌↔◌, false, none, some, [], ◌∷◌, lookup, arith,
}

-- The definitions that a run computes with.
program : Unit {0}
unfolding any_conflict lookup insert delete String_discrete ProposeId-discrete conflict get put
    delete_key insert_er notify_asr wait_for_er receive_er wait_for_asr receive_asr resume_asr
    insert_if_not_conflict remove execute_sync execute_async fasts slows work run propose
    propose_resumes work_fast work_slow wait_synced Op.format
program = tt

-- A witness of two writes that do not conflict.
abbrev two_writes : Witness
two_writes = record { command_map = (id_x, put_x) ∷ (propose_id put_y, put_y) ∷ [] }

two_writes-Inv : Inv two_writes
unfolding program
two_writes-Inv = record {
  distinct = (refl, (refl, tt));
  keyed = (refl, (refl, tt));
  compatible = ((refl, tt), (tt, tt));
}

replicas_agree_example :
    Same mem_kv mem_kv-IsStore
      (record { kv = ("x", "1") ∷ ("y", "3") ∷ [] })
      (record { kv = ("y", "3") ∷ ("x", "1") ∷ [] })
unfolding program
replicas_agree_example =
    replicas_agree mem_kv mem_kv-IsStore (fast put_x ∷ fast put_y ∷ slow put_y ∷ slow put_x ∷ [])
      leader_state follower_state (λ k. refl) refl refl (refl, (refl, (refl, (refl, tt))))
      (swap put_x put_y [] refl) refl refl

execute_sync_comm_example :
    Same mem_kv mem_kv-IsStore
      (execute_sync mem_kv (execute_sync mem_kv new_mem_store put_x).0 put_y).0
      (execute_sync mem_kv (execute_sync mem_kv new_mem_store put_y).0 put_x).0
    × ((execute_sync mem_kv (execute_sync mem_kv new_mem_store put_x).0 put_y).1
        ≡ (execute_sync mem_kv new_mem_store put_y).1)
    × ((execute_sync mem_kv (execute_sync mem_kv new_mem_store put_y).0 put_x).1
        ≡ (execute_sync mem_kv new_mem_store put_x).1)
unfolding program
execute_sync_comm_example = execute_sync_comm mem_kv mem_kv-IsStore new_mem_store put_x put_y refl

propose-panics_iff_example :
    ((propose mem_kv no_gob follower_state put_x).1 ≡ panics) ↔ (Op.wlock < put_x.op)
propose-panics_iff_example = propose-panics_iff mem_kv no_gob follower_state put_x

command_completes_example :
    (t : StateMachine mem_kv) × (u : StateMachine mem_kv) × (v : StateMachine mem_kv) × ((propose
        mem_kv no_gob leader_state put_x).1
      ≡ waits false)
    × (work_fast mem_kv (propose mem_kv no_gob leader_state put_x).0 put_x ≡ some t)
    × (propose_resumes mem_kv no_gob t put_x false ≡ some (u, reply "" Status.accepted))
    × (work_slow mem_kv u put_x ≡ some v)
    × ((wait_synced mem_kv v id_x).1 ≡ some (reply "" Status.accepted))
    × (v.kv_store ≡ record { kv = ("x", "1") ∷ [] })
unfolding program
command_completes_example =
    command_completes mem_kv no_gob leader_state put_x refl (omega arith)
      (record { not_executed = refl; no_result = refl; no_er = refl; no_asr = refl })

replicas_diverge_example :
    (mem_kv.get (record { kv = ("x", "2") ∷ [] }) "x" ≡ ("2", none))
    × (mem_kv.get (record { kv = ("x", "1") ∷ [] }) "x" ≡ ("1", none))
unfolding program
replicas_diverge_example =
    replicas_diverge mem_kv mem_kv-IsStore leader_state follower_state put_x put_x_again "x" "1" "2"
      (refl, refl, refl) (refl, refl, refl) (λ h. cc) refl refl refl refl refl refl

late_fast_path_example :
    (mem_kv.get (record { kv = ("x", "1") ∷ [] }) "x" ≡ ("1", none))
    × (mem_kv.get (record { kv = ("x", "2") ∷ [] }) "x" ≡ ("2", none))
unfolding program
late_fast_path_example =
    late_fast_path mem_kv mem_kv-IsStore leader_state follower_state put_x put_x_again "x" "1" "2"
      (refl, refl, refl) (refl, refl, refl) (λ h. cc) refl refl refl refl refl refl

-- A leader on whose board two calls wait.
abbrev awaited : StateMachine mem_kv
awaited = record leader_state {
  command_board = record new_board {
    er_notifiers = (id_x, none) ∷ [];
    asr_notifiers = (id_x, none) ∷ [];
  };
}

run-Rooms_example :
    (t : StateMachine mem_kv) × (run mem_kv awaited
        (slow put_x ∷ fast put_x ∷ fast put_y ∷ slow put_y ∷ [])
      ≡ some t)
unfolding program
run-Rooms_example =
    run-Rooms mem_kv (slow put_x ∷ fast put_x ∷ fast put_y ∷ slow put_y ∷ []) awaited
      (((λ h. cc), tt), (tt, tt)) (((λ h. cc), tt), (tt, tt)) ((λ a h. cc), ((λ a h. cc), tt))
      ((λ a h. cc), ((λ a h. cc), tt))

-- A leader that has a value for the key of the GET.
abbrev has_x : StateMachine mem_kv
has_x = record leader_state { kv_store = record { kv = ("x", "1") ∷ [] } }

early_sync_not_found_example :
    (t : StateMachine mem_kv) × (u : StateMachine mem_kv) × ((wait_synced mem_kv
        (propose mem_kv no_gob has_x get_x).0
        (propose_id get_x)).1
      ≡ none)
    × (work_slow mem_kv
          (wait_synced mem_kv (propose mem_kv no_gob has_x get_x).0 (propose_id get_x)).0
          get_x
        ≡ some t)
    × (wait_synced_resumes mem_kv t (propose_id get_x)
        ≡ some (u, reply "NOT FOUND IN BUFFER" Status.accepted))
unfolding program
early_sync_not_found_example = early_sync_not_found mem_kv no_gob has_x get_x false refl refl refl
