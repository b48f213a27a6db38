-- ===== src/Tests/Replicas.antt =====
-- A leader and a follower of a log of one command.
use curp.Command.{ProposeId-discrete, conflict}
use curp.Kv.Mem.{get, put, delete_key}
use curp.Kv.Mem.Interface.{mem_kv, mem_kv-IsStore}
use curp.Board.{insert_er, notify_asr}
use curp.Witness.{remove}
use curp.Machine.{StateMachine, execute_sync, execute_async}
use curp.Machine.Agreement.{fast, slow, fasts, slows, work, run}
use curp.Machine.Commits.{runs, no_snapshot, load_snapshot, read_commit}
use curp.Machine.Execute.{Same}
use curp.Machine.Replay
use curp.Machine.Steps.{work_fast, work_slow}
use curp.Raft.{
  CurpNode, entries_to_apply, publish_loop, publish_entries, publish_snapshot, serve_ready,
  change_conf,
}
use curp.Raft.Followers.{Serves, round, drain}
use curp.Raft.Replicas.{Runs, follower_agrees_with_leader}
use curp.Raft.Replication.{commands_in, read_commits}
use curp.Tests.Rafts.{still_raft, log, two_applied, empty_snapshot, log_gob}
use curp.Tests.Samples.{put_x, id_x, follower_state, leader_state}
use curp.Prelude.{String_discrete, insert, delete, ◌≡◌, refl, none, some, [], ◌∷◌, lookup, arith}

-- The definitions that a run computes with.
program : Unit {0}
unfolding lookup insert delete String_discrete ProposeId-discrete conflict get put delete_key
    insert_er notify_asr remove execute_sync execute_async fasts slows work run work_fast work_slow
    entries_to_apply publish_loop publish_entries publish_snapshot serve_ready change_conf
    commands_in load_snapshot read_commit read_commits
program = tt

abbrev none_applied : CurpNode still_raft
none_applied = record two_applied { applied_index = 0; commits = [] }

abbrev one_applied : CurpNode still_raft
one_applied = record two_applied { applied_index = 1; commits = some ("c" ∷ []) ∷ [] }

one_applied-Runs : Runs still_raft log (λ j. refl) none_applied one_applied
unfolding program
one_applied-Runs = record {
  no_commits = refl;
  none_applied = refl;
  served =
      round empty_snapshot 1 (log 1 ∷ []) Serves.start refl
        ((refl, tt), omega arith, omega arith, omega arith) refl;
}

-- The leader after the fast execution and the commit.
abbrev done_state : StateMachine mem_kv
done_state = record leader_state {
  kv_store = record { kv = ("x", "1") ∷ [] };
  command_board = record {
    er_notifiers = [];
    asr_notifiers = [];
    er_buffer = (id_x, "") ∷ [];
    asr_buffer = (id_x, tt) ∷ [];
  };
}

follower_agrees_with_leader_example :
    (g : StateMachine mem_kv) × (u : StateMachine mem_kv) × (read_commits mem_kv log_gob
        follower_state 0 one_applied.commits
        (λ j. no_snapshot)
      ≡ runs g)
    × (drain mem_kv g ≡ some u)
    × Same mem_kv mem_kv-IsStore (record { kv = ("x", "1") ∷ [] }) u.kv_store
unfolding program
follower_agrees_with_leader_example =
    follower_agrees_with_leader mem_kv mem_kv-IsStore log_gob still_raft log (λ j. refl)
      leader_state follower_state (λ j. no_snapshot) (λ j. none) (fast put_x ∷ slow put_x ∷ [])
      {committed = record leader_state { slow_path = put_x ∷ [] }} {t = done_state} (λ j. refl)
      one_applied-Runs one_applied-Runs refl ((λ h. cc), tt) (λ k. refl) refl refl refl refl
      (record { no_er = refl; no_asr = refl }) refl refl (refl, (refl, tt))
      (Replay.same (put_x ∷ [])) refl
