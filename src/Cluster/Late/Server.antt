-- ===== src/Cluster/Late/Server.antt =====
-- One server of curp/state.go that may have earlier commands to commit: its reply to a command with a new id,
-- the commit of a command, and `WaitSynced`.
use curp.Command.{CurpClientCommand, CurpReply, ProposeId, ProposeId-discrete, propose_id, reply}
use curp.Command.Op
use curp.Kv.{KvStore}
use curp.Board.{CommandBoard, notify_asr}
use curp.Board.Room.{HasRoom}
use curp.Board.Free.{receive_er-HasRoom, notify_asr-room}
use curp.Witness.{insert_if_not_conflict}
use curp.Machine.{StateMachine, is_leader, execute_sync}
use curp.Machine.Execute.{execute_async-execute_sync}
use curp.Machine.Agreement.{work, run}
use curp.Machine.Steps.{
  Gob, propose, propose_resumes, status_of, work_fast, work_slow, slow_execute, slow_notify,
  remove_record,
}
use curp.Machine.Commits.{read_commit, read_texts}
use curp.Raft.Followers.{drain}
use curp.Cluster.{call, commit}
use curp.Prelude.{
  insert, delete, ◌≤◌, ◌≡◌, refl, ◌≢◌, true, false, none, some, [], ◌∷◌, lookup, arith,
}

module _ (K : KvStore) (G : Gob) where
  -- Between two calls no command is in a channel of the worker.
  pub record IsIdle (s : StateMachine K) : Type 0 where
    pub no_fast : s.fast_path ≡ []
    pub no_slow : s.slow_path ≡ []
    pub room : (id : ProposeId) → HasRoom s.command_board.er_notifiers id

  pub call_leader :
      (s : StateMachine K) (cmd : CurpClientCommand)
      → is_leader K s ≡ true
      → cmd.op ≤ Op.wlock
      → lookup ProposeId-discrete (propose_id cmd) s.command_set ≡ none
      → lookup ProposeId-discrete (propose_id cmd) s.command_board.er_buffer ≡ none
      → IsIdle s
      → (t : StateMachine K) × (call K G s cmd
          ≡ some (
            t,
            reply
                (execute_sync K s.kv_store cmd).1
                (status_of (insert_if_not_conflict s.witness cmd).1),
          ))
        × IsIdle t
        × (t.command_board.asr_notifiers ≡ s.command_board.asr_notifiers)
        × (t.raft_state ≡ s.raft_state)
        × (t.kv_store ≡ (execute_sync K s.kv_store cmd).0)
        × (t.command_set ≡ insert ProposeId-discrete (propose_id cmd) tt s.command_set)
        × (t.command_board.er_buffer
            ≡ insert ProposeId-discrete
                (propose_id cmd)
                (execute_sync K s.kv_store cmd).1
                s.command_board.er_buffer)
  unfolding call propose work_fast propose_resumes
  call_leader s cmd leads o unmarked new idle =
      let (text, known) = Op.format_in_range cmd.op o in
      let (c, d, e, waited, inserted, received, room, ns, er, asr) =
        receive_er-HasRoom s.command_board (propose_id cmd) (execute_sync K s.kv_store cmd).1
          idle.room new in
      (
        record s {
          witness = (insert_if_not_conflict s.witness cmd).0;
          proposed = G.encode cmd ∷ s.proposed;
          kv_store = (execute_sync K s.kv_store cmd).0;
          command_set = insert ProposeId-discrete (propose_id cmd) tt s.command_set;
          command_board = e;
        },
        ground arith,
        record { no_fast = idle.no_fast; no_slow = idle.no_slow; room = room },
        ns,
        refl,
        refl,
        refl,
        er,
      )

  pub call_follower :
      (s : StateMachine K) (cmd : CurpClientCommand)
      → is_leader K s ≡ false
      → cmd.op ≤ Op.wlock
      → IsIdle s
      → (t : StateMachine K) × (r : CurpReply) × (call K G s cmd ≡ some (t, r))
        × IsIdle t
        × (t.command_board.asr_notifiers ≡ s.command_board.asr_notifiers)
        × (t.raft_state ≡ s.raft_state)
        × (t.kv_store ≡ s.kv_store)
  unfolding call propose
  call_follower s cmd follows o idle =
      let (text, e) = Op.format_in_range cmd.op o in
      (
        record s { witness = (insert_if_not_conflict s.witness cmd).0 },
        reply "" (status_of (insert_if_not_conflict s.witness cmd).1),
        ground arith,
        record { no_fast = idle.no_fast; no_slow = idle.no_slow; room = idle.room },
        refl,
        refl,
        refl,
      )

  -- What a commit leaves of the channels of `WaitForAsr`.
  pub record Told (s : StateMachine K) (c : CurpClientCommand) (t : StateMachine K) : Type 0 where
    pub others :
        (j : ProposeId)
        → j ≢ propose_id c
        → lookup ProposeId-discrete j t.command_board.asr_notifiers
          ≡ lookup ProposeId-discrete j s.command_board.asr_notifiers
    pub own :
        lookup ProposeId-discrete (propose_id c) s.command_board.asr_notifiers ≡ some none
        → lookup ProposeId-discrete (propose_id c) t.command_board.asr_notifiers ≡ some (some tt)

  -- The server after the commit of a command, with the board that `NotifyAsr` leaves.
  abbrev committed : StateMachine K → CurpClientCommand → CommandBoard → StateMachine K
  committed s c d =
      remove_record K
        (record (slow_execute K (record s { slow_path = [] }) c) { command_board = d }) c

  commit_lem :
      (s : StateMachine K) (c : CurpClientCommand) {d : CommandBoard}
      → G.decode (G.encode c) ≡ some c
      → IsIdle s
      → notify_asr s.command_board (propose_id c) ≡ some d
      → commit K G s c ≡ some (committed s c d)
  unfolding commit read_commit read_texts drain run work work_slow slow_execute slow_notify
  commit_lem s c {d} sent idle e = ground (arith, idle.no_slow)

  pub commit_leader :
      (s : StateMachine K) (c : CurpClientCommand)
      → is_leader K s ≡ true
      → G.decode (G.encode c) ≡ some c
      → lookup ProposeId-discrete (propose_id c) s.command_set ≡ some tt
      → IsIdle s
      → HasRoom s.command_board.asr_notifiers (propose_id c)
      → (t : StateMachine K) × (commit K G s c ≡ some t)
        × IsIdle t
        × Told s c t
        × (t.raft_state ≡ s.raft_state)
        × (t.kv_store ≡ s.kv_store)
        × (t.command_set ≡ delete ProposeId-discrete (propose_id c) s.command_set)
        × (t.command_board.er_buffer ≡ s.command_board.er_buffer)
        × (t.command_board.asr_buffer
            ≡ insert ProposeId-discrete (propose_id c) tt s.command_board.asr_buffer)
  unfolding slow_execute remove_record
  commit_leader s c leads sent marked idle asr_room =
      let (d, e, ns, er, asr, others, own) =
        notify_asr-room s.command_board (propose_id c) asr_room in
      (
        committed s c d,
        commit_lem s c {d = d} sent idle e,
        record {
          no_fast = ground (arith, idle.no_fast);
          no_slow = ground arith;
          room = λ j. rw ns (idle.room j);
        },
        record { others = others; own = own },
        ground arith,
        ground arith,
        ground arith,
        er,
        asr,
      )

  pub commit_follower :
      (s : StateMachine K) (c : CurpClientCommand)
      → is_leader K s ≡ false
      → G.decode (G.encode c) ≡ some c
      → IsIdle s
      → HasRoom s.command_board.asr_notifiers (propose_id c)
      → (t : StateMachine K) × (commit K G s c ≡ some t)
        × IsIdle t
        × Told s c t
        × (t.raft_state ≡ s.raft_state)
        × (t.kv_store ≡ (execute_sync K s.kv_store c).0)
  unfolding slow_execute remove_record
  commit_follower s c follows sent idle asr_room =
      let (d, e, ns, er, asr, others, own) =
        notify_asr-room s.command_board (propose_id c) asr_room in
      (
        committed s c d,
        commit_lem s c {d = d} sent idle e,
        record {
          no_fast = ground (arith, idle.no_fast);
          no_slow = ground arith;
          room = λ j. rw ns (idle.room j);
        },
        record { others = others; own = own },
        ground arith,
        ground (arith, (execute_async-execute_sync K s.kv_store c).0),
      )
