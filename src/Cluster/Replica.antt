-- ===== src/Cluster/Replica.antt =====
-- One server of a cluster, curp/state.go, that is done with all earlier commands: its reply to the next one,
-- and the commit of that.
use curp.Command.{CurpClientCommand, CurpReply, ProposeId-discrete, propose_id, reply}
use curp.Command.Op
use curp.Command.Status
use curp.Kv.{KvStore}
use curp.Board.Free.{IsFree, receive_er-IsFree, notify_asr-IsFree}
use curp.Witness.{insert_if_not_conflict, any_conflict, has_conflict_with, remove}
use curp.Machine.{StateMachine, is_leader, execute_sync}
use curp.Machine.Execute.{execute_async-execute_sync}
use curp.Machine.Agreement.{work, run}
use curp.Machine.Steps.{
  Gob, propose, propose_resumes, work_fast, work_slow, slow_execute, slow_notify, remove_record,
}
use curp.Machine.Commits.{read_commit, read_texts}
use curp.Raft.Followers.{drain}
use curp.Cluster.{call, commit}
use curp.Prelude.{
  Bool-cases, insert, delete, delete_one, ◌≤◌, ◌≡◌, refl, ap, ◌⊎◌, inl, inr, true, false, none,
  some, [], ◌∷◌, lookup, arith,
}

module _ (K : KvStore) where
  pub record IsReady (s : StateMachine K) : Type 0 where
    pub no_witness : s.witness.command_map ≡ []
    pub no_fast : s.fast_path ≡ []
    pub no_slow : s.slow_path ≡ []
    pub no_set : s.command_set ≡ []
    pub free : IsFree s.command_board

  -- The server has replied to a command and not yet seen its commit.
  pub record Called (s : StateMachine K) (cmd : CurpClientCommand) (t : StateMachine K)
      : Type 0 where
    pub one_witness : t.witness.command_map ≡ (propose_id cmd, cmd) ∷ []
    pub no_fast : t.fast_path ≡ []
    pub no_slow : t.slow_path ≡ []
    pub same_role : t.raft_state ≡ s.raft_state
    pub free : IsFree t.command_board
    pub same_asr : t.command_board.asr_buffer ≡ s.command_board.asr_buffer
    pub pending :
        ((is_leader K t ≡ true)
          × (t.command_set ≡ (propose_id cmd, tt) ∷ [])
          × (t.kv_store ≡ (execute_sync K s.kv_store cmd).0)
          × (t.command_board.er_buffer
              ≡ insert ProposeId-discrete
                  (propose_id cmd)
                  (execute_sync K s.kv_store cmd).1
                  s.command_board.er_buffer))
        ⊎ ((is_leader K t ≡ false)
            × (t.command_set ≡ [])
            × (t.kv_store ≡ s.kv_store)
            × (t.command_board.er_buffer ≡ s.command_board.er_buffer))

module _ (K : KvStore) (G : Gob) where
  call-follower :
      (s : StateMachine K) (cmd : CurpClientCommand)
      → is_leader K s ≡ false
      → cmd.op ≤ Op.wlock
      → IsReady K s
      → (t : StateMachine K) × (call K G s cmd ≡ some (t, reply "" Status.accepted))
        × Called K s cmd t
  unfolding call propose insert_if_not_conflict has_conflict_with any_conflict insert
  call-follower s cmd follows o ready =
      let (text, e) = Op.format_in_range cmd.op o in
      (
        record s { witness = record { command_map = (propose_id cmd, cmd) ∷ [] } },
        ground (arith, ready.no_witness),
        record {
          one_witness = refl;
          no_fast = ready.no_fast;
          no_slow = ready.no_slow;
          same_role = refl;
          free = ready.free;
          same_asr = refl;
          pending = inr (follows, ready.no_set, refl, refl);
        },
      )

  call-leader :
      (s : StateMachine K) (cmd : CurpClientCommand)
      → is_leader K s ≡ true
      → cmd.op ≤ Op.wlock
      → lookup ProposeId-discrete (propose_id cmd) s.command_board.er_buffer ≡ none
      → IsReady K s
      → (t : StateMachine K) × (call K G s cmd
          ≡ some (t, reply (execute_sync K s.kv_store cmd).1 Status.accepted))
        × Called K s cmd t
  unfolding call propose insert_if_not_conflict has_conflict_with any_conflict insert work_fast
      propose_resumes lookup
  call-leader s cmd leads o new ready =
      let (text, known) = Op.format_in_range cmd.op o in
      let (kv, r) = execute_sync K s.kv_store cmd in
      let (c, d, e, waited, inserted, received, free, er, asr) =
        receive_er-IsFree s.command_board (propose_id cmd) (execute_sync K s.kv_store cmd).1
          ready.free new in
      (
        record s {
          witness = record { command_map = (propose_id cmd, cmd) ∷ [] };
          proposed = G.encode cmd ∷ s.proposed;
          kv_store = (execute_sync K s.kv_store cmd).0;
          command_set = (propose_id cmd, tt) ∷ [];
          command_board = e;
        },
        ground (arith, ready.no_witness, ready.no_set),
        record {
          one_witness = refl;
          no_fast = ready.no_fast;
          no_slow = ready.no_slow;
          same_role = refl;
          free = free;
          same_asr = asr;
          pending = inl (leads, refl, refl, er);
        },
      )

  -- A server's reply to a command with a new id, whatever its role.
  pub call-IsReady :
      (s : StateMachine K) (cmd : CurpClientCommand)
      → cmd.op ≤ Op.wlock
      → lookup ProposeId-discrete (propose_id cmd) s.command_board.er_buffer ≡ none
      → IsReady K s
      → (y : StateMachine K × CurpReply) × (call K G s cmd ≡ some y)
        × Called K s cmd y.0
        × (y.1.status_code ≡ Status.accepted)
        × (is_leader K s ≡ true → y.1.content ≡ (execute_sync K s.kv_store cmd).1)
  call-IsReady s cmd o new ready = elim (Bool-cases (is_leader K s)) [
    | inl leads ↦
        let (t, e, called) = call-leader s cmd leads o new ready in
        ((t, reply (execute_sync K s.kv_store cmd).1 Status.accepted), e, called, refl, λ _. refl)
    | inr follows ↦
        let (t, e, called) = call-follower s cmd follows o ready in
        ((t, reply "" Status.accepted), e, called, refl, λ leads. cc)
  ]

  -- The server after the commit.
  abbrev committed : StateMachine K → CurpClientCommand → StateMachine K → StateMachine K
  committed s cmd t = record t {
    witness = record { command_map = [] };
    slow_path = [];
    command_set = [];
    kv_store = (execute_sync K s.kv_store cmd).0;
    command_board = record t.command_board {
      asr_buffer = insert ProposeId-discrete (propose_id cmd) tt t.command_board.asr_buffer;
    };
  }

  work_slow-Called :
      (s : StateMachine K) (cmd : CurpClientCommand) (t : StateMachine K)
      → Called K s cmd t
      → work_slow K (record t { slow_path = [] }) cmd ≡ some (committed s cmd t)
  unfolding work_slow slow_execute slow_notify remove_record remove lookup delete insert
  work_slow-Called s cmd t called = elim called.pending [
    | inl (leads, old, kv, er) ↦ ground (
      arith,
      notify_asr-IsFree t.command_board (propose_id cmd) called.free,
      delete_one ProposeId-discrete (propose_id cmd) cmd,
      delete_one ProposeId-discrete (propose_id cmd) tt,
      called.one_witness,
    )
    | inr (follows, new, kv, er) ↦ ground (
      arith,
      notify_asr-IsFree t.command_board (propose_id cmd) called.free,
      delete_one ProposeId-discrete (propose_id cmd) cmd,
      delete_one ProposeId-discrete (propose_id cmd) tt,
      called.one_witness,
      (execute_async-execute_sync K s.kv_store cmd).0,
    )
  ]

  pub commit-Called :
      (s : StateMachine K) (cmd : CurpClientCommand) (t : StateMachine K)
      → G.decode (G.encode cmd) ≡ some cmd
      → Called K s cmd t
      → (u : StateMachine K) × (commit K G t cmd ≡ some u)
        × IsReady K u
        × (u.raft_state ≡ s.raft_state)
        × (u.kv_store ≡ (execute_sync K s.kv_store cmd).0)
        × (u.command_board.er_buffer ≡ t.command_board.er_buffer)
        × (u.command_board.asr_buffer
            ≡ insert ProposeId-discrete (propose_id cmd) tt s.command_board.asr_buffer)
  unfolding commit read_commit read_texts drain run work remove
  commit-Called s cmd t sent called =
      let worked = work_slow-Called s cmd t called in
      (
        committed s cmd t,
        ground (arith, called.no_slow),
        record {
          no_witness = refl;
          no_fast = called.no_fast;
          no_slow = refl;
          no_set = refl;
          free = record { room = called.free.room; no_asr = called.free.no_asr };
        },
        called.same_role,
        refl,
        refl,
        ap (insert ProposeId-discrete (propose_id cmd) tt) called.same_asr,
      )
