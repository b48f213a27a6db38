-- ===== src/Machine/Rounds.antt =====
-- The whole life of one command at the leader of curp/state.go: `Propose`, the fast path, the answer, the
-- commit on the slow path, and `WaitSynced`.
use curp.Command.{CurpClientCommand, CurpReply, ProposeId-discrete, propose_id, reply}
use curp.Command.Op
use curp.Command.Status
use curp.Kv.{KvStore}
use curp.Board.{receive_er, insert_er, wait_for_er}
use curp.Board.Room.{HasRoom, insert_er-HasRoom, notify_asr-HasRoom, wait_for_asr-executed}
use curp.Witness.{insert_if_not_conflict}
use curp.Machine.{StateMachine, is_leader, execute_sync}
use curp.Machine.Proposals.{propose_resumes-work_fast}
use curp.Machine.Steps.{
  Gob, waits, status_of, propose, propose_resumes, work_fast, work_slow, slow_execute, slow_notify,
  remove_record, wait_synced,
}
use curp.Prelude.{
  set, insert, lookup-insert, ◌≤◌, String, ◌≡◌, refl, Bool, true, none, some, lookup, arith,
}

module _ (K : KvStore) where
  -- An id that the board and the command set have not seen.
  pub record IsFresh (s : StateMachine K) (cmd : CurpClientCommand) : Type 0 where
    pub not_executed : lookup ProposeId-discrete (propose_id cmd) s.command_set ≡ none
    pub no_result : lookup ProposeId-discrete (propose_id cmd) s.command_board.er_buffer ≡ none
    pub no_er : lookup ProposeId-discrete (propose_id cmd) s.command_board.er_notifiers ≡ none
    pub no_asr : lookup ProposeId-discrete (propose_id cmd) s.command_board.asr_notifiers ≡ none

  work_fast-HasRoom :
      (s : StateMachine K) (cmd : CurpClientCommand)
      → lookup ProposeId-discrete (propose_id cmd) s.command_set ≡ none
      → HasRoom s.command_board.er_notifiers (propose_id cmd)
      → (t : StateMachine K) × (work_fast K s cmd ≡ some t)
        × (lookup ProposeId-discrete (propose_id cmd) t.command_board.er_buffer
            ≡ some (execute_sync K s.kv_store cmd).1)
        × (lookup ProposeId-discrete (propose_id cmd) t.command_set ≡ some tt)
        × (t.command_board.asr_notifiers ≡ s.command_board.asr_notifiers)
        × (t.raft_state ≡ s.raft_state)
        × (t.kv_store ≡ (execute_sync K s.kv_store cmd).0)
  unfolding work_fast insert_er
  work_fast-HasRoom s cmd fresh room =
      let r = (execute_sync K s.kv_store cmd).1 in
      let (d, e) = insert_er-HasRoom s.command_board (propose_id cmd) r room in
      (
        record s {
          kv_store = (execute_sync K s.kv_store cmd).0;
          command_board = d;
          command_set = insert ProposeId-discrete (propose_id cmd) tt s.command_set;
        },
        ground arith,
        ground (
          arith,
          lookup-insert ProposeId-discrete (propose_id cmd) (propose_id cmd) r
              s.command_board.er_buffer,
        ),
        ground (
          arith,
          lookup-insert ProposeId-discrete (propose_id cmd) (propose_id cmd) tt s.command_set,
        ),
        ground arith,
        refl,
        refl,
      )

  work_slow-HasRoom :
      (s : StateMachine K) (cmd : CurpClientCommand) (r : String)
      → is_leader K s ≡ true
      → lookup ProposeId-discrete (propose_id cmd) s.command_set ≡ some tt
      → lookup ProposeId-discrete (propose_id cmd) s.command_board.er_buffer ≡ some r
      → HasRoom s.command_board.asr_notifiers (propose_id cmd)
      → (t : StateMachine K) × (work_slow K s cmd ≡ some t)
        × ((wait_synced K t (propose_id cmd)).1 ≡ some (reply r Status.accepted))
        × (t.kv_store ≡ s.kv_store)
  unfolding work_slow slow_execute slow_notify remove_record wait_synced
  work_slow-HasRoom s cmd r l old h room =
      let (d, e) = notify_asr-HasRoom s.command_board (propose_id cmd) room in
      (
        remove_record K (record s { command_board = d }) cmd,
        ground arith,
        ground (arith, wait_for_asr-executed s.command_board (propose_id cmd) r {d = d} h e),
        refl,
      )

module _ (K : KvStore) (G : Gob) where
  propose_waits :
      (s : StateMachine K) (cmd : CurpClientCommand)
      → is_leader K s ≡ true
      → cmd.op ≤ Op.wlock
      → IsFresh K s cmd
      → ((propose K G s cmd).1 ≡ waits (insert_if_not_conflict s.witness cmd).1)
        × (lookup ProposeId-discrete
              (propose_id cmd)
              (propose K G s cmd).0.command_board.er_notifiers
            ≡ some none)
        × ((propose K G s cmd).0.command_board.asr_notifiers ≡ s.command_board.asr_notifiers)
        × ((propose K G s cmd).0.command_set ≡ s.command_set)
        × ((propose K G s cmd).0.raft_state ≡ s.raft_state)
        × ((propose K G s cmd).0.kv_store ≡ s.kv_store)
  unfolding propose wait_for_er
  propose_waits s cmd l o f =
      let (text, e) = Op.format_in_range cmd.op o in
      ground (
        arith,
        lookup-insert ProposeId-discrete (propose_id cmd) (propose_id cmd) none
            s.command_board.er_notifiers,
      )

  propose_resumes_keeps :
      (s : StateMachine K) (cmd : CurpClientCommand) (b : Bool) {t : StateMachine K} {r : CurpReply}
      → propose_resumes K G s cmd b ≡ some (t, r)
      → (t.command_board.er_buffer ≡ s.command_board.er_buffer)
        × (t.command_board.asr_notifiers ≡ s.command_board.asr_notifiers)
        × (t.command_set ≡ s.command_set)
        × (t.raft_state ≡ s.raft_state)
        × (t.kv_store ≡ s.kv_store)
  unfolding propose_resumes receive_er
  propose_resumes_keeps s cmd b {t} {r} h = ground arith

  -- At a leader every command with a known operation and an id that its board and command set have not
  -- seen is answered: no step of its way has to wait. `Propose` waits, the worker executes the command on
  -- the fast path, the call wakes up with the result, and with CONFLICT exactly if the witness said so, the
  -- worker gets through the commit, and `WaitSynced` then answers at once with the same result, ACCEPTED.
  -- The command has been executed once.
  pub command_completes :
      (s : StateMachine K) (cmd : CurpClientCommand)
      → is_leader K s ≡ true
      → cmd.op ≤ Op.wlock
      → IsFresh K s cmd
      → (t : StateMachine K) × (u : StateMachine K) × (v : StateMachine K) × ((propose K G s cmd).1
          ≡ waits (insert_if_not_conflict s.witness cmd).1)
        × (work_fast K (propose K G s cmd).0 cmd ≡ some t)
        × (propose_resumes K G t cmd (insert_if_not_conflict s.witness cmd).1
            ≡ some (
              u,
              reply
                  (execute_sync K s.kv_store cmd).1
                  (status_of (insert_if_not_conflict s.witness cmd).1),
            ))
        × (work_slow K u cmd ≡ some v)
        × ((wait_synced K v (propose_id cmd)).1
            ≡ some (reply (execute_sync K s.kv_store cmd).1 Status.accepted))
        × (v.kv_store ≡ (execute_sync K s.kv_store cmd).0)
  command_completes s cmd l o f =
      let b = (insert_if_not_conflict s.witness cmd).1 in
      let r = (execute_sync K s.kv_store cmd).1 in
      let p = (propose K G s cmd).0 in
      let (w, room, asr, set, raft, kv) = propose_waits s cmd l o f in
      let (t, fast, er, old, asr1, raft1, kv1) =
        work_fast-HasRoom K p cmd (rw set f.not_executed) (λ a h. cc) in
      let (u, woken, _) = propose_resumes-work_fast K G s cmd b {t = t} w f.not_executed fast in
      let (er2, asr2, set2, raft2, kv2) =
        propose_resumes_keeps t cmd b {t = u} {r = reply r (status_of b)} woken in
      let (v, slow, synced, kv3) =
        work_slow-HasRoom K u cmd r (ground arith) (ground arith) (ground arith)
          (λ a h. cc (f.no_asr)) in
      (t, u, v, w, fast, woken, slow, synced, ground arith)
