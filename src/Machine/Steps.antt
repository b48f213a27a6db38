-- ===== src/Machine/Steps.antt =====
-- The calls and the worker of curp/state.go, each split where it gives up a lock or waits.
use curp.Command.{CurpClientCommand, CurpReply, ProposeId, ProposeId-discrete, propose_id, reply}
use curp.Command.Op
use curp.Command.Status
use curp.Kv.{KvStore}
use curp.Board.{
  insert_er, notify_asr, wait_for_er, receive_er, wait_for_asr, receive_asr, resume_asr,
}
use curp.Witness.{insert_if_not_conflict, remove}
use curp.Machine.{StateMachine, StateType, is_leader, execute_sync, execute_async}
use curp.Prelude.{
  if◌then◌else◌, insert, delete, ℕ, String, Bool, false, Option, none, some, ◌∷◌, lookup,
}

-- What gob does with a command: `Encode`, and the decoder of `readCommits`; none is its error.
pub record Gob : Type 0 where
  pub encode : CurpClientCommand → String
  pub decode : String → Option CurpClientCommand

-- How a call goes on: it replies, it waits with the conflict that it found, or the process panics.
pub data Outcome : Type 0 where
  replies : CurpReply → Outcome
  waits : Bool → Outcome
  panics : Outcome

abbrev pub status_of : Bool → ℕ
status_of is_conflict = if is_conflict then Status.conflict else Status.accepted

module _ (K : KvStore) (G : Gob) where
  -- The stretch of `Propose` under `s.mu`, after the witness has answered. Its trace reads
  -- `OpFmt[cmd.Op]`, which panics out of range. True: the leader took the command.
  unfoldable pub announce :
      StateMachine K → CurpClientCommand → Bool → StateMachine K × Option Outcome
  announce s cmd is_conflict = elim (Op.format cmd.op) [
    | none ↦ (s, some panics)
    | some _ ↦
        if is_leader K s
        then (
          record s { fast_path = cmd ∷ s.fast_path; proposed = G.encode cmd ∷ s.proposed },
          none,
        )
        else (s, some (replies (reply "" (status_of is_conflict))))
  ]

  -- The end of `Propose`, up to its wait.
  unfoldable pub await_er : StateMachine K → CurpClientCommand → Bool → StateMachine K × Outcome
  await_er s cmd is_conflict =
      let (board, answer) = wait_for_er s.command_board (propose_id cmd) in
      (
        record s { command_board = board },
        elim answer [
          | some result ↦ replies (reply result (status_of is_conflict))
          | none ↦ waits is_conflict
        ],
      )

  -- `Propose`, with no step of another goroutine in between.
  unfoldable pub propose : StateMachine K → CurpClientCommand → StateMachine K × Outcome
  unfolding announce await_er
  propose s cmd =
      let (witness, is_conflict) = insert_if_not_conflict s.witness cmd in
      let (announced, left) = announce (record s { witness = witness }) cmd is_conflict in
      elim left [ some outcome ↦ (announced, outcome) | none ↦ await_er announced cmd is_conflict ]

  -- `Propose` wakes up: the reply, once the result is in its channel.
  unfoldable pub propose_resumes :
      StateMachine K → CurpClientCommand → Bool → Option (StateMachine K × CurpReply)
  propose_resumes s cmd is_conflict = elim (receive_er s.command_board (propose_id cmd)) [
    | none ↦ none
    | some (result, board) ↦
        some (record s { command_board = board }, reply result (status_of is_conflict))
  ]

  abbrev pub look_up : StateMachine K → CurpClientCommand → StateMachine K × Outcome
  look_up s cmd = propose s cmd

module _ (K : KvStore) where
  -- `WaitSynced`, up to its return or its wait.
  unfoldable pub wait_synced : StateMachine K → ProposeId → StateMachine K × Option CurpReply
  wait_synced s id =
      let (board, answer) = wait_for_asr s.command_board id in
      (
        record s { command_board = board },
        elim answer [ none ↦ none | some result ↦ some (reply result Status.accepted) ],
      )

  unfoldable pub wait_synced_resumes :
      StateMachine K → ProposeId → Option (StateMachine K × CurpReply)
  wait_synced_resumes s id = elim (receive_asr s.command_board id) [
    | none ↦ none
    | some woken ↦
        let (board, result) = resume_asr woken id in
        some (record s { command_board = board }, reply result Status.accepted)
  ]

  -- The body of `listenRaftState`.
  unfoldable pub listen_raft_state : StateMachine K → StateType → StateMachine K
  listen_raft_state s state = record s { raft_state = state }

  -- The first case of `cmd_worker`, for a command that was received from the fast path. None: the
  -- worker waits, in `InsertEr`.
  unfoldable pub work_fast : StateMachine K → CurpClientCommand → Option (StateMachine K)
  work_fast s cmd = elim (lookup ProposeId-discrete (propose_id cmd) s.command_set) [
    | some _ ↦ some s
    | none ↦
        let (kv, result) = execute_sync K s.kv_store cmd in
        elim (insert_er s.command_board (propose_id cmd) result) [
          | none ↦ none
          | some board ↦ some (record s {
            kv_store = kv;
            command_board = board;
            command_set = insert ProposeId-discrete (propose_id cmd) tt s.command_set;
          })
        ]
  ]

  -- `_, ok := s.commandSet[id]; ok && isLeader`
  abbrev executed_before : StateMachine K → CurpClientCommand → Bool
  executed_before s cmd = elim (lookup ProposeId-discrete (propose_id cmd) s.command_set) [
    | none ↦ false
    | some _ ↦ is_leader K s
  ]

  unfoldable pub slow_execute : StateMachine K → CurpClientCommand → StateMachine K
  slow_execute s cmd = if executed_before s cmd then s else record s {
    kv_store = (execute_async K s.kv_store cmd).0;
    command_set = insert ProposeId-discrete (propose_id cmd) tt s.command_set;
  }

  unfoldable pub slow_notify : StateMachine K → CurpClientCommand → Option (StateMachine K)
  slow_notify s cmd = elim (notify_asr s.command_board (propose_id cmd)) [
    | none ↦ none
    | some board ↦ some (record s { command_board = board })
  ]

  unfoldable pub remove_record : StateMachine K → CurpClientCommand → StateMachine K
  remove_record s cmd = record s {
    witness = remove s.witness (propose_id cmd);
    command_set = delete ProposeId-discrete (propose_id cmd) s.command_set;
  }

  -- The second case of `cmd_worker`, for a command that was received from the slow path. None: the
  -- worker waits, in `NotifyAsr`.
  unfoldable pub work_slow : StateMachine K → CurpClientCommand → Option (StateMachine K)
  unfolding slow_execute slow_notify remove_record
  work_slow s cmd = elim (slow_notify (slow_execute s cmd) cmd) [
    | none ↦ none
    | some t ↦ some (remove_record t cmd)
  ]
