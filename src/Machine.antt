-- ===== src/Machine.antt =====
-- curp/state.go: the state machine of one replica, over any store that has the interface of
-- kv/kv.go. Traces print and change nothing, so a trace is left out, but for the index into `OpFmt`
-- that the trace of `Propose` computes.
pub mod Agreement
pub mod Anomalies
pub mod Commits
pub mod DroppedErrors
pub mod EarlyReads
pub mod EarlySyncs
pub mod Execute
pub mod Progress
pub mod Quiet
pub mod Proposals
pub mod Reach
pub mod Replay
pub mod Rounds
pub mod Safety
pub mod Steps
pub mod Worker
use curp.Command.{CurpClientCommand, CurpReply, ProposeId, ProposeId-discrete, propose_id, reply}
use curp.Command.Op
use curp.Command.Status
use curp.Kv.{KvStore}
use curp.Board.{
  CommandBoard, new_board, insert_er, notify_asr, wait_for_er, receive_er, wait_for_asr,
  receive_asr, resume_asr,
}
use curp.Witness.{Witness, new_witness, insert_if_not_conflict, remove}
use curp.Prelude.{if◌then◌else◌, ◌==◌, delete, String, Bool, true, false, Option, none, some, List}

-- `raft.StateType`.
pub data StateType : Type 0 where
  follower candidate leader pre_candidate : StateType

abbrev pub is_state_leader : StateType → Bool
is_state_leader leader = true
is_state_leader _ = false

module _ (K : KvStore) where
  -- `fast_path` holds the commands that a goroutine of `Propose` sends, or has sent, to the channel:
  -- those goroutines run in any order, so any of them may be received next. `slow_path` is a queue.
  -- `proposed` holds what is being sent to raft, in any order too.
  pub record StateMachine : Type 0 where
    pub kv_store : K.Store
    pub command_board : CommandBoard
    pub raft_state : StateType
    pub fast_path : List CurpClientCommand
    pub slow_path : List CurpClientCommand
    pub proposed : List String
    pub command_set : List (ProposeId × Unit {0})
    pub witness : Witness

  abbrev pub is_leader : StateMachine → Bool
  is_leader s = is_state_leader s.raft_state

  abbrev pub not_found_in_state : String
  not_found_in_state = "NOT FOUND IN STATE"

  -- A read that failed.
  abbrev found : String × Option String → String
  found (result, none) = result
  found (result, some err) = not_found_in_state

  unfoldable pub execute_sync : K.Store → CurpClientCommand → K.Store × String
  execute_sync kv cmd =
      if cmd.op == Op.put
      then ((K.put kv cmd.key cmd.value).0, "")
      else (if cmd.op == Op.delete
          then ((K.delete kv cmd.key).0, "")
          else (if cmd.op == Op.get then (kv, found (K.get kv cmd.key)) else (kv, "")))

  unfoldable pub execute_async : K.Store → CurpClientCommand → K.Store × String
  execute_async kv cmd =
      if cmd.op == Op.put
      then ((K.put kv cmd.key cmd.value).0, "")
      else (if cmd.op == Op.delete
          then ((K.delete kv cmd.key).0, "")
          else (if cmd.op == Op.get then (kv, (K.get kv cmd.key).0) else (kv, "")))
