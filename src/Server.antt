-- ===== src/Server.antt =====
-- curp/state_grpc.go: the handlers of the service. Each passes its request on to the state machine of
-- curp/state.go; what waits there waits here.
pub mod Peer
pub mod Start
use curp.Command.{CurpClientCommand, CurpReply, ProposeId}
use curp.Kv.{KvStore}
use curp.Machine.{StateMachine, is_leader}
use curp.Machine.Steps as Steps
use curp.Machine.Steps.{Gob, Outcome}
use curp.Prelude.{if◌then◌else◌, ℕ, Option}

module _ (K : KvStore) where
  -- The field of `LeaderReply`.
  unfoldable pub answer_is_leader : StateMachine K → ℕ
  answer_is_leader s = if is_leader K s then 1 else 0

  abbrev pub handle_wait_synced : StateMachine K → ProposeId → StateMachine K × Option CurpReply
  handle_wait_synced s id = Steps.wait_synced K s id

module _ (K : KvStore) (G : Gob) where
  abbrev pub handle_propose : StateMachine K → CurpClientCommand → StateMachine K × Outcome
  handle_propose s cmd = Steps.propose K G s cmd
