-- ===== src/Machine/Worker.antt =====
-- A command that reaches `cmd_worker` of curp/state.go on both paths.
use curp.Command.{CurpClientCommand, ProposeId-discrete, propose_id, reply}
use curp.Command.Status
use curp.Kv.{KvStore}
use curp.Board.Delivery.{wait_for_asr-notify_asr}
use curp.Witness.{remove}
use curp.Machine.{StateMachine, is_leader, execute_sync}
use curp.Machine.Steps.{wait_synced, work_fast, work_slow}
use curp.Prelude.{lookup-insert, lookup-delete, ◌≡◌, true, none, some, lookup, arith}

module _ (K : KvStore) where
  -- At a leader that executes a command on the fast path and then sees it committed, the command has
  -- been executed once, its records are gone from the command set and the witness, and the client
  -- that then asks by `WaitSynced` gets the result of this execution at once, ACCEPTED.
  pub work_slow-work_fast :
      (s : StateMachine K) (cmd : CurpClientCommand) {t u : StateMachine K}
      → is_leader K s ≡ true
      → lookup ProposeId-discrete (propose_id cmd) s.command_set ≡ none
      → work_fast K s cmd ≡ some t
      → work_slow K t cmd ≡ some u
      → (u.kv_store ≡ (execute_sync K s.kv_store cmd).0)
        × (lookup ProposeId-discrete (propose_id cmd) u.command_set ≡ none)
        × (lookup ProposeId-discrete (propose_id cmd) u.witness.command_map ≡ none)
        × ((wait_synced K u (propose_id cmd)).1
            ≡ some (reply (execute_sync K s.kv_store cmd).1 Status.accepted))
  unfolding work_fast work_slow wait_synced remove
  work_slow-work_fast s cmd {t} {u} l fresh f w = ground (
    arith,
    lookup-insert ProposeId-discrete (propose_id cmd) (propose_id cmd) tt s.command_set,
    lookup-delete ProposeId-discrete (propose_id cmd) (propose_id cmd) t.command_set,
    lookup-delete ProposeId-discrete (propose_id cmd) (propose_id cmd) t.witness.command_map,
    wait_for_asr-notify_asr s.command_board (propose_id cmd) (execute_sync K s.kv_store cmd).1
        {d = t.command_board} {e = u.command_board},
  )
