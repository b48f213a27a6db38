-- ===== src/Machine/Proposals.antt =====
-- What `Propose` and `WaitSynced` of curp/state.go answer, on every path.
use curp.Command.{CurpClientCommand, CurpReply, ProposeId-discrete, propose_id, reply}
use curp.Command.Op
use curp.Command.Status
use curp.Kv.{KvStore}
use curp.Board.Delivery.{receive_er-insert_er}
use curp.Witness.{insert_if_not_conflict}
use curp.Witness.Accepts.{IsClear, insert_if_not_conflict_iff, lookup-insert_if_not_conflict}
use curp.Machine.{StateMachine, execute_sync}
use curp.Machine.Steps.{Gob, replies, waits, panics, status_of, propose, propose_resumes, work_fast}
use curp.Prelude.{◌<◌, ◌≡◌, ◌↔◌, ◌⊎◌, inl, inr, Bool, false, none, some, lookup, arith, dec_lt}

module _ (K : KvStore) (G : Gob) where
  -- A replica's answer to a proposal is a panic exactly when the operation code has no text in
  -- `OpFmt`, whatever the state.
  pub propose-panics_iff :
      (s : StateMachine K) (cmd : CurpClientCommand)
      → ((propose K G s cmd).1 ≡ panics) ↔ (Op.wlock < cmd.op)
  unfolding propose
  propose-panics_iff s cmd = elim (dec_lt Op.wlock cmd.op) [
    | yes out ↦ ground (arith, Op.format_out_of_range cmd.op out)
    | no range ↦ ground (arith, Op.format_in_range cmd.op (omega arith))
  ]

  resumes_accepted :
      (t : StateMachine K) (cmd : CurpClientCommand) (b : Bool) {u : StateMachine K} {r : CurpReply}
      → propose_resumes K G t cmd b ≡ some (u, r)
      → r.status_code ≡ Status.accepted
      → b ≡ false
  unfolding propose_resumes
  resumes_accepted t cmd b h a = ground arith

  pub propose-accepted :
      (s : StateMachine K) (cmd : CurpClientCommand) {r : CurpReply}
      → ((propose K G s cmd).1 ≡ replies r)
        ⊎ ((b : Bool) × (t : StateMachine K) × (u : StateMachine K) × ((propose K G s cmd).1
              ≡ waits b)
            × (propose_resumes K G t cmd b ≡ some (u, r)))
      → r.status_code ≡ Status.accepted
      → IsClear s.witness.command_map cmd
        × (lookup ProposeId-discrete (propose_id cmd) (propose K G s cmd).0.witness.command_map
            ≡ some cmd)
  unfolding propose
  propose-accepted s cmd (inl h) a = ground (
    arith,
    (insert_if_not_conflict_iff s.witness cmd).0,
    lookup-insert_if_not_conflict s.witness cmd (propose_id cmd),
  )
  propose-accepted s cmd {r} (inr (b, t, u, w, h)) a =
      let free : b ≡ false = resumes_accepted t cmd b {u = u} {r = r} h a in
      ground (
        arith,
        (insert_if_not_conflict_iff s.witness cmd).0,
        lookup-insert_if_not_conflict s.witness cmd (propose_id cmd),
      )

  -- A proposal that waits at the leader is answered with the result of its execution on the fast
  -- path, and with CONFLICT exactly if the witness reported one.
  pub propose_resumes-work_fast :
      (s : StateMachine K) (cmd : CurpClientCommand) (b : Bool) {t : StateMachine K}
      → (propose K G s cmd).1 ≡ waits b
      → lookup ProposeId-discrete (propose_id cmd) s.command_set ≡ none
      → work_fast K (propose K G s cmd).0 cmd ≡ some t
      → (u : StateMachine K) × (propose_resumes K G t cmd b
          ≡ some (u, reply (execute_sync K s.kv_store cmd).1 (status_of b)))
        × (b ≡ (insert_if_not_conflict s.witness cmd).1)
  unfolding propose propose_resumes work_fast
  propose_resumes-work_fast s cmd b {t} w fresh h =
      let (e, got, _) =
        receive_er-insert_er s.command_board (propose_id cmd) (execute_sync K s.kv_store cmd).1
          {d = t.command_board} (ground arith) (ground arith) in
      (record t { command_board = e }, ground arith, ground arith)
