-- ===== src/Machine/EarlySyncs.antt =====
-- `WaitSynced` of curp/state.go that comes before the worker has met its command, on either path.
use curp.Command.{CurpClientCommand, ProposeId-discrete, propose_id, reply}
use curp.Command.Status
use curp.Kv.{KvStore}
use curp.Board.{not_found, wait_for_er, wait_for_asr, receive_asr, resume_asr, register, forget}
use curp.Board.Room.{HasRoom}
use curp.Board.Free.{register-HasRoom, notify_asr-room}
use curp.Machine.{StateMachine}
use curp.Machine.Steps.{
  Gob, waits, announce, await_er, propose, wait_synced, wait_synced_resumes, work_slow,
  slow_execute, slow_notify, remove_record,
}
use curp.Prelude.{insert, ◌≡◌, ap, ◌∙◌, Bool, none, some, lookup, arith}

module _ (K : KvStore) (G : Gob) where
  -- The board of a call that waits.
  propose_waits :
      (s : StateMachine K) (cmd : CurpClientCommand) (b : Bool)
      → (propose K G s cmd).1 ≡ waits b
      → (lookup ProposeId-discrete (propose_id cmd) (propose K G s cmd).0.command_board.er_buffer
          ≡ none)
        × ((propose K G s cmd).0.command_board.asr_buffer ≡ s.command_board.asr_buffer)
        × ((propose K G s cmd).0.command_board.asr_notifiers ≡ s.command_board.asr_notifiers)
  unfolding propose announce await_er wait_for_er
  propose_waits s cmd b h = ground arith

  kept_board :
      (s : StateMachine K) (c : CurpClientCommand)
      → (slow_execute K s c).command_board ≡ s.command_board
  unfolding slow_execute
  kept_board s c = ground arith

  -- The call waits.
  abbrev asked : StateMachine K → CurpClientCommand → StateMachine K
  asked s cmd = record s {
    command_board = record s.command_board {
      asr_notifiers = register s.command_board.asr_notifiers (propose_id cmd);
    };
  }

  asked_lem :
      (s : StateMachine K) (cmd : CurpClientCommand)
      → lookup ProposeId-discrete (propose_id cmd) s.command_board.asr_buffer ≡ none
      → wait_synced K s (propose_id cmd) ≡ (asked s cmd, none)
  unfolding wait_synced wait_for_asr
  asked_lem s cmd early = ground arith

  -- The commit wakes it up, and it finds no result.
  resumes_empty :
      (s : StateMachine K) (cmd : CurpClientCommand)
      → lookup ProposeId-discrete (propose_id cmd) s.command_board.asr_notifiers ≡ some (some tt)
      → lookup ProposeId-discrete (propose_id cmd) s.command_board.er_buffer ≡ none
      → (u : StateMachine K) × (wait_synced_resumes K s (propose_id cmd)
          ≡ some (u, reply not_found Status.accepted))
  unfolding wait_synced_resumes receive_asr resume_asr
  resumes_empty s cmd told gone = (
    record s {
      command_board =
          forget
            (record s.command_board {
              asr_notifiers =
                  insert ProposeId-discrete (propose_id cmd) none s.command_board.asr_notifiers;
            })
            (propose_id cmd);
    },
    ground arith,
  )

  work_slow_lem :
      (s : StateMachine K) (cmd : CurpClientCommand)
      → HasRoom s.command_board.asr_notifiers (propose_id cmd)
      → (t : StateMachine K) × (work_slow K s cmd ≡ some t)
        × (t.command_board.er_buffer ≡ s.command_board.er_buffer)
        × (lookup ProposeId-discrete (propose_id cmd) s.command_board.asr_notifiers ≡ some none
            → lookup ProposeId-discrete (propose_id cmd) t.command_board.asr_notifiers
              ≡ some (some tt))
  unfolding work_slow slow_notify remove_record
  work_slow_lem s cmd room =
      let (d, e, _, er, _, _, own) = notify_asr-room s.command_board (propose_id cmd) room in
      (
        remove_record K (record (slow_execute K s cmd) { command_board = d }) cmd,
        ground (arith, kept_board s cmd),
        er,
        own,
      )

  -- A leader's `Propose` waits for its result; `WaitSynced` for the command comes, and the commit reaches the
  -- worker, before the worker has received the command from the fast path. Then `WaitSynced` waits, and is
  -- answered ACCEPTED with the text for a missing result, whatever the command would have read, if before
  -- neither a call of `WaitSynced` nor a commit of its id came.
  pub early_sync_not_found :
      (s : StateMachine K) (cmd : CurpClientCommand) (b : Bool)
      → (propose K G s cmd).1 ≡ waits b
      → lookup ProposeId-discrete (propose_id cmd) s.command_board.asr_buffer ≡ none
      → lookup ProposeId-discrete (propose_id cmd) s.command_board.asr_notifiers ≡ none
      → (t : StateMachine K) × (u : StateMachine K) × ((wait_synced K
            (propose K G s cmd).0
            (propose_id cmd)).1
          ≡ none)
        × (work_slow K (wait_synced K (propose K G s cmd).0 (propose_id cmd)).0 cmd ≡ some t)
        × (wait_synced_resumes K t (propose_id cmd) ≡ some (u, reply not_found Status.accepted))
  early_sync_not_found s cmd b w no_sync no_call =
      let p = (propose K G s cmd).0 in
      let (er, asr, ns) = propose_waits s cmd b w in
      let waits_too =
        asked_lem p cmd (ap (lookup ProposeId-discrete (propose_id cmd)) asr ∙ no_sync) in
      let (empty, _) =
        register-HasRoom p.command_board.asr_notifiers (propose_id cmd)
          (λ a k. cc (ap (lookup ProposeId-discrete (propose_id cmd)) ns)) in
      let (t, done, same, own) = work_slow_lem (asked p cmd) cmd (λ a k. cc) in
      let (u, answered) =
        resumes_empty t cmd (own empty)
          (ap (lookup ProposeId-discrete (propose_id cmd)) same ∙ er) in
      (t, u, ap (λ x. x.1) waits_too, ap (λ x. work_slow K x.0 cmd) waits_too ∙ done, answered)
