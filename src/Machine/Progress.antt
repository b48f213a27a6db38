-- ===== src/Machine/Progress.antt =====
-- Runs of the worker of curp/state.go on a board on which calls may wait.
use curp.Command.{CurpClientCommand, ProposeId-discrete, propose_id}
use curp.Kv.{KvStore}
use curp.Board.Channels.{Distinct, Rooms, SameBut, SameBut-Rooms}
use curp.Board.Free.{notify_asr-room}
use curp.Board.Room.{HasRoom, insert_er-room}
use curp.Machine.{StateMachine, execute_sync}
use curp.Machine.Agreement.{Work, fast, slow, fasts, slows, work, run}
use curp.Machine.Steps.{work_fast, work_slow, slow_execute, slow_notify, remove_record}
use curp.Prelude.{Option-cases, insert, ◌≡◌, refl, inl, inr, some, List, [], ◌∷◌, lookup, arith}

module _ (K : KvStore) where
  work_fast-HasRoom :
      (s : StateMachine K) (c : CurpClientCommand)
      → HasRoom s.command_board.er_notifiers (propose_id c)
      → (t : StateMachine K) × (work_fast K s c ≡ some t)
        × (t.command_board.asr_notifiers ≡ s.command_board.asr_notifiers)
        × SameBut (propose_id c) s.command_board.er_notifiers t.command_board.er_notifiers
  unfolding work_fast
  work_fast-HasRoom s c room =
      elim (Option-cases (lookup ProposeId-discrete (propose_id c) s.command_set)) [
        | inr (u, old) ↦ (s, ground arith, refl, λ j n. refl)
        | inl fresh ↦
            let (d, e, asr, others) =
              insert_er-room s.command_board (propose_id c) (execute_sync K s.kv_store c).1 room in
            (
              record s {
                kv_store = (execute_sync K s.kv_store c).0;
                command_board = d;
                command_set = insert ProposeId-discrete (propose_id c) tt s.command_set;
              },
              ground arith,
              asr,
              others,
            )
      ]

  board_kept :
      (s : StateMachine K) (c : CurpClientCommand)
      → (slow_execute K s c).command_board ≡ s.command_board
  unfolding slow_execute
  board_kept s c = ground arith

  work_slow-HasRoom :
      (s : StateMachine K) (c : CurpClientCommand)
      → HasRoom s.command_board.asr_notifiers (propose_id c)
      → (t : StateMachine K) × (work_slow K s c ≡ some t)
        × (t.command_board.er_notifiers ≡ s.command_board.er_notifiers)
        × SameBut (propose_id c) s.command_board.asr_notifiers t.command_board.asr_notifiers
  unfolding work_slow slow_notify remove_record
  work_slow-HasRoom s c room =
      let (d, e, er, _, _, others, _) = notify_asr-room s.command_board (propose_id c) room in
      (
        remove_record K (record (slow_execute K s c) { command_board = d }) c,
        ground (arith, board_kept s c),
        er,
        others,
      )

  -- If no channel of a command that comes by the fast path holds a result, none of a command that comes by the
  -- slow path a sync, and on each path no id comes twice, then the worker gets through the whole sequence from
  -- the two paths, whatever calls wait on the board; it never blocks in a send.
  pub run-Rooms :
      (ws : List Work) (s : StateMachine K)
      → Distinct (fasts ws)
      → Distinct (slows ws)
      → Rooms s.command_board.er_notifiers (fasts ws)
      → Rooms s.command_board.asr_notifiers (slows ws)
      → (t : StateMachine K) × (run K s ws ≡ some t)
  unfolding run work fasts slows
  run-Rooms [] s f g er asr = (s, refl)
  run-Rooms (fast c ∷ ws) s f g er asr =
      let (u, went, same, others) = work_fast-HasRoom s c er.0 in
      let (t, done) =
        run-Rooms ws u f.1 g
          (SameBut-Rooms (propose_id c) s.command_board.er_notifiers u.command_board.er_notifiers
            (fasts ws) others f.0 er.1)
          (rw same asr) in
      (t, ground arith)
  run-Rooms (slow c ∷ ws) s f g er asr =
      let (u, went, same, others) = work_slow-HasRoom s c asr.0 in
      let (t, done) = run-Rooms ws u f g.1 (rw same er) (
        SameBut-Rooms (propose_id c) s.command_board.asr_notifiers u.command_board.asr_notifiers
          (slows ws) others g.0 asr.1) in
      (t, ground arith)
