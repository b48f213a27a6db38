-- ===== src/Machine/Quiet.antt =====
-- Runs of the worker of curp/state.go on a board on which no call waits.
use curp.Command.{CurpClientCommand, ProposeId, ProposeId-discrete, propose_id}
use curp.Kv.{KvStore}
use curp.Board.{CommandBoard, insert_er, notify_asr}
use curp.Machine.{StateMachine, execute_sync}
use curp.Machine.Agreement.{Work, fast, slow, work, run}
use curp.Machine.Steps.{work_fast, work_slow, slow_execute, slow_notify, remove_record}
use curp.Prelude.{
  Option-cases, insert, String, ◌≡◌, refl, inl, inr, some, List, [], ◌∷◌, lookup, arith,
}

-- No call waits on the board, or has waited.
pub record IsQuiet (c : CommandBoard) : Type 0 where
  pub no_er : c.er_notifiers ≡ []
  pub no_asr : c.asr_notifiers ≡ []

insert_er-IsQuiet :
    (c : CommandBoard) (id : ProposeId) (r : String)
    → IsQuiet c
    → insert_er c id r ≡ some (record c { er_buffer = insert ProposeId-discrete id r c.er_buffer })
unfolding insert_er lookup
insert_er-IsQuiet c id r q = ground (arith, q.no_er)

notify_asr-IsQuiet :
    (c : CommandBoard) (id : ProposeId)
    → IsQuiet c
    → notify_asr c id
      ≡ some (record c { asr_buffer = insert ProposeId-discrete id tt c.asr_buffer })
unfolding notify_asr lookup
notify_asr-IsQuiet c id q = ground (arith, q.no_asr)

module _ (K : KvStore) where
  work_fast-IsQuiet :
      (s : StateMachine K) (c : CurpClientCommand)
      → IsQuiet s.command_board
      → (t : StateMachine K) × (work_fast K s c ≡ some t) × IsQuiet t.command_board
  unfolding work_fast
  work_fast-IsQuiet s c q =
      elim (Option-cases (lookup ProposeId-discrete (propose_id c) s.command_set)) [
        | inl fresh ↦ (
          record s {
            kv_store = (execute_sync K s.kv_store c).0;
            command_board = record s.command_board {
              er_buffer =
                  insert ProposeId-discrete (propose_id c) (execute_sync K s.kv_store c).1
                    s.command_board.er_buffer;
            };
            command_set = insert ProposeId-discrete (propose_id c) tt s.command_set;
          },
          ground (
            arith,
            insert_er-IsQuiet s.command_board (propose_id c) (execute_sync K s.kv_store c).1 q,
          ),
          record { no_er = q.no_er; no_asr = q.no_asr },
        )
        | inr (u, old) ↦ (s, ground arith, q)
      ]

  board_kept :
      (s : StateMachine K) (c : CurpClientCommand)
      → (slow_execute K s c).command_board ≡ s.command_board
  unfolding slow_execute
  board_kept s c = ground arith

  work_slow-IsQuiet :
      (s : StateMachine K) (c : CurpClientCommand)
      → IsQuiet s.command_board
      → (t : StateMachine K) × (work_slow K s c ≡ some t) × IsQuiet t.command_board
  unfolding work_slow slow_notify remove_record
  work_slow-IsQuiet s c q = (
    remove_record K
        (record (slow_execute K s c) {
          command_board = record s.command_board {
            asr_buffer = insert ProposeId-discrete (propose_id c) tt s.command_board.asr_buffer;
          };
        })
        c,
    ground (arith, board_kept s c, notify_asr-IsQuiet s.command_board (propose_id c) q),
    record { no_er = q.no_er; no_asr = q.no_asr },
  )

  work-IsQuiet :
      (s : StateMachine K) (w : Work)
      → IsQuiet s.command_board
      → (t : StateMachine K) × (work K s w ≡ some t) × IsQuiet t.command_board
  unfolding work
  work-IsQuiet s (fast c) q = work_fast-IsQuiet s c q
  work-IsQuiet s (slow c) q = work_slow-IsQuiet s c q

  -- From a state in whose board no call has waited, the worker gets through every sequence of commands
  -- from the two paths, however often each comes, and the board stays so.
  pub run-IsQuiet :
      (ws : List Work) (s : StateMachine K)
      → IsQuiet s.command_board
      → (t : StateMachine K) × (run K s ws ≡ some t) × IsQuiet t.command_board
  unfolding run
  run-IsQuiet [] s q = (s, refl, q)
  run-IsQuiet (w ∷ ws) s q =
      let (u, went, quiet) = work-IsQuiet s w q in
      let (t, done, end) = run-IsQuiet ws u quiet in (t, ground arith, end)
