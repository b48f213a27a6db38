-- ===== src/Board/Delivery.antt =====
-- The two orders in which a result and the call that waits for it can meet on the board of
-- curp/command/cmd_board.go, for one id with no other call in between.
use curp.Command.{ProposeId, ProposeId-discrete}
use curp.Board.{
  CommandBoard, insert_er, notify_asr, wait_for_er, receive_er, forget, wait_for_asr, receive_asr,
  resume_asr,
}
use curp.Prelude.{insert, lookup-insert, String, ◌≡◌, none, some, lookup, arith}

-- A call of `WaitForEr` that came first and waits receives the result, and the wait leaves the
-- channel empty for the next one.
pub receive_er-insert_er :
    (c : CommandBoard) (id : ProposeId) (r : String) {d : CommandBoard}
    → (wait_for_er c id).1 ≡ none
    → insert_er (wait_for_er c id).0 id r ≡ some d
    → (e : CommandBoard) × (receive_er d id ≡ some (r, e))
      × (lookup ProposeId-discrete id e.er_notifiers ≡ some none)
unfolding insert_er wait_for_er receive_er
receive_er-insert_er c id r {d} w h = (
  record d { er_notifiers = insert ProposeId-discrete id none d.er_notifiers },
  ground (
    arith,
    lookup-insert ProposeId-discrete id id none c.er_notifiers,
    lookup-insert ProposeId-discrete id id (some r) (wait_for_er c id).0.er_notifiers,
  ),
  ground (arith, lookup-insert ProposeId-discrete id id none d.er_notifiers),
)

-- Once a command is executed and then synced, `WaitForAsr` returns its result at once and forgets
-- both, whatever the board held before.
pub wait_for_asr-notify_asr :
    (c : CommandBoard) (id : ProposeId) (r : String) {d e : CommandBoard}
    → insert_er c id r ≡ some d
    → notify_asr d id ≡ some e
    → wait_for_asr e id ≡ (forget e id, some r)
unfolding insert_er notify_asr wait_for_asr
wait_for_asr-notify_asr c id r {d} {e} h k = ground (
  arith,
  lookup-insert ProposeId-discrete id id r c.er_buffer,
  lookup-insert ProposeId-discrete id id tt d.asr_buffer,
)

-- A call of `WaitForAsr` that came first and waits is woken by the sync and then returns the result
-- of the execution that came before the sync.
pub resume_asr-notify_asr :
    (c : CommandBoard) (id : ProposeId) (r : String) {d e : CommandBoard}
    → (wait_for_asr c id).1 ≡ none
    → insert_er (wait_for_asr c id).0 id r ≡ some d
    → notify_asr d id ≡ some e
    → (f : CommandBoard) × (receive_asr e id ≡ some f) × ((resume_asr f id).1 ≡ r)
unfolding insert_er notify_asr wait_for_asr receive_asr resume_asr
resume_asr-notify_asr c id r {d} {e} w h k = (
  record e { asr_notifiers = insert ProposeId-discrete id none e.asr_notifiers },
  ground (
    arith,
    lookup-insert ProposeId-discrete id id none c.asr_notifiers,
    lookup-insert ProposeId-discrete id id (some tt) d.asr_notifiers,
  ),
  ground (arith, lookup-insert ProposeId-discrete id id r c.er_buffer),
)
