-- ===== src/Board/LostWakeups.antt =====
-- Orders of calls on the board of curp/command/cmd_board.go in which a sync comes before an execution,
-- or is not received.
use curp.Command.{ProposeId, ProposeId-discrete}
use curp.Board.{
  CommandBoard, insert_er, notify_asr, wait_for_asr, receive_asr, resume_asr, not_found,
}
use curp.Prelude.{insert, lookup-insert, String, ◌≡◌, ◌≢◌, none, some, lookup, arith}

-- If a command is synced before it is executed, and its client calls `WaitForAsr` between the two,
-- the call waits, and the execution does not wake it, although the board then holds both.
pub wait_for_asr_lost :
    (c : CommandBoard) (id : ProposeId) (r : String) {d e : CommandBoard}
    → lookup ProposeId-discrete id c.asr_notifiers ≡ none
    → lookup ProposeId-discrete id c.er_buffer ≡ none
    → notify_asr c id ≡ some d
    → insert_er (wait_for_asr d id).0 id r ≡ some e
    → ((wait_for_asr d id).1 ≡ none)
      × (lookup ProposeId-discrete id e.asr_buffer ≡ some tt)
      × (lookup ProposeId-discrete id e.er_buffer ≡ some r)
      × (receive_asr e id ≡ none)
unfolding notify_asr wait_for_asr insert_er receive_asr
wait_for_asr_lost c id r {d} {e} n b h k = ground (
  arith,
  lookup-insert ProposeId-discrete id id tt c.asr_buffer,
  lookup-insert ProposeId-discrete id id r d.er_buffer,
  lookup-insert ProposeId-discrete id id none d.asr_notifiers,
)

-- If a command is synced while its client waits in `WaitForAsr`, and it has no result on the board,
-- the call wakes up and returns the text that the source marks as unreachable.
pub resume_asr-not_found :
    (c : CommandBoard) (id : ProposeId) {d : CommandBoard}
    → lookup ProposeId-discrete id c.er_buffer ≡ none
    → notify_asr (wait_for_asr c id).0 id ≡ some d
    → (e : CommandBoard) × (receive_asr d id ≡ some e) × ((resume_asr e id).1 ≡ not_found)
unfolding notify_asr wait_for_asr receive_asr resume_asr
resume_asr-not_found c id {d} b h = (
  record d { asr_notifiers = insert ProposeId-discrete id none d.asr_notifiers },
  ground (
    arith,
    lookup-insert ProposeId-discrete id id none c.asr_notifiers,
    lookup-insert ProposeId-discrete id id (some tt) (wait_for_asr c id).0.asr_notifiers,
  ),
  ground arith,
)

-- Once a call of `WaitForAsr` has made a channel for an id, a sync that no call receives fills it for
-- good: the next sync of the id blocks with the board's lock held.
pub notify_asr_blocks :
    (c : CommandBoard) (id : ProposeId) {d : CommandBoard}
    → lookup ProposeId-discrete id c.asr_notifiers ≢ none
    → notify_asr c id ≡ some d
    → notify_asr d id ≡ none
unfolding notify_asr
notify_asr_blocks c id n h =
    ground (arith, lookup-insert ProposeId-discrete id id (some tt) c.asr_notifiers)
