-- ===== src/Tests/Boards.antt =====
-- The theorems on the command board of curp/command/cmd_board.go at a command of the runs.
use curp.Command.{ProposeId, ProposeId-discrete}
use curp.Board.{
  CommandBoard, new_board, insert_er, notify_asr, wait_for_er, receive_er, wait_for_asr,
  receive_asr, resume_asr, forget, not_found,
}
use curp.Board.Answers.{inserts_er, waits_er, receives_er, answer, apply, run, answer-inserted}
use curp.Board.LostWakeups.{wait_for_asr_lost}
use curp.Tests.Samples.{id_x}
use curp.Prelude.{
  String_discrete, insert, delete, String, ◌≡◌, refl, ◌⊎◌, none, some, [], ◌∷◌, lookup,
}

-- The definitions that a run computes with.
program : Unit {0}
unfolding lookup insert delete String_discrete ProposeId-discrete insert_er notify_asr wait_for_er
    receive_er wait_for_asr receive_asr resume_asr forget run apply answer
program = tt

-- The board after an execution that a waiting `WaitForEr` has not received yet.
abbrev executed_board : CommandBoard
executed_board = record {
  er_notifiers = (id_x, some "1") ∷ [];
  asr_notifiers = [];
  er_buffer = (id_x, "1") ∷ [];
  asr_buffer = [];
}

-- The board on which a command is synced and not executed.
abbrev synced_board : CommandBoard
synced_board = record {
  er_notifiers = [];
  asr_notifiers = [];
  er_buffer = [];
  asr_buffer = (id_x, tt) ∷ [];
}

abbrev both_board : CommandBoard
both_board = record {
  er_notifiers = [];
  asr_notifiers = (id_x, none) ∷ [];
  er_buffer = (id_x, "1") ∷ [];
  asr_buffer = (id_x, tt) ∷ [];
}

wait_for_asr_lost_example :
    ((wait_for_asr synced_board id_x).1 ≡ none)
    × (lookup ProposeId-discrete id_x both_board.asr_buffer ≡ some tt)
    × (lookup ProposeId-discrete id_x both_board.er_buffer ≡ some "1")
    × (receive_asr both_board id_x ≡ none)
unfolding program
wait_for_asr_lost_example = wait_for_asr_lost new_board id_x "1" refl refl refl refl

-- What is inserted for this id.
abbrev IsOne : ProposeId → String → Type 0
IsOne id r = (id ≡ id_x) × (r ≡ "1")

answer-inserted_example : IsOne id_x "1" ⊎ ("1" ≡ not_found)
unfolding program
answer-inserted_example =
    answer-inserted IsOne (waits_er id_x ∷ inserts_er id_x "1" ∷ []) (tt, ((refl, refl), tt)) refl
      (receives_er id_x) "1" refl
