-- ===== src/Tests/Samples.antt =====
-- Commands, stores and states for the runs.
use curp.Command.{CurpClientCommand, CurpReply, ProposeId, reply, propose_id}
use curp.Command.Op
use curp.Command.Status
use curp.Kv.Mem.{new_mem_store}
use curp.Kv.Mem.Interface.{mem_kv}
use curp.Machine.{StateMachine, leader}
use curp.Machine.Commits.{initial}
use curp.Machine.Steps.{Gob}
use mathlib.Core.Bool.{decide}
use curp.Prelude.{none, ◌≡◌, false}

abbrev pub put_x : CurpClientCommand
put_x = record { op = Op.put; client_id = 1; seq_id = 1; key = "x"; value = "1" }

abbrev pub put_x_again : CurpClientCommand
put_x_again = record { op = Op.put; client_id = 1; seq_id = 2; key = "x"; value = "2" }

abbrev pub put_y : CurpClientCommand
put_y = record { op = Op.put; client_id = 2; seq_id = 1; key = "y"; value = "3" }

abbrev pub get_x : CurpClientCommand
get_x = record { op = Op.get; client_id = 3; seq_id = 1; key = "x"; value = "" }

abbrev pub get_x_again : CurpClientCommand
get_x_again = record { op = Op.get; client_id = 3; seq_id = 2; key = "x"; value = "" }

abbrev pub id_x : ProposeId
id_x = propose_id put_x

abbrev pub follower_state : StateMachine mem_kv
follower_state = initial mem_kv new_mem_store

abbrev pub leader_state : StateMachine mem_kv
leader_state = record follower_state { raft_state = leader }

-- A codec for the runs, which decode nothing.
abbrev pub no_gob : Gob
no_gob = record { encode = λ c. c.key; decode = λ text. none }

abbrev pub ok_reply : CurpReply
ok_reply = reply "1" Status.accepted

-- A test that comes out false, as a proof.
pub refuted {ℓ} : {P : Type ℓ} (d : Dec P) → decide d ≡ false → ¬ P
unfolding decide
refuted (yes p) e = cc
refuted (no n) e = n
