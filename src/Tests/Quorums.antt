-- ===== src/Tests/Quorums.antt =====
-- An accepted fast round of three servers, and what it leaves in their witnesses.
use curp.Command.{conflict, ProposeId-discrete}
use curp.Command.Op
use curp.Kv.Mem.Interface.{mem_kv}
use curp.Board.{wait_for_er}
use curp.Witness.{any_conflict, insert_if_not_conflict}
use curp.Machine.{StateMachine}
use curp.Machine.Steps.{propose}
use curp.Client.{super_quorom, collect, fast_round}
use curp.Client.Durable.{count, recorded, FromServers, fast_round-recoverable}
use curp.Tests.Clients.{client_of_3, all_accept}
use curp.Tests.Samples.{put_x, follower_state, leader_state, no_gob}
use curp.Prelude.{
  if◌then◌else◌, ltb, ◌==◌, String_discrete, insert, ℕ, ◌*◌, ◌<◌, refl, inl, inr, Bool, false, ◌&&◌,
  lookup, arith,
}

program : Unit {0}
unfolding any_conflict lookup insert String_discrete ProposeId-discrete conflict wait_for_er
    insert_if_not_conflict propose super_quorom collect fast_round count recorded Op.format
program = tt

-- The first of the three is the leader, and fails later.
abbrev servers : ℕ → StateMachine mem_kv
servers p = if p == 0 then leader_state else follower_state

abbrev followers : ℕ → Bool
followers p = ltb 0 p

from_servers : FromServers mem_kv no_gob servers put_x all_accept
unfolding program
from_servers = (inl refl, (inr (false, refl, refl), (inl refl, tt)))

fast_round-recoverable_example :
    2
    < 2
      * count 3
          (λ p. followers p && recorded (propose mem_kv no_gob (servers p) put_x).0.witness put_x)
unfolding program
fast_round-recoverable_example =
    fast_round-recoverable mem_kv no_gob client_of_3 servers put_x all_accept followers refl refl
      refl (tt, (((λ h. omega arith), tt), (((λ h. omega arith), ((λ h. omega arith), tt)), tt)))
      (omega arith, (omega arith, (omega arith, tt))) from_servers refl
