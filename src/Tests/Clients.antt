-- ===== src/Tests/Clients.antt =====
-- The theorems on the clients of curp/client_grpc.go and curp/client.go at concrete replies.
use curp.Command.{CurpReply, reply}
use curp.Command.Status
use curp.Client.{
  sync_replied, GrpcClient, super_quorom, Event, replied, timed_out, returned, collect, fast_round,
  panic, content, propose,
}
use curp.Client.Quorum.{super_quorom_overlap, propose-without_leader, accepts}
use curp.Client.ThreeServers.{fast_round-ne-nil}
use curp.Client.Mock
use curp.Client.Mock.{mock_fast_round, mock_propose, mock_propose-slow}
use curp.Tests.Samples.{ok_reply}
use curp.Prelude.{
  String_discrete, ℕ, ◌+◌, ◌-◌, ◌*◌, ◌≤◌, ◌<◌, ◌≡◌, refl, ◌≢◌, ◌↔◌, none, some, List, [], ◌∷◌, ◌++◌,
  arith,
}

-- The definitions that a run computes with.
program : Unit {0}
unfolding super_quorom collect fast_round propose mock_fast_round mock_propose String_discrete
program = tt

-- A client of three servers, of which the first is the leader.
abbrev pub client_of_3 : GrpcClient
client_of_3 = record {
  servers = 3;
  client_id = 7;
  seq_id = 0;
  f = 1;
  leader_id = 0;
  fast = 0;
  slow = 0;
}

abbrev client_of_5 : GrpcClient
client_of_5 = record {
  servers = 5;
  client_id = 7;
  seq_id = 0;
  f = 2;
  leader_id = 0;
  fast = 0;
  slow = 0;
}

abbrev pub no_content : CurpReply
no_content = reply "" Status.accepted

-- All three servers accept, the leader second.
abbrev pub all_accept : List Event
all_accept =
    replied 2 (some no_content) ∷ replied 0 (some ok_reply) ∷ replied 1 (some no_content) ∷ []

fast_round-ne-nil_example : fast_round client_of_3 all_accept ≢ returned none
fast_round-ne-nil_example =
    fast_round-ne-nil client_of_3 all_accept refl refl
      (omega arith, (omega arith, (omega arith, tt)))
      (tt, (((λ h. omega arith), tt), (((λ h. omega arith), ((λ h. omega arith), tt)), tt)))

super_quorom_overlap_example : (super_quorom 2 ≤ 4) ↔ (2 + 1 < 2 * (4 + (2 + 1) - (2 * 2 + 1)))
super_quorom_overlap_example = super_quorom_overlap 2 4

-- The four servers that are not the leader.
abbrev four_others : List (ℕ × CurpReply)
four_others = (1, no_content) ∷ (2, no_content) ∷ (3, no_content) ∷ (4, no_content) ∷ []

propose-without_leader_example :
    (propose client_of_5 (accepts four_others ++ []) (sync_replied ok_reply)).1 ≡ panic
unfolding program
propose-without_leader_example =
    propose-without_leader client_of_5 four_others [] (sync_replied ok_reply) (omega arith)
      (refl, (refl, (refl, (refl, tt))))
      ((λ h. omega arith), ((λ h. omega arith), ((λ h. omega arith), ((λ h. omega arith), tt))))
      refl

mock_propose-slow_example :
    mock_propose 1
      (Mock.replied ok_reply ∷ Mock.replied ok_reply ∷ Mock.replied ok_reply ∷ [])
      (reply "2" Status.accepted)
    ≡ content "2"
unfolding program
mock_propose-slow_example =
    mock_propose-slow 1 (Mock.replied ok_reply ∷ Mock.replied ok_reply ∷ Mock.replied ok_reply ∷ [])
      (reply "2" Status.accepted) refl

-- The follower's call fails, and the timer runs out before the last reply.
abbrev late_leader : List Event
late_leader =
    replied 1 none ∷ replied 2 (some no_content) ∷ timed_out ∷ replied 0 (some ok_reply) ∷ []
