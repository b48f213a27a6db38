-- ===== src/Client/Finishes.antt =====
-- How long the fast round of curp/client_grpc.go may wait.
use curp.Client.{
  SyncEnd, sync_replied, sync_failed, never_returns, GrpcClient, super_quorom, Event, replied,
  timed_out, Round, returned, timeout, panicked, unfinished, collect, fast_round, no_answer,
  slow_round, after_round, propose,
}
use curp.Command.{CurpReply}
use curp.Prelude.{
  set, replicate, refl, ℕ, suc, ◌+◌, ◌≤◌, ◌<◌, ◌≢◌, Option, none, some, List, [], ◌∷◌, arith,
}

-- The events that are replies, failed calls included.
abbrev pub replies_in : List Event → ℕ
replies_in [] = 0
replies_in (replied _ _ ∷ events) = suc (replies_in events)
replies_in (timed_out ∷ events) = replies_in events

collect-finishes :
    (c : GrpcClient) (n : ℕ) (results : List (Option CurpReply)) (events : List Event)
    → n < super_quorom c.f
    → super_quorom c.f ≤ n + replies_in events
    → collect c n results events ≢ unfinished
unfolding collect
collect-finishes c n results [] h k e = omega arith
collect-finishes c n results (timed_out ∷ events) h k e = cc
collect-finishes c n results (replied peer none ∷ events) h k e = cc
collect-finishes c n results (replied peer (some r) ∷ events) h k e =
    ground (arith, collect-finishes c (n + 1) (set results peer (some r)) events)

-- Once a super quorum of servers has replied, in whatever order and with whatever replies, the fast
-- round is over, with a time-out or without.
pub fast_round-finishes :
    (c : GrpcClient) (events : List Event)
    → super_quorom c.f ≤ replies_in events
    → fast_round c events ≢ unfinished
unfolding fast_round super_quorom
fast_round-finishes c events h =
    collect-finishes c 0 (replicate c.servers none) events (ground arith) (ground arith)

slow_round-answers : (synced : SyncEnd) → synced ≢ never_returns → slow_round synced ≢ no_answer
unfolding slow_round
slow_round-answers never_returns h e = h refl
slow_round-answers sync_failed h e = cc
slow_round-answers (sync_replied r) h e = ground arith

after_round-answers :
    (c : GrpcClient) (r : Round) (synced : SyncEnd)
    → r ≢ unfinished
    → synced ≢ never_returns
    → (after_round c r synced).1 ≢ no_answer
unfolding after_round
after_round-answers c (returned (some r)) synced h k e = ground (arith, slow_round-answers synced k)
after_round-answers c (returned none) synced h k e = cc
after_round-answers c timeout synced h k e = cc
after_round-answers c panicked synced h k e = cc
after_round-answers c unfinished synced h k e = h refl

pub propose-answers :
    (c : GrpcClient) (events : List Event) (synced : SyncEnd)
    → super_quorom c.f ≤ replies_in events
    → synced ≢ never_returns
    → (propose c events synced).1 ≢ no_answer
unfolding propose
propose-answers c events synced h k =
    after_round-answers c (fast_round c events) synced (fast_round-finishes c events h) k
