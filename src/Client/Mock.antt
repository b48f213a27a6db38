-- ===== src/Client/Mock.antt =====
-- `MockClient` of curp/client.go: the client that calls state machines in its own process. A call
-- gives a reply that is never nil. `fastRound` differs from that of curp/client_grpc.go: it keeps one
-- result.
pub mod Calls
use curp.Command.{CurpReply, reply}
use curp.Command.Status
use curp.Client.{super_quorom, Answer, content, error, no_answer}
use curp.Prelude.{if◌then◌else◌, ◌==◌, String_discrete, ℕ, ◌+◌, ◌≡◌, ◌≢◌, ite, List, [], ◌∷◌, arith}

pub data MockEvent : Type 0 where
  replied : CurpReply → MockEvent
  timed_out : MockEvent

-- A reply, a reply beside the error of the time out, or no end within the events.
pub data MockRound : Type 0 where
  returned : CurpReply → MockRound
  timeout : CurpReply → MockRound
  unfinished : MockRound

-- `if result.Content != "" { result = fastResult }`
abbrev keep : CurpReply → CurpReply → CurpReply
keep result fast_result = ite (String_discrete result.content "") result fast_result

-- The loop of `fastRound`.
mock_collect : ℕ → ℕ → CurpReply → List MockEvent → MockRound
mock_collect f accepted_count result [] = unfinished
mock_collect f accepted_count result (timed_out ∷ events) = timeout result
mock_collect f accepted_count result (replied fast_result ∷ events) =
    let result' = keep result fast_result in
    let rest = mock_collect f (accepted_count + 1) result' events in
    if fast_result.status_code == Status.accepted
    then (if accepted_count + 1 == super_quorom f then returned result' else rest)
    else returned fast_result

unfoldable pub mock_fast_round : ℕ → List MockEvent → MockRound
unfolding mock_collect
mock_fast_round f events = mock_collect f 0 (reply "" Status.timeout) events

-- `slowRound`, with the leader's reply to `WaitSynced`.
pub mock_slow_round : CurpReply → Answer
mock_slow_round r =
    if r.status_code == Status.conflict
    then error "command is still conflict after wait synced"
    else content r.content

after_mock_round : MockRound → CurpReply → Answer
after_mock_round (returned r) synced =
    if r.status_code == Status.accepted then content r.content else mock_slow_round synced
after_mock_round (timeout r) synced = error "fast path time out"
after_mock_round unfinished synced = no_answer

unfoldable pub mock_propose : ℕ → List MockEvent → CurpReply → Answer
unfolding mock_fast_round mock_slow_round after_mock_round
mock_propose f events synced = after_mock_round (mock_fast_round f events) synced

mock_collect-returned :
    (f n : ℕ) (events : List MockEvent) {r : CurpReply}
    → mock_collect f n (reply "" Status.timeout) events ≡ returned r
    → r.status_code ≢ Status.accepted
unfolding mock_collect
mock_collect-returned f n [] h = cc
mock_collect-returned f n (timed_out ∷ events) h = cc
mock_collect-returned f n (replied s ∷ events) {r} h =
    ground (arith, mock_collect-returned f (n + 1) events {r = r})

-- Every proposal of `MockClient` whose fast round ends with a reply takes the slow path, whatever the
-- servers reply: its answer is made from the leader's reply to `WaitSynced` alone.
pub mock_propose-slow :
    (f : ℕ) (events : List MockEvent) (synced : CurpReply) {r : CurpReply}
    → mock_fast_round f events ≡ returned r
    → mock_propose f events synced ≡ mock_slow_round synced
unfolding mock_propose
mock_propose-slow f events synced {r} h = ground (arith, mock_collect-returned f 0 events {r = r})
