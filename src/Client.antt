-- ===== src/Client.antt =====
-- curp/client_grpc.go: a client that proposes its commands to every server. What the servers and the
-- clock do is a list of events, in the order in which the `select` of `fastRound` receives them. A
-- reply is none where the call failed: the source drops the error and keeps the nil pointer.
pub mod Dials
pub mod Durable
pub mod Finishes
pub mod Ids
pub mod Mock
pub mod Prompt
pub mod Quorum
pub mod Replies
pub mod Static
pub mod ThreeServers
use curp.Command.{CurpClientCommand, CurpReply, ProposeId, reply}
use curp.Command.Op
use curp.Command.Status
use curp.Prelude.{
  if◌then◌else◌, ◌==◌, length, get_elem?, set, replicate, delete, ℕ, ◌+◌, ◌-◌, ◌/◌, ◌%◌, ◌^◌,
  String, Bool, Option, none, some, List, [], ◌∷◌,
}

pub record GrpcClient : Type 0 where
  pub servers : ℕ
  pub client_id : ℕ
  pub seq_id : ℕ
  pub f : ℕ
  pub leader_id : ℕ
  pub fast : ℕ
  pub slow : ℕ

-- The loop of `fetchLeader`, over what each server answers to `IsLeader`; none is -1.
unfoldable pub fetch_leader_from : ℕ → Option ℕ → List Bool → Option ℕ
fetch_leader_from idx leader_id [] = leader_id
fetch_leader_from idx leader_id (is_leader ∷ answers) =
    fetch_leader_from (idx + 1) (if is_leader then some idx else leader_id) answers

unfoldable pub fetch_leader : List Bool → Option ℕ
unfolding fetch_leader_from
fetch_leader answers = fetch_leader_from 0 none answers

-- `NewGrpcClient` where each server answers to `IsLeader`, as given. None is the error "no leader".
unfoldable pub new_grpc_client : ℕ → List Bool → Option GrpcClient
unfolding fetch_leader
new_grpc_client client_id answers = elim (fetch_leader answers) [
  | none ↦ none
  | some leader ↦ some (record {
    servers = length answers;
    client_id = client_id;
    seq_id = 0;
    f = (length answers - 1) / 2;
    leader_id = leader;
    fast = 0;
    slow = 0;
  })
]

-- What a client meets at a server: `grpc.NewClient` fails, the call of `IsLeader` fails, or it is answered.
pub data Dialled : Type 0 where
  no_connection : Dialled
  no_reply : Dialled
  leads : Bool → Dialled

-- The answers of all servers; none where one of the first two failures ends the process.
unfoldable pub answers_of : List Dialled → Option (List Bool)
answers_of [] = some []
answers_of (no_connection ∷ servers) = none
answers_of (no_reply ∷ servers) = none
answers_of (leads b ∷ servers) = elim (answers_of servers) [ none ↦ none | some bs ↦ some (b ∷ bs) ]

pub data Dialling : Type 0 where
  ends_process : Dialling
  no_leader : Dialling
  made : GrpcClient → Dialling

-- `NewGrpcClient`, with both calls of `log.Fatalf`.
unfoldable pub dial_grpc_client : ℕ → List Dialled → Dialling
unfolding answers_of
dial_grpc_client client_id servers = elim (answers_of servers) [
  | none ↦ ends_process
  | some answers ↦ elim (new_grpc_client client_id answers) [ none ↦ no_leader | some c ↦ made c ]
]

-- `GetProposeId`: the sequence number is a uint64, and is counted up before it is used.
unfoldable pub get_propose_id : GrpcClient → GrpcClient × ProposeId
get_propose_id c =
    let new_seq_id = (c.seq_id + 1) % 2 ^ 64 in
    (record c { seq_id = new_seq_id }, record { client_id = c.client_id; seq_id = new_seq_id })

-- `c.f + int(math.Ceil(float64(c.f)/2)) + 1`: a float64 holds the half of an `f` below 2^53 exactly.
unfoldable pub super_quorom : ℕ → ℕ
super_quorom f = f + (f + 1) / 2 + 1

pub data Event : Type 0 where
  replied : (peer_id : ℕ) → Option CurpReply → Event
  timed_out : Event

-- How `fastRound` ends. A returned reply is none where it is the nil pointer; `unfinished` means that
-- the events ended first.
pub data Round : Type 0 where
  returned : Option CurpReply → Round
  timeout : Round
  panicked : Round
  unfinished : Round

-- `results[leaderId]`
abbrev pub at_leader : Option (Option CurpReply) → Round
at_leader none = panicked
at_leader (some result) = returned result

-- The loop of `fastRound`.
unfoldable pub collect : GrpcClient → ℕ → List (Option CurpReply) → List Event → Round
collect c accepted_count results [] = unfinished
collect c accepted_count results (timed_out ∷ events) = timeout
collect c accepted_count results (replied peer_id none ∷ events) = panicked
collect c accepted_count results (replied peer_id (some result) ∷ events) =
    let results' = set results peer_id (some result) in
    let rest = collect c (accepted_count + 1) results' events in
    if result.status_code == Status.accepted
    then (if accepted_count + 1 == super_quorom c.f
        then at_leader (get_elem? results' c.leader_id)
        else rest)
    else returned (some result)

unfoldable pub fast_round : GrpcClient → List Event → Round
fast_round c events = collect c 0 (replicate c.servers none) events

-- What a call of the client returns.
pub data Answer : Type 0 where
  content : String → Answer
  error : String → Answer
  panic : Answer
  no_answer : Answer

-- How the call of `WaitSynced`, which has no deadline, ends at the leader: with a reply, with an error, which
-- the source drops with a nil pointer left, or never.
pub data SyncEnd : Type 0 where
  sync_replied : CurpReply → SyncEnd
  sync_failed : SyncEnd
  never_returns : SyncEnd

-- `slowRound`.
unfoldable pub slow_round : SyncEnd → Answer
slow_round never_returns = no_answer
slow_round sync_failed = panic
slow_round (sync_replied r) =
    if r.status_code == Status.conflict
    then error "command is still conflict after wait synced"
    else content r.content

-- The rest of `Propose` after the fast round; the last argument is how the leader's `WaitSynced` ends.
after_round : GrpcClient → Round → SyncEnd → GrpcClient × Answer
after_round c (returned (some r)) synced =
    if r.status_code == Status.accepted
    then (record c { fast = c.fast + 1 }, content r.content)
    else (record c { slow = c.slow + 1 }, slow_round synced)
after_round c (returned none) synced = (c, panic)
after_round c timeout synced = (c, error "fast path time out")
after_round c panicked synced = (c, panic)
after_round c unfinished synced = (c, no_answer)

unfoldable pub propose : GrpcClient → List Event → SyncEnd → GrpcClient × Answer
unfolding fast_round after_round
propose c events synced = after_round c (fast_round c events) synced

-- The command that `Put`, `Get` and `Del` propose, and the client that has counted it.
command : GrpcClient → ℕ → String → String → GrpcClient × CurpClientCommand
command c op key value =
    let (c', id) = get_propose_id c in
    (c', record { op = op; client_id = id.client_id; seq_id = id.seq_id; key = key; value = value })

unfoldable pub put : GrpcClient → String → String → GrpcClient × CurpClientCommand
unfolding command
put c key value = command c Op.put key value

unfoldable pub get : GrpcClient → String → GrpcClient × CurpClientCommand
unfolding command
get c key = command c Op.get key ""

unfoldable pub del : GrpcClient → String → GrpcClient × CurpClientCommand
unfolding command
del c key = command c Op.delete key ""
