-- ===== src/Cluster.antt =====
-- Servers and a client that calls them: `Propose` of curp/client_grpc.go over the `Propose` of each
-- server's curp/state.go, and the commits that follow.
pub mod AnyOrder
pub mod Each
pub mod Late
pub mod Map
pub mod Replica
pub mod Rounds
pub mod Sequential
pub mod Serving
pub mod Started
use curp.Command.{CurpClientCommand, CurpReply}
use curp.Kv.{KvStore}
use curp.Machine.{StateMachine}
use curp.Machine.Steps.{Gob, replies, waits, panics, propose, propose_resumes, work_fast}
use curp.Machine.Commits.{runs, dies, no_snapshotter, read_commit}
use curp.Raft.Followers.{drain}
use curp.Client
use curp.Client.Prompt.{events_of}
use curp.Client.{SyncEnd, GrpcClient, Event, Answer, replied}
use curp.Prelude.{ℕ, String, Option, none, some, List, [], ◌∷◌, map}

-- What the caller of a client asks for.
pub data Request : Type 0 where
  puts : (key value : String) → Request
  gets : (key : String) → Request
  dels : (key : String) → Request

-- The command that `Put`, `Get` or `Del` proposes.
unfoldable pub request : GrpcClient → Request → GrpcClient × CurpClientCommand
request c (puts key value) = Client.put c key value
request c (gets key) = Client.get c key
request c (dels key) = Client.del c key

-- A step of every element; none if one of them fails.
unfoldable pub each : {A B : Type 0} → (A → Option B) → List A → Option (List B)
each f [] = some []
each f (x ∷ xs) = elim (f x) [
  | none ↦ none
  | some y ↦ elim (each f xs) [ none ↦ none | some ys ↦ some (y ∷ ys) ]
]

-- One request, the order in which the replies come, and how `WaitSynced` at the leader would end.
pub record Round : Type 0 where
  pub asked : Request
  pub order : List ℕ
  pub synced : SyncEnd

pub record Cluster (K : KvStore) : Type 0 where
  pub client : GrpcClient
  pub replicas : List (StateMachine K)

module _ (K : KvStore) (G : Gob) where
  -- A server's reply to `Propose`: where the call waits, the worker receives the command from the fast
  -- path next, with no commit in between, and the call wakes up. None: it panics, or its wait does not end.
  unfoldable pub call : StateMachine K → CurpClientCommand → Option (StateMachine K × CurpReply)
  call s cmd =
      let (proposed, outcome) = propose K G s cmd in
      elim outcome [
        | replies r ↦ some (proposed, r)
        | panics ↦ none
        | waits b ↦ elim (work_fast K (record proposed { fast_path = s.fast_path }) cmd) [
          | none ↦ none
          | some worked ↦ propose_resumes K G worked cmd b
        ]
      ]

  -- The commit of a command: the reader of commits decodes its text, and the worker gets through the
  -- slow path.
  unfoldable pub commit : StateMachine K → CurpClientCommand → Option (StateMachine K)
  commit s cmd = elim (read_commit K G s (some (G.encode cmd ∷ [])) no_snapshotter) [
    | dies _ ↦ none
    | runs read ↦ drain K read
  ]

  -- One request: the proposal to every server, the client's answer, and the commit at every server.
  unfoldable pub round : Cluster K → Round → Option (Cluster K × Answer)
  round c r =
      let (counted, cmd) = request c.client r.asked in
      elim (each (λ s. call s cmd) c.replicas) [
        | none ↦ none
        | some called ↦
            let (client, answer) =
              Client.propose counted (events_of (map (λ x. x.1) called) r.order) r.synced in
            elim (each (λ s. commit s cmd) (map (λ x. x.0) called)) [
              | none ↦ none
              | some replicas ↦ some (record { client = client; replicas = replicas }, answer)
            ]
      ]

  -- Requests one after the other, with their answers.
  unfoldable pub session : Cluster K → List Round → Option (Cluster K × List Answer)
  session c [] = some (c, [])
  session c (r ∷ rs) = elim (round c r) [
    | none ↦ none
    | some (next, answer) ↦ elim (session next rs) [
      | none ↦ none
      | some (last, answers) ↦ some (last, answer ∷ answers)
    ]
  ]
