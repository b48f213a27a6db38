-- ===== src/Cluster/Late.antt =====
-- A cluster in which the commits come later, at each server in its own time: the client of
-- curp/client_grpc.go sends its next request while servers have earlier commands still to execute.
pub mod Asking
pub mod Calls
pub mod Commits
pub mod Linear
pub mod Server
pub mod Started
pub mod Steps
pub mod Syncs
pub mod Waits
use curp.Command.{CurpClientCommand, CurpReply, ProposeId, propose_id}
use curp.Kv.{KvStore}
use curp.Machine.{StateMachine}
use curp.Machine.Steps.{Gob, wait_synced, wait_synced_resumes}
use curp.Client
use curp.Client.{sync_replied, sync_failed, GrpcClient, Answer, Event}
use curp.Client.Prompt.{events_of}
use curp.Cluster.{Request, request, each, call, commit}
use curp.Prelude.{
  if◌then◌else◌, ◌==◌, get_elem?, set, ℕ, Bool, true, false, Option, none, some, List, [], ◌∷◌,
  ◌++◌, map,
}

-- A server, with the commands of the log that raft has not yet handed to it.
pub record Member (K : KvStore) : Type 0 where
  pub machine : StateMachine K
  pub waiting : List CurpClientCommand

-- The log has the commands in the order of the requests.
pub record Late (K : KvStore) : Type 0 where
  pub client : GrpcClient
  pub members : List (Member K)

-- A request, with the order in which the replies come, and whether a call of `WaitSynced` comes before the
-- leader gets the commits of its outstanding commands; or one server gets its next command from the log.
pub data Happens : Type 0 where
  asks : Request → (order : List ℕ) → (early : Bool) → Happens
  commits : (server : ℕ) → Happens

module _ (K : KvStore) (G : Gob) where
  unfoldable pub member_call : CurpClientCommand → Member K → Option (Member K × CurpReply)
  member_call cmd m = elim (call K G m.machine cmd) [
    | none ↦ none
    | some (t, r) ↦ some (record { machine = t; waiting = m.waiting ++ cmd ∷ [] }, r)
  ]

  unfoldable pub member_commit : Member K → Option (Member K)
  member_commit m = elim m.waiting [
    | [] ↦ some m
    | c ∷ rest ↦ elim (commit K G m.machine c) [
      | none ↦ none
      | some t ↦ some (record { machine = t; waiting = rest })
    ]
  ]

  -- The commits of all commands that wait.
  unfoldable pub commit_all : StateMachine K → List CurpClientCommand → Option (StateMachine K)
  commit_all s [] = some s
  commit_all s (c ∷ cs) = elim (commit K G s c) [ none ↦ none | some t ↦ commit_all t cs ]

  -- `WaitSynced` at a server that gets the commits of everything outstanding: before the call, or, when the
  -- call is early and does not answer at once, while it waits. None: it does not return.
  unfoldable pub member_sync : ProposeId → Bool → Member K → Option (Member K × CurpReply)
  member_sync id true m = elim (wait_synced K m.machine id).1 [
    | some r ↦ some (record m { machine = (wait_synced K m.machine id).0 }, r)
    | none ↦ elim (commit_all (wait_synced K m.machine id).0 m.waiting) [
      | none ↦ none
      | some t ↦ elim (wait_synced_resumes K t id) [
        | none ↦ none
        | some (u, r) ↦ some (record { machine = u; waiting = [] }, r)
      ]
    ]
  ]
  member_sync id false m = elim (commit_all m.machine m.waiting) [
    | none ↦ none
    | some t ↦ elim (wait_synced K t id).1 [
      | none ↦ none
      | some r ↦ some (record { machine = (wait_synced K t id).0; waiting = [] }, r)
    ]
  ]

  unfoldable pub sync_at :
      ProposeId → Bool → List (Member K) → ℕ → Option (List (Member K) × CurpReply)
  sync_at id early members i = elim (get_elem? members i) [
    | none ↦ none
    | some m ↦ elim (member_sync id early m) [
      | none ↦ none
      | some (synced, r) ↦ some (set members i synced, r)
    ]
  ]

  -- `Propose` of the client, after the calls of the servers: if it takes the slow path, which its counter
  -- tells, it calls `WaitSynced` at the leader.
  unfoldable pub ask :
      GrpcClient → ProposeId → Bool → List Event → List (Member K) → Option (Late K × Answer)
  ask counted id early events members =
      let (client, answer) = Client.propose counted events sync_failed in
      if client.slow == counted.slow
      then some (record { client = client; members = members }, answer)
      else (elim (sync_at id early members counted.leader_id) [
        | none ↦ none
        | some (synced, r) ↦
            let (after, slow_answer) = Client.propose counted events (sync_replied r) in
            some (record { client = after; members = synced }, slow_answer)
      ])

  -- The cluster after an event, with the answer to a request.
  unfoldable pub step : Late K → Happens → Option (Late K × Option Answer)
  step c (asks r order early) =
      let (counted, cmd) = request c.client r in
      elim (each (member_call cmd) c.members) [
        | none ↦ none
        | some called ↦
            elim (ask counted (propose_id cmd) early (events_of (map (λ y. y.1) called) order)
              (map (λ y. y.0) called)) [
                | none ↦ none
                | some (next, answer) ↦ some (next, some answer)
              ]
      ]
  step c (commits server) = elim (get_elem? c.members server) [
    | none ↦ some (c, none)
    | some m ↦ elim (member_commit m) [
      | none ↦ none
      | some n ↦ some (record c { members = set c.members server n }, none)
    ]
  ]

  -- The answers, in order.
  unfoldable pub run : Late K → List Happens → Option (Late K × List Answer)
  run c [] = some (c, [])
  run c (e ∷ es) = elim (step c e) [
    | none ↦ none
    | some (next, answer) ↦ elim (run next es) [
      | none ↦ none
      | some (last, answers) ↦ some (last, elim answer [ none ↦ answers | some a ↦ a ∷ answers ])
    ]
  ]
