-- ===== src/Server/Peer.antt =====
-- curp/server.go and curp_server/main.go: how the peers of a cluster start, and how one of them is closed.
-- The files and what `os.RemoveAll` makes of them are arguments.

pub mod Closing
pub mod Cluster
use curp.Kv.{GoError, KvStore}
use curp.Machine.{StateMachine}
use curp.Machine.Commits.{Snapshotter, Started, runs, dies, new_state}
use curp.Raft.{RaftLib, CurpNode}
use curp.Raft.Start.{DiskLib, NodeStart, start_raft, new_raft_node}
use curp.Prelude.{
  Bool, if◌then◌else◌, ◌==◌, length, ℕ, ◌+◌, String, false, Option, none, some, List, [], ◌∷◌, ◌++◌,
}

-- The part of `peerInfo` that says which node it is; the rest is the channels and the state.
pub record PeerInfo : Type 0 where
  pub peers : List String
  pub grpcservers : String
  pub id : ℕ

-- A node with its state machine, as `RunStateMachine` leaves them.
pub record Peer (R : RaftLib) (K : KvStore) : Type 0 where
  pub info : PeerInfo
  pub node : CurpNode R
  pub state : StateMachine K

module _ (R : RaftLib) (D : DiskLib R) (K : KvStore) where
  -- `RunStateMachine`, which waits for the snapshotter of the node. The raft node that etcd makes of what was
  -- replayed is an argument, and so are the store and what the snapshotter loads.
  unfoldable pub run_state_machine :
      D.Disk → PeerInfo → (NodeStart R D → R.Node) → K.Store → Snapshotter → Started (Peer R K)
  run_state_machine disk p make kv load = elim (start_raft R D disk p.id p.peers false) [
    | dies e ↦ dies e
    | runs start ↦ elim (new_state K kv load) [
      | dies e ↦ dies e
      | runs s ↦ runs (record {
        info = p;
        node = new_raft_node R D p.id (make start) start.peer_calls;
        state = s;
      })
    ]
  ]

-- The loop of `main` of curp_server/main.go over the states.
abbrev pub peers_from : ℕ → List String → List String → List PeerInfo
peers_from i peers [] = []
peers_from i peers (grpc ∷ grpcs) =
    record { peers = peers; grpcservers = grpc; id = i + 1 } ∷ peers_from (i + 1) peers grpcs

-- The peers that `main` runs: the whole cluster in one process, or one of it, with the flags.
unfoldable pub start_cluster : (peers grpc_peers : List String) → Started (List PeerInfo)
start_cluster peers grpc_peers =
    if length grpc_peers == length peers
    then runs (peers_from 0 peers grpc_peers)
    else dies "flag error"

abbrev pub start_single : List String → String → ℕ → PeerInfo
start_single peers grpc_addr id = record { peers = peers; grpcservers = grpc_addr; id = id + 1 }

-- The end of `readCommits` in curp/state.go, with what it receives from `errorC`; none is a closed channel.
abbrev pub end_read_commits : Option String → Started (Unit {0})
end_read_commits none = runs tt
end_read_commits (some err) = dies err

abbrev pub logged : GoError → List String
logged none = []
logged (some err) = err ∷ []

-- `close` of a peer: what it logs and returns, with what it receives from `errorC` and what the two calls of
-- `RemoveAll` return.
abbrev pub close_peer : (erri removed snap_removed : GoError) → List String × GoError
close_peer erri removed snap_removed =
    (logged erri ++ logged removed ++ logged snap_removed, snap_removed)

-- The first two values that are received from `errorC`, on which these are sent before it is closed.
abbrev pub received : List String → GoError × GoError
received [] = (none, none)
received (e ∷ []) = (some e, none)
received (e ∷ f ∷ errors) = (some e, some f)

-- `readCommits` and `close` each receive once from `errorC`, in one of the two orders.
unfoldable pub shut_down :
    (errors : List String) (reader_first : Bool) (removed snap_removed : GoError)
    → Started (List String × GoError)
shut_down errors reader_first removed snap_removed =
    let (first, second) = received errors in
    elim (end_read_commits (if reader_first then first else second)) [
      | dies e ↦ dies e
      | runs _ ↦ runs (close_peer (if reader_first then second else first) removed snap_removed)
    ]
