-- ===== src/Server/Start.antt =====
-- What starts a server: `Startgrpc` of curp/state_grpc.go, `newStoppableListener` of curp/listener.go,
-- `getSnapshotFn2` of curp/server.go, and `main` of curp/main.go. What net and grpc give is an argument.
use curp.Kv.{GoError, KvStore}
use curp.Machine.Commits.{Snapshotter, Started, runs, dies, new_state}
use curp.Raft.{RaftLib}
use curp.Raft.Start.{DiskLib, NodeStart, start_raft, new_raft_node}
use curp.Server.Peer.{PeerInfo, Peer}
use curp.Prelude.{if◌then◌else◌, String, ◌⊎◌, inl, inr, Bool, Option, none, some}

-- `Startgrpc`, with the error of `net.Listen`, and what `Serve` gives when it returns; none is a server that
-- goes on.
unfoldable pub start_grpc : GoError → Option GoError → Option (Started (Unit {0}))
start_grpc (some err) served = some (dies "net.Listen err")
start_grpc none none = none
start_grpc none (some none) = some (runs tt)
start_grpc none (some (some err)) = some (dies "grpcServer.Serve err")

-- A listener of rafthttp: the listener of the address beside the channel that stops it.
pub record StoppableListener (Listener Stop : Type 0) : Type 0 where
  pub listener : Listener
  pub stopc : Stop

-- `newStoppableListener`, with what `net.Listen` gives: a listener, or an error.
abbrev pub new_stoppable_listener :
    {Listener Stop : Type 0}
    → Listener ⊎ String
    → Stop
    → Option (StoppableListener Listener Stop) × GoError
new_stoppable_listener (inl ln) stopc = (some (record { listener = ln; stopc = stopc }), none)
new_stoppable_listener (inr err) stopc = (none, some err)

-- The function that `getSnapshotFn2` makes: it sends on a channel with no room, and gives no snapshot. None: it
-- waits, since nothing receives.
unfoldable pub get_snapshot_fn2 : (received : Bool) → Option (Option String × GoError)
get_snapshot_fn2 received = if received then some (none, none) else none

module _ (R : RaftLib) (D : DiskLib R) (K : KvStore) where
  -- `main` of curp/main.go, with the error of `net.Listen` and what `Serve` gives when it returns; none is a
  -- server that goes on. The raft node and the state machine come after it.
  unfoldable pub serve_main :
      D.Disk
      → PeerInfo
      → Bool
      → (NodeStart R D → R.Node)
      → K.Store
      → Snapshotter
      → GoError
      → Option GoError
      → Option (Started (Peer R K))
  serve_main disk p join make kv load (some err) served = some (dies "failed to listen rpc port")
  serve_main disk p join make kv load none none = none
  serve_main disk p join make kv load none (some (some err)) = some (dies "failed to serve")
  serve_main disk p join make kv load none (some none) =
      some (elim (start_raft R D disk p.id p.peers join) [
        | dies e ↦ dies e
        | runs start ↦ elim (new_state K kv load) [
          | dies e ↦ dies e
          | runs s ↦ runs (record {
            info = p;
            node = new_raft_node R D p.id (make start) start.peer_calls;
            state = s;
          })
        ]
      ])
