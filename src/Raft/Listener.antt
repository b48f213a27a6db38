-- ===== src/Raft/Listener.antt =====
-- curp/listener.go and `serveRaft` of curp/raft.go: the listener of the transport between the nodes.
use curp.Kv.{GoError}
use curp.Machine.Commits.{Started, runs, dies}
use curp.Prelude.{if◌then◌else◌, String, Bool, Option, none, some}

-- What the `select` of `Accept` receives: the stop, an error of `AcceptTCP`, or a connection.
pub data Arrival : Type 0 where
  told_to_stop : Arrival
  failed : String → Arrival
  connected : Arrival

-- `Accept`: a connection or an error.
abbrev pub accept : Arrival → GoError
accept told_to_stop = some "server stopped"
accept (failed err) = some err
accept connected = none

-- `serveRaft`, with the errors of the URL and of the listener, and whether the stop channel is closed when
-- `Serve` of net/http returns; none is a server that goes on. At its end it closes `httpdonec`.
abbrev pub serve_raft : GoError → GoError → Option Bool → Option (Started (Unit {0}))
serve_raft (some err) listen_err served = some (dies "raftexample: Failed parsing URL")
serve_raft none (some err) served = some (dies "raftexample: Failed to listen rafthttp")
serve_raft none none none = none
serve_raft none none (some stopped) =
    some (if stopped then runs tt else dies "raftexample: Failed to serve rafthttp")
