-- ===== src/Lib.antt =====
-- CURP: a replicated key-value store with a fast path.
--
-- The program. A client (curp/client_grpc.go) proposes a command to every server at once. Each
-- server's state machine (curp/state.go) asks its witness (curp/witness/witness.go) whether the
-- command conflicts with one that it holds. A server that is not the leader answers with this alone.
-- The leader also sends the command to its worker by the fast path and to raft, and waits on the
-- command board (curp/command/cmd_board.go) for the result of the execution. What raft commits comes
-- back from curp/raft.go to the worker of every server by the slow path: it executes the command
-- unless it is a leader that has done so, notes on the board that the command is synced, and drops
-- its records. A client that finds a conflict waits at the leader for the sync. The commands act on
-- a store (kv/kv.go), here the one in memory (kv/mem_kv.go). curp_client drives the client.
--
-- Which file models what:
--   Prelude: Boolean tests, lists measured by native numbers, Go's maps as association lists.
--   Command, Command/Op, Command/Status, Command/Encoded: curp/command/command.go,
--     curp/curp_proto/command_extend.go and the messages of curp/curp_proto/curp_command.proto.
--     `conflict` is Conflict. Commuting says what it decides.
--   Kv: the interface KVStore of kv/kv.go as a record, and the laws that the state machine relies
--     on. Kv/Mem: kv/mem_kv.go, one function for each method; Interface fills the record, Json has
--     the snapshots. Kv/Bolt and Kv/Badger: kv/blot_kv.go and kv/badger_kv.go likewise, over the
--     database; Files has how a store is opened and closed.
--   Witness: curp/witness/witness.go; Accepts and Invariant hold its theory.
--   Board: curp/command/cmd_board.go. WaitForEr is `wait_for_er` and `receive_er`; WaitForAsr is
--     `wait_for_asr`, `receive_asr` and `resume_asr`. Answers has all histories of calls.
--   Machine: curp/state.go: executeSync and executeAsync. Machine/Steps: Propose (`propose`, of the
--     stretches `announce` and `await_er`, and `propose_resumes`), WaitSynced, listenRaftState and
--     the two cases of cmd_worker (`work_fast`, `work_slow`). Machine/Commits: the constructors and
--     readCommits. Machine/Reach: the step relation of all goroutines, one step at a time.
--     Machine/Agreement: a run of the worker as a list of what it receives. Machine/Rounds: the
--     whole life of one command at the leader; Machine/EarlySyncs: a commit before the fast path.
--     Machine/DroppedErrors: errors of the store.
--   Trace: curp/trace/log.go.
--   Server: the handlers of curp/state_grpc.go. Server/Start: Startgrpc there, newStoppableListener
--     of curp/listener.go, getSnapshotFn2 of curp/server.go and main of curp/main.go. Server/Peer:
--     RunStateMachine and close of curp/server.go, and the peers that curp_server/main.go starts.
--   Client: curp/client_grpc.go; Client/Durable puts it together with the witnesses of the servers.
--     Client/Mock and Client/Mock/Calls: MockClient of curp/client.go.
--   Cluster: a client and its servers: `round` is Put, Get or Del, from the calls of Propose at
--     every server (`call`) over the client's fast round to the commit (`commit`), and `session` a
--     list of rounds. Cluster/Late: the same with later commits, between two requests, at each
--     server in its own time: `Late` holds with each server the part of the log that it has not got;
--     the log has the commands in the order of the requests. Where the client takes the slow path,
--     the leader gets its outstanding commits before the call of `WaitSynced` or while it waits
--     (`member_sync`). A call of Propose is one step with the fast path of its command: the orders
--     in which a commit comes in between are those of Machine/Reach, Machine/Anomalies and
--     Machine/EarlySyncs. Cluster/Map: the map that the answers are compared with. Cluster/Serving:
--     what holds between two requests. Cluster/Started: the servers and the client at their start.
--   Raft: entriesToApply, publishEntries, publishSnapshot and the Ready case of serveChannels of
--     curp/raft.go. Raft/Replication follows the commits into readCommits of curp/state.go, and
--     Raft/Roles the role into listenRaftState; Raft/Followers goes on to the worker, and
--     Raft/Replicas puts a leader beside it. Raft/Serve: serveChannels as a whole, with stop and
--     writeError; Raft/Serve/Shutdown its interleavings. Raft/Start: startRaft with the replay of
--     the log. Raft/Snapshots: maybeTriggerSnapshot. Raft/Listener: serveRaft, and Accept of
--     curp/listener.go.
--   Bench: handleRequest of curp_client/main.go and the draws of curp_client/buffer_client.go;
--     Bench/Loop: the loop there; Bench/Start and Bench/Main: main and bench_server; Bench/Config:
--     the reader of curp_client/config.go.
--   Tests: the theorems at concrete inputs.
--
-- Choices. A method that holds a lock throughout is one step; a method that waits is one function
-- for each stretch between waits, and none stands for a step that has to wait for room in a channel.
-- The slow case of cmd_worker takes its locks one after the other: in Machine/Reach it is three
-- steps, and one (`work_slow`) where the worker is followed alone or in a cluster. The order in
-- which goroutines run, replies arrive and channels are received is a list or a relation. The
-- channels fastPath and slowPath of the state machine have room for 1000 commands and are unbounded
-- here: only the goroutine that sends would wait. The raft node's channel of errors has two
-- receivers, whose order is an argument (`shut_down`). How a call of WaitSynced ends at the client
-- is a value (`SyncEnd`), which may be never. No definition runs on fuel: every loop is structural
-- recursion on what it reads. Numbers are natural numbers; uint64 wraps where the source computes
-- with it (`get_propose_id`, `entries_to_apply`, `serve_proposal`, `maybe_trigger_snapshot`), and
-- the conditions on a theorem say where no wrap-around is met.
--
-- Parameters, for code that is not in the repository: gob (`Gob`), the raft library (`RaftLib`), the
-- store's snapshotter, which only gives what `Load` returns, the disk with the snapshotter and the
-- write-ahead log of etcd (`DiskLib`; a new log is empty: `KeepsLog`), the calls of the raft storage
-- (`SnapshotCalls`), the Bolt and Badger databases (`BoltDb`, `BadgerDb`, with what they document as
-- `IsBolt`, `Lists` and `IsBadger`, and `BoltFiles`, `BadgerFiles`), encoding/json (`Json`), and the
-- formats of strconv and time (`Formats`, and the text of a number in Bench/Loop). The float64
-- arithmetic of the latencies is a parameter too (`Floats`).
--
-- Not modelled: prints, and the calls of traces, but for the panic that a trace can cause; the
-- messages between raft nodes, which etcd sends; the parsing of flags and the wait for a signal;
-- code generated by protoc; kv/blotdb.go, a comment.
mod Prelude
pub mod Command
pub mod Kv
pub mod Witness
pub mod Board
pub mod Machine
pub mod Client
pub mod Cluster
pub mod Raft
pub mod Server
pub mod Trace
pub mod Bench
mod Tests
