-- ===== src/Server/Peer/Closing.antt =====
-- How a peer of curp/server.go ends: the loops of its node, the reader of commits and `close`.
use curp.Kv.{GoError}
use curp.Machine.Commits.{runs, dies}
use curp.Raft.{RaftLib, Snapshot, CurpNode}
use curp.Raft.Serve.{Serving, went}
use curp.Raft.Serve.Shutdown.{Step, Reach, closing_ends}
use curp.Raft.Serve.Errors.{Reach-NoErrors, transport_error-ends}
use curp.Server.Peer.{shut_down, logged}
use curp.Prelude.{String, ◌≡◌, ◌∙◌, Bool, true, false, [], ◌∷◌, ◌++◌, arith}

module _ (R : RaftLib) where
  -- From every state of a node in which both of its goroutines run, the closing of the channel of the proposals
  -- can be followed by two rounds after which neither runs and the channels are closed; then the reader of
  -- commits ends without a fatal error, and `close` logs and returns the error of its last `RemoveAll`, and
  -- logs that of the first, whichever of the two receives first.
  pub closing_shuts_down :
      {n : CurpNode R} {snap : Snapshot R} {s : Serving R} (reader_first : Bool)
      (removed snap_removed : GoError)
      → Reach R n snap s
      → s.proposing ≡ true
      → s.looping ≡ true
      → (t : Serving R) × (u : Serving R) × Step R s (went t)
        × Step R t (went u)
        × (u.proposing ≡ false)
        × (u.looping ≡ false)
        × (u.commit_closed ≡ true)
        × (u.error_closed ≡ true)
        × (shut_down u.errors reader_first removed snap_removed
            ≡ runs (logged removed ++ logged snap_removed, snap_removed))
  unfolding shut_down
  closing_shuts_down {s = s} reader_first removed snap_removed reached p l =
      let (t, u, asks, ends, proposing, looping, _, commit, error, _, same) =
        closing_ends R reached p l in
      let none_sent : u.errors ≡ [] = same ∙ Reach-NoErrors R reached l in
      (t, u, asks, ends, proposing, looping, commit, error, ground arith)

  -- From every state in which the event loop runs, an error of the transport can end the loop. Then it
  -- is fatal for the process, if the reader of commits receives it, or else only logged: `close` returns the
  -- error of its last `RemoveAll`.
  pub shut_down-transport_error :
      {n : CurpNode R} {snap : Snapshot R} {s : Serving R} (err : String)
      (removed snap_removed : GoError)
      → Reach R n snap s
      → s.looping ≡ true
      → (u : Serving R) × Step R s (went u)
        × (u.looping ≡ false)
        × (shut_down u.errors true removed snap_removed ≡ dies err)
        × (shut_down u.errors false removed snap_removed
            ≡ runs (err ∷ logged removed ++ logged snap_removed, snap_removed))
  unfolding shut_down
  shut_down-transport_error {s = s} err removed snap_removed reached l =
      let (u, ends, looping, sent) = transport_error-ends R err reached l in
      (u, ends, looping, ground arith, ground arith)
