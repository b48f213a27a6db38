-- ===== src/Raft/Followers.antt =====
-- A replica that follows the log: the rounds of `serveChannels` of curp/raft.go, the reader of commits and
-- the worker of curp/state.go, one behind the other.
use curp.Kv.{KvStore}
use curp.Machine.{StateMachine, is_leader}
use curp.Machine.Steps.{Gob}
use curp.Machine.Commits.{Snapshotter, runs, load_snapshot}
use curp.Machine.Agreement.{slow, run, run-follower}
use curp.Machine.Quiet.{IsQuiet, run-IsQuiet}
use curp.Machine.Replay.{execute_all}
use curp.Raft.{RaftLib, Entry, Snapshot, CurpNode, serve_ready}
use curp.Raft.Delivery.{segment}
use curp.Raft.ExactlyOnce.{texts_of, Delivers, Batch, serve_ready-Delivers}
use curp.Raft.Replication.{Decodes, commands_in, read_commits, read_commits-Delivers}
use curp.Prelude.{ℕ, String, ◌≡◌, subst, inl, inr, true, false, Option, some, List, [], map, arith}

module _ (R : RaftLib) (log : ℕ → Entry) (indexed : (j : ℕ) → (log j).index ≡ j) where
  -- Rounds whose batches are cut out of the log, with no snapshot; the node did not stop.
  pub data Serves (n : CurpNode R) : CurpNode R → Type 0 where
    start : Serves n n
    round :
        {m l : CurpNode R} (snap : Snapshot R) (first : ℕ) (es : List Entry)
        → Serves n m
        → snap.index ≡ 0
        → Batch R log indexed m first es
        → serve_ready R m snap es false ≡ some (l, true)
        → Serves n l

  pub Serves-Delivers :
      {n m : CurpNode R} → Delivers R log indexed n → Serves n m → Delivers R log indexed m
  Serves-Delivers d start = d
  Serves-Delivers d (round {m} {l} snap first es r z b e) =
      let (l', ok, e', end) =
        serve_ready-Delivers R log indexed m snap first es z b (Serves-Delivers d r) in
      elim end [
        | inl stopped ↦ cc
        | inr (d', _) ↦ subst (Delivers R log indexed) {x = l'} {y = l} (ground arith) d'
      ]

module _ (K : KvStore) where
  -- The worker takes everything from the slow path.
  unfoldable pub drain : StateMachine K → Option (StateMachine K)
  drain s = run K (record s { slow_path = [] }) (map slow s.slow_path)

module _ (K : KvStore) (G : Gob) where
  -- A replica that is not the leader, whose node starts with the log and serves any number of rounds,
  -- reads all commits and gets through all of them: its store is then what the commands of the log, up to
  -- the node's applied index, make of the first store, executed once each and in the order of the log.
  pub follower_executes_log :
      (R : RaftLib) (log : ℕ → Entry) (indexed : (j : ℕ) → (log j).index ≡ j) (n0 n : CurpNode R)
      (s : StateMachine K) (load : ℕ → Snapshotter) (d : ℕ → Option String)
      → ((j : ℕ) → load_snapshot (load j) ≡ runs (d j))
      → n0.commits ≡ []
      → n0.applied_index ≡ 0
      → Serves R log indexed n0 n
      → Decodes G (texts_of R (segment log 1 n.applied_index))
      → is_leader K s ≡ false
      → s.slow_path ≡ []
      → IsQuiet s.command_board
      → (t : StateMachine K) × (u : StateMachine K) × (read_commits K G s 0 n.commits load ≡ runs t)
        × (drain K t ≡ some u)
        × (u.kv_store
            ≡ execute_all K s.kv_store (commands_in G (texts_of R (segment log 1 n.applied_index))))
  unfolding drain
  follower_executes_log R log indexed n0 n s load d l c a r h follows empty q =
      let cmds = commands_in G (texts_of R (segment log 1 n.applied_index)) in
      let d0 : Delivers R log indexed n0 = ground arith in
      let same = Serves-Delivers R log indexed d0 r in
      let read = read_commits-Delivers K G R log indexed n s load d l same h in
      let (u, done, _) = run-IsQuiet K (map slow cmds) s q in
      (
        record s { slow_path = cmds },
        u,
        ground arith,
        ground arith,
        run-follower K cmds s {t = u} follows done,
      )
