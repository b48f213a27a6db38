-- ===== src/Raft/Replicas.antt =====
-- A leader and a follower of one log, from the nodes of curp/raft.go to the stores of curp/state.go.
use curp.Kv.{KvStore, IsStore}
use curp.Machine.{StateMachine, is_leader}
use curp.Machine.Steps.{Gob}
use curp.Machine.Commits.{Snapshotter, runs, load_snapshot}
use curp.Machine.Agreement.{Work, fasts, slows, FastFirst, run, run-FastFirst}
use curp.Machine.Execute.{Same}
use curp.Machine.Quiet.{IsQuiet}
use curp.Machine.Replay.{execute_all, execute_all-Same, Reorders, execute_all-Reorders}
use curp.Raft.{RaftLib, Entry, CurpNode}
use curp.Raft.Delivery.{segment}
use curp.Raft.ExactlyOnce.{texts_of, Delivers}
use curp.Raft.Followers.{Serves, Serves-Delivers, drain, follower_executes_log}
use curp.Raft.Replication.{Decodes, commands_in, read_commits, read_commits-Delivers}
use curp.Prelude.{ℕ, ◌≡◌, sym, ap, subst, ◌∙◌, true, false, Option, some, List, [], String, arith}

module _ (R : RaftLib) (log : ℕ → Entry) (indexed : (j : ℕ) → (log j).index ≡ j) where
  -- A node that started with the log and has served any number of rounds.
  pub record Runs (n0 n : CurpNode R) : Type 0 where
    pub no_commits : n0.commits ≡ []
    pub none_applied : n0.applied_index ≡ 0
    pub served : Serves R log indexed n0 n

  Runs-Delivers : {n0 n : CurpNode R} → Runs n0 n → Delivers R log indexed n
  Runs-Delivers {n0} r =
      let first : Delivers R log indexed n0 = ground (arith, r.no_commits, r.none_applied) in
      Serves-Delivers R log indexed first r.served

-- What the reader of commits puts into the slow path of a state machine whose slow path is empty.
module _ (K : KvStore) (G : Gob) where
  read_commits-Runs :
      (R : RaftLib) (log : ℕ → Entry) (indexed : (j : ℕ) → (log j).index ≡ j) {n0 n : CurpNode R}
      (s : StateMachine K) (load : ℕ → Snapshotter) (d : ℕ → Option String) {t : StateMachine K}
      → ((j : ℕ) → load_snapshot (load j) ≡ runs (d j))
      → Runs R log indexed n0 n
      → Decodes G (texts_of R (segment log 1 n.applied_index))
      → s.slow_path ≡ []
      → read_commits K G s 0 n.commits load ≡ runs t
      → t.slow_path ≡ commands_in G (texts_of R (segment log 1 n.applied_index))
  read_commits-Runs R log indexed {n0} {n} s load d {t} l r h empty e =
      let read =
        read_commits-Delivers K G R log indexed n s load d l (Runs-Delivers R log indexed r) h in
      ground arith

-- A leader and a follower, each with its own node, whose nodes started with the same log and have applied
-- the same part of it, whose texts gob decodes. The leader's worker has received, among commands of the
-- fast path, the commits that its reader put into the slow path; it met every command on the fast path
-- before its commit, and the log has the commands in the order of the fast path but for commands that do
-- not conflict. No call has waited on the follower's board, and both slow paths were empty. Then the
-- follower reads its commits and gets through them, and no read tells its store from the leader's, if none
-- did so at first.
pub follower_agrees_with_leader :
    (K : KvStore) (L : IsStore K) (G : Gob) (R : RaftLib) (log : ℕ → Entry)
    (indexed : (j : ℕ) → (log j).index ≡ j) {l0 ln f0 fn : CurpNode R} (s f : StateMachine K)
    (load : ℕ → Snapshotter) (d : ℕ → Option String) (ws : List Work) {committed t : StateMachine K}
    → ((j : ℕ) → load_snapshot (load j) ≡ runs (d j))
    → Runs R log indexed l0 ln
    → Runs R log indexed f0 fn
    → fn.applied_index ≡ ln.applied_index
    → Decodes G (texts_of R (segment log 1 ln.applied_index))
    → Same K L s.kv_store f.kv_store
    → is_leader K s ≡ true
    → is_leader K f ≡ false
    → s.slow_path ≡ []
    → f.slow_path ≡ []
    → IsQuiet f.command_board
    → read_commits K G s 0 ln.commits load ≡ runs committed
    → slows ws ≡ committed.slow_path
    → FastFirst s.command_set ws
    → Reorders (fasts ws) (slows ws)
    → run K s ws ≡ some t
    → (g : StateMachine K) × (u : StateMachine K) × (read_commits K G f 0 fn.commits load ≡ runs g)
      × (drain K g ≡ some u)
      × Same K L t.kv_store u.kv_store
follower_agrees_with_leader K L G R log indexed {l0} {ln} {f0} {fn} s f load d ws {committed} {t} ls
      rl rf at h same leads follows empty_s empty_f quiet read slow first order ran =
    let texts : ℕ → List String = λ k. texts_of R (segment log 1 k) in
    let decodes : Decodes G (texts fn.applied_index) =
      subst (λ k. Decodes G (texts k)) {x = ln.applied_index} {y = fn.applied_index} (sym at) h in
    let (g, u, reads, drains, kv) =
      follower_executes_log K G R log indexed f0 fn f load d ls rf.no_commits rf.none_applied
        rf.served decodes follows empty_f quiet in
    let commits : slows ws ≡ commands_in G (texts fn.applied_index) =
      slow
      ∙ read_commits-Runs K G R log indexed s load d {t = committed} ls rl h empty_s read
      ∙ ap (λ k. commands_in G (texts k)) (sym at) in
    (
      g,
      u,
      reads,
      drains,
      λ k.
          ap (λ x. K.get x k) (run-FastFirst K ws s leads first ran)
          ∙ execute_all-Reorders K L s.kv_store order k
          ∙ execute_all-Same K L (slows ws) s.kv_store f.kv_store same k
          ∙ ap (λ cs. K.get (execute_all K f.kv_store cs) k) commits
          ∙ ap (λ x. K.get x k) (sym kv),
    )
