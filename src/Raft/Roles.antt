-- ===== src/Raft/Roles.antt =====
-- How the state machine of curp/state.go learns the role of its node of curp/raft.go.
use curp.Kv.{KvStore}
use curp.Machine.{StateMachine, StateType, follower, candidate, leader, pre_candidate}
use curp.Machine.Steps.{listen_raft_state}
use curp.Raft.{RaftLib, CurpNode, same_state, serve_soft_state}
use curp.Prelude.{Bool-cases, ◌≡◌, refl, inl, inr, true, Option, none, some, List, [], ◌∷◌, ◌++◌}

same_state_lem : (a b : StateType) → same_state a b ≡ true → a ≡ b
same_state_lem follower follower h = refl
same_state_lem candidate candidate h = refl
same_state_lem leader leader h = refl
same_state_lem pre_candidate pre_candidate h = refl
same_state_lem _ _ h = cc

module _ (R : RaftLib) where
  -- The soft states of a run of `serveChannels`, and all states that it starts to send, oldest first.
  unfoldable pub serve_soft_states :
      CurpNode R → List (Option StateType) → CurpNode R × List StateType
  serve_soft_states n [] = (n, [])
  serve_soft_states n (st ∷ sts) =
      let (m, sent) = serve_soft_state R n st in
      let (l, later) = serve_soft_states m sts in (l, sent ++ later)

module _ (K : KvStore) where
  -- The loop of `listenRaftState`.
  unfoldable pub listen_all : StateMachine K → List StateType → StateMachine K
  listen_all s [] = s
  listen_all s (st ∷ sts) = listen_all (listen_raft_state K s st) sts

  -- If the states arrive in the order in which they were sent, the state machine ends with the role of
  -- its node, where it started with it.
  pub listen_all-serve_soft_states :
      (R : RaftLib) (sts : List (Option StateType)) (n : CurpNode R) (s : StateMachine K)
      → s.raft_state ≡ n.raft_state
      → (listen_all s (serve_soft_states R n sts).1).raft_state
        ≡ (serve_soft_states R n sts).0.raft_state
  unfolding serve_soft_states serve_soft_state listen_all listen_raft_state
  listen_all-serve_soft_states R [] n s h = h
  listen_all-serve_soft_states R (none ∷ sts) n s h = listen_all-serve_soft_states R sts n s h
  listen_all-serve_soft_states R (some st ∷ sts) n s h =
      elim (Bool-cases (same_state n.raft_state st)) [
        | inl same ↦ rw same (listen_all-serve_soft_states R sts n s h)
        | inr other ↦ rw other (
            listen_all-serve_soft_states R sts (record n { raft_state = st })
              (listen_raft_state K s st) refl)
      ]
