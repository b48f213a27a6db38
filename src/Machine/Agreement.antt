-- ===== src/Machine/Agreement.antt =====
-- A leader that executes commands on the fast path of curp/state.go, and a replica that executes
-- them as they are committed.
use curp.Command.{CurpClientCommand, ProposeId, ProposeId-discrete, propose_id}
use curp.Kv.{KvStore, IsStore}
use curp.Machine.{StateMachine, is_leader, execute_sync}
use curp.Machine.Execute.{Same, execute_async-execute_sync}
use curp.Machine.Replay.{execute_all, execute_all-Same, Reorders, execute_all-Reorders}
use curp.Machine.Steps.{work_fast, work_slow}
use curp.Prelude.{
  Option-cases, set, insert, delete, ◌≡◌, sym, ap, ◌∙◌, inl, inr, true, false, Option, none, some,
  List, [], ◌∷◌, map, lookup, arith,
}

-- What the worker receives in one round of its loop, and from which channel.
pub data Work : Type 0 where
  fast : CurpClientCommand → Work
  slow : CurpClientCommand → Work

unfoldable pub fasts : List Work → List CurpClientCommand
fasts [] = []
fasts (fast c ∷ ws) = c ∷ fasts ws
fasts (slow c ∷ ws) = fasts ws

unfoldable pub slows : List Work → List CurpClientCommand
slows [] = []
slows (fast c ∷ ws) = slows ws
slows (slow c ∷ ws) = c ∷ slows ws

-- Each command comes on the fast path while it is not in the command set, and its commit comes while
-- it is: the set as the worker keeps it.
abbrev pub FastFirst : List (ProposeId × Unit {0}) → List Work → Type 0
FastFirst set [] = Unit
FastFirst set (fast c ∷ ws) =
    (lookup ProposeId-discrete (propose_id c) set ≡ none)
    × FastFirst (insert ProposeId-discrete (propose_id c) tt set) ws
FastFirst set (slow c ∷ ws) =
    (lookup ProposeId-discrete (propose_id c) set ≡ some tt)
    × FastFirst (delete ProposeId-discrete (propose_id c) set) ws

module _ (K : KvStore) where
  -- One round of `cmd_worker`.
  unfoldable pub work : StateMachine K → Work → Option (StateMachine K)
  work s (fast c) = work_fast K s c
  work s (slow c) = work_slow K s c

  unfoldable pub run : StateMachine K → List Work → Option (StateMachine K)
  run s [] = some s
  run s (w ∷ ws) = elim (work s w) [ none ↦ none | some t ↦ run t ws ]

  pub fast_round :
      (s : StateMachine K) (c : CurpClientCommand) {t : StateMachine K}
      → lookup ProposeId-discrete (propose_id c) s.command_set ≡ none
      → work_fast K s c ≡ some t
      → (t.kv_store ≡ (execute_sync K s.kv_store c).0)
        × (t.command_set ≡ insert ProposeId-discrete (propose_id c) tt s.command_set)
        × (t.raft_state ≡ s.raft_state)
  unfolding work_fast
  fast_round s c fresh h = ground arith

  pub slow_round_executed :
      (s : StateMachine K) (c : CurpClientCommand) {t : StateMachine K}
      → is_leader K s ≡ true
      → lookup ProposeId-discrete (propose_id c) s.command_set ≡ some tt
      → work_slow K s c ≡ some t
      → (t.kv_store ≡ s.kv_store)
        × (t.command_set ≡ delete ProposeId-discrete (propose_id c) s.command_set)
        × (t.raft_state ≡ s.raft_state)
  unfolding work_slow
  slow_round_executed s c l old h = ground arith

  pub slow_round_fresh :
      (s : StateMachine K) (c : CurpClientCommand) {t : StateMachine K}
      → lookup ProposeId-discrete (propose_id c) s.command_set ≡ none
      → work_slow K s c ≡ some t
      → (t.kv_store ≡ (execute_sync K s.kv_store c).0)
        × (t.command_set
            ≡ delete ProposeId-discrete
                (propose_id c)
                (insert ProposeId-discrete (propose_id c) tt s.command_set))
        × (t.raft_state ≡ s.raft_state)
  unfolding work_slow
  slow_round_fresh s c fresh h = ground (arith, (execute_async-execute_sync K s.kv_store c).0)

  pub slow_round_follower :
      (s : StateMachine K) (c : CurpClientCommand) {t : StateMachine K}
      → is_leader K s ≡ false
      → work_slow K s c ≡ some t
      → (t.kv_store ≡ (execute_sync K s.kv_store c).0) × (t.raft_state ≡ s.raft_state)
  unfolding work_slow
  slow_round_follower s c l h = ground (arith, (execute_async-execute_sync K s.kv_store c).0)

  pub run-cons :
      (s : StateMachine K) (w : Work) (ws : List Work) {t : StateMachine K}
      → run s (w ∷ ws) ≡ some t
      → (u : StateMachine K) × (work s w ≡ some u) × (run u ws ≡ some t)
  unfolding run
  run-cons s w ws h = elim (Option-cases (work s w)) [
    | inl stuck ↦ absurd (ground arith)
    | inr (u, went) ↦ (u, went, ground arith)
  ]

  -- A leader whose worker meets every command on the fast path before its commit holds what the fast
  -- path executed, in that order: no commit executes anything again.
  pub run-FastFirst :
      (ws : List Work) (s : StateMachine K) {t : StateMachine K}
      → is_leader K s ≡ true
      → FastFirst s.command_set ws
      → run s ws ≡ some t
      → t.kv_store ≡ execute_all K s.kv_store (fasts ws)
  unfolding run work fasts execute_all
  run-FastFirst [] s l f h = ground arith
  run-FastFirst (fast c ∷ ws) s {t} l f h = elim (Option-cases (work_fast K s c)) [
    | inl stuck ↦ absurd (ground arith)
    | inr (u, went) ↦
        let (kv, set, raft) = fast_round s c f.0 went in
        run-FastFirst ws u {t = t} (rw raft l) (rw set f.1) (ground arith) ∙ rw kv
  ]
  run-FastFirst (slow c ∷ ws) s {t} l f h = elim (Option-cases (work_slow K s c)) [
    | inl stuck ↦ absurd (ground arith)
    | inr (u, went) ↦
        let (kv, set, raft) = slow_round_executed s c l f.0 went in
        run-FastFirst ws u {t = t} (rw raft l) (rw set f.1) (ground arith) ∙ rw kv
  ]

  -- A replica that is not the leader holds what was committed, in the order of the log.
  pub run-follower :
      (cs : List CurpClientCommand) (s : StateMachine K) {t : StateMachine K}
      → is_leader K s ≡ false
      → run s (map slow cs) ≡ some t
      → t.kv_store ≡ execute_all K s.kv_store cs
  unfolding run work execute_all
  run-follower [] s l h = ground arith
  run-follower (c ∷ cs) s {t} l h = elim (Option-cases (work_slow K s c)) [
    | inl stuck ↦ absurd (ground arith)
    | inr (u, went) ↦
        let (kv, raft) = slow_round_follower s c l went in
        run-follower cs u {t = t} (rw raft l) (ground arith) ∙ rw kv
  ]

-- A leader and another replica that start from stores that no read tells apart end so, if the leader's
-- worker meets every command on the fast path before its commit, and the log has the commands in
-- the order of the fast path but for commands that do not conflict.
pub replicas_agree :
    (K : KvStore) (L : IsStore K) (ws : List Work) (s f : StateMachine K) {t g : StateMachine K}
    → Same K L s.kv_store f.kv_store
    → is_leader K s ≡ true
    → is_leader K f ≡ false
    → FastFirst s.command_set ws
    → Reorders (fasts ws) (slows ws)
    → run K s ws ≡ some t
    → run K f (map slow (slows ws)) ≡ some g
    → Same K L t.kv_store g.kv_store
replicas_agree K L ws s f {t} {g} h l n first r e e' = λ k.
    ap (λ x. K.get x k) (run-FastFirst K ws s l first e)
    ∙ execute_all-Reorders K L s.kv_store r k
    ∙ execute_all-Same K L (slows ws) s.kv_store f.kv_store h k
    ∙ sym (ap (λ x. K.get x k) (run-follower K (slows ws) f n e'))
