-- ===== src/Machine/Anomalies.antt =====
-- Orders of steps of curp/state.go in which the fast path and the log have commands in different orders.
use curp.Command.{CurpClientCommand, ProposeId, ProposeId-discrete, propose_id}
use curp.Command.Op
use curp.Kv.{KvStore, IsStore}
use curp.Machine.{StateMachine, is_leader, execute_sync}
use curp.Machine.Execute.{get-execute_sync}
use curp.Machine.Agreement.{
  FastFirst, fasts, run-cons, work, slow_round_fresh, fast, slow, run, fast_round,
  slow_round_executed, run-FastFirst, run-follower,
}
use curp.Machine.Replay.{execute_all}
use curp.Prelude.{
  set, insert, delete, lookup-insert, lookup-delete, String, ◌≡◌, ap, ◌∙◌, ◌≢◌, true, false, none,
  some, List, [], ◌∷◌, lookup, arith,
}

-- A PUT of this value to this key.
abbrev pub Puts : CurpClientCommand → String → String → Type 0
Puts c k v = (c.op ≡ Op.put) × (c.key ≡ k) × (c.value ≡ v)

module _ (K : KvStore) (L : IsStore K) where
  get-put_command :
      (s : K.Store) (c : CurpClientCommand) (k v : String)
      → Puts c k v
      → K.get (execute_sync K s c).0 k ≡ (v, none)
  get-put_command s c k v p = ground (arith, get-execute_sync K L s c k)

  -- The leader's command set allows two commands, both executed before both are committed.
  two-FastFirst :
      (set : List (ProposeId × Unit {0})) (c d : CurpClientCommand)
      → propose_id c ≢ propose_id d
      → lookup ProposeId-discrete (propose_id c) set ≡ none
      → lookup ProposeId-discrete (propose_id d) set ≡ none
      → FastFirst set (fast c ∷ fast d ∷ slow d ∷ slow c ∷ [])
  two-FastFirst set c d ne fc fd =
      let with_c = insert ProposeId-discrete (propose_id c) tt set in
      let with_d = insert ProposeId-discrete (propose_id d) tt with_c in
      (
        fc,
        (
          ground (arith, lookup-insert ProposeId-discrete (propose_id d) (propose_id c) tt set),
          (
            ground
                (arith, lookup-insert ProposeId-discrete (propose_id d) (propose_id d) tt with_c),
            (
              ground (
                arith,
                lookup-delete ProposeId-discrete (propose_id c) (propose_id d) with_d,
                lookup-insert ProposeId-discrete (propose_id c) (propose_id d) tt with_c,
                lookup-insert ProposeId-discrete (propose_id c) (propose_id c) tt set,
              ),
              tt,
            ),
          ),
        ),
      )

  -- Two PUTs of a key that the leader executes on the fast path in one order, and that are then
  -- committed in the other, leave the leader and the other replicas with different values.
  pub replicas_diverge :
      (s f : StateMachine K) (c d : CurpClientCommand) (k v w : String) {t g : StateMachine K}
      → Puts c k v
      → Puts d k w
      → propose_id c ≢ propose_id d
      → is_leader K s ≡ true
      → is_leader K f ≡ false
      → lookup ProposeId-discrete (propose_id c) s.command_set ≡ none
      → lookup ProposeId-discrete (propose_id d) s.command_set ≡ none
      → run K s (fast c ∷ fast d ∷ slow d ∷ slow c ∷ []) ≡ some t
      → run K f (slow d ∷ slow c ∷ []) ≡ some g
      → (K.get t.kv_store k ≡ (w, none)) × (K.get g.kv_store k ≡ (v, none))
  unfolding execute_all fasts
  replicas_diverge s f c d k v w {t} {g} pc pd ne l n fc fd e e' = (
    ap (λ x. K.get x k) (run-FastFirst K _ s l (two-FastFirst s.command_set c d ne fc fd) e)
        ∙ get-put_command (execute_sync K s.kv_store c).0 d k w pd,
    ap (λ x. K.get x k) (run-follower K (d ∷ c ∷ []) f n e')
        ∙ get-put_command (execute_sync K f.kv_store d).0 c k v pc,
  )

  -- A PUT whose commit reaches the leader's worker before the fast path delivers it is executed again
  -- afterwards, over a later PUT of the same key: the leader reads the older value, and a replica
  -- that follows the log, in which the later PUT comes second, reads the newer one.
  pub late_fast_path :
      (s f : StateMachine K) (c d : CurpClientCommand) (k v w : String) {t g : StateMachine K}
      → Puts c k v
      → Puts d k w
      → propose_id c ≢ propose_id d
      → is_leader K s ≡ true
      → is_leader K f ≡ false
      → lookup ProposeId-discrete (propose_id c) s.command_set ≡ none
      → lookup ProposeId-discrete (propose_id d) s.command_set ≡ none
      → run K s (slow c ∷ fast d ∷ fast c ∷ slow d ∷ []) ≡ some t
      → run K f (slow c ∷ slow d ∷ []) ≡ some g
      → (K.get t.kv_store k ≡ (v, none)) × (K.get g.kv_store k ≡ (w, none))
  unfolding execute_all run work
  late_fast_path s f c d k v w {t} pc pd ne l n fc fd e e' =
      let id_c = propose_id c in
      let id_d = propose_id d in
      let set = s.command_set in
      let rest3 = fast c ∷ slow d ∷ [] in
      let (s1, e1, r1) = run-cons K s (slow c) (fast d ∷ rest3) {t = t} e in
      let (s2, e2, r2) = run-cons K s1 (fast d) rest3 {t = t} r1 in
      let (s3, e3, r3) = run-cons K s2 (fast c) (slow d ∷ []) {t = t} r2 in
      let (s4, e4, r4) = run-cons K s3 (slow d) [] {t = t} r3 in
      let (_, set1, raft1) = slow_round_fresh K s c {t = s1} fc e1 in
      let without_c = delete ProposeId-discrete id_c (insert ProposeId-discrete id_c tt set) in
      let new_d : lookup ProposeId-discrete id_d s1.command_set ≡ none = rw set1 (
        ground (
          arith,
          lookup-delete ProposeId-discrete id_d id_c (insert ProposeId-discrete id_c tt set),
          lookup-insert ProposeId-discrete id_d id_c tt set,
        )) in
      let (_, set2, raft2) = fast_round K s1 d {t = s2} new_d e2 in
      let new_c : lookup ProposeId-discrete id_c s2.command_set ≡ none =
        rw (set2, set1)
          (ground (
            arith,
            lookup-insert ProposeId-discrete id_c id_d tt without_c,
            lookup-delete ProposeId-discrete id_c id_c (insert ProposeId-discrete id_c tt set),
          )) in
      let (kv3, set3, raft3) = fast_round K s2 c {t = s3} new_c e3 in
      let old_d : lookup ProposeId-discrete id_d s3.command_set ≡ some tt =
        rw (set3, set2)
          (ground (
            arith,
            lookup-insert ProposeId-discrete id_d id_c tt
                (insert ProposeId-discrete id_d tt s1.command_set),
            lookup-insert ProposeId-discrete id_d id_d tt s1.command_set,
          )) in
      let (kv4, _, _) = slow_round_executed K s3 d {t = s4} (rw (raft3, raft2, raft1) l) old_d e4 in
      let same : t.kv_store ≡ s4.kv_store = ground arith in
      (
        rw (same, kv4, kv3) (get-put_command s2.kv_store c k v pc),
        ap (λ x. K.get x k) (run-follower K (c ∷ d ∷ []) f n e')
            ∙ get-put_command (execute_sync K f.kv_store c).0 d k w pd,
      )
