-- ===== src/Machine/EarlyReads.antt =====
-- A PUT that conflicts with a GET in the witness of curp/witness/witness.go, and a later GET: runs of
-- curp/state.go.
use curp.Command.{CurpClientCommand, ProposeId, ProposeId-discrete, propose_id, conflict}
use curp.Command.Op
use curp.Kv.{KvStore, IsStore}
use curp.Witness.{Witness, insert_if_not_conflict, remove}
use curp.Witness.Accepts.{IsClear, insert_if_not_conflict_iff}
use curp.Machine.{StateMachine, execute_sync, execute_async}
use curp.Machine.Execute.{get-execute_sync, result-execute_sync}
use curp.Machine.Steps.{Gob, propose, work_fast, work_slow}
use curp.Machine.Anomalies.{Puts}
use curp.Machine.Agreement.{fast_round}
use curp.Prelude.{
  insert, delete, lookup-insert, lookup-delete, String, ◌≡◌, sym, ap, ◌∙◌, ◌≢◌, true, false, none,
  some, List, [], ◌∷◌, lookup, arith,
}

-- What a PUT does not conflict with, no command of its key conflicts with.
IsClear-of_put :
    (m : List (ProposeId × CurpClientCommand)) (p h : CurpClientCommand)
    → p.op ≡ Op.put
    → h.key ≡ p.key
    → IsClear m p
    → IsClear m h
unfolding conflict
IsClear-of_put [] p h put key c = tt
IsClear-of_put (e ∷ m) p h put key c = (ground arith, IsClear-of_put m p h put key c.1)

insert_if_not_conflict_found :
    (w : Witness) (p : CurpClientCommand)
    → (insert_if_not_conflict w p).1 ≡ true
    → (insert_if_not_conflict w p).0 ≡ w
unfolding insert_if_not_conflict
insert_if_not_conflict_found w p h = ground arith

module _ (K : KvStore) (G : Gob) where
  -- A proposal leaves the store, the command set and the role alone.
  pub propose_keeps :
      (s : StateMachine K) (p : CurpClientCommand)
      → ((propose K G s p).0.kv_store ≡ s.kv_store)
        × ((propose K G s p).0.command_set ≡ s.command_set)
        × ((propose K G s p).0.raft_state ≡ s.raft_state)
        × ((propose K G s p).0.witness ≡ (insert_if_not_conflict s.witness p).0)
  unfolding propose
  propose_keeps s p = ground arith

module _ (K : KvStore) where
  pub work_fast_witness :
      (s : StateMachine K) (c : CurpClientCommand) {t : StateMachine K}
      → work_fast K s c ≡ some t
      → t.witness ≡ s.witness
  unfolding work_fast
  work_fast_witness s c h = ground arith

  -- The commit of a GET changes no store, and only its own records.
  work_slow_get :
      (s : StateMachine K) (g : CurpClientCommand) (id : ProposeId) {t : StateMachine K}
      → g.op ≡ Op.get
      → id ≢ propose_id g
      → work_slow K s g ≡ some t
      → (t.kv_store ≡ s.kv_store)
        × (t.witness ≡ remove s.witness (propose_id g))
        × (lookup ProposeId-discrete id t.command_set ≡ lookup ProposeId-discrete id s.command_set)
  unfolding work_slow execute_async
  work_slow_get s g id {t} o ne h = ground (
    arith,
    lookup-delete ProposeId-discrete id (propose_id g) s.command_set,
    lookup-delete ProposeId-discrete id (propose_id g)
        (insert ProposeId-discrete (propose_id g) tt s.command_set),
    lookup-insert ProposeId-discrete id (propose_id g) tt s.command_set,
  )

module _ (K : KvStore) (L : IsStore K) (G : Gob) where
  -- The leader's witness holds a GET of a key and nothing else that bears on it. A PUT of the key is
  -- proposed, found in conflict, and executed on the fast path; then the commit of the GET arrives.
  -- The PUT is neither committed nor in the witness, yet a second GET of the key is now accepted
  -- without conflict, and its execution answers with the value of the PUT.
  pub uncommitted_read :
      (s : StateMachine K) (g p h : CurpClientCommand) (k v : String) {t u : StateMachine K}
      → g.op ≡ Op.get
      → Puts p k v
      → h.op ≡ Op.get
      → h.key ≡ k
      → propose_id p ≢ propose_id g
      → lookup ProposeId-discrete (propose_id p) s.command_set ≡ none
      → lookup ProposeId-discrete (propose_id p) s.witness.command_map ≡ none
      → (insert_if_not_conflict s.witness p).1 ≡ true
      → IsClear (delete ProposeId-discrete (propose_id g) s.witness.command_map) p
      → work_fast K (propose K G s p).0 p ≡ some t
      → work_slow K t g ≡ some u
      → (lookup ProposeId-discrete (propose_id p) u.witness.command_map ≡ none)
        × (lookup ProposeId-discrete (propose_id p) u.command_set ≡ some tt)
        × ((insert_if_not_conflict u.witness h).1 ≡ false)
        × ((execute_sync K u.kv_store h).1 ≡ v)
  unfolding remove
  uncommitted_read s g p h k v {t} {u} gop pput hop hkey ne fresh unseen found clear f w =
      let (kv0, set0, raft0, wit0) = propose_keeps K G s p in
      let same_witness = insert_if_not_conflict_found s.witness p found in
      let (kv1, set1, _) = fast_round K (propose K G s p).0 p {t = t} (rw set0 fresh) f in
      let wit1 = work_fast_witness K (propose K G s p).0 p {t = t} f in
      let (kv2, wit2, set2) = work_slow_get K t g (propose_id p) {t = u} gop ne w in
      let left : u.witness ≡ remove s.witness (propose_id g) =
        wit2 ∙ ap (λ x. remove x (propose_id g)) (wit1 ∙ wit0 ∙ same_witness) in
      (
        rw left (
            ground (
              arith,
              lookup-delete ProposeId-discrete (propose_id p) (propose_id g) s.witness.command_map,
            )),
        set2
            ∙ rw set1 (
                ground (
                  arith,
                  lookup-insert ProposeId-discrete (propose_id p) (propose_id p) tt
                      (propose K G s p).0.command_set,
                )),
        (insert_if_not_conflict_iff u.witness h).1
            (rw left (IsClear-of_put _ p h pput.0 (hkey ∙ sym pput.1) clear)),
        result-execute_sync K L u.kv_store h
            ∙ rw (kv2, kv1)
                (ground (arith, get-execute_sync K L (propose K G s p).0.kv_store p h.key)),
      )
