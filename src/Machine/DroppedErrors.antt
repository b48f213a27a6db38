-- ===== src/Machine/DroppedErrors.antt =====
-- What `executeSync` of curp/state.go makes of an error of the store.
use curp.Command.{CurpClientCommand, propose_id, reply}
use curp.Command.Op
use curp.Command.Status
use curp.Kv.{KvStore}
use curp.Witness.{insert_if_not_conflict}
use curp.Machine.{StateMachine, is_leader, execute_sync}
use curp.Machine.Rounds.{IsFresh, command_completes}
use curp.Machine.Steps.{Gob, status_of, propose, propose_resumes, work_fast, work_slow, wait_synced}
use curp.Prelude.{String, ◌≡◌, ap, subst, ◌∙◌, true, false, some, arith}

module _ (K : KvStore) (G : Gob) where
  -- The text with which a put is answered.
  refused_put :
      (kv : K.Store) (cmd : CurpClientCommand) {err : String}
      → cmd.op ≡ Op.put
      → K.put kv cmd.key cmd.value ≡ (kv, some err)
      → execute_sync K kv cmd ≡ (kv, "")
  unfolding execute_sync
  refused_put kv cmd {err} o h = ground (arith, o, h)

  -- If the store of a leader refuses a PUT with an error and stays as it was, the client is told none of it:
  -- where the id is new and the witness finds no conflict, the proposal is answered ACCEPTED, `WaitSynced` is
  -- answered ACCEPTED as well, and the command has changed nothing.
  pub refused_put_accepted :
      (s : StateMachine K) (cmd : CurpClientCommand) {err : String}
      → is_leader K s ≡ true
      → cmd.op ≡ Op.put
      → IsFresh K s cmd
      → (insert_if_not_conflict s.witness cmd).1 ≡ false
      → K.put s.kv_store cmd.key cmd.value ≡ (s.kv_store, some err)
      → (t : StateMachine K) × (u : StateMachine K) × (v : StateMachine K) × (work_fast K
            (propose K G s cmd).0
            cmd
          ≡ some t)
        × (propose_resumes K G t cmd false ≡ some (u, reply "" Status.accepted))
        × (work_slow K u cmd ≡ some v)
        × ((wait_synced K v (propose_id cmd)).1 ≡ some (reply "" Status.accepted))
        × (v.kv_store ≡ s.kv_store)
  refused_put_accepted s cmd {err} l o fresh clear refused =
      let e = refused_put s.kv_store cmd {err = err} o refused in
      let (t, u, v, _, fast, woken, slow, synced, kv) =
        command_completes K G s cmd l (omega arith) fresh in
      (
        t,
        u,
        v,
        fast,
        subst (λ b. propose_resumes K G t cmd b ≡ some (u, reply "" (status_of b)))
            {x = (insert_if_not_conflict s.witness cmd).1} clear
            (woken
              ∙ ap (λ x. some (u, reply x.1 (status_of (insert_if_not_conflict s.witness cmd).1)))
                  e),
        slow,
        synced ∙ ap (λ x. some (reply x.1 Status.accepted)) e,
        kv ∙ ap (λ x. x.0) e,
      )
