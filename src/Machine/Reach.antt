-- ===== src/Machine/Reach.antt =====
-- The interleavings of the goroutines of curp/state.go: the calls, which may come for any command at any time,
-- the worker, the reader of commits and the listener, each a step at a time. The slow case of
-- the worker is three steps, between which others come: the execution, `NotifyAsr` and the removal of the
-- record.
use curp.Command.{CurpClientCommand, CurpReply, ProposeId, ProposeId-discrete, propose_id}
use curp.Kv.{KvStore}
use curp.Board.Answers.{Sound}
use curp.Witness.{insert_if_not_conflict}
use curp.Witness.Invariant.{Inv}
use curp.Machine.{StateMachine, StateType, execute_sync}
use curp.Machine.Steps.{
  Gob, announce, await_er, propose_resumes, wait_synced, wait_synced_resumes, listen_raft_state,
  work_fast, slow_execute, slow_notify, remove_record,
}
use curp.Machine.Commits.{Snapshotter, runs, initial, read_commit}
use curp.Prelude.{String, ◌≡◌, ◌⊎◌, Bool, Option, none, some, List, ◌∷◌, ◌++◌, lookup}

-- Where the worker stands: before its `select`, or in the slow case of a command.
pub data Working : Type 0 where
  selects : Working
  notifies_next : CurpClientCommand → Working
  removes_next : CurpClientCommand → Working

module _ (K : KvStore) (G : Gob) where
  pub data Step (s : StateMachine K) (w : Working) : StateMachine K → Working → Type 0 where
    records :
        (cmd : CurpClientCommand)
        → Step s w (record s { witness = (insert_if_not_conflict s.witness cmd).0 }) w
    announces : (cmd : CurpClientCommand) (b : Bool) → Step s w (announce K G s cmd b).0 w
    awaits : (cmd : CurpClientCommand) (b : Bool) → Step s w (await_er K G s cmd b).0 w
    resumes :
        (cmd : CurpClientCommand) (b : Bool) {t : StateMachine K} {r : CurpReply}
        → propose_resumes K G s cmd b ≡ some (t, r)
        → Step s w t w
    syncs : (id : ProposeId) → Step s w (wait_synced K s id).0 w
    sync_resumes :
        (id : ProposeId) {t : StateMachine K} {r : CurpReply}
        → wait_synced_resumes K s id ≡ some (t, r)
        → Step s w t w
    changes_role : (state : StateType) → Step s w (listen_raft_state K s state) w
    works_fast :
        (before after : List CurpClientCommand) (cmd : CurpClientCommand) {t : StateMachine K}
        → w ≡ selects
        → s.fast_path ≡ before ++ cmd ∷ after
        → work_fast K (record s { fast_path = before ++ after }) cmd ≡ some t
        → Step s w t selects
    executes_slow :
        (cmd : CurpClientCommand) (rest : List CurpClientCommand)
        → w ≡ selects
        → s.slow_path ≡ cmd ∷ rest
        → Step s w (slow_execute K (record s { slow_path = rest }) cmd) (notifies_next cmd)
    notifies :
        (cmd : CurpClientCommand) {t : StateMachine K}
        → w ≡ notifies_next cmd
        → slow_notify K s cmd ≡ some t
        → Step s w t (removes_next cmd)
    removes :
        (cmd : CurpClientCommand) → w ≡ removes_next cmd → Step s w (remove_record K s cmd) selects
    commits :
        (texts : Option (List String)) (load : Snapshotter) {t : StateMachine K}
        → read_commit K G s texts load ≡ runs t
        → Step s w t w

  pub data Reach (kv : K.Store) : StateMachine K → Working → Type 0 where
    start : Reach kv (initial K kv) selects
    later : {s t : StateMachine K} {w x : Working} → Reach kv s w → Step s w t x → Reach kv t x

  -- The step takes a command with this id off the fast path and executes it, with this result.
  unfoldable pub Executes :
      {s t : StateMachine K} {w x : Working} → Step s w t x → ProposeId → String → Type 0
  Executes {s} (works_fast before after cmd idle e h) id r =
      (propose_id cmd ≡ id)
      × ((execute_sync K s.kv_store cmd).1 ≡ r)
      × (lookup ProposeId-discrete (propose_id cmd) s.command_set ≡ none)
  Executes (records cmd) id r = ⊥
  Executes (announces cmd b) id r = ⊥
  Executes (awaits cmd b) id r = ⊥
  Executes (resumes cmd b h) id r = ⊥
  Executes (syncs i) id r = ⊥
  Executes (sync_resumes i h) id r = ⊥
  Executes (changes_role state) id r = ⊥
  Executes (executes_slow cmd rest idle e) id r = ⊥
  Executes (notifies cmd at h) id r = ⊥
  Executes (removes cmd at) id r = ⊥
  Executes (commits texts load h) id r = ⊥

  -- One of the steps so far has done so.
  unfoldable pub Executed :
      {kv : K.Store} {s : StateMachine K} {w : Working} → Reach kv s w → ProposeId → String → Type 0
  Executed start id r = ⊥
  Executed (later reached step) id r = Executes step id r ⊎ Executed reached id r

  pub record IsSound (P : ProposeId → String → Type 0) (s : StateMachine K) : Type 0 where
    pub witness : Inv s.witness
    pub board : Sound P s.command_board
