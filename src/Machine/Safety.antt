-- ===== src/Machine/Safety.antt =====
-- What holds in every state that curp/state.go can reach, and of every reply of a leader.
use curp.Command.{CurpClientCommand, CurpReply, ProposeId, ProposeId-discrete, propose_id}
use curp.Kv.{KvStore}
use curp.Board.{CommandBoard, insert_er, notify_asr, receive_er, receive_asr, resume_asr}
use curp.Board.Answers.{
  receive_er-Sound, received, Inserts, Event, inserts_er, notifies_asr, waits_er, receives_er,
  waits_asr, receives_asr, resumes_asr, apply, Sound, new_board-Sound, apply-Sound, Sound-map,
}
use curp.Witness.Invariant.{Inv, new_witness-Inv, insert_if_not_conflict-Inv, remove-Inv}
use curp.Machine.{StateMachine, execute_sync}
use curp.Machine.Steps.{
  Gob, announce, await_er, propose_resumes, wait_synced, wait_synced_resumes, listen_raft_state,
  work_fast, slow_execute, slow_notify, remove_record,
}
use curp.Machine.EarlyReads.{work_fast_witness}
use curp.Machine.Commits.{Snapshotter, runs, read_texts, read_commit}
use curp.Machine.Reach.{
  Working, Step, records, announces, awaits, resumes, syncs, sync_resumes, changes_role, works_fast,
  executes_slow, notifies, removes, commits, Reach, start, later, Executes, Executed, IsSound,
}
use curp.Prelude.{
  Option-cases, String, ◌≡◌, refl, ap, ◌⊎◌, inl, inr, Bool, Option, none, some, List, [], ◌∷◌, ◌++◌,
  lookup, arith,
}

module _ (K : KvStore) (G : Gob) where
  announce_keeps :
      (s : StateMachine K) (cmd : CurpClientCommand) (b : Bool)
      → ((announce K G s cmd b).0.witness ≡ s.witness)
        × ((announce K G s cmd b).0.command_board ≡ s.command_board)
  unfolding announce
  announce_keeps s cmd b = ground arith

  propose_resumes_board :
      (s : StateMachine K) (cmd : CurpClientCommand) (b : Bool) {t : StateMachine K} {r : CurpReply}
      → propose_resumes K G s cmd b ≡ some (t, r)
      → (t.witness ≡ s.witness)
        × (receive_er s.command_board (propose_id cmd) ≡ some (r.content, t.command_board))
  unfolding propose_resumes
  propose_resumes_board s cmd b h = ground arith

  wait_synced_resumes_board :
      (s : StateMachine K) (id : ProposeId) {t : StateMachine K} {r : CurpReply}
      → wait_synced_resumes K s id ≡ some (t, r)
      → (t.witness ≡ s.witness)
        × (c : CommandBoard) × (receive_asr s.command_board id ≡ some c)
        × (t.command_board ≡ (resume_asr c id).0)
        × (r.content ≡ (resume_asr c id).1)
  unfolding wait_synced_resumes
  wait_synced_resumes_board s id {t} {r} h = elim (Option-cases (receive_asr s.command_board id)) [
    | inl waits ↦ absurd (ground arith)
    | inr (c, woken) ↦ (ground arith, c, woken, ground arith, ground arith)
  ]

  work_fast_board :
      (s : StateMachine K) (cmd : CurpClientCommand) {t : StateMachine K}
      → work_fast K s cmd ≡ some t
      → (t.command_board ≡ s.command_board)
        ⊎ ((insert_er s.command_board (propose_id cmd) (execute_sync K s.kv_store cmd).1
              ≡ some t.command_board)
            × (lookup ProposeId-discrete (propose_id cmd) s.command_set ≡ none))
  unfolding work_fast
  work_fast_board s cmd h =
      elim (Option-cases (lookup ProposeId-discrete (propose_id cmd) s.command_set)) [
        | inl fresh ↦ inr (ground arith, fresh)
        | inr (u, old) ↦ inl (ground arith)
      ]

  slow_execute_keeps :
      (s : StateMachine K) (cmd : CurpClientCommand)
      → ((slow_execute K s cmd).witness ≡ s.witness)
        × ((slow_execute K s cmd).command_board ≡ s.command_board)
  unfolding slow_execute
  slow_execute_keeps s cmd = ground arith

  slow_notify_board :
      (s : StateMachine K) (cmd : CurpClientCommand) {t : StateMachine K}
      → slow_notify K s cmd ≡ some t
      → (t.witness ≡ s.witness)
        × (notify_asr s.command_board (propose_id cmd) ≡ some t.command_board)
  unfolding slow_notify
  slow_notify_board s cmd h = ground arith

  read_texts_keeps :
      (texts : List String) (s : StateMachine K) {t : StateMachine K}
      → read_texts K G s texts ≡ runs t
      → (t.witness ≡ s.witness) × (t.command_board ≡ s.command_board)
  unfolding read_texts
  read_texts_keeps [] s h = ground arith
  read_texts_keeps (text ∷ texts) s {t} h = elim (Option-cases (G.decode text)) [
    | inl bad ↦ absurd (ground arith)
    | inr (cmd, good) ↦
        read_texts_keeps texts (record s { slow_path = s.slow_path ++ cmd ∷ [] }) {t = t}
          (ground arith)
  ]

  read_commit_keeps :
      (texts : Option (List String)) (load : Snapshotter) (s : StateMachine K) {t : StateMachine K}
      → read_commit K G s texts load ≡ runs t
      → (t.witness ≡ s.witness) × (t.command_board ≡ s.command_board)
  unfolding read_commit
  read_commit_keeps (some texts) load s h = read_texts_keeps texts s h
  read_commit_keeps none load s h = ground arith

  -- A step of the board, taken from `Board.Answers`.
  Sound-after :
      (P : ProposeId → String → Type 0) (c : CommandBoard) (e : Event) {d : CommandBoard}
      → Inserts P e
      → Sound P c
      → apply c e ≡ some d
      → Sound P d
  Sound-after P c e {d} = apply-Sound P c e {d = d}

  Step-IsSound :
      (P : ProposeId → String → Type 0) {s t : StateMachine K} {w x : Working}
      (st : Step K G s w t x)
      → ((id : ProposeId) (r : String) → Executes K G st id r → P id r)
      → IsSound K G P s
      → IsSound K G P t
  unfolding apply await_er wait_synced listen_raft_state Executes remove_record
  Step-IsSound P {s} (records cmd) f v = record {
    witness = insert_if_not_conflict-Inv s.witness cmd v.witness;
    board = v.board;
  }
  Step-IsSound P {s} (announces cmd b) f v =
      let (w, c) = announce_keeps s cmd b in
      record { witness = rw w v.witness; board = rw c v.board }
  Step-IsSound P {s} (awaits cmd b) f v = record {
    witness = v.witness;
    board = Sound-after P s.command_board (waits_er (propose_id cmd)) tt v.board refl;
  }
  Step-IsSound P {s} {t} (resumes cmd b h) f v =
      let (w, got) = propose_resumes_board s cmd b {t = t} h in
      record {
        witness = rw w v.witness;
        board =
            Sound-after P s.command_board (receives_er (propose_id cmd)) tt v.board
              (ap received got);
      }
  Step-IsSound P {s} (syncs id) f v = record {
    witness = v.witness;
    board = Sound-after P s.command_board (waits_asr id) tt v.board refl;
  }
  Step-IsSound P {s} {t} (sync_resumes id h) f v =
      let (w, c, woken, end, _) = wait_synced_resumes_board s id {t = t} h in
      let ready = Sound-after P s.command_board (receives_asr id) {d = c} tt v.board woken in
      record {
        witness = rw w v.witness;
        board = rw end (Sound-after P c (resumes_asr id) tt ready refl);
      }
  Step-IsSound P (changes_role state) f v = record { witness = v.witness; board = v.board }
  Step-IsSound P {s} {t} (works_fast before after cmd idle e h) f v = record {
    witness =
        rw (work_fast_witness K (record s { fast_path = before ++ after }) cmd {t = t} h) v.witness;
    board = elim (work_fast_board (record s { fast_path = before ++ after }) cmd {t = t} h) [
      | inl same ↦ rw same v.board
      | inr (put, fresh) ↦
          Sound-after P s.command_board
            (inserts_er (propose_id cmd) (execute_sync K s.kv_store cmd).1)
            (f (propose_id cmd) (execute_sync K s.kv_store cmd).1 (refl, refl, fresh)) v.board put
    ];
  }
  Step-IsSound P {s} {t} (executes_slow cmd rest idle e) f v =
      let (w, c) = slow_execute_keeps (record s { slow_path = rest }) cmd in
      record { witness = rw w v.witness; board = rw c v.board }
  Step-IsSound P {s} {t} (notifies cmd at h) f v =
      let (w, put) = slow_notify_board s cmd {t = t} h in
      record {
        witness = rw w v.witness;
        board = Sound-after P s.command_board (notifies_asr (propose_id cmd)) tt v.board put;
      }
  Step-IsSound P {s} {t} (removes cmd at) f v = record {
    witness = remove-Inv s.witness (propose_id cmd) v.witness;
    board = v.board;
  }
  Step-IsSound P {s} {t} (commits texts load h) f v =
      let (w, c) = read_commit_keeps texts load s {t = t} h in
      record { witness = rw w v.witness; board = rw c v.board }

  Reach-IsSound :
      {kv : K.Store} {s : StateMachine K} {w : Working} (reached : Reach K G kv s w)
      → IsSound K G (Executed K G reached) s
  unfolding Executed
  Reach-IsSound {kv} start = record {
    witness = new_witness-Inv;
    board = new_board-Sound (Executed K G {kv = kv} start);
  }
  Reach-IsSound (later {s} {t} r st) =
      let before = Reach-IsSound r in
      Step-IsSound (Executed K G (later r st)) st (λ id x e. inl e)
        (record {
          witness = before.witness;
          board =
              Sound-map (Executed K G r) (Executed K G (later r st)) (λ id x e. inr e)
                s.command_board before.board;
        })

  -- In every state that can be reached, in whatever order the goroutines run, the witness holds each id
  -- once, under the command that has it, and no two commands that conflict.
  pub Reach-witness :
      {kv : K.Store} {s : StateMachine K} {w : Working} → Reach K G kv s w → Inv s.witness
  Reach-witness r = (Reach-IsSound r).witness

  -- However a state was reached, in whatever order the goroutines ran: what a waiting proposal is answered is
  -- what the execution of a command with its id gave, when the worker took that command off the fast path on
  -- the way to this state.
  pub resumes-Executed :
      {kv : K.Store} {s t : StateMachine K} {w : Working} (cmd : CurpClientCommand) (b : Bool)
      {r : CurpReply} (reached : Reach K G kv s w)
      → propose_resumes K G s cmd b ≡ some (t, r)
      → Executed K G reached (propose_id cmd) r.content
  resumes-Executed {s = s} {t = t} cmd b {r} reached h =
      let (_, got) = propose_resumes_board s cmd b {t = t} {r = r} h in
      receive_er-Sound (Executed K G reached) s.command_board (propose_id cmd) {r = r.content}
        {d = t.command_board} (Reach-IsSound reached).board got
