-- ===== src/Cluster/Late/Syncs.antt =====
-- `WaitSynced` at the leader while commits are late: after the commits, and before them.
use curp.Command.{CurpClientCommand, ProposeId-discrete, propose_id, reply}
use curp.Command.Status
use curp.Kv.{KvStore}
use curp.Board.{forget, register}
use curp.Board.Room.{HasRoom}
use curp.Board.Free.{register-HasRoom}
use curp.Machine.{is_leader}
use curp.Machine.Steps.{Gob}
use curp.Cluster.Serving.{id_of}
use curp.Cluster.Late.{Member, member_sync}
use curp.Board.Channels.{Rooms, All-Rooms}
use curp.Cluster.Late.Waits.{
  inserted_room, All-Sent-new, forget-Leads, asked-Leads, sync_lem, asked, early_lem, woken,
  resumes_lem,
}
use curp.Cluster.Late.Steps.{Leads, InStep, commit_all-Leads}
use curp.Cluster.Late.Calls.{Answered, All-last}
use curp.Prelude.{
  Option-cases, All, insert, ℕ, String, ◌≡◌, refl, sym, subst, ◌∙◌, inl, inr, Bool, true, false,
  none, some, [], ◌∷◌, ◌++◌, lookup, arith,
}

module _ (K : KvStore) (G : Gob) where
  -- `WaitSynced` for the command that the leader got last.
  abbrev pub Synced :
      (client_id seq_id : ℕ) (kv : K.Store) (cmd : CurpClientCommand) (text : String) (early : Bool)
      (m : Member K)
      → Type 0
  Synced client_id seq_id kv cmd text early m =
      (n : Member K) × (member_sync K G (propose_id cmd) early m
        ≡ some (n, reply text Status.accepted))
      × InStep K G client_id seq_id kv n
      × (n.machine.raft_state ≡ m.machine.raft_state)

  -- The call comes after the commits.
  after_commits :
      (client_id seq_id : ℕ) (kv : K.Store) (cmd : CurpClientCommand) (text : String) (m : Member K)
      → ((c : CurpClientCommand) → G.decode (G.encode c) ≡ some c)
      → Leads K G client_id seq_id kv m
      → InStep K G client_id seq_id kv m
      → Answered K G cmd text m
      → Synced client_id seq_id kv cmd text false m
  unfolding member_sync forget
  after_commits client_id seq_id kv cmd text m lossless l h a =
      let (t, e, l', others, _, role, er, _, all) =
        commit_all-Leads K G client_id seq_id kv m.machine m.waiting lossless h.distinct h.asr_room
          l in
      let id = propose_id cmd in
      let marked : lookup ProposeId-discrete id t.command_board.asr_buffer ≡ some tt =
        All-last
          (λ c. lookup ProposeId-discrete (propose_id c) t.command_board.asr_buffer ≡ some tt) cmd
          a.last.0
          (subst
            (All
              (λ c. lookup ProposeId-discrete (propose_id c) t.command_board.asr_buffer ≡ some tt))
            {x = m.waiting} {y = a.last.0 ++ cmd ∷ []} a.last.1 all) in
      let synced = sync_lem K t id text marked (rw er a.stored) in
      (
        record { machine = record t { command_board = forget t.command_board id }; waiting = [] },
        ground arith,
        record {
          sent = tt;
          distinct = tt;
          role =
              inl (forget-Leads K G client_id seq_id kv t [] id t.command_board.asr_notifiers l');
          asr_room = tt;
          asr_new = λ n k b j. h.asr_new n k b (
              sym (others (id_of client_id n) (All-Sent-new client_id seq_id n m.waiting k h.sent))
              ∙ j);
        },
        role,
      )

  -- The sync of the command has come already.
  at_once :
      (client_id seq_id : ℕ) (kv : K.Store) (cmd : CurpClientCommand) (text : String) (m : Member K)
      → lookup ProposeId-discrete (propose_id cmd) m.machine.command_board.asr_buffer ≡ some tt
      → Leads K G client_id seq_id kv m
      → InStep K G client_id seq_id kv m
      → Answered K G cmd text m
      → Synced client_id seq_id kv cmd text true m
  unfolding member_sync forget
  at_once client_id seq_id kv cmd text m synced l h a =
      let id = propose_id cmd in
      let e = sync_lem K m.machine id text synced a.stored in
      (
        record {
          machine = record m.machine { command_board = forget m.machine.command_board id };
          waiting = m.waiting;
        },
        ground arith,
        record {
          sent = h.sent;
          distinct = h.distinct;
          role = inl (
              forget-Leads K G client_id seq_id kv m.machine m.waiting id
                m.machine.command_board.asr_notifiers l);
          asr_room = h.asr_room;
          asr_new = h.asr_new;
        },
        refl,
      )

  -- The call waits, the commits come, and it wakes up.
  before_commits :
      (client_id seq_id : ℕ) (kv : K.Store) (cmd : CurpClientCommand) (text : String) (m : Member K)
      → ((c : CurpClientCommand) → G.decode (G.encode c) ≡ some c)
      → lookup ProposeId-discrete (propose_id cmd) m.machine.command_board.asr_buffer ≡ none
      → Leads K G client_id seq_id kv m
      → InStep K G client_id seq_id kv m
      → Answered K G cmd text m
      → Synced client_id seq_id kv cmd text true m
  unfolding member_sync forget
  before_commits client_id seq_id kv cmd text m lossless early l h a =
      let id = propose_id cmd in
      let s = m.machine in
      let ns = s.command_board.asr_notifiers in
      let room =
        All-last (λ c. HasRoom ns (propose_id c)) cmd a.last.0
          (subst (Rooms ns) {x = m.waiting} {y = a.last.0 ++ cmd ∷ []} a.last.1 h.asr_room) in
      let (empty, rooms) = register-HasRoom ns id room in
      let (t, e, l', others, woken_all, role, er, _, _) =
        commit_all-Leads K G client_id seq_id kv (asked K s id) m.waiting lossless h.distinct
          (All-Rooms ns (register ns id) m.waiting rooms h.asr_room)
          (asked-Leads K G client_id seq_id kv s m.waiting id l) in
      let ms = t.command_board.asr_notifiers in
      let told =
        All-last
          (λ c.
            lookup ProposeId-discrete (propose_id c) (register ns id) ≡ some none
            → lookup ProposeId-discrete (propose_id c) ms ≡ some (some tt))
          cmd a.last.0
          (subst
            (All (λ c.
              lookup ProposeId-discrete (propose_id c) (register ns id) ≡ some none
              → lookup ProposeId-discrete (propose_id c) ms ≡ some (some tt)))
            {x = m.waiting} {y = a.last.0 ++ cmd ∷ []} a.last.1 woken_all)
          empty in
      let waits = early_lem K s id early in
      let wakes = resumes_lem K t id text told (rw er a.stored) in
      (
        record { machine = woken K t id; waiting = [] },
        ground arith,
        record {
          sent = tt;
          distinct = tt;
          role = inl (
              forget-Leads K G client_id seq_id kv t [] id (insert ProposeId-discrete id none ms)
                l');
          asr_room = tt;
          asr_new = λ n k. inserted_room id (id_of client_id n) ms (λ b j.
              rooms (id_of client_id n) (h.asr_new n k) b (
                sym
                  (others (id_of client_id n) (All-Sent-new client_id seq_id n m.waiting k h.sent))
                ∙ j));
        },
        role,
      )

  -- `WaitSynced` at the leader, for the command that it got last.
  pub member_sync-Answered :
      (client_id seq_id : ℕ) (kv : K.Store) (cmd : CurpClientCommand) (text : String) (early : Bool)
      (m : Member K)
      → ((c : CurpClientCommand) → G.decode (G.encode c) ≡ some c)
      → is_leader K m.machine ≡ true
      → InStep K G client_id seq_id kv m
      → Answered K G cmd text m
      → Synced client_id seq_id kv cmd text early m
  member_sync-Answered client_id seq_id kv cmd text false m lossless leads h a = elim h.role [
    | inr f ↦ cc (f.follows)
    | inl l ↦ after_commits client_id seq_id kv cmd text m lossless l h a
  ]
  member_sync-Answered client_id seq_id kv cmd text true m lossless leads h a = elim h.role [
    | inr f ↦ cc (f.follows)
    | inl l ↦
        elim (Option-cases
          (lookup ProposeId-discrete (propose_id cmd) m.machine.command_board.asr_buffer)) [
            | inl early ↦ before_commits client_id seq_id kv cmd text m lossless early l h a
            | inr (u, synced) ↦ at_once client_id seq_id kv cmd text m synced l h a
          ]
  ]
