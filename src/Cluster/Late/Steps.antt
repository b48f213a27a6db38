-- ===== src/Cluster/Late/Steps.antt =====
-- What holds of each server while commits are late, and the steps that keep it.
use curp.Command.{CurpClientCommand, ProposeId, ProposeId-discrete, propose_id}
use curp.Kv.{KvStore}
use curp.Machine.{StateMachine, is_leader, is_state_leader}
use curp.Machine.Replay.{execute_all}
use curp.Machine.Steps.{Gob}
use curp.Cluster.{commit}
use curp.Cluster.Serving.{id_of}
use curp.Cluster.Late.{Member, commit_all}
use curp.Cluster.Late.Server.{IsIdle, Told, commit_leader}
use curp.Board.Channels.{Distinct, Rooms, Woken, SameBut-Rooms, SameBut-Woken}
use curp.Board.Room.{HasRoom}
use curp.Prelude.{
  All, insert, delete, lookup-insert, lookup-delete, ℕ, ◌≤◌, ◌<◌, ◌≡◌, refl, sym, ap, ◌∙◌, ◌≢◌, ◌⊎◌,
  if_neg, true, false, none, some, List, [], ◌∷◌, lookup, arith,
}

-- The command is one that the client has sent.
abbrev pub Sent : ℕ → ℕ → CurpClientCommand → Type 0
Sent client_id seq_id c = (n : ℕ) × (n ≤ seq_id) × (propose_id c ≡ id_of client_id n)

pub Sent-new :
    (client_id seq_id n : ℕ) (c : CurpClientCommand)
    → seq_id < n
    → Sent client_id seq_id c
    → propose_id c ≢ id_of client_id n
Sent-new client_id seq_id n c k (i, l, e) same =
    let both : i ≡ n = ap (λ (x : ProposeId). x.seq_id) (sym e ∙ same) in omega arith

module _ (K : KvStore) (G : Gob) where
  -- A leader has executed all of the client's commands.
  pub record Leads (client_id seq_id : ℕ) (kv : K.Store) (m : Member K) : Type 0 where
    pub idle : IsIdle K G m.machine
    pub leads : is_leader K m.machine ≡ true
    pub same : m.machine.kv_store ≡ kv
    pub marked :
        All
          (λ c. lookup ProposeId-discrete (propose_id c) m.machine.command_set ≡ some tt)
          m.waiting
    pub unmarked :
        (n : ℕ)
        → seq_id < n
        → lookup ProposeId-discrete (id_of client_id n) m.machine.command_set ≡ none
    pub unanswered :
        (n : ℕ)
        → seq_id < n
        → lookup ProposeId-discrete (id_of client_id n) m.machine.command_board.er_buffer ≡ none

  -- Another server has executed all but those that wait.
  pub record Follows (kv : K.Store) (m : Member K) : Type 0 where
    pub idle : IsIdle K G m.machine
    pub follows : is_leader K m.machine ≡ false
    pub behind : execute_all K m.machine.kv_store m.waiting ≡ kv

  pub record InStep (client_id seq_id : ℕ) (kv : K.Store) (m : Member K) : Type 0 where
    pub sent : All (Sent client_id seq_id) m.waiting
    pub distinct : Distinct m.waiting
    pub role : Leads client_id seq_id kv m ⊎ Follows kv m
    pub asr_room : Rooms m.machine.command_board.asr_notifiers m.waiting
    pub asr_new :
        (n : ℕ) → seq_id < n → HasRoom m.machine.command_board.asr_notifiers (id_of client_id n)

  marked_later :
      (c : CurpClientCommand) (cs : List CurpClientCommand) (marks : List (ProposeId × Unit {0}))
      → All (λ d. propose_id d ≢ propose_id c) cs
      → All (λ d. lookup ProposeId-discrete (propose_id d) marks ≡ some tt) cs
      → All
          (λ d.
            lookup ProposeId-discrete
              (propose_id d)
              (delete ProposeId-discrete (propose_id c) marks)
            ≡ some tt)
          cs
  marked_later c [] marks h m = tt
  marked_later c (d ∷ cs) marks h m = (
    lookup-delete ProposeId-discrete (propose_id d) (propose_id c) marks
        ∙ if_neg (ProposeId-discrete (propose_id d) (propose_id c)) h.0 none
            (lookup ProposeId-discrete (propose_id d) marks)
        ∙ m.0,
    marked_later c cs marks h.1 m.1,
  )

  -- The leader commits the next command.
  pub commit-Leads :
      (client_id seq_id : ℕ) (kv : K.Store) (s : StateMachine K) (c : CurpClientCommand)
      (cs : List CurpClientCommand)
      → G.decode (G.encode c) ≡ some c
      → All (λ d. propose_id d ≢ propose_id c) cs
      → HasRoom s.command_board.asr_notifiers (propose_id c)
      → Leads client_id seq_id kv (record { machine = s; waiting = c ∷ cs })
      → (t : StateMachine K) × (commit K G s c ≡ some t)
        × Leads client_id seq_id kv (record { machine = t; waiting = cs })
        × Told K G s c t
        × (t.raft_state ≡ s.raft_state)
        × (t.command_board.er_buffer ≡ s.command_board.er_buffer)
        × (t.command_board.asr_buffer
            ≡ insert ProposeId-discrete (propose_id c) tt s.command_board.asr_buffer)
  commit-Leads client_id seq_id kv s c cs sent apart room h =
      let (t, e, idle, told, role, same, marks, er, asr) =
        commit_leader K G s c h.leads sent h.marked.0 h.idle room in
      (
        t,
        e,
        record {
          idle = idle;
          leads = ap is_state_leader role ∙ h.leads;
          same = same ∙ h.same;
          marked = rw marks (marked_later c cs s.command_set apart h.marked.1);
          unmarked = λ n l. rw marks (
              ground (
                arith,
                h.unmarked n l,
                lookup-delete ProposeId-discrete (id_of client_id n) (propose_id c) s.command_set,
              ));
          unanswered = λ n l. rw er (h.unanswered n l);
        },
        told,
        role,
        er,
        asr,
      )

  -- The leader commits everything that waits.
  pub commit_all-Leads :
      (client_id seq_id : ℕ) (kv : K.Store) (s : StateMachine K) (cs : List CurpClientCommand)
      → ((c : CurpClientCommand) → G.decode (G.encode c) ≡ some c)
      → Distinct cs
      → Rooms s.command_board.asr_notifiers cs
      → Leads client_id seq_id kv (record { machine = s; waiting = cs })
      → (t : StateMachine K) × (commit_all K G s cs ≡ some t)
        × Leads client_id seq_id kv (record { machine = t; waiting = [] })
        × ((j : ProposeId)
            → All (λ c. propose_id c ≢ j) cs
            → lookup ProposeId-discrete j t.command_board.asr_notifiers
              ≡ lookup ProposeId-discrete j s.command_board.asr_notifiers)
        × Woken s.command_board.asr_notifiers t.command_board.asr_notifiers cs
        × (t.raft_state ≡ s.raft_state)
        × (t.command_board.er_buffer ≡ s.command_board.er_buffer)
        × ((i : ProposeId)
            → lookup ProposeId-discrete i s.command_board.asr_buffer ≡ some tt
            → lookup ProposeId-discrete i t.command_board.asr_buffer ≡ some tt)
        × All
            (λ c. lookup ProposeId-discrete (propose_id c) t.command_board.asr_buffer ≡ some tt)
            cs
  unfolding commit_all
  commit_all-Leads client_id seq_id kv s [] lossless apart rooms h =
      (s, refl, h, λ j a. refl, tt, refl, refl, λ i k. k, tt)
  commit_all-Leads client_id seq_id kv s (c ∷ cs) lossless apart rooms h =
      let (t, e, h', told, role, er, asr) =
        commit-Leads client_id seq_id kv s c cs (lossless c) apart.0 rooms.0 h in
      let (u, e', h'', others, woken, role', er', kept, all) =
        commit_all-Leads client_id seq_id kv t cs lossless apart.1
          (SameBut-Rooms (propose_id c) s.command_board.asr_notifiers t.command_board.asr_notifiers
            cs told.others apart.0 rooms.1)
          h' in
      (
        u,
        ground arith,
        h'',
        λ j a. others j a.1 ∙ told.others j (λ same. a.0 (sym same)),
        (
          λ empty. others (propose_id c) apart.0 ∙ told.own empty,
          SameBut-Woken (propose_id c) s.command_board.asr_notifiers t.command_board.asr_notifiers
              u.command_board.asr_notifiers cs told.others apart.0 woken,
        ),
        role' ∙ role,
        er' ∙ er,
        λ i k. kept i (
            rw asr (
              ground (
                arith,
                lookup-insert ProposeId-discrete i (propose_id c) tt s.command_board.asr_buffer,
              ))),
        (
          kept (propose_id c) (
              rw asr (
                ground (
                  arith,
                  lookup-insert ProposeId-discrete (propose_id c) (propose_id c) tt
                      s.command_board.asr_buffer,
                ))),
          all,
        ),
      )
