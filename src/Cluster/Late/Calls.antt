-- ===== src/Cluster/Late/Calls.antt =====
-- The call of `Propose`, a commit and `WaitSynced` at one server while commits are late.
use curp.Command.{CurpClientCommand, CurpReply, ProposeId, ProposeId-discrete, propose_id, reply}
use curp.Command.Op
use curp.Kv.{KvStore}
use curp.Board.Room.{HasRoom}
use curp.Machine.{is_leader, is_state_leader, execute_sync}
use curp.Machine.Replay.{execute_all}
use curp.Machine.Steps.{Gob, status_of}
use curp.Witness.{insert_if_not_conflict}
use curp.Cluster.Serving.{id_of}
use curp.Cluster.Late.{Member, member_call}
use curp.Cluster.Late.Server.{call_leader, call_follower}
use curp.Cluster.Late.Steps.{Sent, InStep}
use curp.Board.Channels.{Distinct}
use curp.Prelude.{
  All, insert, lookup-insert, lookup-insert_ne, ℕ, ◌+◌, ◌≤◌, ◌<◌, String, ◌≡◌, refl, sym, ap, subst,
  ◌∙◌, ◌≢◌, inl, inr, true, none, some, List, [], ◌∷◌, ◌++◌, lookup, arith,
}

-- One command more at the end.
Sent-later :
    (client_id seq_id : ℕ) (cmd : CurpClientCommand) (cs : List CurpClientCommand)
    → propose_id cmd ≡ id_of client_id (seq_id + 1)
    → All (Sent client_id seq_id) cs
    → All (Sent client_id (seq_id + 1)) (cs ++ cmd ∷ [])
Sent-later client_id seq_id cmd [] e h = ((seq_id + 1, omega arith, e), tt)
Sent-later client_id seq_id cmd (c ∷ cs) e h =
    let (n, l, i) = h.0 in ((n, omega arith, i), Sent-later client_id seq_id cmd cs e h.1)

Sent-ne :
    (client_id seq_id : ℕ) (cmd c : CurpClientCommand)
    → propose_id cmd ≡ id_of client_id (seq_id + 1)
    → Sent client_id seq_id c
    → propose_id c ≢ propose_id cmd
Sent-ne client_id seq_id cmd c e (n, l, i) same =
    let both : n ≡ seq_id + 1 = ap (λ (x : ProposeId). x.seq_id) (sym i ∙ same ∙ e) in omega arith

All-snoc :
    (P : CurpClientCommand → Type 0) (cmd : CurpClientCommand) (cs : List CurpClientCommand)
    → All P cs
    → P cmd
    → All P (cs ++ cmd ∷ [])
All-snoc P cmd [] h p = (p, tt)
All-snoc P cmd (c ∷ cs) h p = (h.0, All-snoc P cmd cs h.1 p)

pub All-last :
    (P : CurpClientCommand → Type 0) (cmd : CurpClientCommand) (cs : List CurpClientCommand)
    → All P (cs ++ cmd ∷ [])
    → P cmd
All-last P cmd [] h = h.0
All-last P cmd (c ∷ cs) h = All-last P cmd cs h.1

Distinct-later :
    (client_id seq_id : ℕ) (cmd : CurpClientCommand) (cs : List CurpClientCommand)
    → propose_id cmd ≡ id_of client_id (seq_id + 1)
    → All (Sent client_id seq_id) cs
    → Distinct cs
    → Distinct (cs ++ cmd ∷ [])
Distinct-later client_id seq_id cmd [] e s h = (tt, tt)
Distinct-later client_id seq_id cmd (c ∷ cs) e s h = (
  All-snoc (λ d. propose_id d ≢ propose_id c) cmd cs h.0
      (λ same. Sent-ne client_id seq_id cmd c e s.0 (sym same)),
  Distinct-later client_id seq_id cmd cs e s.1 h.1,
)

marked_too :
    (client_id seq_id : ℕ) (cmd : CurpClientCommand) (cs : List CurpClientCommand)
    (marks : List (ProposeId × Unit {0}))
    → propose_id cmd ≡ id_of client_id (seq_id + 1)
    → All (λ c. lookup ProposeId-discrete (propose_id c) marks ≡ some tt) cs
    → All
        (λ c.
          lookup ProposeId-discrete
            (propose_id c)
            (insert ProposeId-discrete (propose_id cmd) tt marks)
          ≡ some tt)
        cs
marked_too client_id seq_id cmd [] marks e h = tt
marked_too client_id seq_id cmd (c ∷ cs) marks e h = (
  ground (arith, h.0, lookup-insert ProposeId-discrete (propose_id c) (propose_id cmd) tt marks),
  marked_too client_id seq_id cmd cs marks e h.1,
)

module _ (K : KvStore) (G : Gob) where
  execute_all-snoc :
      (kv : K.Store) (cs : List CurpClientCommand) (cmd : CurpClientCommand)
      → execute_all K kv (cs ++ cmd ∷ []) ≡ (execute_sync K (execute_all K kv cs) cmd).0
  unfolding execute_all
  execute_all-snoc kv [] cmd = refl
  execute_all-snoc kv (c ∷ cs) cmd = execute_all-snoc (execute_sync K kv c).0 cs cmd

  -- What a leader has after its reply.
  pub record Answered (cmd : CurpClientCommand) (text : String) (m : Member K) : Type 0 where
    pub last : (cs : List CurpClientCommand) × (m.waiting ≡ cs ++ cmd ∷ [])
    pub stored :
        lookup ProposeId-discrete (propose_id cmd) m.machine.command_board.er_buffer ≡ some text

  -- The reply of a server, and what holds of it afterwards.
  pub record Called (client_id seq_id : ℕ) (kv : K.Store) (cmd : CurpClientCommand) (m : Member K)
      (y : Member K × CurpReply) : Type 0 where
    pub in_step : InStep K G client_id (seq_id + 1) (execute_sync K kv cmd).0 y.0
    pub same_role : y.0.machine.raft_state ≡ m.machine.raft_state
    pub text : is_leader K m.machine ≡ true → y.1.content ≡ (execute_sync K kv cmd).1
    pub answered : is_leader K m.machine ≡ true → Answered cmd (execute_sync K kv cmd).1 y.0

  id_later :
      (client_id seq_id : ℕ) (cmd : CurpClientCommand) (n : ℕ)
      → propose_id cmd ≡ id_of client_id (seq_id + 1)
      → seq_id + 1 < n
      → id_of client_id n ≢ propose_id cmd
  id_later client_id seq_id cmd n e l same =
      let both : n ≡ seq_id + 1 = ap (λ (x : ProposeId). x.seq_id) (same ∙ e) in omega arith

  pub member_call-InStep :
      (client_id seq_id : ℕ) (kv : K.Store) (cmd : CurpClientCommand)
      → cmd.op ≤ Op.wlock
      → propose_id cmd ≡ id_of client_id (seq_id + 1)
      → (m : Member K) → InStep K G client_id seq_id kv m
      → (y : Member K × CurpReply) × (member_call K G cmd m ≡ some y)
        × Called client_id seq_id kv cmd m y
  unfolding member_call
  member_call-InStep client_id seq_id kv cmd o id m h = elim h.role [
    | inr f ↦
        let (t, r, e, idle, ns, role, store) = call_follower K G m.machine cmd f.follows o f.idle in
        (
          (record { machine = t; waiting = m.waiting ++ cmd ∷ [] }, r),
          ground arith,
          record {
            in_step = record {
              sent = Sent-later client_id seq_id cmd m.waiting id h.sent;
              distinct = Distinct-later client_id seq_id cmd m.waiting id h.sent h.distinct;
              asr_room = rw ns (
                  All-snoc (λ c. HasRoom m.machine.command_board.asr_notifiers (propose_id c)) cmd
                    m.waiting h.asr_room
                    (subst (HasRoom m.machine.command_board.asr_notifiers)
                      {x = id_of client_id (seq_id + 1)} {y = propose_id cmd} (sym id)
                      (h.asr_new (seq_id + 1) (omega arith))));
              asr_new = λ n k. rw ns (h.asr_new n (omega arith));
              role = inr (record {
                idle = idle;
                follows = ap is_state_leader role ∙ f.follows;
                behind =
                    ap (λ x. execute_all K x (m.waiting ++ cmd ∷ [])) store
                    ∙ execute_all-snoc m.machine.kv_store m.waiting cmd
                    ∙ ap (λ x. (execute_sync K x cmd).0) f.behind;
              });
            };
            same_role = role;
            text = λ l. cc (f.follows);
            answered = λ l. absurd (cc (f.follows));
          },
        )
    | inl l ↦
        let unmarked : lookup ProposeId-discrete (propose_id cmd) m.machine.command_set ≡ none =
          subst (λ i. lookup ProposeId-discrete i m.machine.command_set ≡ none)
            {x = id_of client_id (seq_id + 1)} {y = propose_id cmd} (sym id)
            (l.unmarked (seq_id + 1) (omega arith)) in
        let new : lookup ProposeId-discrete (propose_id cmd) m.machine.command_board.er_buffer
            ≡ none =
          subst (λ i. lookup ProposeId-discrete i m.machine.command_board.er_buffer ≡ none)
            {x = id_of client_id (seq_id + 1)} {y = propose_id cmd} (sym id)
            (l.unanswered (seq_id + 1) (omega arith)) in
        let (t, e, idle, ns, role, store, marks, er) =
          call_leader K G m.machine cmd l.leads o unmarked new l.idle in
        (
          (
            record { machine = t; waiting = m.waiting ++ cmd ∷ [] },
            reply (execute_sync K m.machine.kv_store cmd).1
                (status_of (insert_if_not_conflict m.machine.witness cmd).1),
          ),
          ground arith,
          record {
            in_step = record {
              sent = Sent-later client_id seq_id cmd m.waiting id h.sent;
              distinct = Distinct-later client_id seq_id cmd m.waiting id h.sent h.distinct;
              asr_room = rw ns (
                  All-snoc (λ c. HasRoom m.machine.command_board.asr_notifiers (propose_id c)) cmd
                    m.waiting h.asr_room
                    (subst (HasRoom m.machine.command_board.asr_notifiers)
                      {x = id_of client_id (seq_id + 1)} {y = propose_id cmd} (sym id)
                      (h.asr_new (seq_id + 1) (omega arith))));
              asr_new = λ n k. rw ns (h.asr_new n (omega arith));
              role = inl (record {
                idle = idle;
                leads = ap is_state_leader role ∙ l.leads;
                same = store ∙ ap (λ x. (execute_sync K x cmd).0) l.same;
                marked = rw marks (
                    All-snoc
                      (λ c.
                        lookup ProposeId-discrete (propose_id c)
                          (insert ProposeId-discrete (propose_id cmd) tt m.machine.command_set)
                        ≡ some tt)
                      cmd m.waiting
                      (marked_too client_id seq_id cmd m.waiting m.machine.command_set id l.marked)
                      (ground (
                        arith,
                        lookup-insert ProposeId-discrete (propose_id cmd) (propose_id cmd) tt
                            m.machine.command_set,
                      )));
                unmarked = λ n k. rw marks (
                    lookup-insert_ne ProposeId-discrete (id_of client_id n) (propose_id cmd) tt
                      m.machine.command_set (id_later client_id seq_id cmd n id k)
                    ∙ l.unmarked n (omega arith));
                unanswered = λ n k. rw er (
                    lookup-insert_ne ProposeId-discrete (id_of client_id n) (propose_id cmd)
                      (execute_sync K m.machine.kv_store cmd).1 m.machine.command_board.er_buffer
                      (id_later client_id seq_id cmd n id k)
                    ∙ l.unanswered n (omega arith));
              });
            };
            same_role = role;
            text = λ _. ap (λ x. (execute_sync K x cmd).1) l.same;
            answered = λ _. record {
              last = (m.waiting, refl);
              stored = rw er (
                  ground (
                    arith,
                    lookup-insert ProposeId-discrete (propose_id cmd) (propose_id cmd)
                        (execute_sync K m.machine.kv_store cmd).1 m.machine.command_board.er_buffer,
                  )
                  ∙ ap (λ x. some (execute_sync K x cmd).1) l.same);
            };
          },
        )
  ]
