-- ===== src/Cluster/Late/Commits.antt =====
-- A commit at one server while commits are late.
use curp.Command.{CurpClientCommand, propose_id}
use curp.Kv.{KvStore}
use curp.Machine.{StateMachine, is_state_leader}
use curp.Machine.Replay.{execute_all}
use curp.Machine.Steps.{Gob}
use curp.Cluster.{commit}
use curp.Cluster.Serving.{id_of}
use curp.Cluster.Late.{Member, member_commit}
use curp.Cluster.Late.Server.{Told, commit_follower}
use curp.Board.Channels.{Rooms, SameBut-Rooms, SameBut-HasRoom}
use curp.Board.Room.{HasRoom}
use curp.Cluster.Late.Steps.{Sent-new, InStep, commit-Leads}
use curp.Prelude.{ℕ, ◌<◌, ◌≡◌, refl, sym, ap, ◌∙◌, inl, inr, some, List, [], ◌∷◌, arith}

module _ (K : KvStore) (G : Gob) where
  Told-Rooms :
      (client_id seq_id : ℕ) (kv : K.Store) (s t : StateMachine K) (c : CurpClientCommand)
      (cs : List CurpClientCommand)
      → Told K G s c t
      → InStep K G client_id seq_id kv (record { machine = s; waiting = c ∷ cs })
      → Rooms t.command_board.asr_notifiers cs
  Told-Rooms client_id seq_id kv s t c cs told h =
      SameBut-Rooms (propose_id c) s.command_board.asr_notifiers t.command_board.asr_notifiers cs
        told.others h.distinct.0 h.asr_room.1

  Told-HasRoom :
      (client_id seq_id : ℕ) (kv : K.Store) (s t : StateMachine K) (c : CurpClientCommand)
      (cs : List CurpClientCommand)
      → Told K G s c t
      → InStep K G client_id seq_id kv (record { machine = s; waiting = c ∷ cs })
      → (n : ℕ) → seq_id < n
      → HasRoom t.command_board.asr_notifiers (id_of client_id n)
  Told-HasRoom client_id seq_id kv s t c cs told h n l =
      SameBut-HasRoom (propose_id c) (id_of client_id n) s.command_board.asr_notifiers
        t.command_board.asr_notifiers told.others
        (λ same. Sent-new client_id seq_id n c l h.sent.0 (sym same)) (h.asr_new n l)

  -- The server gets its next command.
  next-InStep :
      (client_id seq_id : ℕ) (kv : K.Store) (s : StateMachine K) (c : CurpClientCommand)
      (cs : List CurpClientCommand)
      → G.decode (G.encode c) ≡ some c
      → InStep K G client_id seq_id kv (record { machine = s; waiting = c ∷ cs })
      → (t : StateMachine K) × (commit K G s c ≡ some t)
        × InStep K G client_id seq_id kv (record { machine = t; waiting = cs })
        × (t.raft_state ≡ s.raft_state)
  unfolding execute_all
  next-InStep client_id seq_id kv s c cs sent h = elim h.role [
    | inl l ↦
        let (t, e, l', told, role, _, _) =
          commit-Leads K G client_id seq_id kv s c cs sent h.distinct.0 h.asr_room.0 l in
        (
          t,
          e,
          record {
            sent = h.sent.1;
            distinct = h.distinct.1;
            role = inl l';
            asr_room = Told-Rooms client_id seq_id kv s t c cs told h;
            asr_new = Told-HasRoom client_id seq_id kv s t c cs told h;
          },
          role,
        )
    | inr f ↦
        let (t, e, idle, told, role, store) =
          commit_follower K G s c f.follows sent f.idle h.asr_room.0 in
        (
          t,
          e,
          record {
            sent = h.sent.1;
            distinct = h.distinct.1;
            role = inr (record {
              idle = idle;
              follows = ap is_state_leader role ∙ f.follows;
              behind = ap (λ x. execute_all K x cs) store ∙ f.behind;
            });
            asr_room = Told-Rooms client_id seq_id kv s t c cs told h;
            asr_new = Told-HasRoom client_id seq_id kv s t c cs told h;
          },
          role,
        )
  ]

  first-InStep :
      (client_id seq_id : ℕ) (kv : K.Store) (s : StateMachine K) (cs : List CurpClientCommand)
      → ((c : CurpClientCommand) → G.decode (G.encode c) ≡ some c)
      → InStep K G client_id seq_id kv (record { machine = s; waiting = cs })
      → (n : Member K) × (member_commit K G (record { machine = s; waiting = cs }) ≡ some n)
        × InStep K G client_id seq_id kv n
        × (n.machine.raft_state ≡ s.raft_state)
  unfolding member_commit
  first-InStep client_id seq_id kv s [] lossless h =
      (record { machine = s; waiting = [] }, refl, h, refl)
  first-InStep client_id seq_id kv s (c ∷ cs) lossless h =
      let (t, e, h', role) = next-InStep client_id seq_id kv s c cs (lossless c) h in
      (record { machine = t; waiting = cs }, ground arith, h', role)

  pub member_commit-InStep :
      (client_id seq_id : ℕ) (kv : K.Store) (m : Member K)
      → ((c : CurpClientCommand) → G.decode (G.encode c) ≡ some c)
      → InStep K G client_id seq_id kv m
      → (n : Member K) × (member_commit K G m ≡ some n)
        × InStep K G client_id seq_id kv n
        × (n.machine.raft_state ≡ m.machine.raft_state)
  member_commit-InStep client_id seq_id kv m lossless h =
      first-InStep client_id seq_id kv m.machine m.waiting lossless h
