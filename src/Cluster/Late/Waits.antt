-- ===== src/Cluster/Late/Waits.antt =====
-- `WaitSynced` at one server of curp/state.go, before the commit of its command and after it.
use curp.Command.{ProposeId, ProposeId-discrete, reply}
use curp.Command.Status
use curp.Kv.{KvStore}
use curp.Board.{forget, register, wait_for_asr, receive_asr, resume_asr}
use curp.Machine.{StateMachine}
use curp.Machine.Steps.{wait_synced, wait_synced_resumes}
use curp.Command.{CurpClientCommand, propose_id}
use curp.Board.Room.{HasRoom}
use curp.Machine.Steps.{Gob}
use curp.Cluster.Serving.{id_of}
use curp.Cluster.Late.Steps.{Sent, Sent-new, Leads}
use curp.Prelude.{
  All, insert, lookup-insert, lookup-delete, ℕ, ◌<◌, String, ◌≡◌, ◌≢◌, Option, none, some, List, [],
  ◌∷◌, lookup, arith,
}

-- A channel that has been read, and the other channels.
pub inserted_room :
    (id j : ProposeId) (ns : List (ProposeId × Option (Unit {0})))
    → HasRoom ns j
    → HasRoom (insert ProposeId-discrete id none ns) j
inserted_room id j ns h a k = ground (arith, lookup-insert ProposeId-discrete j id none ns, h a)

pub All-Sent-new :
    (client_id seq_id n : ℕ) (cs : List CurpClientCommand)
    → seq_id < n
    → All (Sent client_id seq_id) cs
    → All (λ c. propose_id c ≢ id_of client_id n) cs
All-Sent-new client_id seq_id n [] k h = tt
All-Sent-new client_id seq_id n (c ∷ cs) k h =
    (Sent-new client_id seq_id n c k h.0, All-Sent-new client_id seq_id n cs k h.1)

module _ (K : KvStore) where
  pub sync_lem :
      (s : StateMachine K) (id : ProposeId) (text : String)
      → lookup ProposeId-discrete id s.command_board.asr_buffer ≡ some tt
      → lookup ProposeId-discrete id s.command_board.er_buffer ≡ some text
      → wait_synced K s id ≡ (
        record s { command_board = forget s.command_board id },
        some (reply text Status.accepted),
      )
  unfolding wait_synced wait_for_asr
  sync_lem s id text synced executed = ground arith

  -- The server with a channel for the call.
  abbrev pub asked : StateMachine K → ProposeId → StateMachine K
  asked s id = record s {
    command_board = record s.command_board {
      asr_notifiers = register s.command_board.asr_notifiers id;
    };
  }

  pub early_lem :
      (s : StateMachine K) (id : ProposeId)
      → lookup ProposeId-discrete id s.command_board.asr_buffer ≡ none
      → wait_synced K s id ≡ (asked s id, none)
  unfolding wait_synced wait_for_asr
  early_lem s id early = ground arith

  -- The server once the call has been woken up.
  abbrev pub woken : StateMachine K → ProposeId → StateMachine K
  woken s id = record s {
    command_board =
        forget
          (record s.command_board {
            asr_notifiers = insert ProposeId-discrete id none s.command_board.asr_notifiers;
          })
          id;
  }

  pub resumes_lem :
      (s : StateMachine K) (id : ProposeId) (text : String)
      → lookup ProposeId-discrete id s.command_board.asr_notifiers ≡ some (some tt)
      → lookup ProposeId-discrete id s.command_board.er_buffer ≡ some text
      → wait_synced_resumes K s id ≡ some (woken s id, reply text Status.accepted)
  unfolding wait_synced_resumes receive_asr resume_asr
  resumes_lem s id text told executed = ground arith

module _ (K : KvStore) (G : Gob) where
  -- The deferred deletes keep a leader in step.
  pub forget-Leads :
      (client_id seq_id : ℕ) (kv : K.Store) (s : StateMachine K) (cs : List CurpClientCommand)
      (id : ProposeId) (ns : List (ProposeId × Option (Unit {0})))
      → Leads K G client_id seq_id kv (record { machine = s; waiting = cs })
      → Leads K G client_id seq_id kv (record {
        machine = record s {
          command_board = forget (record s.command_board { asr_notifiers = ns }) id;
        };
        waiting = cs;
      })
  unfolding forget
  forget-Leads client_id seq_id kv s cs id ns l = record {
    idle = record { no_fast = l.idle.no_fast; no_slow = l.idle.no_slow; room = l.idle.room };
    leads = l.leads;
    same = l.same;
    marked = l.marked;
    unmarked = l.unmarked;
    unanswered = λ n k. ground (
      arith,
      l.unanswered n k,
      lookup-delete ProposeId-discrete (id_of client_id n) id s.command_board.er_buffer,
    );
  }

  pub asked-Leads :
      (client_id seq_id : ℕ) (kv : K.Store) (s : StateMachine K) (cs : List CurpClientCommand)
      (id : ProposeId)
      → Leads K G client_id seq_id kv (record { machine = s; waiting = cs })
      → Leads K G client_id seq_id kv (record { machine = asked K s id; waiting = cs })
  asked-Leads client_id seq_id kv s cs id l = record {
    idle = record { no_fast = l.idle.no_fast; no_slow = l.idle.no_slow; room = l.idle.room };
    leads = l.leads;
    same = l.same;
    marked = l.marked;
    unmarked = l.unmarked;
    unanswered = l.unanswered;
  }
