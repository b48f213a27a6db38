-- ===== src/Cluster/Serving.antt =====
-- A server of a cluster between two requests of a client, and the request that it gets next.
use curp.Command.{CurpClientCommand, CurpReply, ProposeId, ProposeId-discrete, propose_id}
use curp.Command.Op
use curp.Command.Status
use curp.Kv.{KvStore}
use curp.Machine.{StateMachine, is_leader, execute_sync}
use curp.Machine.Steps.{Gob}
use curp.Client.{GrpcClient, super_quorom, get_propose_id, put, get, del}
use curp.Client.Prompt.{Leads}
use curp.Cluster.{Cluster, Request, puts, gets, dels, request, call, commit}
use curp.Cluster.Replica.{IsReady, Called, call-IsReady, commit-Called}
use curp.Prelude.{
  length, get_elem?, All, lookup-insert, lookup-insert_ne, ℕ, ◌+◌, ◌^◌, ◌≤◌, ◌<◌, ◌≡◌, sym, ap,
  subst, ◌∙◌, ◌≢◌, inl, inr, true, none, some, List, lookup, arith, ℕ_discrete,
}

abbrev pub id_of : ℕ → ℕ → ProposeId
id_of client_id n = record { client_id = client_id; seq_id = n }

pub request_lem :
    (c : GrpcClient) (r : Request)
    → c.seq_id + 1 < 2 ^ 64
    → ((request c r).1.op ≤ Op.wlock)
      × (propose_id (request c r).1 ≡ id_of c.client_id (c.seq_id + 1))
      × ((request c r).0 ≡ record c { seq_id = c.seq_id + 1 })
unfolding request put get del get_propose_id
request_lem c (puts key value) h = (omega arith, ground arith, ground arith)
request_lem c (gets key) h = (omega arith, ground arith, ground arith)
request_lem c (dels key) h = (omega arith, ground arith, ground arith)

-- The servers reply in this order, a super quorum of them, the leader among the first of it.
pub record IsPrompt (c : GrpcClient) (servers : ℕ) (order : List ℕ) : Type 0 where
  pub in_range : All (λ p. p < servers) order
  pub enough : super_quorom c.f ≤ length order
  pub leader_first : Leads c.leader_id (super_quorom c.f) order

module _ (K : KvStore) where
  -- A server that is done with the commands of the client up to a sequence number, and has the store that
  -- they make. Its board still has the marks of those since the first.
  pub record Serves (client_id first seq_id : ℕ) (kv : K.Store) (s : StateMachine K) : Type 0 where
    pub ready : IsReady K s
    pub same : s.kv_store ≡ kv
    pub new :
        (n : ℕ)
        → seq_id < n
        → lookup ProposeId-discrete (id_of client_id n) s.command_board.er_buffer ≡ none
    pub kept :
        (n : ℕ)
        → first < n
        → n ≤ seq_id
        → lookup ProposeId-discrete (id_of client_id n) s.command_board.asr_buffer ≡ some tt

  -- Every server is done with the client's commands so far and has the store that they make, and the server
  -- that the client takes for the leader is one.
  pub record IsServing (first : ℕ) (kv : K.Store) (c : Cluster K) : Type 0 where
    pub each_serves : All (Serves c.client.client_id first c.client.seq_id kv) c.replicas
    pub leads :
        (s : StateMachine K) × (get_elem? c.replicas c.client.leader_id ≡ some s)
        × (is_leader K s ≡ true)
    pub servers : c.client.leader_id < c.client.servers

module _ (K : KvStore) (G : Gob) where
  module _ (client_id first seq_id : ℕ) (kv : K.Store) (cmd : CurpClientCommand) where
    abbrev pub Waiting : StateMachine K → Type 0
    Waiting t = (s : StateMachine K) × Serves K client_id first seq_id kv s × Called K s cmd t

    abbrev pub Replies : StateMachine K → StateMachine K × CurpReply → Type 0
    Replies s y =
        Waiting y.0
        × (y.0.raft_state ≡ s.raft_state)
        × (y.1.status_code ≡ Status.accepted)
        × (is_leader K s ≡ true → y.1.content ≡ (execute_sync K kv cmd).1)

    pub call-Serves :
        cmd.op ≤ Op.wlock
        → propose_id cmd ≡ id_of client_id (seq_id + 1)
        → (s : StateMachine K) → Serves K client_id first seq_id kv s
        → (y : StateMachine K × CurpReply) × (call K G s cmd ≡ some y) × Replies s y
    call-Serves o id s serves =
        let (y, e, called, status, text) =
          call-IsReady K G s cmd o
            (subst (λ i. lookup ProposeId-discrete i s.command_board.er_buffer ≡ none)
              {x = id_of client_id (seq_id + 1)} {y = propose_id cmd} (sym id)
              (serves.new (seq_id + 1) (omega arith)))
            serves.ready in
        (
          y,
          e,
          (
            (s, serves, called),
            called.same_role,
            status,
            λ leads. text leads ∙ ap (λ x. (execute_sync K x cmd).1) serves.same,
          ),
        )

    id-ne :
        propose_id cmd ≡ id_of client_id (seq_id + 1)
        → (n : ℕ) → n ≢ seq_id + 1
        → id_of client_id n ≢ propose_id cmd
    id-ne id n h e = h (ap (λ (i : ProposeId). i.seq_id) (e ∙ id))

    er_new :
        (s : StateMachine K) (t : StateMachine K)
        → Serves K client_id first seq_id kv s
        → Called K s cmd t
        → propose_id cmd ≡ id_of client_id (seq_id + 1)
        → (n : ℕ) → seq_id + 1 < n
        → lookup ProposeId-discrete (id_of client_id n) t.command_board.er_buffer ≡ none
    er_new s t serves called id n h =
        let before = serves.new n (omega arith) in
        elim called.pending [
          | inl (_, _, _, er) ↦ rw er (
              lookup-insert_ne ProposeId-discrete (id_of client_id n) (propose_id cmd)
                (execute_sync K s.kv_store cmd).1 s.command_board.er_buffer
                (id-ne id n (omega arith))
              ∙ before)
          | inr (_, _, _, er) ↦ rw er before
        ]

    pub commit-Waiting :
        G.decode (G.encode cmd) ≡ some cmd
        → propose_id cmd ≡ id_of client_id (seq_id + 1)
        → (t : StateMachine K) → Waiting t
        → (u : StateMachine K) × (commit K G t cmd ≡ some u)
          × (Serves K client_id first (seq_id + 1) (execute_sync K kv cmd).0 u
              × (u.raft_state ≡ t.raft_state))
    commit-Waiting sent id t (s, serves, called) =
        let (u, e, ready, role, store, er, asr) = commit-Called K G s cmd t sent called in
        (
          u,
          e,
          (
            record {
              ready = ready;
              same = store ∙ ap (λ x. (execute_sync K x cmd).0) serves.same;
              new = λ n h. rw er (er_new s t serves called id n h);
              kept = λ n h l. rw asr (elim (ℕ_discrete n (seq_id + 1)) [
                | yes last ↦ ground (
                  arith,
                  lookup-insert ProposeId-discrete (id_of client_id n) (propose_id cmd) tt
                      s.command_board.asr_buffer,
                )
                | no earlier ↦
                    lookup-insert_ne ProposeId-discrete (id_of client_id n) (propose_id cmd) tt
                      s.command_board.asr_buffer (id-ne id n earlier)
                    ∙ serves.kept n h (omega arith)
              ]);
            },
            role ∙ sym called.same_role,
          ),
        )
