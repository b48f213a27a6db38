-- ===== src/Cluster/Late/Asking.antt =====
-- A request of the client while commits are late.
use curp.Command.{CurpClientCommand, CurpReply, propose_id, reply}
use curp.Command.Op
use curp.Command.Status
use curp.Kv.{KvStore}
use curp.Machine.{is_leader, is_state_leader, execute_sync}
use curp.Machine.Steps.{Gob}
use curp.Client
use curp.Client.{sync_replied, sync_failed, GrpcClient, Event, Answer, content, super_quorom}
use curp.Client.Ids.{Keeps, propose-Keeps}
use curp.Client.Prompt.{Leads, events_of}
use curp.Client.Quorum.{get_elem?-set_ne}
use curp.Client.Replies.{propose-answers_leader, propose-fast}
use curp.Cluster.{each}
use curp.Cluster.Each.{
  each-All, Pairwise-All, Pairwise-length, Pairwise-get_elem?, get_elem?-map, length-map, All-map,
}
use curp.Cluster.Serving.{id_of}
use curp.Cluster.Late.{Member, Late, member_call, sync_at, ask}
use curp.Cluster.Late.Steps.{InStep}
use curp.Cluster.Late.Calls.{Called, Answered, member_call-InStep}
use curp.Cluster.Late.Syncs.{member_sync-Answered}
use curp.Prelude.{
  ◌==◌, ==_iff, Bool-cases, length, get_elem?, set, length-set, get_elem?-set_eq, get_elem?-lt,
  All-get_elem?, All, ℕ, zero, suc, ◌+◌, ◌≤◌, ◌<◌, String, ◌≡◌, sym, ap, subst, ◌∙◌, inl, inr, Bool,
  true, some, List, [], ◌∷◌, map, arith, ℕ_discrete,
}

-- A super quorum of the servers replies, the leader among the first of it.
pub record Prompt (f leader servers : ℕ) (order : List ℕ) : Type 0 where
  pub in_range : All (λ p. p < servers) order
  pub enough : super_quorom f ≤ length order
  pub leader_first : Leads leader (super_quorom f) order

pub All-set :
    {A : Type 0} (P : A → Type 0) (xs : List A) (i : ℕ) (x : A)
    → P x
    → All P xs
    → All P (set xs i x)
All-set P [] i x p h = tt
All-set P (y ∷ xs) zero x p h = (p, h.1)
All-set P (y ∷ xs) (suc i) x p h = (h.0, All-set P xs i x p h.1)

module _ (K : KvStore) (G : Gob) where
  -- Every server is in step with the client's commands, and the server that the client takes for the leader is
  -- one.
  pub record InSteps (kv : K.Store) (client : GrpcClient) (members : List (Member K)) : Type 0 where
    pub each_in_step : All (InStep K G client.client_id client.seq_id kv) members
    pub leads :
        (m : Member K) × (get_elem? members client.leader_id ≡ some m)
        × (is_leader K m.machine ≡ true)
    pub servers : client.leader_id < client.servers

  pub Keeps-InSteps :
      (kv : K.Store) (c d : GrpcClient) (members : List (Member K))
      → Keeps c d
      → InSteps kv c members
      → InSteps kv d members
  Keeps-InSteps kv c d members (seq, id, f, servers, leader) h =
      let (m, at, leads) = h.leads in
      record {
        each_in_step = rw (seq, id) h.each_in_step;
        leads = (m, rw leader at, leads);
        servers = rw (leader, servers) h.servers;
      }

  -- One server takes a step that keeps it in step and in its role.
  pub set-InSteps :
      (kv : K.Store) (c : GrpcClient) (members : List (Member K)) (i : ℕ) (m n : Member K)
      → get_elem? members i ≡ some m
      → InStep K G c.client_id c.seq_id kv n
      → n.machine.raft_state ≡ m.machine.raft_state
      → InSteps kv c members
      → InSteps kv c (set members i n)
  set-InSteps kv c members i m n at step role h =
      let (l, here, leads) = h.leads in
      record {
        each_in_step = All-set _ members i n step h.each_in_step;
        leads = elim (ℕ_discrete i c.leader_id) [
          | yes same ↦
              let here' : get_elem? members i ≡ some l =
                subst (λ x. get_elem? members x ≡ some l) {x = c.leader_id} {y = i} (sym same)
                  here in
              let as_before : m ≡ l = cc in
              (
                n,
                subst (λ x. get_elem? (set members i n) x ≡ some n) {x = i} {y = c.leader_id} same
                    (get_elem?-set_eq members i n (get_elem?-lt members i {x = m} at)),
                ap is_state_leader role
                    ∙ ap (λ (x : Member K). is_leader K x.machine) as_before
                    ∙ leads,
              )
          | no other ↦ (l, get_elem?-set_ne members i c.leader_id n other ∙ here, leads)
        ];
        servers = h.servers;
      }

  -- The calls of all servers.
  pub calls-InSteps :
      (kv : K.Store) (c : GrpcClient) (cmd : CurpClientCommand) (members : List (Member K))
      → cmd.op ≤ Op.wlock
      → propose_id cmd ≡ id_of c.client_id (c.seq_id + 1)
      → InSteps kv c members
      → (called : List (Member K × CurpReply)) × (each (member_call K G cmd) members ≡ some called)
        × InSteps
            (execute_sync K kv cmd).0
            (record c { seq_id = c.seq_id + 1 })
            (map (λ y. y.0) called)
        × (length called ≡ length members)
        × ((y : Member K × CurpReply) × (get_elem? called c.leader_id ≡ some y)
            × (y.1.content ≡ (execute_sync K kv cmd).1)
            × (is_leader K y.0.machine ≡ true)
            × Answered K G cmd (execute_sync K kv cmd).1 y.0)
  calls-InSteps kv c cmd members o id h =
      let Q = Called K G c.client_id c.seq_id kv cmd in
      let (called, e, qs) =
        each-All (member_call K G cmd) (InStep K G c.client_id c.seq_id kv) Q
          (member_call-InStep K G c.client_id c.seq_id kv cmd o id) members h.each_in_step in
      let (l, at, leads) = h.leads in
      let (y, here, q) = Pairwise-get_elem? Q members called c.leader_id {x = l} qs at in
      let still : is_leader K y.0.machine ≡ true = ap is_state_leader q.same_role ∙ leads in
      (
        called,
        e,
        record {
          each_in_step =
              All-map (λ y. y.0) _ called (Pairwise-All Q _ (λ m y q. q.in_step) members called qs);
          leads = (y.0, get_elem?-map (λ y. y.0) called c.leader_id {x = y} here, still);
          servers = h.servers;
        },
        Pairwise-length Q members called qs,
        (y, here, q.text leads, still, q.answered leads),
      )

  -- The rest of the client's call: whatever path it takes, the answer is the leader's text.
  pub ask-InSteps :
      (kv : K.Store) (c : GrpcClient) (cmd : CurpClientCommand) (order : List ℕ) (early : Bool)
      (text : String) (called : List (Member K × CurpReply)) (y : Member K × CurpReply)
      → ((c : CurpClientCommand) → G.decode (G.encode c) ≡ some c)
      → Prompt c.f c.leader_id (length called) order
      → get_elem? called c.leader_id ≡ some y
      → y.1.content ≡ text
      → is_leader K y.0.machine ≡ true
      → Answered K G cmd text y.0
      → InSteps kv c (map (λ y. y.0) called)
      → (d : Late K) × (ask K G c
            (propose_id cmd)
            early
            (events_of (map (λ y. y.1) called) order)
            (map (λ y. y.0) called)
          ≡ some (d, content text))
        × Keeps c d.client
        × InSteps kv d.client d.members
        × (length d.members ≡ length called)
  unfolding ask sync_at
  ask-InSteps kv c cmd order early text called y lossless prompt here same leads answered h =
      let members = map (λ y. y.0) called in
      let events = events_of (map (λ y. y.1) called) order in
      let synced = sync_replied (reply text Status.accepted) in
      let answer =
        propose-answers_leader c (map (λ y. y.1) called) order text {r = y.1}
          (get_elem?-map (λ y. y.1) called c.leader_id {x = y} here) same
          (rw (length-map (λ y. y.1) called) prompt.in_range) h.servers prompt.enough
          prompt.leader_first in
      let at = get_elem?-map (λ y. y.0) called c.leader_id {x = y} here in
      elim (Bool-cases ((Client.propose c events sync_failed).0.slow == c.slow)) [
        | inl fast ↦
            let path = propose-fast c events sync_failed synced (grind (arith, ==_iff)) in
            (
              record { client = (Client.propose c events sync_failed).0; members = members },
              rw fast (
                  ap
                    (λ x. some (
                      record {
                        client = (Client.propose c events sync_failed).0;
                        members = members;
                      },
                      x,
                    ))
                    (ap (λ x. x.1) path ∙ answer)),
              propose-Keeps c events sync_failed,
              Keeps-InSteps kv c (Client.propose c events sync_failed).0 members
                  (propose-Keeps c events sync_failed) h,
              length-map (λ y. y.0) called,
            )
        | inr slow ↦
            let (n, e, step, role) =
              member_sync-Answered K G c.client_id c.seq_id kv cmd text early y.0 lossless leads
                (All-get_elem? (InStep K G c.client_id c.seq_id kv) members c.leader_id {x = y.0}
                  h.each_in_step at)
                answered in
            let h' = set-InSteps kv c members c.leader_id y.0 n at step role h in
            (
              record {
                client = (Client.propose c events synced).0;
                members = set members c.leader_id n;
              },
              rw (slow, at, e)
                  (ap
                    (λ x. some (
                      record {
                        client = (Client.propose c events synced).0;
                        members = set members c.leader_id n;
                      },
                      x,
                    ))
                    answer),
              propose-Keeps c events synced,
              Keeps-InSteps kv c (Client.propose c events synced).0 (set members c.leader_id n)
                  (propose-Keeps c events synced) h',
              length-set members c.leader_id n ∙ length-map (λ y. y.0) called,
            )
      ]
