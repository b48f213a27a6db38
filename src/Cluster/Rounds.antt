-- ===== src/Cluster/Rounds.antt =====
-- One request of the client to the servers, from curp/client_grpc.go to curp/state.go and back.
use curp.Command.{CurpClientCommand, CurpReply, propose_id}
use curp.Command.Op
use curp.Command.Status
use curp.Kv.{KvStore}
use curp.Machine.{StateMachine, is_leader, is_state_leader, execute_sync}
use curp.Machine.Steps.{Gob}
use curp.Client.{GrpcClient, content, Answer, propose}
use curp.Client.Prompt.{events_of, propose-Leads}
use curp.Cluster.{Cluster, Round, request, each, call, commit, round}
use curp.Cluster.Each.{
  each-All, Pairwise-All, Pairwise-length, Pairwise-get_elem?, get_elem?-map, length-map, All-map,
}
use curp.Cluster.Serving.{
  IsServing, IsPrompt, Serves, id_of, request_lem, Waiting, Replies, call-Serves, commit-Waiting,
}
use curp.Prelude.{
  length, get_elem?, All, ℕ, ◌+◌, ◌^◌, ◌≤◌, ◌<◌, ◌≡◌, refl, ap, ◌∙◌, true, some, List, map, arith,
}

module _ (K : KvStore) (G : Gob) where
  calls :
      (client_id first seq_id : ℕ) (kv : K.Store) (cmd : CurpClientCommand)
      → cmd.op ≤ Op.wlock
      → propose_id cmd ≡ id_of client_id (seq_id + 1)
      → (replicas : List (StateMachine K)) (leader : ℕ) {s : StateMachine K}
      → All (Serves K client_id first seq_id kv) replicas
      → get_elem? replicas leader ≡ some s
      → is_leader K s ≡ true
      → (called : List (StateMachine K × CurpReply)) × (each (λ s. call K G s cmd) replicas
          ≡ some called)
        × All (Waiting K G client_id first seq_id kv cmd) (map (λ y. y.0) called)
        × All (λ x. x.status_code ≡ Status.accepted) (map (λ y. y.1) called)
        × (length called ≡ length replicas)
        × ((y : StateMachine K × CurpReply) × (get_elem? called leader ≡ some y)
            × (y.0.raft_state ≡ s.raft_state)
            × (y.1.content ≡ (execute_sync K kv cmd).1))
  calls client_id first n kv cmd o id replicas leader {s} serve at leads =
      let Q = Replies K G client_id first n kv cmd in
      let (called, e, qs) =
        each-All (λ s. call K G s cmd) (Serves K client_id first n kv) Q
          (call-Serves K G client_id first n kv cmd o id) replicas serve in
      let (y, here, (_, role, _, text)) =
        Pairwise-get_elem? Q replicas called leader {x = s} qs at in
      (
        called,
        e,
        All-map (λ y. y.0) _ called (Pairwise-All Q _ (λ s y q. q.0) replicas called qs),
        All-map (λ y. y.1) _ called (Pairwise-All Q _ (λ s y q. q.2) replicas called qs),
        Pairwise-length Q replicas called qs,
        (y, here, role, text leads),
      )

  commits :
      (client_id first seq_id : ℕ) (kv : K.Store) (cmd : CurpClientCommand)
      → G.decode (G.encode cmd) ≡ some cmd
      → propose_id cmd ≡ id_of client_id (seq_id + 1)
      → (called : List (StateMachine K)) (leader : ℕ) {t : StateMachine K}
      → All (Waiting K G client_id first seq_id kv cmd) called
      → get_elem? called leader ≡ some t
      → (replicas : List (StateMachine K)) × (each (λ s. commit K G s cmd) called ≡ some replicas)
        × All (Serves K client_id first (seq_id + 1) (execute_sync K kv cmd).0) replicas
        × (length replicas ≡ length called)
        × ((u : StateMachine K) × (get_elem? replicas leader ≡ some u)
            × (u.raft_state ≡ t.raft_state))
  commits client_id first n kv cmd sent id called leader {t} waiting at =
      let Q = λ (t u : StateMachine K).
        Serves K client_id first (n + 1) (execute_sync K kv cmd).0 u
        × (u.raft_state ≡ t.raft_state) in
      let (replicas, e, qs) =
        each-All (λ s. commit K G s cmd) (Waiting K G client_id first n kv cmd) Q
          (commit-Waiting K G client_id first n kv cmd sent id) called waiting in
      (
        replicas,
        e,
        Pairwise-All Q _ (λ t u q. q.0) called replicas qs,
        Pairwise-length Q called replicas qs,
        (let (u, here, q) = Pairwise-get_elem? Q called replicas leader {x = t} qs at in
            (u, here, q.1)),
      )

  round_of :
      (c : Cluster K) (r : Round) {called : List (StateMachine K × CurpReply)}
      {replicas : List (StateMachine K)} {client : GrpcClient} {given : Answer}
      → each (λ s. call K G s (request c.client r.asked).1) c.replicas ≡ some called
      → propose (request c.client r.asked).0 (events_of (map (λ y. y.1) called) r.order) r.synced
        ≡ (client, given)
      → each (λ s. commit K G s (request c.client r.asked).1) (map (λ y. y.0) called)
        ≡ some replicas
      → round K G c r ≡ some (record { client = client; replicas = replicas }, given)
  unfolding round
  round_of c r {called} {replicas} {client} {given} e p e' = ground arith

  pub round_completes :
      (first : ℕ) (kv : K.Store) (c : Cluster K) (r : Round)
      → ((cmd : CurpClientCommand) → G.decode (G.encode cmd) ≡ some cmd)
      → c.client.seq_id + 1 < 2 ^ 64
      → IsPrompt c.client (length c.replicas) r.order
      → IsServing K first kv c
      → (d : Cluster K) × (round K G c r
          ≡ some (d, content (execute_sync K kv (request c.client r.asked).1).1))
        × IsServing K first (execute_sync K kv (request c.client r.asked).1).0 d
        × (d.client ≡ record c.client { seq_id = c.client.seq_id + 1; fast = c.client.fast + 1 })
        × (length d.replicas ≡ length c.replicas)
  round_completes first kv c r lossless few prompt serving =
      let cmd = (request c.client r.asked).1 in
      let (o, id, count) = request_lem c.client r.asked few in
      let client_id = c.client.client_id in
      let n = c.client.seq_id in
      let (s, at, leads) = serving.leads in
      let (called, e, waiting, sure, long, (y, here, role, text)) =
        calls client_id first n kv cmd o id c.replicas c.client.leader_id {s = s}
          serving.each_serves at leads in
      let (replicas, e', serve, long', (u, here', role')) =
        commits client_id first n kv cmd (lossless cmd) id (map (λ y. y.0) called)
          c.client.leader_id {t = y.0} waiting
          (get_elem?-map (λ y. y.0) called c.client.leader_id {x = y} here) in
      let answered =
        propose-Leads (record c.client { seq_id = n + 1 }) (map (λ y. y.1) called) r.order r.synced
          {r = y.1} (get_elem?-map (λ y. y.1) called c.client.leader_id {x = y} here) sure
          (rw (length-map (λ y. y.1) called ∙ long) prompt.in_range) serving.servers prompt.enough
          prompt.leader_first in
      (
        record {
          client = record c.client { seq_id = n + 1; fast = c.client.fast + 1 };
          replicas = replicas;
        },
        round_of c r {called = called} {replicas = replicas} e
            (rw (count, answered)
              (ap (λ x. (record c.client { seq_id = n + 1; fast = c.client.fast + 1 }, content x))
                text))
            e',
        record {
          each_serves = serve;
          leads = (u, here', ap is_state_leader (role' ∙ role) ∙ leads);
          servers = serving.servers;
        },
        refl,
        long' ∙ length-map (λ y. y.0) called ∙ long,
      )
