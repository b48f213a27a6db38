-- ===== src/Cluster/Started.antt =====
-- Servers that have just started, and the client that connects to them.
use curp.Kv.{KvStore}
use curp.Machine.{StateType, StateMachine, is_leader}
use curp.Machine.Steps.{listen_raft_state}
use curp.Machine.Commits.{initial}
use curp.Client.{fetch_leader_from, fetch_leader, new_grpc_client}
use curp.Cluster.Each.{length-map}
use curp.Cluster.{Cluster}
use curp.Cluster.Serving.{Serves, IsServing}
use curp.Prelude.{
  if◌then◌else◌, Bool-cases, Option-cases, length, get_elem?, get_elem?-lt, All, ℕ, suc, ◌+◌, ◌-◌,
  ◌/◌, ◌<◌, ◌≡◌, refl, ap, subst, ◌∙◌, ◌⊎◌, inl, inr, true, Option, none, some, List, [], ◌∷◌, map,
  lookup, arith,
}

module _ (K : KvStore) where
  -- Each server starts with the store and hears of its role from raft; then the client asks each whether it
  -- is the leader. None: no server says so.
  unfoldable pub start : K.Store → ℕ → List StateType → Option (Cluster K)
  start kv client_id roles =
      let replicas = map (λ role. listen_raft_state K (initial K kv) role) roles in
      elim (new_grpc_client client_id (map (is_leader K) replicas)) [
        | none ↦ none
        | some client ↦ some (record { client = client; replicas = replicas })
      ]

  initial-Serves :
      (kv : K.Store) (id : ℕ) (role : StateType)
      → Serves K id 0 0 kv (listen_raft_state K (initial K kv) role)
  unfolding listen_raft_state lookup
  initial-Serves kv id role = record {
    ready = record {
      no_witness = refl;
      no_fast = refl;
      no_slow = refl;
      no_set = refl;
      free = record { room = λ i a h. cc; no_asr = refl };
    };
    same = refl;
    new = λ n h. refl;
    kept = λ n h l. absurd (omega arith);
  }

  all-Serves :
      (kv : K.Store) (id : ℕ) (roles : List StateType)
      → All (Serves K id 0 0 kv) (map (λ role. listen_raft_state K (initial K kv) role) roles)
  all-Serves kv id [] = tt
  all-Serves kv id (role ∷ roles) = (initial-Serves kv id role, all-Serves kv id roles)

  -- The leader that the client finds.
  fetch_leader-leads :
      (i : ℕ) (old : Option ℕ) (replicas : List (StateMachine K)) {l : ℕ}
      → fetch_leader_from i old (map (is_leader K) replicas) ≡ some l
      → (old ≡ some l)
        ⊎ ((j : ℕ) × (s : StateMachine K) × (l ≡ i + j)
            × (get_elem? replicas j ≡ some s)
            × (is_leader K s ≡ true))
  unfolding fetch_leader_from
  fetch_leader-leads i old [] {l} h = inl h
  fetch_leader-leads i old (s ∷ replicas) {l} h =
      elim (fetch_leader-leads (i + 1) (if is_leader K s then some i else old) replicas {l = l} h) [
        | inr (j, t, e, at, leads) ↦ inr (suc j, t, omega arith, at, leads)
        | inl found ↦ elim (Bool-cases (is_leader K s)) [
          | inl leads ↦ inr (0, s, ground arith, refl, leads)
          | inr follows ↦ inl (ground arith)
        ]
      ]

  servers_of : K.Store → List StateType → List (StateMachine K)
  servers_of kv roles = map (λ role. listen_raft_state K (initial K kv) role) roles

  connected : K.Store → ℕ → List StateType → ℕ → Cluster K
  connected kv client_id roles l =
      let servers = length (map (is_leader K) (servers_of kv roles)) in
      record {
        client = record {
          servers = servers;
          client_id = client_id;
          seq_id = 0;
          f = (servers - 1) / 2;
          leader_id = l;
          fast = 0;
          slow = 0;
        };
        replicas = servers_of kv roles;
      }

  abbrev pub IsStarted : K.Store → List StateType → Cluster K → Type 0
  IsStarted kv roles c =
      IsServing K 0 kv c
      × (c.client.seq_id ≡ 0)
      × (c.client.slow ≡ 0)
      × (length c.replicas ≡ length roles)
      × (c.client.f ≡ (length roles - 1) / 2)
      × (c.client.leader_id < length roles)

  connected-IsStarted :
      (kv : K.Store) (client_id : ℕ) (roles : List StateType) (l : ℕ)
      → fetch_leader_from 0 none (map (is_leader K) (servers_of kv roles)) ≡ some l
      → IsStarted kv roles (connected kv client_id roles l)
  unfolding connected servers_of
  connected-IsStarted kv client_id roles l h =
      elim (fetch_leader-leads 0 none (servers_of kv roles) {l = l} h) [
        | inl e ↦ cc
        | inr (j, s, e, at, leads) ↦
            let servers = length-map (is_leader K) (servers_of kv roles) in
            let all = length-map (λ role. listen_raft_state K (initial K kv) role) roles in
            let few = get_elem?-lt (servers_of kv roles) j {x = s} at in
            (
              record {
                each_serves = all-Serves kv client_id roles;
                leads = (
                  s,
                  subst (λ x. get_elem? (servers_of kv roles) x ≡ some s) {x = j} {y = l}
                      (omega arith) at,
                  leads,
                );
                servers = omega arith;
              },
              refl,
              refl,
              all,
              ap (λ x. (x - 1) / 2) (servers ∙ all),
              omega arith,
            )
      ]

  pub start-IsStarted :
      (kv : K.Store) (client_id : ℕ) (roles : List StateType) {c : Cluster K}
      → start kv client_id roles ≡ some c
      → IsStarted kv roles c
  unfolding start new_grpc_client fetch_leader connected servers_of
  start-IsStarted kv client_id roles {c} h =
      elim (Option-cases (fetch_leader_from 0 none (map (is_leader K) (servers_of kv roles)))) [
        | inl e ↦ cc
        | inr (l, e) ↦
            subst (IsStarted kv roles) {x = connected kv client_id roles l} {y = c} (ground arith)
              (connected-IsStarted kv client_id roles l e)
      ]
