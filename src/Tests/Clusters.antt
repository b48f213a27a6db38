-- ===== src/Tests/Clusters.antt =====
-- Sessions of a client with three servers.
use curp.Kv.Mem.{new_mem_store, get}
use curp.Kv.Mem.Interface.{mem_kv, mem_kv-IsStore}
use curp.Machine.{leader, follower}
use curp.Machine.Commits.{initial}
use curp.Machine.Steps.{listen_raft_state}
use curp.Client.{
  sync_failed, content, super_quorom, fetch_leader_from, fetch_leader, new_grpc_client,
}
use curp.Cluster.{Cluster, Round, puts, gets, dels, session}
use curp.Cluster.Map.{KeyMap, map_step, map_run, Holds}
use curp.Cluster.Serving.{IsServing, IsPrompt}
use curp.Cluster.Started.{start, start-IsStarted}
use curp.Cluster.AnyOrder.{Marked, three_servers-map_run, session-Marked}
use curp.Tests.Codec.{codec, codec-lossless}
use curp.Tests.Clients.{client_of_3}
use curp.Prelude.{
  String_discrete, All, ◌≡◌, refl, inl, inr, none, some, List, [], ◌∷◌, map, lookup, arith,
}

-- The definitions that a run computes with.
program : Unit {0}
unfolding get lookup String_discrete start listen_raft_state fetch_leader_from fetch_leader
    new_grpc_client map_step map_run super_quorom
program = tt

-- The second of three servers leads.
abbrev pub second_leads : Cluster mem_kv
second_leads = record {
  client = record client_of_3 { leader_id = 1 };
  replicas =
      initial mem_kv new_mem_store
      ∷ record (initial mem_kv new_mem_store) { raft_state = leader }
      ∷ initial mem_kv new_mem_store
      ∷ [];
}

-- A key is written, read, deleted and read again; the replies come in different orders.
abbrev rounds : List Round
rounds =
    record { asked = puts "x" "1"; order = 2 ∷ 0 ∷ 1 ∷ []; synced = sync_failed }
    ∷ record { asked = gets "x"; order = 0 ∷ 1 ∷ 2 ∷ []; synced = sync_failed }
    ∷ record { asked = dels "x"; order = 1 ∷ 2 ∷ 0 ∷ []; synced = sync_failed }
    ∷ record { asked = gets "x"; order = 1 ∷ 0 ∷ 2 ∷ []; synced = sync_failed }
    ∷ []

abbrev pub empty_map : KeyMap
empty_map = λ k. none

abbrev last_map : KeyMap
last_map = (map_run empty_map (map (λ r. r.asked) rounds)).0

pub begun : start mem_kv new_mem_store 7 (follower ∷ leader ∷ follower ∷ []) ≡ some second_leads
unfolding program
begun = refl

pub empty-Holds : Holds mem_kv new_mem_store empty_map
unfolding program
empty-Holds k = refl

three_servers-map_run_example :
    (d : Cluster mem_kv) × (session mem_kv codec second_leads rounds
      ≡ some (d, content "" ∷ content "1" ∷ content "" ∷ content "NOT FOUND IN STATE" ∷ []))
    × (d.client.slow ≡ 0)
    × All (λ s. Holds mem_kv s.kv_store last_map) d.replicas
unfolding program
three_servers-map_run_example =
    three_servers-map_run mem_kv mem_kv-IsStore codec new_mem_store empty_map 7 follower leader
      follower rounds {c = second_leads} begun codec-lossless (omega arith)
      (
        (omega arith, omega arith, omega arith, omega arith, omega arith, omega arith),
        (
          (omega arith, omega arith, omega arith, omega arith, omega arith, omega arith),
          (
            (omega arith, omega arith, omega arith, omega arith, omega arith, omega arith),
            ((omega arith, omega arith, omega arith, omega arith, omega arith, omega arith), tt),
          ),
        ),
      )
      empty-Holds

pub serving : IsServing mem_kv 0 new_mem_store second_leads
serving =
    (start-IsStarted mem_kv new_mem_store 7 (follower ∷ leader ∷ follower ∷ []) {c = second_leads}
      begun).0

prompt : All (λ r. IsPrompt second_leads.client 3 r.order) rounds
unfolding program
prompt = (
  record {
    in_range = (omega arith, (omega arith, (omega arith, tt)));
    enough = omega arith;
    leader_first = inr (inr (inl refl));
  },
  (
    record {
      in_range = (omega arith, (omega arith, (omega arith, tt)));
      enough = omega arith;
      leader_first = inr (inl refl);
    },
    (
      record {
        in_range = (omega arith, (omega arith, (omega arith, tt)));
        enough = omega arith;
        leader_first = inl refl;
      },
      (
        record {
          in_range = (omega arith, (omega arith, (omega arith, tt)));
          enough = omega arith;
          leader_first = inl refl;
        },
        tt,
      ),
    ),
  ),
)

session-Marked_example :
    (d : Cluster mem_kv) × (session mem_kv codec second_leads rounds
      ≡ some (d, content "" ∷ content "1" ∷ content "" ∷ content "NOT FOUND IN STATE" ∷ []))
    × Marked mem_kv 7 2 d.replicas
unfolding program
session-Marked_example =
    session-Marked mem_kv mem_kv-IsStore codec 0 new_mem_store empty_map second_leads rounds 2
      codec-lossless (omega arith) prompt serving empty-Holds (omega arith) (omega arith)
