-- ===== src/Tests/Lates.antt =====
-- Sessions of a client with three servers whose commits are late.
use curp.Kv.Mem.{new_mem_store}
use curp.Kv.Mem.Interface.{mem_kv, mem_kv-IsStore}
use curp.Machine.{leader, follower}
use curp.Client.{content, super_quorom}
use curp.Cluster.{puts, gets}
use curp.Cluster.Map.{KeyMap, map_step, map_run, Holds}
use curp.Cluster.Late.{Late, Happens, asks, commits, run}
use curp.Cluster.Late.Asking.{InSteps}
use curp.Cluster.Late.Linear.{requests, SameClient, run-map_run}
use curp.Cluster.Late.Started.{begin, begin-InSteps, late_servers-map_run}
use curp.Tests.Codec.{codec, codec-lossless}
use curp.Tests.Clusters.{second_leads, begun, serving, empty_map, empty-Holds}
use curp.Prelude.{
  String_discrete, All, ◌≡◌, refl, inl, inr, true, false, some, List, [], ◌∷◌, arith,
}

-- The definitions that a run computes with.
program : Unit {0}
unfolding String_discrete map_step map_run super_quorom
program = tt

-- The second write conflicts with the first, which no server has committed; one server commits early, and
-- `WaitSynced` waits.
abbrev events : List Happens
events =
    asks (puts "x" "1") (2 ∷ 0 ∷ 1 ∷ []) false
    ∷ asks (puts "x" "2") (0 ∷ 1 ∷ 2 ∷ []) true
    ∷ commits 2
    ∷ asks (gets "x") (1 ∷ 2 ∷ 0 ∷ []) true
    ∷ commits 0
    ∷ []

abbrev last_map : KeyMap
last_map = (map_run empty_map (requests events)).0

late_servers-map_run_example :
    (d : Late mem_kv) × (run mem_kv codec (begin second_leads) events
      ≡ some (d, content "" ∷ content "" ∷ content "2" ∷ []))
    × All (λ n. n.waiting ≡ [] → Holds mem_kv n.machine.kv_store last_map) d.members
unfolding program
late_servers-map_run_example =
    late_servers-map_run mem_kv codec mem_kv-IsStore new_mem_store empty_map 7 follower leader
      follower events {c = second_leads} begun codec-lossless (omega arith)
      (
        (omega arith, omega arith, omega arith, omega arith, omega arith, omega arith),
        (
          (omega arith, omega arith, omega arith, omega arith, omega arith, omega arith),
          ((omega arith, omega arith, omega arith, omega arith, omega arith, omega arith), tt),
        ),
      )
      empty-Holds

run-map_run_example :
    (d : Late mem_kv) × (last : mem_kv.Store) × (run mem_kv codec (begin second_leads) events
      ≡ some (d, content "" ∷ content "" ∷ content "2" ∷ []))
    × InSteps mem_kv codec last d.client d.members
    × Holds mem_kv last last_map
    × SameClient second_leads.client d.client
unfolding program
run-map_run_example =
    run-map_run mem_kv mem_kv-IsStore codec new_mem_store empty_map (begin second_leads) events
      codec-lossless (omega arith)
      (
        record {
          in_range = (omega arith, (omega arith, (omega arith, tt)));
          enough = omega arith;
          leader_first = inr (inr (inl refl));
        },
        (
          record {
            in_range = (omega arith, (omega arith, (omega arith, tt)));
            enough = omega arith;
            leader_first = inr (inl refl);
          },
          (
            record {
              in_range = (omega arith, (omega arith, (omega arith, tt)));
              enough = omega arith;
              leader_first = inl refl;
            },
            tt,
          ),
        ),
      )
      (begin-InSteps mem_kv codec 0 new_mem_store second_leads serving) empty-Holds
