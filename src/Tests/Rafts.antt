-- ===== src/Tests/Rafts.antt =====
-- The theorems on the node of curp/raft.go at a log of three entries.
use curp.Machine.{follower}
use curp.Raft.{
  RaftLib, Entry, entry_normal, entry_conf_change, other_change, entries_to_apply, Snapshot,
  CurpNode, publish_loop, publish_entries, publish_snapshot, serve_ready, change_conf,
}
use curp.Raft.Apply.{newer}
use curp.Machine.Steps.{Gob}
use curp.Kv.Mem.Interface.{mem_kv}
use curp.Tests.Samples.{put_x, follower_state}
use curp.Machine.{leader}
use curp.Raft.{serve_soft_state}
use curp.Raft.Roles.{serve_soft_states, listen_all, listen_all-serve_soft_states}
use curp.Raft.ExactlyOnce.{Delivers, serve_ready-Delivers}
use Prim.Native.Nat.{max}
use curp.Prelude.{
  if◌then◌else◌, ◌==◌, String_discrete, length, ℕ, ◌+◌, ◌%◌, ◌≡◌, refl, ◌⊎◌, Bool, true, false,
  none, some, List, [], ◌∷◌, arith,
}

-- The definitions that a run computes with.
program : Unit {0}
unfolding String_discrete entries_to_apply publish_loop publish_entries publish_snapshot serve_ready
    change_conf newer
program = tt

-- A raft that changes nothing on a change of its configuration.
abbrev pub still_raft : RaftLib
still_raft = record {
  Node = ℕ;
  ConfState = ℕ;
  unmarshal = λ text. record { type = other_change; node_id = 0; context = "" };
  apply_conf_change = λ node change. (node, 0);
}

-- Every third entry is a change of the configuration.
abbrev pub log : ℕ → Entry
log i = record {
  index = i;
  type = (if i % 3 == 0 then entry_conf_change else entry_normal);
  content = "c";
}

-- A node that has applied and sent the first two entries.
abbrev pub two_applied : CurpNode still_raft
two_applied = record {
  id = 1;
  node = 0;
  conf_state = 0;
  snapshot_index = 0;
  applied_index = 2;
  raft_state = follower;
  peer_calls = [];
  commits = some ("c" ∷ "c" ∷ []) ∷ [];
}

abbrev four_applied : CurpNode still_raft
four_applied = record two_applied {
  applied_index = 4;
  commits = some ("c" ∷ "c" ∷ []) ∷ some ("c" ∷ []) ∷ [];
}

abbrev pub empty_snapshot : Snapshot still_raft
empty_snapshot = record { index = 0; conf_state = 0 }

-- Entries 2 to 4, of which the second was there before.
abbrev pub batch : List Entry
batch = log 2 ∷ log 3 ∷ log 4 ∷ []

serve_ready-Delivers_example :
    (m : CurpNode still_raft) × (ok : Bool) × (serve_ready still_raft two_applied empty_snapshot
        batch false
      ≡ some (m, ok))
    × ((ok ≡ false)
        ⊎ (Delivers still_raft log (λ i. refl) m
            × (m.applied_index + 1 ≡ max (2 + 1) (2 + length batch))))
unfolding program
serve_ready-Delivers_example =
    serve_ready-Delivers still_raft log (λ i. refl) two_applied empty_snapshot 2 batch refl
      ((refl, (refl, (refl, tt))), omega arith, omega arith, omega arith) refl

-- The run itself: both entries that are new are applied, and the one with a text is sent.
serves_two :
    serve_ready still_raft two_applied empty_snapshot batch false ≡ some (four_applied, true)
unfolding program
serves_two = refl

-- A codec for the text of the log.
abbrev pub log_gob : Gob
log_gob = record { encode = λ c. "c"; decode = λ text. some put_x }

listen_all-serve_soft_states_example :
    (listen_all mem_kv follower_state (leader ∷ follower ∷ [])).raft_state ≡ follower
unfolding serve_soft_states serve_soft_state
listen_all-serve_soft_states_example =
    listen_all-serve_soft_states mem_kv still_raft
      (some leader ∷ none ∷ some leader ∷ some follower ∷ []) two_applied follower_state refl
