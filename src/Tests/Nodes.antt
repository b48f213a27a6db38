-- ===== src/Tests/Nodes.antt =====
-- The theorems on the start, the loops and the end of a node of curp/raft.go, at small logs and disks.
use curp.Machine.Commits.{runs}
use curp.Raft.{
  Snapshot, CurpNode, entries_to_apply, publish_loop, publish_entries, publish_snapshot,
  serve_ready, change_conf,
}
use curp.Raft.Followers.{Serves, round}
use curp.Raft.Serve.{
  proposed, Serving, went, start_serving, serve_proposal, serve_event, append, save_snapshot, stop,
}
use curp.Raft.Serve.Shutdown.{Step, Reach, Inv, Fine, later, proposes, Reach-Fine}
use curp.Raft.Snapshots.{SnapshotCalls, maybe_trigger_snapshot}
use curp.Raft.Start
use curp.Raft.Start.{DiskLib, Loaded, loaded, Replayed, replay_wal, write_call, save_snap}
use curp.Raft.{add_peer}
use curp.Raft.Start.{NodeStart, start_raft}
use curp.Raft.Start.Disk.{HoldsNone, KeepsLog, write_calls}
use curp.Raft.Start.Restart.{restart_forgets}
use curp.Raft.Start.{other_peers}
use curp.Server.Peer.{peers_from, start_cluster}
use curp.Server.Peer.{shut_down}
use curp.Machine.Commits.{dies}
use curp.Server.Peer.Closing.{closing_shuts_down, shut_down-transport_error}
use curp.Server.Peer.Cluster.{added_at, start_cluster-connects}
use curp.Tests.Rafts.{still_raft, log, two_applied, empty_snapshot, batch}
use curp.Prelude.{
  String_discrete, ℕ, ◌+◌, ◌≡◌, refl, Bool, true, false, none, some, List, [], ◌∷◌, arith,
}

-- The definitions that a run computes with.
program : Unit {0}
unfolding String_discrete entries_to_apply publish_loop publish_entries publish_snapshot serve_ready
    change_conf start_serving serve_proposal serve_event stop replay_wal maybe_trigger_snapshot
    write_call save_snap write_calls start_cluster added_at
program = tt

abbrev none_applied : CurpNode still_raft
none_applied = record two_applied { applied_index = 0; commits = [] }

one_round : Serves still_raft log (λ j. refl) none_applied two_applied
unfolding program
one_round =
    round empty_snapshot 1 (log 1 ∷ log 2 ∷ []) Serves.start refl
      ((refl, (refl, tt)), omega arith, omega arith, omega arith) refl

-- A node that has received one proposal.
abbrev one_proposal : Serving still_raft
one_proposal = record (start_serving still_raft two_applied empty_snapshot) { proposals = "p" ∷ [] }

one_proposal-Reach : Reach still_raft two_applied empty_snapshot one_proposal
unfolding program
one_proposal-Reach = later Reach.start (proposes (proposed (some "p")) refl) refl

Reach-Fine_example :
    Inv still_raft one_proposal
    × Fine still_raft (serve_proposal still_raft one_proposal (proposed none))
unfolding program
Reach-Fine_example = Reach-Fine still_raft one_proposal-Reach (proposes (proposed none) refl)

closing_shuts_down_example :
    (t : Serving still_raft) × (u : Serving still_raft) × Step still_raft one_proposal (went t)
    × Step still_raft t (went u)
    × (u.proposing ≡ false)
    × (u.looping ≡ false)
    × (u.commit_closed ≡ true)
    × (u.error_closed ≡ true)
    × (shut_down u.errors false (some "busy") none ≡ runs ("busy" ∷ [], none))
unfolding program
closing_shuts_down_example =
    closing_shuts_down still_raft false (some "busy") none one_proposal-Reach refl refl

shut_down-transport_error_example :
    (u : Serving still_raft) × Step still_raft one_proposal (went u)
    × (u.looping ≡ false)
    × (shut_down u.errors true none none ≡ dies "broken")
    × (shut_down u.errors false none none ≡ runs ("broken" ∷ [], none))
unfolding program
shut_down-transport_error_example =
    shut_down-transport_error still_raft "broken" none none one_proposal-Reach refl

abbrev newest_of : List (Snapshot still_raft) → Loaded still_raft
newest_of [] = Start.no_snapshot
newest_of (snap ∷ snaps) = loaded snap

-- A disk is the files of snapshots on it, beside whether there is a log.
abbrev small_disk : DiskLib still_raft
small_disk = record {
  Disk = Bool × List (Snapshot still_raft);
  HardState = ℕ;
  empty_conf_state = 0;
  snap_dir_exists = λ disk. true;
  make_snap_dir = λ disk. (disk, none);
  wal_exists = λ disk. disk.0;
  make_wal_dir = λ disk. (disk, none);
  create_wal = λ disk. ((true, disk.1), none);
  open_wal = λ disk i. none;
  read_all = λ disk i. (0, [], none);
  valid_snapshot_entries = λ disk. ([], none);
  load_newest_available = λ disk snaps. newest_of disk.1;
  save_snap_file = λ disk snap. ((disk.0, snap ∷ disk.1), none);
  save_wal_snapshot = λ disk snap. (disk, none);
  release_lock_to = λ disk i. (disk, none);
}

abbrev snapshot_at : ℕ → Snapshot still_raft
snapshot_at i = record { index = i; conf_state = 0 }

nothing_held : (disk : Bool × List (Snapshot still_raft)) → HoldsNone still_raft small_disk 0 disk
nothing_held disk = record { no_entries = λ i. refl; hard_state = λ i. refl }

-- The node saved a snapshot, and was given a batch of entries.
abbrev found_again : Replayed still_raft small_disk
found_again = record {
  disk = (true, snapshot_at 3 ∷ []);
  snapshot = some (snapshot_at 3);
  hard_state = 0;
  entries = [];
}

small_disk-KeepsLog : KeepsLog still_raft small_disk 0
small_disk-KeepsLog = record {
  created = λ disk. nothing_held (true, disk.1);
  created_wal = λ disk fine. refl;
  keeps_none = record {
    snap_dir = λ disk h. nothing_held disk;
    snap_file = λ disk snap h. nothing_held (disk.0, snap ∷ disk.1);
    wal_snapshot = λ disk snap h. nothing_held disk;
    released = λ disk i h. nothing_held disk;
  };
  keeps_wal = record {
    snap_dir = λ disk h. h;
    snap_file = λ disk snap h. h;
    wal_snapshot = λ disk snap h. h;
    released = λ disk i h. h;
  };
}

-- The first of two nodes, on an empty disk and started again.
abbrev first_start : NodeStart still_raft small_disk
first_start = record {
  replayed = record {
    disk = (true, []);
    snapshot = some (snapshot_at 0);
    hard_state = 0;
    entries = [];
  };
  restarted = false;
  raft_peers = 1 ∷ 2 ∷ [];
  peer_calls = add_peer 2 "b" ∷ [];
}

abbrev second_start : NodeStart still_raft small_disk
second_start = record first_start { replayed = found_again; restarted = true; raft_peers = [] }

restart_forgets_example :
    (second_start.restarted ≡ true)
    × (second_start.raft_peers ≡ [])
    × (second_start.replayed.entries ≡ [])
    × (second_start.replayed.hard_state ≡ 0)
unfolding program start_raft
restart_forgets_example =
    restart_forgets still_raft small_disk 0 small_disk-KeepsLog (false, []) 1 ("a" ∷ "b" ∷ []) false
      ((snapshot_at 0, append batch) ∷ (snapshot_at 3, save_snapshot 3) ∷ []) {n = first_start}
      {m = second_start} (nothing_held (false, [])) refl refl

abbrev small_calls : SnapshotCalls still_raft
small_calls = record {
  get_snapshot = ("state", none);
  create_snapshot = λ i conf_state text. (record { index = i; conf_state = conf_state }, none);
  compact = λ i. none;
}

abbrev many_applied : CurpNode still_raft
many_applied = record two_applied { applied_index = 20005; snapshot_index = 10004 }

start_cluster-connects_example :
    (2 ≡ 1 + 1)
    × (added_at 1 (other_peers still_raft small_disk 2 0 ("a" ∷ "b" ∷ "c" ∷ [])) ≡ "a" ∷ [])
unfolding program
start_cluster-connects_example =
    start_cluster-connects still_raft small_disk ("a" ∷ "b" ∷ "c" ∷ []) (":1" ∷ ":2" ∷ ":3" ∷ []) 1
      0 "a" {starts = peers_from 0 ("a" ∷ "b" ∷ "c" ∷ []) (":1" ∷ ":2" ∷ ":3" ∷ [])}
      {p = record { peers = "a" ∷ "b" ∷ "c" ∷ []; grpcservers = ":2"; id = 2 }} refl refl refl
