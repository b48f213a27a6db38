-- ===== src/Raft/Start.antt =====
-- How a node of curp/raft.go starts: its directories, the replay of the write-ahead log, the choice
-- between a new node and a restarted one, and its peers. The disk, with the snapshotter and the log of
-- etcd, enters by `DiskLib`.
pub mod Disk
pub mod Restart
use curp.Kv.{GoError}
use curp.Machine.{follower}
use curp.Machine.Commits.{Started, runs, dies}
use curp.Raft.{RaftLib, Entry, Snapshot, CurpNode, PeerCall, add_peer}
use curp.Raft.Serve.{StorageCall, save_snapshot, apply_snapshot, append}
use curp.Prelude.{
  if◌then◌else◌, ◌==◌, ℕ, ◌+◌, String, Bool, ◌||◌, Option, none, some, List, [], ◌∷◌,
}

-- `LoadNewestAvailable`: a snapshot, `ErrNoSnapshot`, or another error.
pub data Loaded (R : RaftLib) : Type 0 where
  loaded : Snapshot R → Loaded R
  no_snapshot : Loaded R
  load_failed : String → Loaded R

-- A call that writes gives the disk beside its error. The log is read from the snapshot of an index on.
pub record DiskLib (R : RaftLib) : Type 1 where
  pub Disk : Type 0
  pub HardState : Type 0
  pub empty_conf_state : R.ConfState
  pub snap_dir_exists : Disk → Bool
  pub make_snap_dir : Disk → Disk × GoError
  pub wal_exists : Disk → Bool
  pub make_wal_dir : Disk → Disk × GoError
  pub create_wal : Disk → Disk × GoError
  pub open_wal : Disk → ℕ → GoError
  pub read_all : Disk → ℕ → HardState × List Entry × GoError
  pub valid_snapshot_entries : Disk → List ℕ × GoError
  pub load_newest_available : Disk → List ℕ → Loaded R
  pub save_snap_file : Disk → Snapshot R → Disk × GoError
  pub save_wal_snapshot : Disk → Snapshot R → Disk × GoError
  pub release_lock_to : Disk → ℕ → Disk × GoError

module _ (R : RaftLib) (D : DiskLib R) where
  -- `saveSnap`
  unfoldable pub save_snap : D.Disk → Snapshot R → D.Disk × GoError
  save_snap disk snap =
      let (saved, err) = D.save_snap_file disk snap in
      elim err [
        | some e ↦ (saved, some e)
        | none ↦
            let (recorded, err') = D.save_wal_snapshot saved snap in
            elim err' [ some e ↦ (recorded, some e) | none ↦ D.release_lock_to recorded snap.index ]
      ]

  newest : Loaded R → Started (Option (Snapshot R))
  newest (loaded snap) = runs (some snap)
  newest no_snapshot = runs none
  newest (load_failed e) = dies e

  -- `loadSnapshot`; none is the nil pointer.
  unfoldable pub load_node_snapshot : D.Disk → Started (Option (Snapshot R))
  unfolding newest
  load_node_snapshot disk =
      if D.wal_exists disk
      then (let (wal_snaps, err) = D.valid_snapshot_entries disk in
          elim err [ some e ↦ dies e | none ↦ newest (D.load_newest_available disk wal_snaps) ])
      else runs (some (record { index = 0; conf_state = D.empty_conf_state }))

  -- The first part of `openWAL`: a log is there afterwards.
  ensure_wal : D.Disk → Started D.Disk
  ensure_wal disk =
      if D.wal_exists disk
      then runs disk
      else (let (made, err) = D.make_wal_dir disk in
          elim err [
            | some e ↦ dies e
            | none ↦
                let (created, err') = D.create_wal made in
                elim err' [ some e ↦ dies e | none ↦ runs created ]
          ])

  -- The index that the log is opened at.
  abbrev pub index_of : Option (Snapshot R) → ℕ
  index_of none = 0
  index_of (some snap) = snap.index

  unfoldable pub open_wal : D.Disk → Option (Snapshot R) → Started D.Disk
  unfolding ensure_wal
  open_wal disk snapshot = elim (ensure_wal disk) [
    | dies e ↦ dies e
    | runs d ↦ elim (D.open_wal d (index_of snapshot)) [ some e ↦ dies e | none ↦ runs d ]
  ]

  -- What `replayWAL` hands to the storage.
  pub record Replayed : Type 0 where
    pub disk : D.Disk
    pub snapshot : Option (Snapshot R)
    pub hard_state : D.HardState
    pub entries : List Entry

  -- The end of `replayWAL`.
  read_wal : D.Disk → Option (Snapshot R) → Started Replayed
  read_wal disk snapshot =
      let (st, ents, err) = D.read_all disk (index_of snapshot) in
      elim err [
        | some e ↦ dies e
        | none ↦ runs (record { disk = disk; snapshot = snapshot; hard_state = st; entries = ents })
      ]

  unfoldable pub replay_wal : D.Disk → Started Replayed
  unfolding load_node_snapshot open_wal read_wal
  replay_wal disk = elim (load_node_snapshot disk) [
    | dies e ↦ dies e
    | runs snapshot ↦ elim (open_wal disk snapshot) [
      | dies e ↦ dies e
      | runs d ↦ read_wal d snapshot
    ]
  ]

  -- The loops of `startRaft` over the peers: the ids that a new raft node gets, and the peers of the
  -- transport, which are all others.
  abbrev pub peer_ids : ℕ → List String → List ℕ
  peer_ids i [] = []
  peer_ids i (peer ∷ peers) = (i + 1) ∷ peer_ids (i + 1) peers

  abbrev pub other_peers : ℕ → ℕ → List String → List PeerCall
  other_peers id i [] = []
  other_peers id i (peer ∷ peers) =
      if i + 1 == id
      then other_peers id (i + 1) peers
      else add_peer (i + 1) peer ∷ other_peers id (i + 1) peers

  -- What `startRaft` has started: the replayed log, `RestartNode` or `StartNode` with its peers, and the
  -- peers of the transport.
  pub record NodeStart : Type 0 where
    pub replayed : Replayed
    pub restarted : Bool
    pub raft_peers : List ℕ
    pub peer_calls : List PeerCall

  -- `startRaft` behind the directory of the snapshots.
  start_replayed : D.Disk → ℕ → List String → Bool → Started NodeStart
  unfolding replay_wal
  start_replayed disk id peers join =
      let restarted = D.wal_exists disk || join in
      elim (replay_wal disk) [
        | dies e ↦ dies e
        | runs r ↦ runs (record {
          replayed = r;
          restarted = restarted;
          raft_peers = (if restarted then [] else peer_ids 0 peers);
          peer_calls = other_peers id 0 peers;
        })
      ]

  unfoldable pub start_raft : D.Disk → ℕ → List String → Bool → Started NodeStart
  unfolding start_replayed
  start_raft disk id peers join =
      if D.snap_dir_exists disk
      then start_replayed disk id peers join
      else (let (made, err) = D.make_snap_dir disk in
          elim err [ some e ↦ dies e | none ↦ start_replayed made id peers join ])

  -- The node that `newRaftNode` makes, once `startRaft` has its raft node.
  unfoldable pub new_raft_node : ℕ → R.Node → List PeerCall → CurpNode R
  new_raft_node id node peer_calls = record {
    id = id;
    node = node;
    conf_state = D.empty_conf_state;
    snapshot_index = 0;
    applied_index = 0;
    raft_state = follower;
    peer_calls = peer_calls;
    commits = [];
  }

  -- What the calls of the event loop write to the disk: `saveSnap` for a snapshot. The storage is in
  -- memory, and the calls that would save the entries are commented out.
  unfoldable pub write_call : D.Disk → Snapshot R → StorageCall → D.Disk
  unfolding save_snap
  write_call disk snap (save_snapshot _) = (save_snap disk snap).0
  write_call disk snap (apply_snapshot _) = disk
  write_call disk snap (append _) = disk
