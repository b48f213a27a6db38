-- ===== src/Raft/Start/Restart.antt =====
-- What a node of curp/raft.go finds again after it was stopped.
use curp.Machine.Commits.{runs, dies}
use curp.Raft.{RaftLib, Snapshot}
use curp.Raft.Serve.{StorageCall}
use curp.Raft.Start.{
  DiskLib, index_of, load_node_snapshot, ensure_wal, open_wal, Replayed, read_wal, replay_wal,
  NodeStart, start_replayed, start_raft, peer_ids,
}
use curp.Raft.Start.Disk.{HoldsNone, Keeps, HasWal, KeepsLog, write_calls, write_calls-Keeps}
use curp.Prelude.{
  if◌then◌else◌, Bool-cases, Option-cases, ℕ, ◌≡◌, refl, sym, subst, ◌⊎◌, inl, inr, Bool, true,
  ◌||◌, Option, List, [], String, arith,
}

module _ (R : RaftLib) (D : DiskLib R) where
  -- What `replayWAL` has gone through if it returns.
  replay_wal-runs :
      (d : D.Disk) {r : Replayed R D}
      → replay_wal R D d ≡ runs r
      → (snapshot : Option (Snapshot R)) × (w : D.Disk) × (ensure_wal R D d ≡ runs w)
        × (read_wal R D w snapshot ≡ runs r)
  unfolding replay_wal open_wal
  replay_wal-runs d {r} h =
      elim (load_node_snapshot R D d)
          as (λ l.
            load_node_snapshot R D d ≡ l
            → (snapshot : Option (Snapshot R)) × (w : D.Disk) × (ensure_wal R D d ≡ runs w)
              × (read_wal R D w snapshot ≡ runs r)) [
                | dies err ↦ λ q. absurd (ground arith)
                | runs snapshot ↦ λ q.
                    elim (ensure_wal R D d)
                        as (λ l.
                          ensure_wal R D d ≡ l
                          → (s : Option (Snapshot R)) × (w : D.Disk) × (ensure_wal R D d ≡ runs w)
                            × (read_wal R D w s ≡ runs r)) [
                              | dies err ↦ λ p. absurd (ground arith)
                              | runs w ↦ λ p.
                                  elim (Option-cases (D.open_wal w (index_of R D snapshot))) [
                                    | inr (err, failed) ↦ absurd (ground arith)
                                    | inl opened ↦ (snapshot, w, p, ground arith)
                                  ]
                            ]
                      refl
              ]
        refl

  start_replayed-runs :
      (d : D.Disk) (id : ℕ) (peers : List String) (join : Bool) {n : NodeStart R D}
      → start_replayed R D d id peers join ≡ runs n
      → (replay_wal R D d ≡ runs n.replayed)
        × (n.restarted ≡ D.wal_exists d || join)
        × (n.raft_peers ≡ (if n.restarted then [] else peer_ids R D 0 peers))
  unfolding start_replayed
  start_replayed-runs d id peers join {n} e =
      elim (replay_wal R D d)
          as (λ x.
            replay_wal R D d ≡ x
            → (replay_wal R D d ≡ runs n.replayed)
              × (n.restarted ≡ D.wal_exists d || join)
              × (n.raft_peers ≡ (if n.restarted then [] else peer_ids R D 0 peers))) [
                | dies err ↦ λ q. absurd (ground arith)
                | runs r ↦ λ q. (ground arith, ground arith, ground arith)
              ]
        refl

  -- A start that succeeds: on the disk as it was, or with the directory of the snapshots made.
  start_raft-runs :
      (disk : D.Disk) (id : ℕ) (peers : List String) (join : Bool) {n : NodeStart R D}
      → start_raft R D disk id peers join ≡ runs n
      → (d : D.Disk) × ((d ≡ disk) ⊎ (d ≡ (D.make_snap_dir disk).0))
        × (start_replayed R D d id peers join ≡ runs n)
  unfolding start_raft
  start_raft-runs disk id peers join {n} e = elim (Bool-cases (D.snap_dir_exists disk)) [
    | inl there ↦ (disk, inl refl, ground arith)
    | inr new ↦ elim (Option-cases (D.make_snap_dir disk).1) [
      | inl fine ↦ ((D.make_snap_dir disk).0, inr refl, ground arith)
      | inr (err, failed) ↦ absurd (ground arith)
    ]
  ]

  start_raft-Keeps :
      (P : D.Disk → Type 0) (L : Keeps R D P) (disk : D.Disk) (id : ℕ) (peers : List String)
      (join : Bool) {n : NodeStart R D}
      → P disk
      → start_raft R D disk id peers join ≡ runs n
      → (d : D.Disk) × P d × (start_replayed R D d id peers join ≡ runs n)
  start_raft-Keeps P L disk id peers join {n} h e =
      let (d, which, started) = start_raft-runs disk id peers join e in
      elim which [
        | inl same ↦ (d, subst P {x = disk} {y = d} (sym same) h, started)
        | inr made ↦ (
          d,
          subst P {x = (D.make_snap_dir disk).0} {y = d} (sym made) (L.snap_dir disk h),
          started,
        )
      ]

  module _ (st : D.HardState) (L : KeepsLog R D st) where
    read_wal-HoldsNone :
        (disk : D.Disk) (snapshot : Option (Snapshot R)) {r : Replayed R D}
        → HoldsNone R D st disk
        → read_wal R D disk snapshot ≡ runs r
        → (r.entries ≡ []) × (r.hard_state ≡ st)
    unfolding read_wal
    read_wal-HoldsNone disk snapshot {r} h e =
        elim (Option-cases (D.read_all disk (index_of R D snapshot)).2) [
          | inl fine ↦
              ground
                (arith, h.no_entries (index_of R D snapshot), h.hard_state (index_of R D snapshot))
          | inr (err, failed) ↦ absurd (ground arith)
        ]

    read_wal-disk :
        (disk : D.Disk) (snapshot : Option (Snapshot R)) {r : Replayed R D}
        → read_wal R D disk snapshot ≡ runs r
        → r.disk ≡ disk
    unfolding read_wal
    read_wal-disk disk snapshot {r} e =
        elim (Option-cases (D.read_all disk (index_of R D snapshot)).2) [
          | inl fine ↦ ground arith
          | inr (err, failed) ↦ absurd (ground arith)
        ]

    ensure_wal-HoldsNone :
        (disk : D.Disk) {d : D.Disk}
        → HoldsNone R D st disk
        → ensure_wal R D disk ≡ runs d
        → HoldsNone R D st d
    unfolding ensure_wal
    ensure_wal-HoldsNone disk {d} h e = elim (Bool-cases (D.wal_exists disk)) [
      | inl there ↦ subst (HoldsNone R D st) {x = disk} {y = d} (ground arith) h
      | inr new ↦
          subst (HoldsNone R D st) {x = (D.create_wal (D.make_wal_dir disk).0).0} {y = d}
            (ground arith) (L.created (D.make_wal_dir disk).0)
    ]

    ensure_wal-HasWal : (disk : D.Disk) {d : D.Disk} → ensure_wal R D disk ≡ runs d → HasWal R D d
    unfolding ensure_wal
    ensure_wal-HasWal disk {d} e = elim (Bool-cases (D.wal_exists disk)) [
      | inl there ↦ subst (HasWal R D) {x = disk} {y = d} (ground arith) there
      | inr new ↦
          let made = (D.make_wal_dir disk).0 in
          elim (Option-cases (D.create_wal made).1) [
            | inl fine ↦
                subst (HasWal R D) {x = (D.create_wal made).0} {y = d} (ground arith)
                  (L.created_wal made fine)
            | inr (err, failed) ↦ absurd (ground arith)
          ]
    ]

    -- A replay that succeeds on a disk with no entries: what it finds, and what it leaves.
    replay_wal-HoldsNone :
        (disk : D.Disk) {r : Replayed R D}
        → HoldsNone R D st disk
        → replay_wal R D disk ≡ runs r
        → (r.entries ≡ []) × (r.hard_state ≡ st) × HoldsNone R D st r.disk × HasWal R D r.disk
    replay_wal-HoldsNone disk {r} h e =
        let (snapshot, w, made, read) = replay_wal-runs disk e in
        let held = ensure_wal-HoldsNone disk {d = w} h made in
        let (entries, hard) = read_wal-HoldsNone w snapshot {r = r} held read in
        let same = sym (read_wal-disk w snapshot {r = r} read) in
        (
          entries,
          hard,
          subst (HoldsNone R D st) {x = w} {y = r.disk} same held,
          subst (HasWal R D) {x = w} {y = r.disk} same (ensure_wal-HasWal disk {d = w} made),
        )

    abbrev Both : D.Disk → Type 0
    Both disk = HoldsNone R D st disk × HasWal R D disk

    Both-Keeps : Keeps R D Both
    Both-Keeps = record {
      snap_dir = λ disk h. (L.keeps_none.snap_dir disk h.0, L.keeps_wal.snap_dir disk h.1);
      snap_file = λ disk snap h.
          (L.keeps_none.snap_file disk snap h.0, L.keeps_wal.snap_file disk snap h.1);
      wal_snapshot = λ disk snap h.
          (L.keeps_none.wal_snapshot disk snap h.0, L.keeps_wal.wal_snapshot disk snap h.1);
      released = λ disk i h. (L.keeps_none.released disk i h.0, L.keeps_wal.released disk i h.1);
    }

    -- A node that was started, has been given anything, and is started again, is restarted with no peers of its
    -- own, and finds no log entry and only the hard state of a new log, if all of this succeeds and the first
    -- start found no entries.
    pub restart_forgets :
        (disk : D.Disk) (id : ℕ) (peers : List String) (join : Bool)
        (calls : List (Snapshot R × StorageCall)) {n m : NodeStart R D}
        → HoldsNone R D st disk
        → start_raft R D disk id peers join ≡ runs n
        → start_raft R D (write_calls R D n.replayed.disk calls) id peers join ≡ runs m
        → (m.restarted ≡ true)
          × (m.raft_peers ≡ [])
          × (m.replayed.entries ≡ [])
          × (m.replayed.hard_state ≡ st)
    restart_forgets disk id peers join calls {n} {m} h first second =
        let (d, held, started) =
          start_raft-Keeps (HoldsNone R D st) L.keeps_none disk id peers join {n = n} h first in
        let (replayed, _, _) = start_replayed-runs d id peers join {n = n} started in
        let (_, _, kept, wal) = replay_wal-HoldsNone d {r = n.replayed} held replayed in
        let both =
          start_raft-Keeps Both Both-Keeps (write_calls R D n.replayed.disk calls) id peers join
            {n = m} (write_calls-Keeps R D Both Both-Keeps calls n.replayed.disk (kept, wal))
            second in
        let (again, (none_held, has), restarted) = both in
        let (found, flag, ids) = start_replayed-runs again id peers join {n = m} restarted in
        let (entries, hard, _, _) = replay_wal-HoldsNone again {r = m.replayed} none_held found in
        (ground arith, ground arith, entries, hard)
