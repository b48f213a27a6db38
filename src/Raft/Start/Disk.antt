-- ===== src/Raft/Start/Disk.antt =====
-- What the disk of a node of curp/raft.go keeps, by what etcd documents of the calls that write to it.
use curp.Raft.{RaftLib, Snapshot}
use curp.Raft.Serve.{StorageCall, save_snapshot, apply_snapshot, append}
use curp.Raft.Start.{DiskLib, save_snap, write_call}
use curp.Prelude.{Option-cases, ℕ, ◌≡◌, subst, inl, inr, true, none, List, [], ◌∷◌, arith}

module _ (R : RaftLib) (D : DiskLib R) where
  -- No entries can be read from the log, and the hard state read is this one.
  pub record HoldsNone (st : D.HardState) (disk : D.Disk) : Type 0 where
    pub no_entries : (i : ℕ) → (D.read_all disk i).1 ≡ []
    pub hard_state : (i : ℕ) → (D.read_all disk i).0 ≡ st

  -- The calls that do not write entries keep a property of the disk.
  pub record Keeps (P : D.Disk → Type 0) : Type 0 where
    pub snap_dir : (disk : D.Disk) → P disk → P (D.make_snap_dir disk).0
    pub snap_file : (disk : D.Disk) (snap : Snapshot R) → P disk → P (D.save_snap_file disk snap).0
    pub wal_snapshot :
        (disk : D.Disk) (snap : Snapshot R) → P disk → P (D.save_wal_snapshot disk snap).0
    pub released : (disk : D.Disk) (i : ℕ) → P disk → P (D.release_lock_to disk i).0

  abbrev pub HasWal : D.Disk → Type 0
  HasWal disk = D.wal_exists disk ≡ true

  -- What etcd documents: a new log is there, with no entries and the first hard state; and the record of a
  -- snapshot, the snapshot's file, the release of locks and the directory of the snapshots neither add
  -- entries nor remove the log.
  pub record KeepsLog (st : D.HardState) : Type 0 where
    pub created : (disk : D.Disk) → HoldsNone st (D.create_wal disk).0
    pub created_wal : (disk : D.Disk) → (D.create_wal disk).1 ≡ none → HasWal (D.create_wal disk).0
    pub keeps_none : Keeps (HoldsNone st)
    pub keeps_wal : Keeps HasWal

  -- The disk after the calls of any number of rounds, each with its snapshot.
  unfoldable pub write_calls : D.Disk → List (Snapshot R × StorageCall) → D.Disk
  write_calls disk [] = disk
  write_calls disk ((snap, c) ∷ calls) = write_calls (write_call R D disk snap c) calls

  module _ (P : D.Disk → Type 0) (L : Keeps P) where
    save_snap-Keeps : (disk : D.Disk) (snap : Snapshot R) → P disk → P (save_snap R D disk snap).0
    unfolding save_snap
    save_snap-Keeps disk snap h =
        let a = D.save_snap_file disk snap in
        let b = D.save_wal_snapshot a.0 snap in
        let c = D.release_lock_to b.0 snap.index in
        let end = (save_snap R D disk snap).0 in
        let ha = L.snap_file disk snap h in
        let hb = L.wal_snapshot a.0 snap ha in
        elim (Option-cases a.1) [
          | inr (e, q) ↦ subst P {x = a.0} {y = end} (ground arith) ha
          | inl q ↦ elim (Option-cases b.1) [
            | inr (e, q') ↦ subst P {x = b.0} {y = end} (ground arith) hb
            | inl q' ↦ subst P {x = c.0} {y = end} (ground arith) (L.released b.0 snap.index hb)
          ]
        ]

    pub write_calls-Keeps :
        (calls : List (Snapshot R × StorageCall)) (disk : D.Disk)
        → P disk
        → P (write_calls disk calls)
    unfolding write_calls write_call
    write_calls-Keeps [] disk h = h
    write_calls-Keeps ((snap, save_snapshot i) ∷ calls) disk h =
        write_calls-Keeps calls (save_snap R D disk snap).0 (save_snap-Keeps disk snap h)
    write_calls-Keeps ((snap, apply_snapshot i) ∷ calls) disk h = write_calls-Keeps calls disk h
    write_calls-Keeps ((snap, append es) ∷ calls) disk h = write_calls-Keeps calls disk h
