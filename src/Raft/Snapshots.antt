-- ===== src/Raft/Snapshots.antt =====
-- `maybeTriggerSnapshot` of curp/raft.go, whose call in the event loop is commented out. Indices are of
-- type uint64.
use curp.Kv.{GoError}
use curp.Raft.{RaftLib, Snapshot, CurpNode, u64}
use curp.Raft.Start.{DiskLib, save_snap}
use curp.Prelude.{
  if◌then◌else◌, ltb, leb, ℕ, ◌+◌, ◌-◌, ◌%◌, ◌≤◌, ◌<◌, String, ◌≡◌, none, some, arith,
}

abbrev pub default_snapshot_count : ℕ
default_snapshot_count = 10000

abbrev pub snapshot_catch_up_entries_n : ℕ
snapshot_catch_up_entries_n = 10000

-- The calls of the storage and of the state machine: `getSnapshot`, `CreateSnapshot` and `Compact`.
pub record SnapshotCalls (R : RaftLib) : Type 0 where
  pub get_snapshot : String × GoError
  pub create_snapshot : ℕ → R.ConfState → String → Snapshot R × GoError
  pub compact : ℕ → GoError

-- Which of the two channels the function receives from, if the first is not nil.
pub data ApplyWait : Type 0 where
  no_channel applied stopped : ApplyWait

module _ (R : RaftLib) (D : DiskLib R) where
  -- The function returns at its first test or at the stop, panics, or has taken a snapshot and compacted
  -- the log at an index.
  pub data Triggered : Type 0 where
    too_early : Triggered
    gave_up : Triggered
    panicked : String → Triggered
    took : CurpNode R → D.Disk → ℕ → Triggered

  abbrev pub compact_index : ℕ → ℕ
  compact_index applied_index =
      if ltb snapshot_catch_up_entries_n applied_index
      then applied_index - snapshot_catch_up_entries_n
      else 1

  -- The part behind the wait.
  take_snapshot : CurpNode R → D.Disk → SnapshotCalls R → Triggered
  take_snapshot n disk calls = elim calls.get_snapshot.1 [
    | some e ↦ panicked e
    | none ↦
        let (snap, err) = calls.create_snapshot n.applied_index n.conf_state calls.get_snapshot.0 in
        elim err [
          | some e ↦ panicked e
          | none ↦
              let (saved, err') = save_snap R D disk snap in
              elim err' [
                | some e ↦ panicked e
                | none ↦ elim (calls.compact (compact_index n.applied_index)) [
                  | some e ↦ panicked e
                  | none ↦
                      took (record n { snapshot_index = n.applied_index }) saved
                        (compact_index n.applied_index)
                ]
              ]
        ]
  ]

  after_wait : CurpNode R → D.Disk → SnapshotCalls R → ApplyWait → Triggered
  unfolding take_snapshot
  after_wait n disk calls stopped = gave_up
  after_wait n disk calls no_channel = take_snapshot n disk calls
  after_wait n disk calls applied = take_snapshot n disk calls

  unfoldable pub maybe_trigger_snapshot :
      ℕ → CurpNode R → D.Disk → SnapshotCalls R → ApplyWait → Triggered
  unfolding after_wait
  maybe_trigger_snapshot snap_count n disk calls wait =
      if leb ((n.applied_index + u64 - n.snapshot_index) % u64) snap_count
      then too_early
      else after_wait n disk calls wait

  take_snapshot-took :
      (n : CurpNode R) (disk : D.Disk) (calls : SnapshotCalls R) {m : CurpNode R} {saved : D.Disk}
      {compacted : ℕ}
      → take_snapshot n disk calls ≡ took m saved compacted
      → (m.snapshot_index ≡ n.applied_index)
        × (m.applied_index ≡ n.applied_index)
        × (compacted ≡ compact_index n.applied_index)
  unfolding take_snapshot
  take_snapshot-took n disk calls e = ground arith

  after_wait-took :
      (n : CurpNode R) (disk : D.Disk) (calls : SnapshotCalls R) (wait : ApplyWait) {m : CurpNode R}
      {saved : D.Disk} {compacted : ℕ}
      → after_wait n disk calls wait ≡ took m saved compacted
      → (m.snapshot_index ≡ n.applied_index)
        × (m.applied_index ≡ n.applied_index)
        × (compacted ≡ compact_index n.applied_index)
  unfolding after_wait
  after_wait-took n disk calls stopped e = cc
  after_wait-took n disk calls no_channel e = take_snapshot-took n disk calls e
  after_wait-took n disk calls applied e = take_snapshot-took n disk calls e

  -- With the default count, and a snapshot that is not ahead of what is applied, a snapshot is taken only
  -- if more than 10000 entries were applied since the last one. It then stands at the applied index, and
  -- the log is compacted exactly 10000 entries below it: the other value, 1, is never used.
  pub maybe_trigger_snapshot-took :
      (n : CurpNode R) (disk : D.Disk) (calls : SnapshotCalls R) (wait : ApplyWait) {m : CurpNode R}
      {saved : D.Disk} {compacted : ℕ}
      → n.snapshot_index ≤ n.applied_index
      → n.applied_index < u64
      → maybe_trigger_snapshot default_snapshot_count n disk calls wait ≡ took m saved compacted
      → (default_snapshot_count < n.applied_index - n.snapshot_index)
        × (m.snapshot_index ≡ n.applied_index)
        × (m.applied_index ≡ n.applied_index)
        × (compacted + snapshot_catch_up_entries_n ≡ n.applied_index)
        × (0 < compacted)
  unfolding maybe_trigger_snapshot
  maybe_trigger_snapshot-took n disk calls wait {m} {saved} {compacted} h b e =
      ground (arith, after_wait-took n disk calls wait)
