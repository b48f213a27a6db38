-- ===== src/Raft/Serve.antt =====
-- `serveChannels` of curp/raft.go as a whole: the goroutine that takes proposals, the event loop, and how
-- they end, `stop` and `writeError`. The storage and the write-ahead log are recorded by the calls that
-- are made of them, messages to other nodes are left out, and `stopHTTP` waits for the listener, which ends once it is told to.
pub mod Errors
pub mod Shutdown
use curp.Machine.{StateType}
use curp.Raft.{RaftLib, Entry, ConfChange, Snapshot, CurpNode, serve_ready, serve_soft_state}
use curp.Prelude.{
  if◌then◌else◌, ◌==◌, ℕ, ◌+◌, ◌%◌, ◌^◌, String, Bool, true, false, ◌&&◌, ◌||◌, Option, none, some,
  List, [], ◌∷◌, ◌++◌,
}

-- The calls of the snapshotter, the write-ahead log and the storage, with the index of the snapshot.
pub data StorageCall : Type 0 where
  save_snapshot : ℕ → StorageCall
  apply_snapshot : ℕ → StorageCall
  append : List Entry → StorageCall

-- What the goroutine of the proposals receives. `none` stands for a closed channel.
pub data Proposal : Type 0 where
  proposed : Option String → Proposal
  conf_changed : Option ConfChange → Proposal

-- The fields of `raft.Ready` that the source reads, and whether the stop channel wins the `select` of
-- `publishEntries`.
pub record Ready (R : RaftLib) : Type 0 where
  pub snapshot : Snapshot R
  pub entries : List Entry
  pub committed_entries : List Entry
  pub soft_state : Option StateType
  pub stopped : Bool

-- What the event loop receives.
pub data LoopEvent (R : RaftLib) : Type 0 where
  ticks : LoopEvent R
  ready : Ready R → LoopEvent R
  transport_error : String → LoopEvent R
  stop_requested : LoopEvent R

module _ (R : RaftLib) where
  -- `proposing` and `looping` say which of the two goroutines runs; `propose_open` and `conf_open`, that
  -- the channel variable is not nil. The others with `closed` are channels.
  pub record Serving : Type 0 where
    pub node : CurpNode R
    pub proposing : Bool
    pub looping : Bool
    pub propose_open : Bool
    pub conf_open : Bool
    pub conf_change_count : ℕ
    pub proposals : List String
    pub conf_proposals : List (ℕ × ConfChange)
    pub tick_count : ℕ
    pub storage_calls : List StorageCall
    pub sent_states : List StateType
    pub stop_closed : Bool
    pub http_stop_closed : Bool
    pub commit_closed : Bool
    pub error_closed : Bool
    pub errors : List String
    pub node_stopped : Bool
    pub wal_closed : Bool

  -- A goroutine goes on or has returned; or the process ends, by the panic of a channel or by a fatal
  -- error of the source.
  pub data Ran : Type 0 where
    went : Serving → Ran
    panicked : Ran
    fatal : Ran

  -- `close(rc.stopc)`
  close_stop : Serving → Ran
  close_stop s =
      if s.stop_closed then panicked else went (record s { stop_closed = true; proposing = false })

  -- The end of a round of the first goroutine: its loop's condition.
  next_proposal : Serving → Ran
  unfolding close_stop
  next_proposal s = if s.propose_open && s.conf_open then went s else close_stop s

  -- A round of the goroutine that takes proposals.
  unfoldable pub serve_proposal : Serving → Proposal → Ran
  unfolding next_proposal
  serve_proposal s (proposed none) = next_proposal (record s { propose_open = false })
  serve_proposal s (proposed (some prop)) =
      next_proposal (record s { proposals = s.proposals ++ prop ∷ [] })
  serve_proposal s (conf_changed none) = next_proposal (record s { conf_open = false })
  serve_proposal s (conf_changed (some cc)) =
      let count = (s.conf_change_count + 1) % 2 ^ 64 in
      next_proposal (record s {
        conf_change_count = count;
        conf_proposals = s.conf_proposals ++ (count, cc) ∷ [];
      })

  -- The end of `stop` and of `writeError`, which is the end of the event loop too: `stopHTTP`, the
  -- channels, with an error or none sent, and the node.
  unfoldable pub end_serving : Serving → List String → Ran
  end_serving s errors =
      if s.http_stop_closed || s.commit_closed || s.error_closed
      then panicked
      else went (record s {
        http_stop_closed = true;
        commit_closed = true;
        error_closed = true;
        errors = s.errors ++ errors;
        node_stopped = true;
        wal_closed = true;
        looping = false;
      })

  unfoldable pub stop : Serving → Ran
  unfolding end_serving
  stop s = end_serving s []

  unfoldable pub write_error : Serving → String → Ran
  unfolding end_serving
  write_error s err = end_serving s (err ∷ [])

  -- The calls of the storage for a `Ready`.
  abbrev pub storage_of : Ready R → List StorageCall
  storage_of rd =
      (if rd.snapshot.index == 0
        then []
        else save_snapshot rd.snapshot.index ∷ apply_snapshot rd.snapshot.index ∷ [])
      ++ append rd.entries ∷ []

  -- The rest of a `Ready` after `publishEntries`.
  after_publish : Serving → Ready R → Option (CurpNode R × Bool) → Ran
  unfolding stop
  after_publish s rd none = fatal
  after_publish s rd (some (n, false)) = stop (record s { node = n })
  after_publish s rd (some (n, true)) =
      let (m, states) = serve_soft_state R n rd.soft_state in
      went (record s { node = m; sent_states = s.sent_states ++ states })

  -- A round of the event loop. A `Ready` after the channel of the commits is closed counts as the panic
  -- of sending on it.
  unfoldable pub serve_event : Serving → LoopEvent R → Ran
  unfolding after_publish write_error stop
  serve_event s ticks = went (record s { tick_count = s.tick_count + 1 })
  serve_event s (ready rd) =
      if s.commit_closed
      then panicked
      else after_publish (record s { storage_calls = s.storage_calls ++ storage_of rd }) rd
          (serve_ready R s.node rd.snapshot rd.committed_entries rd.stopped)
  serve_event s (transport_error err) = write_error s err
  serve_event s stop_requested = stop s

  -- The start of `serveChannels`, with the snapshot of the storage.
  unfoldable pub start_serving : CurpNode R → Snapshot R → Serving
  start_serving n snap = record {
    node = record n {
      conf_state = snap.conf_state;
      snapshot_index = snap.index;
      applied_index = snap.index;
    };
    proposing = true;
    looping = true;
    propose_open = true;
    conf_open = true;
    conf_change_count = 0;
    proposals = [];
    conf_proposals = [];
    tick_count = 0;
    storage_calls = [];
    sent_states = [];
    stop_closed = false;
    http_stop_closed = false;
    commit_closed = false;
    error_closed = false;
    errors = [];
    node_stopped = false;
    wal_closed = false;
  }
