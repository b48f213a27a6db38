-- ===== src/Machine/Commits.antt =====
-- How a state machine of curp/state.go starts, and how commits reach its worker. The snapshotter is
-- not in the repository: what its `Load` gives is an argument.
use curp.Kv.{KvStore}
use curp.Board.{new_board}
use curp.Witness.{new_witness}
use curp.Machine.{StateMachine, follower}
use curp.Machine.Steps.{Gob}
use curp.Prelude.{String, Option, none, some, List, [], ◌∷◌, ◌++◌}

-- `s.snapshotter == nil`, and what `Load` gives: `ErrNoSnapshot`, another error, or the snapshot's data.
pub data Snapshotter : Type 0 where
  no_snapshotter : Snapshotter
  no_snapshot : Snapshotter
  load_error : String → Snapshotter
  loaded : String → Snapshotter

-- What a call gives, or the panic or fatal error that ends the process.
pub data Started (A : Type 0) : Type 0 where
  runs : A → Started A
  dies : String → Started A

-- `loadSnapshot`: the data of a snapshot, if there is one.
unfoldable pub load_snapshot : Snapshotter → Started (Option String)
load_snapshot no_snapshotter = runs none
load_snapshot no_snapshot = runs none
load_snapshot (load_error err) = dies err
load_snapshot (loaded content) = runs (some content)

module _ (K : KvStore) where
  -- `recoverFromSnapshot`: the code that would read the data is commented out.
  abbrev pub recover_from_snapshot : StateMachine K → String → StateMachine K
  recover_from_snapshot s content = s

  recovered : StateMachine K → Started (Option String) → Started (StateMachine K)
  recovered s (dies err) = dies err
  recovered s (runs none) = runs s
  recovered s (runs (some content)) = runs (recover_from_snapshot s content)

  -- The loading of a snapshot in the constructors and in `readCommits`.
  unfoldable pub reload : StateMachine K → Snapshotter → Started (StateMachine K)
  unfolding recovered load_snapshot
  reload s load = recovered s (load_snapshot load)

  -- The state that `newGrpcState` and `newState` build, on the store that each of them opens.
  abbrev pub initial : K.Store → StateMachine K
  initial kv = record {
    kv_store = kv;
    command_board = new_board;
    raft_state = follower;
    fast_path = [];
    slow_path = [];
    proposed = [];
    command_set = [];
    witness = new_witness;
  }

  unfoldable pub new_state : K.Store → Snapshotter → Started (StateMachine K)
  unfolding reload
  new_state kv load = reload (initial kv) load

-- `getSnapshot`: no bytes, and no error.
abbrev pub get_snapshot : {K : KvStore} → StateMachine K → Option String × Option String
get_snapshot s = (none, none)

module _ (K : KvStore) (G : Gob) where
  -- The loop over the texts of a commit in `readCommits`.
  unfoldable pub read_texts : StateMachine K → List String → Started (StateMachine K)
  read_texts s [] = runs s
  read_texts s (text ∷ texts) = elim (G.decode text) [
    | none ↦ dies "raftexample: could not decode message"
    | some cmd ↦ read_texts (record s { slow_path = s.slow_path ++ cmd ∷ [] }) texts
  ]

  -- One round of `readCommits`; none is the nil commit.
  unfoldable pub read_commit :
      StateMachine K → Option (List String) → Snapshotter → Started (StateMachine K)
  unfolding reload read_texts
  read_commit s none load = reload K s load
  read_commit s (some texts) load = read_texts s texts
