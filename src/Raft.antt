-- ===== src/Raft.antt =====
-- curp/raft.go: how a node hands the entries that raft has committed to its state machine. The raft
-- library, its storage, the write-ahead log and the transport are not in the repository: the library
-- enters by `RaftLib`, and calls of the transport are recorded.
pub mod Apply
pub mod Delivery
pub mod ExactlyOnce
pub mod Followers
pub mod Listener
pub mod Replicas
pub mod Replication
pub mod Roles
pub mod Serve
pub mod Snapshots
pub mod Start
use curp.Machine.{StateType, follower, candidate, leader, pre_candidate}
use curp.Prelude.{
  if◌then◌else◌, ltb, leb, ◌==◌, String_discrete, length, drop, ℕ, ◌+◌, ◌-◌, ◌%◌, ◌^◌, String, ite,
  Bool, true, false, Option, none, some, List, [], ◌∷◌, ◌++◌,
}

pub data EntryType : Type 0 where
  entry_normal entry_conf_change : EntryType

abbrev pub same_state : StateType → StateType → Bool
same_state follower follower = true
same_state candidate candidate = true
same_state leader leader = true
same_state pre_candidate pre_candidate = true
same_state _ _ = false

-- The fields of `raftpb.Entry` that the source reads.
pub record Entry : Type 0 where
  pub index : ℕ
  pub type : EntryType
  pub content : String

pub data ConfChangeType : Type 0 where
  add_node remove_node other_change : ConfChangeType

-- The fields of `raftpb.ConfChange` that the source reads.
pub record ConfChange : Type 0 where
  pub type : ConfChangeType
  pub node_id : ℕ
  pub context : String

pub record RaftLib : Type 1 where
  pub Node : Type 0
  pub ConfState : Type 0
  pub unmarshal : String → ConfChange
  pub apply_conf_change : Node → ConfChange → Node × ConfState

pub data PeerCall : Type 0 where
  add_peer : ℕ → String → PeerCall
  remove_peer : ℕ → PeerCall

abbrev pub u64 : ℕ
u64 = 2 ^ 64

-- `entriesToApply`; none is the fatal error on a gap. Indices are of type uint64.
unfoldable pub entries_to_apply : ℕ → List Entry → Option (List Entry)
entries_to_apply applied_index [] = some []
entries_to_apply applied_index (e ∷ es) =
    let skipped = (applied_index + u64 - e.index + 1) % u64 in
    if ltb ((applied_index + 1) % u64) e.index
    then none
    else (if ltb skipped (length (e ∷ es)) then some (drop skipped (e ∷ es)) else some [])

-- `ents[len(ents)-1].Index`
abbrev pub last_index : Entry → List Entry → ℕ
last_index e [] = e.index
last_index e (d ∷ es) = last_index d es

-- A snapshot's metadata; index 0 is the empty snapshot.
pub record Snapshot (R : RaftLib) : Type 0 where
  pub index : ℕ
  pub conf_state : R.ConfState

module _ (R : RaftLib) where
  -- `commits` is what was sent to the state machine, oldest first: the texts of a commit, or none for
  -- the nil that makes it load a snapshot.
  pub record CurpNode : Type 0 where
    pub id : ℕ
    pub node : R.Node
    pub conf_state : R.ConfState
    pub snapshot_index : ℕ
    pub applied_index : ℕ
    pub raft_state : StateType
    pub peer_calls : List PeerCall
    pub commits : List (Option (List String))

  -- The second `switch` of `publishEntries`. False: this node was removed.
  dispatch : CurpNode → ConfChange → ConfChangeType → CurpNode × Bool
  dispatch n cc add_node = (
    ite (String_discrete cc.context "") n
        (record n { peer_calls = add_peer cc.node_id cc.context ∷ n.peer_calls }),
    true,
  )
  dispatch n cc remove_node =
      if cc.node_id == n.id
      then (n, false)
      else (record n { peer_calls = remove_peer cc.node_id ∷ n.peer_calls }, true)
  dispatch n cc other_change = (n, true)

  unfoldable pub change_conf : CurpNode → ConfChange → CurpNode × Bool
  unfolding dispatch
  change_conf n cc =
      let (node, conf_state) = R.apply_conf_change n.node cc in
      dispatch (record n { node = node; conf_state = conf_state }) cc cc.type

  -- What a normal entry adds to the texts of a commit.
  abbrev pub payload : String → List String
  payload content = ite (String_discrete content "") [] (content ∷ [])

  -- The loop of `publishEntries`; none: this node was removed.
  unfoldable pub publish_loop :
      CurpNode → List Entry → List String → CurpNode × Option (List String)
  publish_loop n [] texts = (n, some texts)
  publish_loop n (e ∷ es) texts = elim e.type [
    | entry_normal ↦ publish_loop n es (texts ++ payload e.content)
    | entry_conf_change ↦
        let (m, kept) = change_conf n (R.unmarshal e.content) in
        elim kept [ true ↦ publish_loop m es texts | false ↦ (m, none) ]
  ]

  -- The send of a commit, and the update behind it; `stopped`: the stop channel wins the `select`.
  abbrev pub send_commit : CurpNode → List String → ℕ → Bool → CurpNode × Bool
  send_commit n [] last stopped = (record n { applied_index = last }, true)
  send_commit n (text ∷ texts) last true = (n, false)
  send_commit n (text ∷ texts) last false =
      (record n { applied_index = last; commits = n.commits ++ some (text ∷ texts) ∷ [] }, true)

  -- `publishEntries`: the node, and whether all entries could be published.
  unfoldable pub publish_entries : CurpNode → List Entry → Bool → CurpNode × Bool
  publish_entries n [] stopped = (n, true)
  publish_entries n (e ∷ es) stopped =
      let (m, read) = publish_loop n (e ∷ es) [] in
      elim read [ none ↦ (m, false) | some texts ↦ send_commit m texts (last_index e es) stopped ]

  -- `publishSnapshot`; none is the fatal error on an old snapshot.
  unfoldable pub publish_snapshot : CurpNode → Snapshot R → Option CurpNode
  publish_snapshot n snap =
      if snap.index == 0
      then some n
      else (if leb snap.index n.applied_index
          then none
          else some (record n {
            commits = n.commits ++ none ∷ [];
            conf_state = snap.conf_state;
            snapshot_index = snap.index;
            applied_index = snap.index;
          }))

  -- What `serveChannels` does with the snapshot and the committed entries of one `Ready`; none is a
  -- fatal error.
  unfoldable pub serve_ready : CurpNode → Snapshot R → List Entry → Bool → Option (CurpNode × Bool)
  serve_ready n snap committed stopped = elim (publish_snapshot n snap) [
    | none ↦ none
    | some m ↦ elim (entries_to_apply m.applied_index committed) [
      | none ↦ none
      | some ents ↦ some (publish_entries m ents stopped)
    ]
  ]

  -- What `serveChannels` does with the soft state of a `Ready`: the node, and the states that it starts a
  -- goroutine to send.
  unfoldable pub serve_soft_state : CurpNode → Option StateType → CurpNode × List StateType
  serve_soft_state n none = (n, [])
  serve_soft_state n (some new_raft_state) =
      if same_state n.raft_state new_raft_state
      then (n, [])
      else (record n { raft_state = new_raft_state }, new_raft_state ∷ [])
