-- ===== src/Client/Mock/Calls.antt =====
-- The rest of `MockClient` of curp/client.go: how it is made, and its calls.
use curp.Command.{CurpClientCommand, CurpReply, ProposeId}
use curp.Command.Op
use curp.Client.{Answer}
use curp.Client.Mock.{MockEvent, mock_propose}
use curp.Prelude.{
  if◌then◌else◌, length, ℕ, ◌+◌, ◌-◌, ◌/◌, ◌%◌, ◌^◌, String, Bool, Option, none, some, List, [],
  ◌∷◌,
}

pub record MockClient : Type 0 where
  pub servers : ℕ
  pub client_id : ℕ
  pub seq_id : ℕ
  pub f : ℕ
  pub leader_id : ℕ

-- The loop of `fetchLeader`, over what the state machines answer to `IsLeader`; none is -1.
mock_leader_from : ℕ → Option ℕ → List Bool → Option ℕ
mock_leader_from idx leader_id [] = leader_id
mock_leader_from idx leader_id (is_leader ∷ servers) =
    mock_leader_from (idx + 1) (if is_leader then some idx else leader_id) servers

-- `NewClient`; none is the error "no leader".
unfoldable pub new_client : List Bool → ℕ → Option MockClient
unfolding mock_leader_from
new_client servers client_id = elim (mock_leader_from 0 none servers) [
  | none ↦ none
  | some leader ↦ some (record {
    servers = length servers;
    client_id = client_id;
    seq_id = 0;
    f = (length servers - 1) / 2;
    leader_id = leader;
  })
]

-- `GetProposeId`: the sequence number is a uint64.
unfoldable pub mock_propose_id : MockClient → MockClient × ProposeId
mock_propose_id c =
    let new_seq_id = (c.seq_id + 1) % 2 ^ 64 in
    (record c { seq_id = new_seq_id }, record { client_id = c.client_id; seq_id = new_seq_id })

-- `Put`: the client, the command that it proposes, and the answer; `Get` likewise.
unfoldable pub mock_put :
    MockClient
    → String
    → String
    → List MockEvent
    → CurpReply
    → MockClient × CurpClientCommand × Answer
unfolding mock_propose_id
mock_put c key value events synced =
    let (c', id) = mock_propose_id c in
    (
      c',
      record {
        op = Op.put;
        client_id = id.client_id;
        seq_id = id.seq_id;
        key = key;
        value = value;
      },
      mock_propose c'.f events synced,
    )

unfoldable pub mock_get :
    MockClient → String → List MockEvent → CurpReply → MockClient × CurpClientCommand × Answer
unfolding mock_propose_id
mock_get c key events synced =
    let (c', id) = mock_propose_id c in
    (
      c',
      record { op = Op.get; client_id = c'.client_id; seq_id = id.seq_id; key = key; value = "" },
      mock_propose c'.f events synced,
    )
