-- ===== src/Client/Ids.antt =====
-- The ids that a client of curp/client_grpc.go gives its commands.
use curp.Command.{ProposeId}
use curp.Client.{
  SyncEnd, GrpcClient, get_propose_id, Event, Round, returned, timeout, panicked, unfinished,
  fast_round, after_round, propose,
}
use curp.Prelude.{ℕ, zero, suc, ◌+◌, ◌%◌, ◌^◌, ◌<◌, ◌≡◌, refl, ap, ◌≢◌, none, some, List, arith}

-- The client after this many calls of `GetProposeId`.
unfoldable pub after_ids : ℕ → GrpcClient → GrpcClient
after_ids zero c = c
after_ids (suc n) c = (get_propose_id (after_ids n c)).0

-- The id that the n-th call gets, counted from 0.
abbrev pub nth_id : ℕ → GrpcClient → ProposeId
nth_id n c = (get_propose_id (after_ids n c)).1

after_ids_seq :
    (n : ℕ) (c : GrpcClient)
    → c.seq_id < 2 ^ 64
    → ((after_ids n c).seq_id ≡ (c.seq_id + n) % 2 ^ 64) × ((after_ids n c).client_id ≡ c.client_id)
unfolding after_ids get_propose_id
after_ids_seq zero c h = (omega arith, refl)
after_ids_seq (suc n) c h = let (e, i) = after_ids_seq n c h in (omega arith, i)

-- Of 2^64 ids in a row no two are the same.
pub nth_id-ne :
    (c : GrpcClient) (i j : ℕ)
    → c.seq_id < 2 ^ 64
    → i < j
    → j < i + 2 ^ 64
    → nth_id i c ≢ nth_id j c
unfolding get_propose_id
nth_id-ne c i j h lt near e =
    let same : (nth_id i c).seq_id ≡ (nth_id j c).seq_id = ap (λ (x : ProposeId). x.seq_id) e in
    let (p, _) = after_ids_seq i c h in let (q, _) = after_ids_seq j c h in omega arith

-- What a call of `Propose` leaves of the client: all but its two counters.
abbrev pub Keeps : GrpcClient → GrpcClient → Type 0
Keeps c d =
    (d.seq_id ≡ c.seq_id)
    × (d.client_id ≡ c.client_id)
    × (d.f ≡ c.f)
    × (d.servers ≡ c.servers)
    × (d.leader_id ≡ c.leader_id)

after_round-Keeps :
    (c : GrpcClient) (r : Round) (synced : SyncEnd) → Keeps c (after_round c r synced).0
unfolding after_round
after_round-Keeps c (returned (some r)) synced = ground arith
after_round-Keeps c (returned none) synced = (refl, refl, refl, refl, refl)
after_round-Keeps c timeout synced = (refl, refl, refl, refl, refl)
after_round-Keeps c panicked synced = (refl, refl, refl, refl, refl)
after_round-Keeps c unfinished synced = (refl, refl, refl, refl, refl)

pub propose-Keeps :
    (c : GrpcClient) (events : List Event) (synced : SyncEnd) → Keeps c (propose c events synced).0
unfolding propose
propose-Keeps c events synced = after_round-Keeps c (fast_round c events) synced
