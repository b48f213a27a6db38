-- ===== src/Cluster/AnyOrder.antt =====
-- Three servers, whose replies come back in any order.
use curp.Kv.{KvStore, IsStore}
use curp.Machine.{StateType, StateMachine}
use curp.Machine.Steps.{Gob}
use curp.Command.{CurpClientCommand, ProposeId-discrete}
use curp.Client.{GrpcClient, content, super_quorom}
use curp.Client.Prompt.{Leads}
use curp.Cluster.{Cluster, Round, session}
use curp.Cluster.Map.{KeyMap, map_run, Holds}
use curp.Cluster.Sequential.{session-map_run}
use curp.Cluster.Serving.{Serves, IsServing, IsPrompt, id_of}
use curp.Cluster.Started.{start, start-IsStarted}
use curp.Prelude.{
  length, All, ℕ, ◌+◌, ◌^◌, ◌≤◌, ◌<◌, ◌≡◌, sym, subst, ◌∙◌, ◌≢◌, inl, inr, some, List, [], ◌∷◌, map,
  lookup, arith, ℕ_discrete,
}

-- A reply of each of three servers.
abbrev pub OfThree : List ℕ → Type 0
OfThree (p ∷ q ∷ r ∷ []) = (p < 3) × (q < 3) × (r < 3) × (p ≢ q) × (p ≢ r) × (q ≢ r)
OfThree _ = ⊥

pub OfThree-Leads : (l : ℕ) (order : List ℕ) → l < 3 → OfThree order → Leads l 3 order
OfThree-Leads l (p ∷ q ∷ r ∷ []) h (a, b, c, d, e, f) = elim (ℕ_discrete p l) [
  | yes x ↦ inl x
  | no x ↦ elim (ℕ_discrete q l) [ yes y ↦ inr (inl y) | no y ↦ inr (inr (inl (omega arith))) ]
]
OfThree-Leads l [] h o = elim o [ ]
OfThree-Leads l (p ∷ []) h o = elim o [ ]
OfThree-Leads l (p ∷ q ∷ []) h o = elim o [ ]
OfThree-Leads l (p ∷ q ∷ r ∷ s ∷ order) h o = elim o [ ]

OfThree-IsPrompt :
    (c : GrpcClient) (order : List ℕ)
    → c.f ≡ 1
    → c.leader_id < 3
    → OfThree order
    → IsPrompt c 3 order
unfolding super_quorom
OfThree-IsPrompt c (p ∷ q ∷ r ∷ []) f l o =
    let (a, b, d, _, _, _) = o in
    record {
      in_range = (a, (b, (d, tt)));
      enough = omega arith;
      leader_first =
          subst (λ k. Leads c.leader_id k (p ∷ q ∷ r ∷ [])) {x = 3} {y = super_quorom c.f}
            (omega arith) (OfThree-Leads c.leader_id (p ∷ q ∷ r ∷ []) l o);
    }
OfThree-IsPrompt c [] f l o = elim o [ ]
OfThree-IsPrompt c (p ∷ []) f l o = elim o [ ]
OfThree-IsPrompt c (p ∷ q ∷ []) f l o = elim o [ ]
OfThree-IsPrompt c (p ∷ q ∷ r ∷ s ∷ order) f l o = elim o [ ]

all-IsPrompt :
    (c : GrpcClient) (rs : List Round)
    → c.f ≡ 1
    → c.leader_id < 3
    → All (λ r. OfThree r.order) rs
    → All (λ r. IsPrompt c 3 r.order) rs
all-IsPrompt c [] f l h = tt
all-IsPrompt c (r ∷ rs) f l h = (OfThree-IsPrompt c r.order f l h.0, all-IsPrompt c rs f l h.1)

module _ (K : KvStore) where
  stores-Holds :
      (id first seq : ℕ) (kv : K.Store) (m : KeyMap) (replicas : List (StateMachine K))
      → Holds K kv m
      → All (Serves K id first seq kv) replicas
      → All (λ s. Holds K s.kv_store m) replicas
  stores-Holds id first seq kv m [] holds h = tt
  stores-Holds id first seq kv m (s ∷ replicas) holds h = (
    subst (λ x. Holds K x m) {x = kv} {y = s.kv_store} (sym h.0.same) holds,
    stores-Holds id first seq kv m replicas holds h.1,
  )

  -- The id is marked as committed on the board of every server.
  abbrev pub Marked : ℕ → ℕ → List (StateMachine K) → Type 0
  Marked client_id n replicas =
      All (λ s. lookup ProposeId-discrete (id_of client_id n) s.command_board.asr_buffer ≡ some tt)
        replicas

  all-Marked :
      (id first seq n : ℕ) (kv : K.Store) (replicas : List (StateMachine K))
      → first < n
      → n ≤ seq
      → All (Serves K id first seq kv) replicas
      → Marked id n replicas
  all-Marked id first seq n kv [] l h s = tt
  all-Marked id first seq n kv (r ∷ replicas) l h s =
      (s.0.kept n l h, all-Marked id first seq n kv replicas l h s.1)

  module _ (L : IsStore K) (G : Gob) where
    -- A client of three servers that have just started, one of which says that it is the leader, sends requests
    -- one after the other, each after the commit of the one before. In whatever order the three replies to
    -- each come back, if gob decodes what it has encoded and there are fewer than 2^64 requests, every request
    -- is answered as a map from keys to texts answers it, without the slow path, and in the end the store of
    -- every server is that map.
    pub three_servers-map_run :
        (kv : K.Store) (m : KeyMap) (client_id : ℕ) (r1 r2 r3 : StateType) (rs : List Round)
        {c : Cluster K}
        → start K kv client_id (r1 ∷ r2 ∷ r3 ∷ []) ≡ some c
        → ((cmd : CurpClientCommand) → G.decode (G.encode cmd) ≡ some cmd)
        → length rs < 2 ^ 64
        → All (λ r. OfThree r.order) rs
        → Holds K kv m
        → (d : Cluster K) × (session K G c rs
            ≡ some (d, map content (map_run m (map (λ r. r.asked) rs)).1))
          × (d.client.slow ≡ 0)
          × All (λ s. Holds K s.kv_store (map_run m (map (λ r. r.asked) rs)).0) d.replicas
    three_servers-map_run kv m client_id r1 r2 r3 rs {c} begun lossless few orders holds =
        let (serving, seq, slow, long, f, l) =
          start-IsStarted K kv client_id (r1 ∷ r2 ∷ r3 ∷ []) {c = c} begun in
        let prompt = all-IsPrompt c.client rs (f ∙ omega arith) l orders in
        let (d, last, e, serving', holds', _, _, slow') =
          session-map_run K L G 0 kv m c rs lossless (omega arith) (rw long prompt) serving holds in
        (d, e, slow' ∙ slow, stores-Holds _ _ _ last _ d.replicas holds' serving'.each_serves)

    -- After such a session the boards of all servers have grown with every request: each still holds the mark
    -- of each command that the client has sent, whether or not it ever asks for it.
    pub session-Marked :
        (first : ℕ) (kv : K.Store) (m : KeyMap) (c : Cluster K) (rs : List Round) (n : ℕ)
        → ((cmd : CurpClientCommand) → G.decode (G.encode cmd) ≡ some cmd)
        → c.client.seq_id + length rs < 2 ^ 64
        → All (λ r. IsPrompt c.client (length c.replicas) r.order) rs
        → IsServing K first kv c
        → Holds K kv m
        → first < n
        → n ≤ c.client.seq_id + length rs
        → (d : Cluster K) × (session K G c rs
            ≡ some (d, map content (map_run m (map (λ r. r.asked) rs)).1))
          × Marked c.client.client_id n d.replicas
    session-Marked first kv m c rs n lossless few prompt serving holds l h =
        let (d, last, e, serving', _, seq, id, _) =
          session-map_run K L G first kv m c rs lossless few prompt serving holds in
        (
          d,
          e,
          subst (λ i. Marked i n d.replicas) {x = d.client.client_id} {y = c.client.client_id} id
              (all-Marked d.client.client_id first d.client.seq_id n last d.replicas l (omega arith)
                serving'.each_serves),
        )
