-- ===== src/Cluster/Sequential.antt =====
-- Requests of one client, one after the other, to the servers of a cluster.
use curp.Kv.{KvStore, IsStore}
use curp.Machine.{execute_sync}
use curp.Machine.Steps.{Gob}
use curp.Command.{CurpClientCommand}
use curp.Client.{GrpcClient, content}
use curp.Cluster.{Cluster, Round, session, request}
use curp.Cluster.Map.{KeyMap, map_step, map_run, Holds, execute_sync-Holds}
use curp.Cluster.Rounds.{round_completes}
use curp.Cluster.Serving.{IsServing, IsPrompt}
use curp.Prelude.{
  length, All, ℕ, ◌+◌, ◌^◌, ◌<◌, ◌≡◌, refl, ap, ◌∙◌, some, List, [], ◌∷◌, map, arith,
}

IsPrompt-later :
    (c : GrpcClient) (servers seq_id fast : ℕ) (rs : List Round)
    → All (λ r. IsPrompt c servers r.order) rs
    → All (λ r. IsPrompt (record c { seq_id = seq_id; fast = fast }) servers r.order) rs
IsPrompt-later c servers seq_id fast [] h = tt
IsPrompt-later c servers seq_id fast (r ∷ rs) h = (
  record { in_range = h.0.in_range; enough = h.0.enough; leader_first = h.0.leader_first },
  IsPrompt-later c servers seq_id fast rs h.1,
)

module _ (K : KvStore) (L : IsStore K) (G : Gob) where
  -- A client sends requests one after the other to servers of which one is the leader that it knows and none
  -- has anything left to do, every commit comes before the next request, and to each request a super quorum
  -- replies with the leader among the first. If gob decodes what it has encoded and the sequence number does
  -- not wrap around, every request is answered, and as a map from keys to texts answers it; in the end every
  -- server has the same store, which is that map, and the client has not taken the slow path.
  pub session-map_run :
      (first : ℕ) (kv : K.Store) (m : KeyMap) (c : Cluster K) (rs : List Round)
      → ((cmd : CurpClientCommand) → G.decode (G.encode cmd) ≡ some cmd)
      → c.client.seq_id + length rs < 2 ^ 64
      → All (λ r. IsPrompt c.client (length c.replicas) r.order) rs
      → IsServing K first kv c
      → Holds K kv m
      → (d : Cluster K) × (last : K.Store) × (session K G c rs
          ≡ some (d, map content (map_run m (map (λ r. r.asked) rs)).1))
        × IsServing K first last d
        × Holds K last (map_run m (map (λ r. r.asked) rs)).0
        × (d.client.seq_id ≡ c.client.seq_id + length rs)
        × (d.client.client_id ≡ c.client.client_id)
        × (d.client.slow ≡ c.client.slow)
  unfolding session map_run
  session-map_run first kv m c [] lossless few prompt serving holds =
      (c, kv, refl, serving, holds, omega arith, refl, refl)
  session-map_run first kv m c (r ∷ rs) lossless few prompt serving holds =
      let (next, e, serving', client, long) =
        round_completes K G first kv c r lossless (omega arith) prompt.0 serving in
      let (holds', same) = execute_sync-Holds K L kv m c.client r.asked holds in
      let (d, last, e', serving'', holds'', seq, id, slow) =
        session-map_run first (execute_sync K kv (request c.client r.asked).1).0
          (map_step m r.asked).0 next rs lossless (rw client (omega arith))
          (rw (client, long)
            (IsPrompt-later c.client (length c.replicas) (c.client.seq_id + 1) (c.client.fast + 1)
              rs prompt.1))
          serving' holds' in
      (
        d,
        last,
        ground arith,
        serving'',
        holds'',
        seq ∙ ground (arith, client),
        id ∙ ap (λ (x : GrpcClient). x.client_id) client,
        slow ∙ ap (λ (x : GrpcClient). x.slow) client,
      )
