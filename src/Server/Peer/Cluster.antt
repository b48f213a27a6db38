-- ===== src/Server/Peer/Cluster.antt =====
-- Which nodes of a cluster that curp_server/main.go starts are connected.
use curp.Machine.Commits.{runs}
use curp.Raft.{RaftLib, PeerCall, add_peer, remove_peer}
use curp.Raft.Start.{DiskLib, other_peers}
use curp.Server.Peer.{PeerInfo, peers_from, start_cluster}
use curp.Prelude.{
  if◌then◌else◌, ◌==◌, ==_iff, get_elem?, ℕ, zero, suc, ◌+◌, ◌≤◌, String, ◌≡◌, refl, ap, ◌∙◌, some,
  List, [], ◌∷◌, arith,
}

-- The addresses at which a node of this id was added to the transport.
unfoldable pub added_at : ℕ → List PeerCall → List String
added_at m [] = []
added_at m (add_peer i url ∷ calls) = if i == m then url ∷ added_at m calls else added_at m calls
added_at m (remove_peer i ∷ calls) = added_at m calls

module _ (R : RaftLib) (D : DiskLib R) where
  added_at-passed :
      (m id k : ℕ) (peers : List String) → m ≤ k → added_at m (other_peers R D id k peers) ≡ []
  unfolding added_at
  added_at-passed m id k [] h = refl
  added_at-passed m id k (peer ∷ peers) h =
      grind (arith, ==_iff, added_at-passed m id (k + 1) peers (omega arith))

  added_at-other_peers :
      (m id k j : ℕ) (peers : List String) (url : String)
      → m ≡ k + j + 1
      → get_elem? peers j ≡ some url
      → added_at m (other_peers R D id k peers) ≡ (if m == id then [] else url ∷ [])
  unfolding added_at
  added_at-other_peers m id k j [] url h e = cc
  added_at-other_peers m id k zero (peer ∷ peers) url h e =
      grind (arith, ==_iff, added_at-passed m id (k + 1) peers (omega arith))
  added_at-other_peers m id k (suc j) (peer ∷ peers) url h e =
      grind (arith, ==_iff, added_at-other_peers m id (k + 1) j peers url (omega arith) e)

  peers_from-get :
      (k i : ℕ) (peers grpcs : List String) {p : PeerInfo}
      → get_elem? (peers_from k peers grpcs) i ≡ some p
      → (p.id ≡ k + i + 1) × (p.peers ≡ peers)
  peers_from-get k i peers [] e = cc
  peers_from-get k zero peers (g ∷ grpcs) e = ground arith
  peers_from-get k (suc i) peers (g ∷ grpcs) e =
      let (a, b) = peers_from-get (k + 1) i peers grpcs e in (omega arith, b)

  -- If `main` starts a whole cluster, the i-th node, counted from 0, has the id i + 1, and the transport of
  -- its raft node gets every other node of the cluster exactly once, at its address, and never the node itself.
  pub start_cluster-connects :
      (peers grpc_peers : List String) (i j : ℕ) (url : String) {starts : List PeerInfo}
      {p : PeerInfo}
      → start_cluster peers grpc_peers ≡ runs starts
      → get_elem? starts i ≡ some p
      → get_elem? peers j ≡ some url
      → (p.id ≡ i + 1)
        × (added_at (j + 1) (other_peers R D p.id 0 p.peers) ≡ (if j == i then [] else url ∷ []))
  unfolding start_cluster
  start_cluster-connects peers grpc_peers i j url {starts} {p} h e g =
      let same : peers_from 0 peers grpc_peers ≡ starts = ground arith in
      let (a, b) = peers_from-get 0 i peers grpc_peers (ap (λ x. get_elem? x i) same ∙ e) in
      let reached = added_at-other_peers (j + 1) p.id 0 j peers url (omega arith) g in
      grind (arith, ==_iff)
