-- ===== src/Cluster/Late/Linear.antt =====
-- Requests of one client to the servers of a cluster, with late commits.
use curp.Command.{CurpClientCommand, CurpReply, propose_id}
use curp.Kv.{KvStore, IsStore}
use curp.Machine.{execute_sync}
use curp.Machine.Steps.{Gob}
use curp.Client.{GrpcClient, Answer, content}
use curp.Client.Prompt.{events_of}
use curp.Cluster.{Request, request, each}
use curp.Cluster.Map.{KeyMap, map_step, map_run, Holds, execute_sync-Holds}
use curp.Cluster.Serving.{request_lem}
use curp.Cluster.Late.{Late, Member, member_call, ask, Happens, asks, commits, step, run}
use curp.Cluster.Late.Asking.{Prompt, InSteps, set-InSteps, calls-InSteps, ask-InSteps}
use curp.Cluster.Late.Commits.{member_commit-InStep}
use curp.Cluster.Late.Steps.{InStep}
use curp.Prelude.{
  Option-cases, length, get_elem?, set, length-set, All-get_elem?, ℕ, ◌+◌, ◌^◌, ◌<◌, ◌≡◌, refl, ◌∙◌,
  inl, inr, Bool, none, some, List, [], ◌∷◌, map, arith,
}

abbrev pub requests : List Happens → List Request
requests [] = []
requests (asks r order early ∷ es) = r ∷ requests es
requests (commits server ∷ es) = requests es

-- To each request a super quorum replies, the leader among the first of it.
abbrev pub Prompts : (f leader servers : ℕ) → List Happens → Type 0
Prompts f leader servers [] = Unit
Prompts f leader servers (asks r order early ∷ es) =
    Prompt f leader servers order × Prompts f leader servers es
Prompts f leader servers (commits server ∷ es) = Prompts f leader servers es

-- The clients differ in their counters alone.
abbrev pub SameClient : GrpcClient → GrpcClient → Type 0
SameClient c d = (d.f ≡ c.f) × (d.leader_id ≡ c.leader_id) × (d.client_id ≡ c.client_id)

module _ (K : KvStore) (G : Gob) where
  step_of :
      (c : Late K) (r : Request) (order : List ℕ) (early : Bool)
      {called : List (Member K × CurpReply)} {d : Late K} {given : Answer}
      → each (member_call K G (request c.client r).1) c.members ≡ some called
      → ask K G
          (request c.client r).0
          (propose_id (request c.client r).1)
          early
          (events_of (map (λ y. y.1) called) order)
          (map (λ y. y.0) called)
        ≡ some (d, given)
      → step K G c (asks r order early) ≡ some (d, some given)
  unfolding step
  step_of c r order early {called} {d} {given} e a = ground arith

  step-asks :
      (kv : K.Store) (c : Late K) (r : Request) (order : List ℕ) (early : Bool)
      → ((cmd : CurpClientCommand) → G.decode (G.encode cmd) ≡ some cmd)
      → c.client.seq_id + 1 < 2 ^ 64
      → Prompt c.client.f c.client.leader_id (length c.members) order
      → InSteps K G kv c.client c.members
      → (d : Late K) × (step K G c (asks r order early)
          ≡ some (d, some (content (execute_sync K kv (request c.client r).1).1)))
        × InSteps K G (execute_sync K kv (request c.client r).1).0 d.client d.members
        × (d.client.seq_id ≡ c.client.seq_id + 1)
        × SameClient c.client d.client
        × (length d.members ≡ length c.members)
  step-asks kv c r order early lossless few prompt h =
      let cmd = (request c.client r).1 in
      let (o, id, count) = request_lem c.client r few in
      let (called, e, h', long, (y, here, text, leads, answered)) =
        calls-InSteps K G kv c.client cmd c.members o id h in
      let (d, e', keeps, h'', long') =
        ask-InSteps K G (execute_sync K kv cmd).0 (record c.client { seq_id = c.client.seq_id + 1 })
          cmd order early (execute_sync K kv cmd).1 called y lossless (rw long prompt) here text
          leads answered h' in
      let (seq, client_id, f, _, leader) = keeps in
      (
        d,
        step_of c r order early {called = called} {d = d} e (rw count e'),
        h'',
        seq,
        (f, leader, client_id),
        long' ∙ long,
      )

  step-commits :
      (kv : K.Store) (c : Late K) (server : ℕ)
      → ((cmd : CurpClientCommand) → G.decode (G.encode cmd) ≡ some cmd)
      → InSteps K G kv c.client c.members
      → (members : List (Member K)) × (step K G c (commits server)
          ≡ some (record c { members = members }, none))
        × InSteps K G kv c.client members
        × (length members ≡ length c.members)
  unfolding step
  step-commits kv c server lossless h = elim (Option-cases (get_elem? c.members server)) [
    | inl e ↦ (c.members, ground arith, h, refl)
    | inr (m, at) ↦
        let before =
          All-get_elem? (InStep K G c.client.client_id c.client.seq_id kv) c.members server {x = m}
            h.each_in_step at in
        let (n, e, after, role) =
          member_commit-InStep K G c.client.client_id c.client.seq_id kv m lossless before in
        (
          set c.members server n,
          ground arith,
          set-InSteps K G kv c.client c.members server m n at after role h,
          length-set c.members server n,
        )
  ]

module _ (K : KvStore) (L : IsStore K) (G : Gob) where
  -- A client sends requests one after the other. The log has the commands in the order of the requests, and
  -- each server gets them in this order, some between any two requests, and at the leader also while a call
  -- of `WaitSynced` waits; at a server no commit comes between the start of a call of `Propose` and its
  -- reply, in which the worker takes the command from the fast path. Every server starts in step: with the
  -- store that is left when its outstanding commands are executed, or as the leader with that store
  -- already. Then every request is answered as a map from keys to texts answers it, on the fast path and on
  -- the slow one, if to each a super quorum replies with the leader among the first, gob decodes what it
  -- has encoded, and the sequence number does not wrap around; and in the end every server is in step with
  -- that map.
  pub run-map_run :
      (kv : K.Store) (m : KeyMap) (c : Late K) (es : List Happens)
      → ((cmd : CurpClientCommand) → G.decode (G.encode cmd) ≡ some cmd)
      → c.client.seq_id + length (requests es) < 2 ^ 64
      → Prompts c.client.f c.client.leader_id (length c.members) es
      → InSteps K G kv c.client c.members
      → Holds K kv m
      → (d : Late K) × (last : K.Store) × (run K G c es
          ≡ some (d, map content (map_run m (requests es)).1))
        × InSteps K G last d.client d.members
        × Holds K last (map_run m (requests es)).0
        × SameClient c.client d.client
  unfolding run map_run
  run-map_run kv m c [] lossless few prompt h holds = (c, kv, refl, h, holds, (refl, refl, refl))
  run-map_run kv m c (commits server ∷ es) lossless few prompt h holds =
      let (members, e, h', long) = step-commits K G kv c server lossless h in
      let (d, last, e', h'', holds', same) =
        run-map_run kv m (record c { members = members }) es lossless few (rw long prompt) h'
          holds in
      (d, last, ground arith, h'', holds', same)
  run-map_run kv m c (asks r order early ∷ es) lossless few prompt h holds =
      let (next, e, h', seq, (f, leader, id), long) =
        step-asks K G kv c r order early lossless (omega arith) prompt.0 h in
      let (holds', same) = execute_sync-Holds K L kv m c.client r holds in
      let (d, last, e', h'', holds'', (f', leader', id')) =
        run-map_run (execute_sync K kv (request c.client r).1).0 (map_step m r).0 next es lossless
          (rw seq (omega arith)) (rw (f, leader, long) prompt.1) h' holds' in
      (d, last, ground arith, h'', holds'', (f' ∙ f, leader' ∙ leader, id' ∙ id))
