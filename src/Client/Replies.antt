-- ===== src/Client/Replies.antt =====
-- What a proposal of curp/client_grpc.go answers, whichever servers report a conflict.
use curp.Command.{CurpReply, reply}
use curp.Command.Status
use curp.Client.{
  sync_replied, SyncEnd, GrpcClient, Event, Round, timeout, panicked, unfinished, super_quorom,
  returned, collect, fast_round, propose, content, slow_round, after_round,
}
use curp.Client.Prompt.{Leads, events_of, set-leader, Leads-zero}
use curp.Prelude.{
  ◌==◌, Bool-cases, length, get_elem?, set, replicate, length-set, length-replicate,
  get_elem?-in_range, All, ℕ, zero, suc, ◌+◌, ◌/◌, ◌≤◌, ◌<◌, String, ◌≡◌, refl, subst, ◌≢◌, ◌⊎◌,
  inl, inr, Option, none, some, List, [], ◌∷◌, arith,
}

-- The leader's reply, or one that is not ACCEPTED.
abbrev Ends : CurpReply → CurpReply → Type 0
Ends r q = (q ≡ r) ⊎ (q.status_code ≢ Status.accepted)

collect-Ends :
    (c : GrpcClient) (n k : ℕ) (rs : List CurpReply) (results : List (Option CurpReply))
    (order : List ℕ) {r : CurpReply}
    → get_elem? rs c.leader_id ≡ some r
    → All (λ p. p < length rs) order
    → c.leader_id < length results
    → n + suc k ≡ super_quorom c.f
    → suc k ≤ length order
    → (get_elem? results c.leader_id ≡ some (some r)) ⊎ Leads c.leader_id (suc k) order
    → (q : CurpReply) × (collect c n results (events_of rs order) ≡ returned (some q)) × Ends r q
unfolding collect events_of
collect-Ends c n k rs results [] {r} l i lt sq long h = absurd (omega arith)
collect-Ends c n zero rs results (p ∷ order) {r} l i lt sq long h =
    let (q, e) = get_elem?-in_range rs p i.0 in
    elim (Bool-cases (q.status_code == Status.accepted)) [
      | inr other ↦ (q, ground arith, inr (λ same. ground arith))
      | inl ok ↦
          let here : (p ≡ c.leader_id) ⊎ (get_elem? results c.leader_id ≡ some (some r)) = elim h [
            | inl stored ↦ inr stored
            | inr (inl same) ↦ inl same
            | inr (inr later) ↦ absurd (Leads-zero c.leader_id order later)
          ] in
          let stored = set-leader rs results c.leader_id p {q = q} {r = r} l e lt here in
          (r, ground arith, inl refl)
    ]
collect-Ends c n (suc k) rs results (p ∷ order) {r} l i lt sq long h =
    let (q, e) = get_elem?-in_range rs p i.0 in
    let results' = set results p (some q) in
    elim (Bool-cases (q.status_code == Status.accepted)) [
      | inr other ↦ (q, ground arith, inr (λ same. ground arith))
      | inl ok ↦
          let next : (get_elem? results' c.leader_id ≡ some (some r))
              ⊎ Leads c.leader_id (suc k) order =
            elim h [
              | inl stored ↦
                  inl (set-leader rs results c.leader_id p {q = q} {r = r} l e lt (inr stored))
              | inr (inl same) ↦
                  inl (set-leader rs results c.leader_id p {q = q} {r = r} l e lt (inl same))
              | inr (inr later) ↦ inr later
            ] in
          let (x, rest, ends) =
            collect-Ends c (n + 1) k rs results' order {r = r} l i.1
              (rw (length-set results p (some q)) lt) (omega arith) (omega arith) next in
          (x, ground arith, ends)
    ]

-- Where a super quorum replies with the leader among the first of it, and `WaitSynced` answers with the same
-- text as the leader's reply, the proposal is answered with this text on either path.
pub propose-answers_leader :
    (c : GrpcClient) (rs : List CurpReply) (order : List ℕ) (text : String) {r : CurpReply}
    → get_elem? rs c.leader_id ≡ some r
    → r.content ≡ text
    → All (λ p. p < length rs) order
    → c.leader_id < c.servers
    → super_quorom c.f ≤ length order
    → Leads c.leader_id (super_quorom c.f) order
    → (propose c (events_of rs order) (sync_replied (reply text Status.accepted))).1 ≡ content text
unfolding propose fast_round super_quorom after_round slow_round
propose-answers_leader c rs order text {r} l same i lt long h =
    let slots = replicate {A = Option CurpReply} c.servers none in
    let (q, e, ends) =
      collect-Ends c 0 (c.f + (c.f + 1) / 2) rs slots order {r = r} l i
        (rw (length-replicate {A = Option CurpReply} c.servers none) lt) (omega arith) (omega arith)
        (inr (subst (λ x. Leads c.leader_id x order) {x = super_quorom c.f} (omega arith) h)) in
    elim ends [ inl leaders ↦ ground arith | inr conflict ↦ ground arith ]

after_round-fast :
    (c : GrpcClient) (r : Round) (synced other : SyncEnd)
    → (after_round c r synced).0.slow ≡ c.slow
    → after_round c r synced ≡ after_round c r other
unfolding after_round
after_round-fast c (returned (some r)) synced other h =
    elim (Bool-cases (r.status_code == Status.accepted)) [
      | inl ok ↦ ground arith
      | inr bad ↦ ground arith
    ]
after_round-fast c (returned none) synced other h = refl
after_round-fast c timeout synced other h = refl
after_round-fast c panicked synced other h = refl
after_round-fast c unfinished synced other h = refl

-- The counter of the slow path tells which path a proposal took; on the fast path `WaitSynced` does not matter.
pub propose-fast :
    (c : GrpcClient) (events : List Event) (synced other : SyncEnd)
    → (propose c events synced).0.slow ≡ c.slow
    → propose c events synced ≡ propose c events other
unfolding propose
propose-fast c events synced other h = after_round-fast c (fast_round c events) synced other h
