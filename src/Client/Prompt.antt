-- ===== src/Client/Prompt.antt =====
-- Fast rounds of curp/client_grpc.go in which every server replies ACCEPTED, in some order.
use curp.Command.{CurpReply}
use curp.Command.Status
use curp.Client.{
  SyncEnd, GrpcClient, super_quorom, returned, collect, fast_round, propose, content, after_round,
  Event, replied,
}
use curp.Client.Quorum.{get_elem?-set_ne}
use curp.Prelude.{
  length, get_elem?, set, replicate, length-set, length-replicate, get_elem?-in_range,
  get_elem?-set_eq, All-get_elem?, All, ℕ, zero, suc, ◌+◌, ◌/◌, ◌≤◌, ◌<◌, ◌≡◌, sym, ap, subst, ◌∙◌,
  ◌⊎◌, inl, inr, Option, none, some, List, [], ◌∷◌, arith, ℕ_discrete,
}

-- The replies in the order in which the servers' calls come back.
unfoldable pub events_of : List CurpReply → List ℕ → List Event
events_of rs [] = []
events_of rs (p ∷ order) = replied p (get_elem? rs p) ∷ events_of rs order

-- The leader is among the first k.
abbrev pub Leads : ℕ → ℕ → List ℕ → Type 0
Leads leader k [] = ⊥
Leads leader zero (p ∷ order) = ⊥
Leads leader (suc k) (p ∷ order) = (p ≡ leader) ⊎ Leads leader k order

pub set-leader :
    (rs : List CurpReply) (results : List (Option CurpReply)) (leader p : ℕ) {q r : CurpReply}
    → get_elem? rs leader ≡ some r
    → get_elem? rs p ≡ some q
    → leader < length results
    → (p ≡ leader) ⊎ (get_elem? results leader ≡ some (some r))
    → get_elem? (set results p (some q)) leader ≡ some (some r)
set-leader rs results leader p {q} {r} l e lt h = elim (ℕ_discrete p leader) [
  | yes same ↦
      let one : q ≡ r = ground arith in
      subst (λ x. get_elem? (set results x (some q)) leader ≡ some (some r)) {x = leader} {y = p}
        (sym same) (get_elem?-set_eq results leader (some q) lt ∙ ap (λ x. some (some x)) one)
  | no other ↦ elim h [
    | inl same ↦ absurd (other same)
    | inr stored ↦ get_elem?-set_ne results p leader (some q) other ∙ stored
  ]
]

pub Leads-zero : (leader : ℕ) (order : List ℕ) → ¬ Leads leader zero order
Leads-zero leader [] h = h
Leads-zero leader (p ∷ order) h = h

collect-Leads :
    (c : GrpcClient) (n k : ℕ) (rs : List CurpReply) (results : List (Option CurpReply))
    (order : List ℕ) {r : CurpReply}
    → get_elem? rs c.leader_id ≡ some r
    → All (λ x. x.status_code ≡ Status.accepted) rs
    → All (λ p. p < length rs) order
    → c.leader_id < length results
    → n + suc k ≡ super_quorom c.f
    → suc k ≤ length order
    → (get_elem? results c.leader_id ≡ some (some r)) ⊎ Leads c.leader_id (suc k) order
    → collect c n results (events_of rs order) ≡ returned (some r)
unfolding collect events_of
collect-Leads c n k rs results [] {r} l a i lt sq long h = absurd (omega arith)
collect-Leads c n zero rs results (p ∷ order) {r} l a i lt sq long h =
    let (q, e) = get_elem?-in_range rs p i.0 in
    let ok = All-get_elem? (λ x. x.status_code ≡ Status.accepted) rs p {x = q} a e in
    let here : (p ≡ c.leader_id) ⊎ (get_elem? results c.leader_id ≡ some (some r)) = elim h [
      | inl stored ↦ inr stored
      | inr (inl same) ↦ inl same
      | inr (inr later) ↦ absurd (Leads-zero c.leader_id order later)
    ] in
    let stored = set-leader rs results c.leader_id p {q = q} {r = r} l e lt here in ground arith
collect-Leads c n (suc k) rs results (p ∷ order) {r} l a i lt sq long h =
    let (q, e) = get_elem?-in_range rs p i.0 in
    let ok = All-get_elem? (λ x. x.status_code ≡ Status.accepted) rs p {x = q} a e in
    let results' = set results p (some q) in
    let next : (get_elem? results' c.leader_id ≡ some (some r)) ⊎ Leads c.leader_id (suc k) order =
      elim h [
        | inl stored ↦ inl (set-leader rs results c.leader_id p {q = q} {r = r} l e lt (inr stored))
        | inr (inl same) ↦
            inl (set-leader rs results c.leader_id p {q = q} {r = r} l e lt (inl same))
        | inr (inr later) ↦ inr later
      ] in
    let rest =
      collect-Leads c (n + 1) k rs results' order {r = r} l a i.1
        (rw (length-set results p (some q)) lt) (omega arith) (omega arith) next in
    ground arith

-- A proposal to servers that all accept it, where a super quorum replies and the leader is among the first
-- of them.
pub propose-Leads :
    (c : GrpcClient) (rs : List CurpReply) (order : List ℕ) (synced : SyncEnd) {r : CurpReply}
    → get_elem? rs c.leader_id ≡ some r
    → All (λ x. x.status_code ≡ Status.accepted) rs
    → All (λ p. p < length rs) order
    → c.leader_id < c.servers
    → super_quorom c.f ≤ length order
    → Leads c.leader_id (super_quorom c.f) order
    → propose c (events_of rs order) synced ≡ (record c { fast = c.fast + 1 }, content r.content)
unfolding propose fast_round super_quorom after_round
propose-Leads c rs order synced {r} l a i lt long h =
    let slots = replicate {A = Option CurpReply} c.servers none in
    let first =
      collect-Leads c 0 (c.f + (c.f + 1) / 2) rs slots order {r = r} l a i
        (rw (length-replicate {A = Option CurpReply} c.servers none) lt) (omega arith) (omega arith)
        (inr (subst (λ x. Leads c.leader_id x order) {x = super_quorom c.f} (omega arith) h)) in
    let ok = All-get_elem? (λ x. x.status_code ≡ Status.accepted) rs c.leader_id {x = r} a l in
    ground arith
