-- ===== src/Client/Quorum.antt =====
-- The size of the quorum of curp/client_grpc.go, and what a fast round that ends by it has seen.
use curp.Command.{CurpReply}
use curp.Command.Status
use curp.Client.{
  SyncEnd, GrpcClient, super_quorom, Event, replied, timed_out, returned, collect, fast_round,
  panic, propose,
}
use curp.Prelude.{
  if◌then◌else◌, ◌==◌, length, get_elem?, set, replicate, All, ℕ, zero, suc, ◌+◌, ◌-◌, ◌*◌, ◌≤◌,
  ◌<◌, ◌≡◌, refl, ap, ◌≢◌, ◌↔◌, ◌⊎◌, inl, inr, Option, none, some, List, [], ◌∷◌, ◌++◌, arith,
}

-- Of 2f + 1 servers, a super quorum and any f + 1 servers have in common more than half of the f + 1,
-- and no smaller number of servers would do.
pub super_quorom_overlap :
    (f q : ℕ) → (super_quorom f ≤ q) ↔ (f + 1 < 2 * (q + (f + 1) - (2 * f + 1)))
unfolding super_quorom
super_quorom_overlap f q = (λ h. omega arith, λ h. omega arith)

-- The replies ACCEPTED of a list of events.
abbrev pub accepted_in : List Event → ℕ
accepted_in [] = 0
accepted_in (replied _ (some r) ∷ events) =
    if r.status_code == Status.accepted then suc (accepted_in events) else accepted_in events
accepted_in (_ ∷ events) = accepted_in events

-- The reply of this server is among the events.
abbrev pub Replied : ℕ → CurpReply → List Event → Type 0
Replied p r [] = ⊥
Replied p r (replied peer (some s) ∷ events) = ((peer ≡ p) × (s ≡ r)) ⊎ Replied p r events
Replied p r (_ ∷ events) = Replied p r events

Stored : ℕ → CurpReply → List (Option CurpReply) → Type 0
Stored p r results = get_elem? results p ≡ some (some r)

stored_before :
    (results : List (Option CurpReply)) (peer p : ℕ) (s r : CurpReply)
    → get_elem? (set results peer (some s)) p ≡ some (some r)
    → ((peer ≡ p) × (s ≡ r)) ⊎ (get_elem? results p ≡ some (some r))
stored_before [] peer p s r h = cc
stored_before (x ∷ results) zero zero s r h = inl (refl, ground arith)
stored_before (x ∷ results) zero (suc p) s r h = inr h
stored_before (x ∷ results) (suc peer) zero s r h = inr h
stored_before (x ∷ results) (suc peer) (suc p) s r h =
    ground (arith, stored_before results peer p s r h)

collect-accepted :
    (c : GrpcClient) (n : ℕ) (results : List (Option CurpReply)) (events : List Event)
    {r : CurpReply}
    → collect c n results events ≡ returned (some r)
    → r.status_code ≡ Status.accepted
    → n < super_quorom c.f
    → (super_quorom c.f ≤ n + accepted_in events)
      × (Replied c.leader_id r events ⊎ (get_elem? results c.leader_id ≡ some (some r)))
unfolding collect
collect-accepted c n results [] h a k = cc
collect-accepted c n results (timed_out ∷ events) h a k = cc
collect-accepted c n results (replied peer none ∷ events) h a k = cc
collect-accepted c n results (replied peer (some s) ∷ events) {r} h a k = ground (
  arith,
  collect-accepted c (n + 1) (set results peer (some s)) events {r = r},
  stored_before results peer c.leader_id s r,
)

empty_slots :
    (n p : ℕ) (r : CurpReply)
    → get_elem? (replicate {A = Option CurpReply} n none) p ≢ some (some r)
empty_slots zero p r h = cc
empty_slots (suc n) zero r h = cc
empty_slots (suc n) (suc p) r h = empty_slots n p r h

-- A fast round that returns a reply ACCEPTED returns the leader's own, and has received at least a
-- super quorum of replies ACCEPTED.
pub fast_round-accepted :
    (c : GrpcClient) (events : List Event) {r : CurpReply}
    → fast_round c events ≡ returned (some r)
    → r.status_code ≡ Status.accepted
    → (super_quorom c.f ≤ accepted_in events) × Replied c.leader_id r events
unfolding fast_round super_quorom
fast_round-accepted c events {r} h a = ground (
  arith,
  collect-accepted c 0 (replicate c.servers none) events {r = r},
  empty_slots c.servers c.leader_id r,
)

-- Replies ACCEPTED of these servers.
abbrev pub accepts : List (ℕ × CurpReply) → List Event
accepts [] = []
accepts ((p, r) ∷ rs) = replied p (some r) ∷ accepts rs

abbrev pub AllAccepted : List (ℕ × CurpReply) → Type 0
AllAccepted = All (λ e. e.1.status_code ≡ Status.accepted)

pub get_elem?-set_ne :
    {A : Type 0} (results : List A) (p q : ℕ) (v : A)
    → p ≢ q
    → get_elem? (set results p v) q ≡ get_elem? results q
get_elem?-set_ne [] p q v h = refl
get_elem?-set_ne (x ∷ results) zero zero v h = absurd (h refl)
get_elem?-set_ne (x ∷ results) zero (suc q) v h = refl
get_elem?-set_ne (x ∷ results) (suc p) zero v h = refl
get_elem?-set_ne (x ∷ results) (suc p) (suc q) v h =
    get_elem?-set_ne results p q v (λ e. h (ap suc e))

collect-without_leader :
    (c : GrpcClient) (n : ℕ) (results : List (Option CurpReply)) (rs : List (ℕ × CurpReply))
    (rest : List Event)
    → AllAccepted rs
    → All (λ e. e.0 ≢ c.leader_id) rs
    → n + length rs ≡ super_quorom c.f
    → n < super_quorom c.f
    → get_elem? results c.leader_id ≡ some none
    → collect c n results (accepts rs ++ rest) ≡ returned none
unfolding collect
collect-without_leader c n results [] rest a o l k e = absurd (omega arith)
collect-without_leader c n results ((p, r) ∷ rs) rest a o l k e = ground (
  arith,
  get_elem?-set_ne results p c.leader_id (some r) o.0,
  collect-without_leader c (n + 1) (set results p (some r)) rs rest a.1 o.1,
)

pub empty_slot :
    (n p : ℕ) → p < n → get_elem? (replicate {A = Option CurpReply} n none) p ≡ some none
empty_slot zero p h = elim h [ ]
empty_slot (suc n) zero h = refl
empty_slot (suc n) (suc p) h = empty_slot n p (omega arith)

-- If a super quorum of servers accepts before the leader's reply arrives, the fast round returns the
-- nil pointer, and the proposal panics.
pub propose-without_leader :
    (c : GrpcClient) (rs : List (ℕ × CurpReply)) (rest : List Event) (synced : SyncEnd)
    → c.leader_id < c.servers
    → AllAccepted rs
    → All (λ e. e.0 ≢ c.leader_id) rs
    → length rs ≡ super_quorom c.f
    → (propose c (accepts rs ++ rest) synced).1 ≡ panic
unfolding propose fast_round super_quorom
propose-without_leader c rs rest synced i a o l = ground (
  arith,
  collect-without_leader c 0 (replicate c.servers none) rs rest a o,
  empty_slot c.servers c.leader_id i,
)
