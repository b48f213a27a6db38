-- ===== src/Client/ThreeServers.antt =====
-- The fast round of curp/client_grpc.go with three servers.
use curp.Command.{CurpReply}
use curp.Client.Quorum.{get_elem?-set_ne, empty_slot}
use curp.Client.{GrpcClient, super_quorom, Event, replied, timed_out, returned, collect, fast_round}
use curp.Prelude.{
  length, get_elem?, set, replicate, All, ℕ, zero, suc, ◌+◌, ◌-◌, ◌/◌, ◌≤◌, ◌<◌, ◌≡◌, refl, sym, ap,
  ◌∙◌, ◌≢◌, Option, none, some, List, [], ◌∷◌, arith,
}

-- The slots that hold a reply.
filled : List (Option CurpReply) → ℕ
filled [] = 0
filled (none ∷ results) = filled results
filled (some _ ∷ results) = suc (filled results)

filled-le : (results : List (Option CurpReply)) → filled results ≤ length results
unfolding filled
filled-le [] = omega arith
filled-le (none ∷ results) = omega (arith, filled-le results)
filled-le (some _ ∷ results) = omega (arith, filled-le results)

filled-set :
    (results : List (Option CurpReply)) (p : ℕ) (r : CurpReply)
    → get_elem? results p ≡ some none
    → (filled (set results p (some r)) ≡ filled results + 1)
      × (length (set results p (some r)) ≡ length results)
unfolding filled
filled-set [] p r h = cc
filled-set (none ∷ results) zero r h = (omega arith, refl)
filled-set (some x ∷ results) zero r h = cc
filled-set (none ∷ results) (suc p) r h =
    let (e, l) = filled-set results p r h in (omega arith, omega arith)
filled-set (some x ∷ results) (suc p) r h =
    let (e, l) = filled-set results p r h in (omega arith, omega arith)

filled_full :
    (results : List (Option CurpReply)) (p : ℕ)
    → filled results ≡ length results
    → get_elem? results p ≢ some none
unfolding filled
filled_full [] p h = cc
filled_full (none ∷ results) p h = absurd (omega (arith, filled-le results))
filled_full (some x ∷ results) zero h = cc
filled_full (some x ∷ results) (suc p) h = filled_full results p (omega arith)

-- Each server replies to one proposal at most once: a reply comes from a server with no earlier one.
abbrev pub Once : List ℕ → List Event → Type 0
Once seen [] = Unit
Once seen (replied p _ ∷ events) = All (λ q. q ≢ p) seen × Once (p ∷ seen) events
Once seen (timed_out ∷ events) = Once seen events

abbrev pub InRange : ℕ → List Event → Type 0
InRange n [] = Unit
InRange n (replied p _ ∷ events) = (p < n) × InRange n events
InRange n (timed_out ∷ events) = InRange n events

-- The slot of every server that has not replied is empty.
abbrev Waits : List ℕ → List (Option CurpReply) → Type 0
Waits seen results =
    (p : ℕ) → p < length results → All (λ q. q ≢ p) seen → get_elem? results p ≡ some none

Waits-set :
    (seen : List ℕ) (results : List (Option CurpReply)) (p : ℕ) (r : CurpReply)
    → length (set results p (some r)) ≡ length results
    → Waits seen results
    → Waits (p ∷ seen) (set results p (some r))
Waits-set seen results p r e w q lt new =
    get_elem?-set_ne results p q (some r) new.0 ∙ w q (omega arith) new.1

collect-ne-nil :
    (c : GrpcClient) (n : ℕ) (seen : List ℕ) (results : List (Option CurpReply))
    (events : List Event)
    → super_quorom c.f ≡ length results
    → filled results ≡ n
    → Waits seen results
    → InRange (length results) events
    → Once seen events
    → collect c n results events ≢ returned none
unfolding collect
collect-ne-nil c n seen results [] sq fill w i o = cc
collect-ne-nil c n seen results (timed_out ∷ events) sq fill w i o = cc
collect-ne-nil c n seen results (replied p none ∷ events) sq fill w i o = cc
collect-ne-nil c n seen results (replied p (some r) ∷ events) sq fill w i o =
    let results' = set results p (some r) in
    let (more, long) = filled-set results p r (w p i.0 o.0) in
    ground (
      arith,
      filled_full results' c.leader_id,
      collect-ne-nil c (n + 1) (p ∷ seen) results' events (sq ∙ sym long) (omega arith)
          (Waits-set seen results p r long w) (rw long i.1) o.1,
    )

filled-replicate :
    (n : ℕ)
    → (filled (replicate n none) ≡ 0) × (length (replicate {A = Option CurpReply} n none) ≡ n)
unfolding filled
filled-replicate zero = (refl, refl)
filled-replicate (suc n) = let (e, l) = filled-replicate n in (e, ap suc l)

-- With three servers, each of which replies to a proposal at most once, no fast round returns the nil
-- pointer: the leader's reply is always among those that it has received.
pub fast_round-ne-nil :
    (c : GrpcClient) (events : List Event)
    → c.servers ≡ 3
    → c.f ≡ (c.servers - 1) / 2
    → InRange c.servers events
    → Once [] events
    → fast_round c events ≢ returned none
unfolding fast_round super_quorom
fast_round-ne-nil c events three half i o =
    let (empty, long) = filled-replicate c.servers in
    collect-ne-nil c 0 [] (replicate c.servers none) events (omega arith) empty
      (λ p lt _. empty_slot c.servers p (omega arith)) (rw long i) o
