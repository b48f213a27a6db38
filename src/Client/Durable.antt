-- ===== src/Client/Durable.antt =====
-- What an accepted fast round of curp/client_grpc.go leaves in the witnesses of the servers of
-- curp/state.go, and what of it is there after any f of them have failed.
use curp.Command.{CurpClientCommand, CurpReply, ProposeId-discrete, propose_id}
use curp.Command.Status
use curp.Kv.{KvStore}
use curp.Witness.{Witness}
use curp.Witness.Accepts.{lookup-insert_if_not_conflict}
use curp.Machine.{StateMachine}
use curp.Machine.Steps.{Gob, replies, waits, status_of, propose}
use curp.Machine.Proposals.{propose-accepted}
use curp.Client.{GrpcClient, Event, replied, timed_out, returned, fast_round}
use curp.Client.Quorum.{super_quorom_overlap, accepted_in, fast_round-accepted}
use curp.Client.ThreeServers.{Once, InRange}
use mathlib.Core.Bool.{decide}
use curp.Prelude.{
  if◌then◌else◌, ◌==◌, ==_iff, Bool-cases, All, String_discrete, ℕ, ℕ_discrete, zero, suc, ◌+◌, ◌*◌,
  ◌≤◌, ◌<◌, ◌≡◌, refl, sym, ap, subst, ◌∙◌, ◌≢◌, ◌⊎◌, inl, inr, Bool, true, false, ◌&&◌, ◌||◌, none,
  some, List, [], ◌∷◌, lookup, arith,
}

-- Of the numbers below n, those that satisfy a test.
unfoldable pub count : ℕ → (ℕ → Bool) → ℕ
count zero p = 0
count (suc n) p = if p n then suc (count n p) else count n p

count-and : (n : ℕ) (p q : ℕ → Bool) → count n p + count n q ≤ n + count n (λ i. p i && q i)
unfolding count
count-and zero p q = omega arith
count-and (suc n) p q = ground (arith, count-and n p q)

count_le :
    (n : ℕ) (p q : ℕ → Bool) → ((i : ℕ) → i < n → p i ≡ true → q i ≡ true) → count n p ≤ count n q
unfolding count
count_le zero p q h = omega arith
count_le (suc n) p q h =
    ground (arith, count_le n p q (λ i l. h i (omega arith)), h n (omega arith))

-- Tests that differ at one number only.
count_same : (n k : ℕ) (p : ℕ → Bool) → n ≤ k → count n (λ i. (i == k) || p i) ≡ count n p
unfolding count
count_same zero k p h = refl
count_same (suc n) k p h = grind (arith, ==_iff, count_same n k p (omega arith))

count_more :
    (n k : ℕ) (p : ℕ → Bool)
    → k < n
    → p k ≡ false
    → count n (λ i. (i == k) || p i) ≡ suc (count n p)
unfolding count
count_more zero k p h f = elim h [ ]
count_more (suc n) k p h f = elim (ℕ_discrete n k) [
  | yes e ↦
      let last : p n ≡ false = ap p e ∙ f in grind (arith, ==_iff, count_same n k p (omega arith))
  | no e ↦ grind (arith, ==_iff, count_more n k p (omega arith) f)
]

-- The server is among those that replied ACCEPTED.
unfoldable pub accepted_by : List Event → ℕ → Bool
accepted_by [] p = false
accepted_by (replied peer (some r) ∷ events) p =
    ((p == peer) && (r.status_code == Status.accepted)) || accepted_by events p
accepted_by (replied peer none ∷ events) p = accepted_by events p
accepted_by (timed_out ∷ events) p = accepted_by events p

accepted_by-Once :
    (seen : List ℕ) (events : List Event) (p : ℕ)
    → Once seen events
    → accepted_by events p ≡ true
    → All (λ q. q ≢ p) seen
unfolding accepted_by
accepted_by-Once seen [] p o h = cc
accepted_by-Once seen (timed_out ∷ events) p o h = accepted_by-Once seen events p o h
accepted_by-Once seen (replied peer none ∷ events) p o h =
    (accepted_by-Once (peer ∷ seen) events p o.1 h).1
accepted_by-Once seen (replied peer (some r) ∷ events) p o h = elim (ℕ_discrete p peer) [
  | yes e ↦ subst (λ x. All (λ q. q ≢ x) seen) {x = peer} {y = p} (sym e) o.0
  | no n ↦ (accepted_by-Once (peer ∷ seen) events p o.1 (grind (arith, ==_iff))).1
]

-- As many servers as there are replies ACCEPTED.
count-accepted_by :
    (n : ℕ) (seen : List ℕ) (events : List Event)
    → Once seen events
    → InRange n events
    → accepted_in events ≤ count n (accepted_by events)
unfolding accepted_by
count-accepted_by n seen [] o i = omega arith
count-accepted_by n seen (timed_out ∷ events) o i = count-accepted_by n seen events o i
count-accepted_by n seen (replied peer none ∷ events) o i =
    count-accepted_by n (peer ∷ seen) events o.1 i.1
count-accepted_by n seen (replied peer (some r) ∷ events) o i =
    let rest = count-accepted_by n (peer ∷ seen) events o.1 i.1 in
    let before = accepted_by events in
    let after = accepted_by (replied peer (some r) ∷ events) in
    elim (Bool-cases (r.status_code == Status.accepted)) [
      | inr b ↦ let more = count_le n before after (λ j l t. ground arith) in ground arith
      | inl b ↦
          let first : before peer ≡ false = elim (Bool-cases (before peer)) [
            | inr f ↦ f
            | inl t ↦ absurd ((accepted_by-Once (peer ∷ seen) events peer o.1 t).0 refl)
          ] in
          let one = count_more n peer before i.0 first in
          let more = count_le n (λ j. (j == peer) || before j) after (λ j l t. ground arith) in
          ground arith
    ]

-- The same command, field by field.
abbrev pub same_command : CurpClientCommand → CurpClientCommand → Bool
same_command a b =
    (a.op == b.op)
    && (a.client_id == b.client_id)
    && (a.seq_id == b.seq_id)
    && decide (String_discrete a.key b.key)
    && decide (String_discrete a.value b.value)

-- The witness holds the command, under its id.
unfoldable pub recorded : Witness → CurpClientCommand → Bool
recorded w cmd = elim (lookup ProposeId-discrete (propose_id cmd) w.command_map) [
  | none ↦ false
  | some held ↦ same_command held cmd
]

recorded_lem :
    (w : Witness) (cmd : CurpClientCommand)
    → lookup ProposeId-discrete (propose_id cmd) w.command_map ≡ some cmd
    → recorded w cmd ≡ true
unfolding recorded decide
recorded_lem w cmd h = grind (arith, ==_iff)

module _ (K : KvStore) (G : Gob) where
  -- A reply to a proposal that came to a server in this state: it was given at once, or after the wait.
  abbrev pub Answers : StateMachine K → CurpClientCommand → CurpReply → Type 0
  Answers s cmd r =
      ((propose K G s cmd).1 ≡ replies r)
      ⊎ ((b : Bool) × ((propose K G s cmd).1 ≡ waits b) × (r.status_code ≡ status_of b))

  propose-waits_accepted :
      (s : StateMachine K) (cmd : CurpClientCommand) (b : Bool)
      → (propose K G s cmd).1 ≡ waits b
      → status_of b ≡ Status.accepted
      → lookup ProposeId-discrete (propose_id cmd) (propose K G s cmd).0.witness.command_map
        ≡ some cmd
  unfolding propose
  propose-waits_accepted s cmd b w a =
      ground (arith, lookup-insert_if_not_conflict s.witness cmd (propose_id cmd))

  Answers-recorded :
      (s : StateMachine K) (cmd : CurpClientCommand) (r : CurpReply)
      → Answers s cmd r
      → r.status_code ≡ Status.accepted
      → recorded (propose K G s cmd).0.witness cmd ≡ true
  Answers-recorded s cmd r (inl now) e =
      recorded_lem (propose K G s cmd).0.witness cmd (propose-accepted K G s cmd (inl now) e).1
  Answers-recorded s cmd r (inr (b, later, q)) e =
      recorded_lem (propose K G s cmd).0.witness cmd
        (propose-waits_accepted s cmd b later (sym q ∙ e))

  -- Each reply comes from its server.
  abbrev pub FromServers : (ℕ → StateMachine K) → CurpClientCommand → List Event → Type 0
  FromServers servers cmd [] = Unit
  FromServers servers cmd (replied p (some r) ∷ events) =
      Answers (servers p) cmd r × FromServers servers cmd events
  FromServers servers cmd (_ ∷ events) = FromServers servers cmd events

  accepted_by-recorded :
      (servers : ℕ → StateMachine K) (cmd : CurpClientCommand) (events : List Event) (p : ℕ)
      → FromServers servers cmd events
      → accepted_by events p ≡ true
      → recorded (propose K G (servers p) cmd).0.witness cmd ≡ true
  unfolding accepted_by
  accepted_by-recorded servers cmd [] p a h = cc
  accepted_by-recorded servers cmd (timed_out ∷ events) p a h =
      accepted_by-recorded servers cmd events p a h
  accepted_by-recorded servers cmd (replied peer none ∷ events) p a h =
      accepted_by-recorded servers cmd events p a h
  accepted_by-recorded servers cmd (replied peer (some r) ∷ events) p a h =
      elim (Bool-cases ((p == peer) && (r.status_code == Status.accepted))) [
        | inl t ↦
            let here : p ≡ peer = grind (arith, ==_iff) in
            subst (λ x. recorded (propose K G (servers x) cmd).0.witness cmd ≡ true) {x = peer}
              {y = p} (sym here) (Answers-recorded (servers peer) cmd r a.0 (grind (arith, ==_iff)))
        | inr f ↦ accepted_by-recorded servers cmd events p a.1 (ground arith)
      ]

  -- If the fast round of a client of 2f + 1 servers returns an ACCEPTED reply, where each server replied at
  -- most once and each reply is what that server's state machine answered, then of any f + 1 servers, such as
  -- those that are left when f have failed, more than half have the command in the witness with which they
  -- answered.
  pub fast_round-recoverable :
      (c : GrpcClient) (servers : ℕ → StateMachine K) (cmd : CurpClientCommand)
      (events : List Event) (alive : ℕ → Bool) {r : CurpReply}
      → c.servers ≡ 2 * c.f + 1
      → fast_round c events ≡ returned (some r)
      → r.status_code ≡ Status.accepted
      → Once [] events
      → InRange c.servers events
      → FromServers servers cmd events
      → count c.servers alive ≡ c.f + 1
      → count c.servers alive
        < 2 * count c.servers (λ p. alive p && recorded (propose K G (servers p) cmd).0.witness cmd)
  fast_round-recoverable c servers cmd events alive {r} size h a once range from left =
      let (enough, _) = fast_round-accepted c events {r = r} h a in
      let many = count-accepted_by c.servers [] events once range in
      let both = count-and c.servers (accepted_by events) alive in
      let held =
        count_le c.servers (λ p. accepted_by events p && alive p)
          (λ p. alive p && recorded (propose K G (servers p) cmd).0.witness cmd)
          (λ p l t.
            let by : accepted_by events p ≡ true = ground arith in
            let rec = accepted_by-recorded servers cmd events p from by in ground arith) in
      let overlap =
        (super_quorom_overlap c.f (count c.servers (accepted_by events))).0 (omega arith) in
      omega arith
