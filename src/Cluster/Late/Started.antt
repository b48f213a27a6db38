-- ===== src/Cluster/Late/Started.antt =====
-- Three servers that have just started, with late commits.
use curp.Command.{CurpClientCommand}
use curp.Kv.{KvStore, IsStore}
use curp.Machine.{StateType, StateMachine, is_leader}
use curp.Machine.Replay.{execute_all}
use curp.Machine.Steps.{Gob}
use curp.Client.{content, super_quorom}
use curp.Cluster.{Cluster}
use curp.Cluster.AnyOrder.{OfThree, OfThree-Leads}
use curp.Cluster.Each.{get_elem?-map, length-map}
use curp.Cluster.Map.{KeyMap, map_run, Holds}
use curp.Cluster.Serving.{Serves, IsServing}
use curp.Cluster.Started.{start, start-IsStarted}
use curp.Cluster.Late.{Late, Member, Happens, asks, commits, run}
use curp.Cluster.Late.Asking.{Prompt, InSteps}
use curp.Cluster.Late.Linear.{requests, Prompts, run-map_run}
use curp.Cluster.Late.Steps.{InStep}
use curp.Prelude.{
  Bool-cases, length, All, ℕ, ◌^◌, ◌<◌, ◌≡◌, refl, sym, ap, subst, ◌∙◌, inl, inr, some, List, [],
  ◌∷◌, map, lookup, arith,
}

-- No server has an outstanding command.
abbrev pub begin : {K : KvStore} → Cluster K → Late K
begin c = record {
  client = c.client;
  members = map (λ s. record { machine = s; waiting = [] }) c.replicas;
}

-- To each request all three servers reply, in any order.
abbrev pub AnyOrders : List Happens → Type 0
AnyOrders [] = Unit
AnyOrders (asks r order early ∷ es) = OfThree order × AnyOrders es
AnyOrders (commits server ∷ es) = AnyOrders es

OfThree-Prompt : (l : ℕ) (order : List ℕ) → l < 3 → OfThree order → Prompt 1 l 3 order
unfolding super_quorom
OfThree-Prompt l (p ∷ q ∷ r ∷ []) h o =
    let (a, b, c, _, _, _) = o in
    record {
      in_range = (a, (b, (c, tt)));
      enough = omega arith;
      leader_first = OfThree-Leads l (p ∷ q ∷ r ∷ []) h o;
    }
OfThree-Prompt l [] h o = elim o [ ]
OfThree-Prompt l (p ∷ []) h o = elim o [ ]
OfThree-Prompt l (p ∷ q ∷ []) h o = elim o [ ]
OfThree-Prompt l (p ∷ q ∷ r ∷ s ∷ order) h o = elim o [ ]

AnyOrders-Prompts : (l : ℕ) (es : List Happens) → l < 3 → AnyOrders es → Prompts 1 l 3 es
AnyOrders-Prompts l [] h o = tt
AnyOrders-Prompts l (commits server ∷ es) h o = AnyOrders-Prompts l es h o
AnyOrders-Prompts l (asks r order early ∷ es) h o =
    (OfThree-Prompt l order h o.0, AnyOrders-Prompts l es h o.1)

module _ (K : KvStore) (G : Gob) where
  Serves-InStep :
      (id first seq : ℕ) (kv : K.Store) (s : StateMachine K)
      → Serves K id first seq kv s
      → InStep K G id seq kv (record { machine = s; waiting = [] })
  unfolding execute_all lookup
  Serves-InStep id first seq kv s h = record {
    sent = tt;
    distinct = tt;
    role = elim (Bool-cases (is_leader K s)) [
      | inl leads ↦ inl (record {
        idle = record {
          no_fast = h.ready.no_fast;
          no_slow = h.ready.no_slow;
          room = h.ready.free.room;
        };
        leads = leads;
        same = h.same;
        marked = tt;
        unmarked = λ n l. rw (h.ready.no_set) refl;
        unanswered = λ n l. h.new n l;
      })
      | inr follows ↦ inr (record {
        idle = record {
          no_fast = h.ready.no_fast;
          no_slow = h.ready.no_slow;
          room = h.ready.free.room;
        };
        follows = follows;
        behind = h.same;
      })
    ];
    asr_room = tt;
    asr_new = λ n l. rw (h.ready.free.no_asr) (λ a k. cc);
  }

  all-InStep :
      (id first seq : ℕ) (kv : K.Store) (replicas : List (StateMachine K))
      → All (Serves K id first seq kv) replicas
      → All (InStep K G id seq kv) (map (λ s. record { machine = s; waiting = [] }) replicas)
  all-InStep id first seq kv [] h = tt
  all-InStep id first seq kv (s ∷ replicas) h =
      (Serves-InStep id first seq kv s h.0, all-InStep id first seq kv replicas h.1)

  pub begin-InSteps :
      (first : ℕ) (kv : K.Store) (c : Cluster K)
      → IsServing K first kv c
      → InSteps K G kv (begin c).client (begin c).members
  begin-InSteps first kv c h =
      let (s, at, leads) = h.leads in
      record {
        each_in_step =
            all-InStep c.client.client_id first c.client.seq_id kv c.replicas h.each_serves;
        leads = (
          record { machine = s; waiting = [] },
          get_elem?-map _ c.replicas c.client.leader_id {x = s} at,
          leads,
        );
        servers = h.servers;
      }

  -- A server with nothing outstanding has the store of all commands.
  caught_up :
      (id seq : ℕ) (kv : K.Store) (m : KeyMap) (members : List (Member K))
      → Holds K kv m
      → All (InStep K G id seq kv) members
      → All (λ n. n.waiting ≡ [] → Holds K n.machine.kv_store m) members
  unfolding execute_all
  caught_up id seq kv m [] holds h = tt
  caught_up id seq kv m (n ∷ members) holds h = (
    λ none_left.
        subst (λ x. Holds K x m) {x = kv} {y = n.machine.kv_store}
          (elim h.0.role [
            | inl l ↦ sym l.same
            | inr f ↦ sym f.behind ∙ ap (execute_all K n.machine.kv_store) none_left
          ])
          holds,
    caught_up id seq kv m members holds h.1,
  )

  -- A client of three servers that have just started, one of which says that it is the leader, sends
  -- requests one after the other. The log has the commands in the order of the requests, and each server
  -- gets them in this order, some between any two requests, and at the leader also while a call of
  -- `WaitSynced` waits; at a server no commit comes between the start of a call of `Propose` and its reply,
  -- in which the worker takes the command from the fast path. In whatever order the three replies to each
  -- request come back, and whether or not servers report conflicts, if gob decodes what it has encoded and
  -- there are fewer than 2^64 requests, every request is answered as a map from keys to texts answers it;
  -- and each server that has got all commands in the end has this map as its store.
  pub late_servers-map_run :
      (L : IsStore K) (kv : K.Store) (m : KeyMap) (client_id : ℕ) (r1 r2 r3 : StateType)
      (es : List Happens) {c : Cluster K}
      → start K kv client_id (r1 ∷ r2 ∷ r3 ∷ []) ≡ some c
      → ((cmd : CurpClientCommand) → G.decode (G.encode cmd) ≡ some cmd)
      → length (requests es) < 2 ^ 64
      → AnyOrders es
      → Holds K kv m
      → (d : Late K) × (run K G (begin c) es ≡ some (d, map content (map_run m (requests es)).1))
        × All
            (λ n. n.waiting ≡ [] → Holds K n.machine.kv_store (map_run m (requests es)).0)
            d.members
  late_servers-map_run L kv m client_id r1 r2 r3 es {c} begun lossless few orders holds =
      let (serving, seq, slow, long, f, l) =
        start-IsStarted K kv client_id (r1 ∷ r2 ∷ r3 ∷ []) {c = c} begun in
      let prompts = AnyOrders-Prompts c.client.leader_id es l orders in
      let one : c.client.f ≡ 1 = f ∙ omega arith in
      let all : length (begin c).members ≡ 3 = length-map _ c.replicas ∙ long in
      let (d, last, e, h, holds', _) =
        run-map_run K L G kv m (begin c) es lossless (omega arith) (rw (one, all) prompts)
          (begin-InSteps 0 kv c serving) holds in
      (d, e, caught_up _ _ last _ d.members holds' h.each_in_step)
