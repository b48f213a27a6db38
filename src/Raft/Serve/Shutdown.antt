-- ===== src/Raft/Serve/Shutdown.antt =====
-- Every interleaving of the two goroutines of `serveChannels` of curp/raft.go, and their end.
use curp.Raft.{RaftLib, Snapshot, CurpNode, serve_ready}
use curp.Raft.Serve.{
  Ready, storage_of, Serving, Proposal, proposed, conf_changed, LoopEvent, stop_requested, ticks,
  ready, transport_error, Ran, went, panicked, fatal, close_stop, next_proposal, serve_proposal,
  end_serving, stop, write_error, after_publish, serve_event, start_serving,
}
use mathlib.Core.List.{append-nil}
use curp.Prelude.{
  if◌then◌else◌, Bool-cases, ◌+◌, ◌%◌, ◌^◌, String, ◌≡◌, refl, sym, ap, subst, ◌∙◌, ◌⊎◌, inl, inr,
  Bool, true, false, ◌&&◌, not, Option, none, some, List, [], ◌∷◌, ◌++◌,
}

module _ (R : RaftLib) where
  -- What the event loop receives from the stop channel.
  abbrev pub wants_stop : LoopEvent R → Bool
  wants_stop stop_requested = true
  wants_stop (ready rd) = rd.stopped
  wants_stop _ = false

  -- A round of one of the goroutines that run. The stop channel gives something once it is closed.
  pub data Step (s : Serving R) : Ran R → Type 0 where
    proposes : (p : Proposal) → s.proposing ≡ true → Step s (serve_proposal R s p)
    loops :
        (e : LoopEvent R)
        → s.looping ≡ true
        → (s.stop_closed ≡ true) ⊎ (wants_stop e ≡ false)
        → Step s (serve_event R s e)

  pub data Reach (n : CurpNode R) (snap : Snapshot R) : Serving R → Type 0 where
    start : Reach n snap (start_serving R n snap)
    later : {s t : Serving R} {r : Ran R} → Reach n snap s → Step s r → r ≡ went t → Reach n snap t

  -- The other channels are closed with the end of the event loop.
  abbrev pub EndsTogether : Serving R → Type 0
  EndsTogether s =
      (s.http_stop_closed ≡ not s.looping)
      × (s.commit_closed ≡ not s.looping)
      × (s.error_closed ≡ not s.looping)
      × (s.node_stopped ≡ not s.looping)
      × (s.wal_closed ≡ not s.looping)

  -- The stop channel is closed with the end of the first goroutine.
  pub record Inv (s : Serving R) : Type 0 where
    pub open_while_proposing : s.propose_open && s.conf_open ≡ s.proposing
    pub stop_with_proposing : s.stop_closed ≡ not s.proposing
    pub end_with_loop : EndsTogether s

  -- What a round leaves behind: the invariant, or the fatal error, and no panic.
  abbrev pub Fine : Ran R → Type 0
  Fine (went t) = Inv t
  Fine panicked = ⊥
  Fine fatal = Unit

  next_proposal-Fine :
      (s : Serving R)
      → s.proposing ≡ true
      → s.stop_closed ≡ not s.proposing
      → EndsTogether s
      → Fine (next_proposal R s)
  unfolding next_proposal close_stop
  next_proposal-Fine s h q e = elim (Bool-cases (s.propose_open && s.conf_open)) [
    | inl open_both ↦ rw open_both (record {
      open_while_proposing = open_both ∙ sym h;
      stop_with_proposing = q;
      end_with_loop = e;
    })
    | inr closed ↦
        let running : s.stop_closed ≡ false = q ∙ ap not h in
        rw (closed, running)
          (record { open_while_proposing = closed; stop_with_proposing = refl; end_with_loop = e })
  ]

  serve_proposal-Fine :
      (s : Serving R) (p : Proposal) → Inv s → s.proposing ≡ true → Fine (serve_proposal R s p)
  unfolding serve_proposal
  serve_proposal-Fine s (proposed none) v h =
      next_proposal-Fine (record s { propose_open = false }) h v.stop_with_proposing v.end_with_loop
  serve_proposal-Fine s (proposed (some prop)) v h =
      next_proposal-Fine (record s { proposals = s.proposals ++ prop ∷ [] }) h v.stop_with_proposing
        v.end_with_loop
  serve_proposal-Fine s (conf_changed none) v h =
      next_proposal-Fine (record s { conf_open = false }) h v.stop_with_proposing v.end_with_loop
  serve_proposal-Fine s (conf_changed (some cc)) v h =
      let count = (s.conf_change_count + 1) % 2 ^ 64 in
      next_proposal-Fine
        (record s {
          conf_change_count = count;
          conf_proposals = s.conf_proposals ++ (count, cc) ∷ [];
        })
        h v.stop_with_proposing v.end_with_loop

  end_serving-Fine :
      (s : Serving R) (errors : List String)
      → Inv s
      → s.looping ≡ true
      → Fine (end_serving R s errors)
  unfolding end_serving
  end_serving-Fine s errors v h =
      let (http, commit, error, _, _) = v.end_with_loop in
      rw (http ∙ ap not h, commit ∙ ap not h, error ∙ ap not h)
        (record {
          open_while_proposing = v.open_while_proposing;
          stop_with_proposing = v.stop_with_proposing;
          end_with_loop = (refl, refl, refl, refl, refl);
        })

  with_node : (s : Serving R) (n : CurpNode R) → Inv s → Inv (record s { node = n })
  with_node s n v = record {
    open_while_proposing = v.open_while_proposing;
    stop_with_proposing = v.stop_with_proposing;
    end_with_loop = v.end_with_loop;
  }

  after_publish-Fine :
      (s : Serving R) (rd : Ready R) (served : Option (CurpNode R × Bool))
      → Inv s
      → s.looping ≡ true
      → Fine (after_publish R s rd served)
  unfolding after_publish stop
  after_publish-Fine s rd none v h = tt
  after_publish-Fine s rd (some (n, false)) v h =
      end_serving-Fine (record s { node = n }) [] (with_node s n v) h
  after_publish-Fine s rd (some (n, true)) v h = record {
    open_while_proposing = v.open_while_proposing;
    stop_with_proposing = v.stop_with_proposing;
    end_with_loop = v.end_with_loop;
  }

  Fine-if :
      (closed : Bool) (r : Ran R) → closed ≡ false → Fine r → Fine (if closed then panicked else r)
  Fine-if true r e f = cc
  Fine-if false r e f = f

  serve_event-Fine :
      (s : Serving R) (e : LoopEvent R) → Inv s → s.looping ≡ true → Fine (serve_event R s e)
  unfolding serve_event write_error stop
  serve_event-Fine s ticks v h = record {
    open_while_proposing = v.open_while_proposing;
    stop_with_proposing = v.stop_with_proposing;
    end_with_loop = v.end_with_loop;
  }
  serve_event-Fine s (ready rd) v h = Fine-if s.commit_closed _ (v.end_with_loop.1 ∙ ap not h) (
      after_publish-Fine (record s { storage_calls = s.storage_calls ++ storage_of R rd }) rd
        (serve_ready R s.node rd.snapshot rd.committed_entries rd.stopped)
        (record {
          open_while_proposing = v.open_while_proposing;
          stop_with_proposing = v.stop_with_proposing;
          end_with_loop = v.end_with_loop;
        })
        h)
  serve_event-Fine s (transport_error err) v h = end_serving-Fine s (err ∷ []) v h
  serve_event-Fine s stop_requested v h = end_serving-Fine s [] v h

  Step-Fine : {s : Serving R} {r : Ran R} → Inv s → Step s r → Fine r
  Step-Fine {s} v (proposes p h) = serve_proposal-Fine s p v h
  Step-Fine {s} v (loops e h _) = serve_event-Fine s e v h

  pub Reach-Inv : {n : CurpNode R} {snap : Snapshot R} {s : Serving R} → Reach n snap s → Inv s
  unfolding start_serving
  Reach-Inv start = record {
    open_while_proposing = refl;
    stop_with_proposing = refl;
    end_with_loop = (refl, refl, refl, refl, refl);
  }
  Reach-Inv (later {t = t} r st e) = subst Fine e (Step-Fine (Reach-Inv r) st)

  -- However the two goroutines interleave and whatever they receive, a node never closes a channel twice
  -- and never sends a commit on a closed one; and in every state that it reaches, the stop channel is
  -- closed exactly if the goroutine of the proposals has returned, and the others, the log and the raft
  -- node exactly if the event loop has.
  pub Reach-Fine :
      {n : CurpNode R} {snap : Snapshot R} {s : Serving R} {r : Ran R}
      → Reach n snap s
      → Step s r
      → Inv s × Fine r
  Reach-Fine reached st = (Reach-Inv reached, Step-Fine (Reach-Inv reached) st)

  -- From every state in which both goroutines run, if the channel of the proposals is closed, the node can
  -- end in two rounds: the first goroutine asks for the stop, and the event loop follows. Then every
  -- channel is closed, no error has been sent, the raft node is stopped, and neither goroutine runs.
  pub closing_ends :
      {n : CurpNode R} {snap : Snapshot R} {s : Serving R}
      → Reach n snap s
      → s.proposing ≡ true
      → s.looping ≡ true
      → (t : Serving R) × (u : Serving R) × Step s (went t)
        × Step t (went u)
        × (u.proposing ≡ false)
        × (u.looping ≡ false)
        × (u.stop_closed ≡ true)
        × (u.commit_closed ≡ true)
        × (u.error_closed ≡ true)
        × (u.node_stopped ≡ true)
        × (u.errors ≡ s.errors)
  unfolding serve_proposal next_proposal close_stop serve_event stop end_serving
  closing_ends {s = s} reached p l =
      let v = Reach-Inv reached in
      let (http, commit, error, _, _) = v.end_with_loop in
      let t = record s { propose_open = false; stop_closed = true; proposing = false } in
      let u = record t {
        http_stop_closed = true;
        commit_closed = true;
        error_closed = true;
        errors = s.errors ++ [];
        node_stopped = true;
        wal_closed = true;
        looping = false;
      } in
      let asks : serve_proposal R s (proposed none) ≡ went t =
        rw (v.stop_with_proposing ∙ ap not p) in
      let ends : serve_event R t stop_requested ≡ went u =
        rw (http ∙ ap not l, commit ∙ ap not l, error ∙ ap not l) in
      (
        t,
        u,
        subst (Step s) asks (proposes (proposed none) p),
        subst (Step t) ends (loops stop_requested l (inl refl)),
        refl,
        refl,
        refl,
        refl,
        refl,
        refl,
        append-nil s.errors,
      )
