-- ===== src/Raft/Serve/Errors.antt =====
-- Which errors `serveChannels` of curp/raft.go sends, and when.
use curp.Raft.{RaftLib, Snapshot, CurpNode, serve_ready}
use curp.Raft.Serve.{
  Ready, storage_of, Serving, Proposal, proposed, conf_changed, LoopEvent, stop_requested, ticks,
  ready, transport_error, went, close_stop, next_proposal, serve_proposal, end_serving, stop,
  write_error, after_publish, serve_event, start_serving,
}
use curp.Raft.Serve.Shutdown.{Step, Reach, start, later, proposes, loops, Reach-Inv}
use curp.Prelude.{
  Bool-cases, ◌+◌, ◌%◌, ◌^◌, ◌≡◌, refl, ap, subst, ◌∙◌, inl, inr, Bool, true, false, not, Option,
  none, some, List, [], ◌∷◌, ◌++◌, String, arith,
}

module _ (R : RaftLib) where
  -- No error is sent while the event loop runs.
  abbrev pub NoErrors : Serving R → Type 0
  NoErrors s = s.looping ≡ true → s.errors ≡ []

  next_proposal-NoErrors : (s t : Serving R) → NoErrors s → next_proposal R s ≡ went t → NoErrors t
  unfolding next_proposal close_stop
  next_proposal-NoErrors s t h e l = ground arith

  serve_proposal-NoErrors :
      (s t : Serving R) (p : Proposal) → NoErrors s → serve_proposal R s p ≡ went t → NoErrors t
  unfolding serve_proposal
  serve_proposal-NoErrors s t (proposed none) h e =
      next_proposal-NoErrors (record s { propose_open = false }) t h e
  serve_proposal-NoErrors s t (proposed (some prop)) h e =
      next_proposal-NoErrors (record s { proposals = s.proposals ++ prop ∷ [] }) t h e
  serve_proposal-NoErrors s t (conf_changed none) h e =
      next_proposal-NoErrors (record s { conf_open = false }) t h e
  serve_proposal-NoErrors s t (conf_changed (some cc)) h e =
      let count = (s.conf_change_count + 1) % 2 ^ 64 in
      next_proposal-NoErrors
        (record s {
          conf_change_count = count;
          conf_proposals = s.conf_proposals ++ (count, cc) ∷ [];
        })
        t h e

  end_serving-NoErrors :
      (s t : Serving R) (errors : List String) → end_serving R s errors ≡ went t → NoErrors t
  unfolding end_serving
  end_serving-NoErrors s t errors e l = ground arith

  after_publish-NoErrors :
      (s t : Serving R) (rd : Ready R) (served : Option (CurpNode R × Bool))
      → NoErrors s
      → after_publish R s rd served ≡ went t
      → NoErrors t
  unfolding after_publish stop
  after_publish-NoErrors s t rd none h e = cc
  after_publish-NoErrors s t rd (some (n, false)) h e =
      end_serving-NoErrors (record s { node = n }) t [] e
  after_publish-NoErrors s t rd (some (n, true)) h e = λ l. ground arith

  serve_event-NoErrors :
      (s t : Serving R) (ev : LoopEvent R) → NoErrors s → serve_event R s ev ≡ went t → NoErrors t
  unfolding serve_event write_error stop
  serve_event-NoErrors s t ticks h e = λ l. ground arith
  serve_event-NoErrors s t (ready rd) h e = elim (Bool-cases s.commit_closed) [
    | inl closed ↦ absurd (ground arith)
    | inr not_closed ↦
        after_publish-NoErrors (record s { storage_calls = s.storage_calls ++ storage_of R rd }) t
          rd (serve_ready R s.node rd.snapshot rd.committed_entries rd.stopped) h (ground arith)
  ]
  serve_event-NoErrors s t (transport_error err) h e = end_serving-NoErrors s t (err ∷ []) e
  serve_event-NoErrors s t stop_requested h e = end_serving-NoErrors s t [] e

  pub Reach-NoErrors :
      {n : CurpNode R} {snap : Snapshot R} {s : Serving R} → Reach R n snap s → NoErrors s
  unfolding start_serving
  Reach-NoErrors start = λ l. refl
  Reach-NoErrors (later {s = s} {t = t} r (proposes p _) e) =
      serve_proposal-NoErrors s t p (Reach-NoErrors r) e
  Reach-NoErrors (later {s = s} {t = t} r (loops ev _ _) e) =
      serve_event-NoErrors s t ev (Reach-NoErrors r) e

  -- An error of the transport ends the event loop, with this error sent and no other.
  pub transport_error-ends :
      {n : CurpNode R} {snap : Snapshot R} {s : Serving R} (err : String)
      → Reach R n snap s
      → s.looping ≡ true
      → (u : Serving R) × Step R s (went u) × (u.looping ≡ false) × (u.errors ≡ err ∷ [])
  unfolding serve_event write_error end_serving
  transport_error-ends {s = s} err reached l =
      let (http, commit, error, _, _) = (Reach-Inv R reached).end_with_loop in
      let u = record s {
        http_stop_closed = true;
        commit_closed = true;
        error_closed = true;
        errors = s.errors ++ err ∷ [];
        node_stopped = true;
        wal_closed = true;
        looping = false;
      } in
      let ends : serve_event R s (transport_error err) ≡ went u =
        rw (http ∙ ap not l, commit ∙ ap not l, error ∙ ap not l) refl in
      (
        u,
        subst (Step R s) ends (loops (transport_error err) l (inr refl)),
        refl,
        ap (λ x. x ++ err ∷ []) (Reach-NoErrors reached l),
      )
