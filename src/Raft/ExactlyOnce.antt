-- ===== src/Raft/ExactlyOnce.antt =====
-- What the commits of curp/raft.go deliver to the state machine, over any number of rounds of
-- `serveChannels`, whose batches of committed entries may overlap.
use curp.Raft.{
  RaftLib, Entry, entry_normal, entry_conf_change, entries_to_apply, u64, last_index, Snapshot,
  CurpNode, payload, change_conf, publish_loop, send_commit, publish_entries, publish_snapshot,
  serve_ready,
}
use mathlib.Core.Path.{ap₂}
use Prim.Native.Nat.{max}
use curp.Raft.Apply.{entries_to_apply-newer}
use curp.Raft.Delivery.{segment, FromLog, segment-append, newer-segment, FromLog-Contiguous}
use mathlib.Core.List.{append-nil, append_assoc}
use curp.Prelude.{
  ◌⊎◌, Bool-cases, Option-cases, length, ℕ, zero, suc, ◌+◌, ◌-◌, ◌≤◌, ◌<◌, String, ◌≡◌, refl, sym,
  ap, ◌∙◌, inl, inr, Bool, true, false, Option, none, some, List, [], ◌∷◌, ◌++◌, arith,
}

module _ (R : RaftLib) where
  -- The texts that the entries hold for the state machine, in order.
  abbrev pub texts_of : List Entry → List String
  texts_of [] = []
  texts_of (e ∷ es) = elim e.type [
    | entry_normal ↦ payload R e.content ++ texts_of es
    | entry_conf_change ↦ texts_of es
  ]

  -- The texts of the commits that were sent, in order.
  abbrev pub delivered : List (Option (List String)) → List String
  delivered [] = []
  delivered (none ∷ cs) = delivered cs
  delivered (some texts ∷ cs) = texts ++ delivered cs

  delivered-append :
      (cs ds : List (Option (List String))) → delivered (cs ++ ds) ≡ delivered cs ++ delivered ds
  delivered-append [] ds = refl
  delivered-append (none ∷ cs) ds = delivered-append cs ds
  delivered-append (some texts ∷ cs) ds = rw (delivered-append cs ds, append_assoc)

  texts_of-append : (es ds : List Entry) → texts_of (es ++ ds) ≡ texts_of es ++ texts_of ds
  texts_of-append [] ds = refl
  texts_of-append (e ∷ es) ds =
      ground (
        arith,
        texts_of-append es ds,
        append_assoc (payload R e.content) (texts_of es) (texts_of ds),
      )

  change_conf_keeps :
      (n : CurpNode R) (text : String)
      → ((change_conf R n (R.unmarshal text)).0.commits ≡ n.commits)
        × ((change_conf R n (R.unmarshal text)).0.applied_index ≡ n.applied_index)
  unfolding change_conf
  change_conf_keeps n text = ground arith

  publish_loop_texts :
      (es : List Entry) (n m : CurpNode R) (texts ts : List String)
      → publish_loop R n es texts ≡ (m, some ts)
      → (ts ≡ texts ++ texts_of es) × (m.commits ≡ n.commits)
  unfolding publish_loop
  publish_loop_texts [] n m texts ts h = ground (arith, append-nil texts)
  publish_loop_texts (e ∷ es) n m texts ts h = ground (
    arith,
    publish_loop_texts es n m (texts ++ payload R e.content) ts,
    publish_loop_texts es (change_conf R n (R.unmarshal e.content)).0 m texts ts,
    append_assoc texts (payload R e.content) (texts_of es),
    change_conf_keeps n e.content,
  )

  send_commit_lem :
      (n : CurpNode R) (texts : List String) (last : ℕ)
      → (delivered (send_commit R n texts last false).0.commits ≡ delivered n.commits ++ texts)
        × ((send_commit R n texts last false).0.applied_index ≡ last)
  send_commit_lem n [] last = (sym (append-nil (delivered n.commits)), refl)
  send_commit_lem n (text ∷ texts) last =
      (rw (delivered-append n.commits (some (text ∷ texts) ∷ []), append-nil (text ∷ texts)), refl)

  publish_entries_lem :
      (n m : CurpNode R) (e : Entry) (es : List Entry)
      → publish_entries R n (e ∷ es) false ≡ (m, true)
      → (delivered m.commits ≡ delivered n.commits ++ texts_of (e ∷ es))
        × (m.applied_index ≡ last_index e es)
  unfolding publish_entries
  publish_entries_lem n m e es h =
      let r = publish_loop R n (e ∷ es) [] in
      elim (Option-cases r.1) [
        | inl removed ↦ absurd (ground arith)
        | inr (ts, read) ↦
            let (all, kept) = publish_loop_texts (e ∷ es) n r.0 [] ts (λ i. (r.0, read i)) in
            let (sent, last) = send_commit_lem r.0 ts (last_index e es) in
            let same : (send_commit R r.0 ts (last_index e es) false).0 ≡ m = ground arith in
            (
              ap (λ (x : CurpNode R). delivered x.commits) (sym same)
                  ∙ sent
                  ∙ ap₂ (λ c t. delivered c ++ t) kept all,
              ap (λ (x : CurpNode R). x.applied_index) (sym same) ∙ last,
            )
      ]

  module _ (log : ℕ → Entry) (indexed : (i : ℕ) → (log i).index ≡ i) where
    -- The state machine was sent what the log holds up to the applied index: each entry once, in order.
    abbrev pub Delivers : CurpNode R → Type 0
    Delivers n = delivered n.commits ≡ texts_of (segment log 1 n.applied_index)

    last_index-segment :
        (first k : ℕ) → last_index (log first) (segment log (first + 1) k) ≡ first + k
    last_index-segment first zero = indexed first ∙ omega arith
    last_index-segment first (suc k) = last_index-segment (first + 1) k ∙ omega arith

    publish-Delivers :
        (n m : CurpNode R) (k : ℕ)
        → Delivers n
        → publish_entries R n (segment log (n.applied_index + 1) k) false ≡ (m, true)
        → Delivers m × (m.applied_index ≡ n.applied_index + k)
    unfolding publish_entries
    publish-Delivers n m zero d h = ground arith
    publish-Delivers n m (suc k) d h =
        let a = n.applied_index in
        let fresh = segment log (a + 1) (suc k) in
        let (sent, last) = publish_entries_lem n m (log (a + 1)) (segment log (a + 1 + 1) k) h in
        let end : m.applied_index ≡ a + suc k = last ∙ last_index-segment (a + 1) k ∙ omega arith in
        (
          sent
              ∙ ap (λ t. t ++ texts_of fresh) d
              ∙ sym (texts_of-append (segment log 1 a) fresh)
              ∙ ap texts_of (
                  segment-append log 1 (a + 1) a (suc k) m.applied_index (omega arith)
                    (omega arith)),
          end,
        )

    -- A batch of committed entries, cut out of the log from at most the next index on.
    abbrev pub Batch : CurpNode R → ℕ → List Entry → Type 0
    Batch n first es =
        FromLog log first es
        × (first ≤ n.applied_index + 1)
        × (n.applied_index + 1 < u64)
        × (first + length es < u64)

    -- At a node that has sent what the log holds up to its applied index, a round of `serveChannels` with
    -- no snapshot and a batch of committed entries, cut out of the log from at most the next index on and
    -- with indices below 2^64, does not end in the fatal error. Unless the node stops, what was sent is
    -- then what the log holds up to the last entry seen so far: no entry is sent twice, left out, or out
    -- of order, though the batch may repeat old entries.
    pub serve_ready-Delivers :
        (n : CurpNode R) (snap : Snapshot R) (first : ℕ) (es : List Entry)
        → snap.index ≡ 0
        → Batch n first es
        → Delivers n
        → (m : CurpNode R) × (ok : Bool) × (serve_ready R n snap es false ≡ some (m, ok))
          × ((ok ≡ false)
              ⊎ (Delivers m
                  × (m.applied_index + 1 ≡ max (n.applied_index + 1) (first + length es))))
    unfolding serve_ready publish_snapshot
    serve_ready-Delivers n snap first es z b d =
        let a = n.applied_index in
        let k = first + length es - (a + 1) in
        let fresh = segment log (a + 1) k in
        let r = publish_entries R n fresh false in
        let contiguous = FromLog-Contiguous log indexed first es b.0 in
        let passed : entries_to_apply a es ≡ some fresh =
          entries_to_apply-newer a first es contiguous b.1 b.2 b.3
          ∙ ap some (newer-segment log indexed a first k es b.0 b.1 refl) in
        (
          r.0,
          r.1,
          ground arith,
          elim (Bool-cases r.1) [
            | inl done ↦
                let (d', e) = publish-Delivers n r.0 k d (λ i. (r.0, done i)) in
                inr (d', omega arith)
            | inr removed ↦ inl removed
          ],
        )
