-- ===== src/Raft/Replication.antt =====
-- From the log of curp/raft.go to the worker of curp/state.go: what the commits of a node put into the
-- slow path of its state machine.
use curp.Command.{CurpClientCommand}
use curp.Kv.{KvStore}
use curp.Machine.{StateMachine}
use curp.Machine.Steps.{Gob}
use curp.Machine.Commits.{
  Snapshotter, Started, runs, dies, load_snapshot, reload, read_texts, read_commit,
}
use curp.Raft.{RaftLib, Entry, CurpNode}
use curp.Raft.Delivery.{segment}
use curp.Raft.ExactlyOnce.{texts_of, delivered, Delivers}
use mathlib.Core.List.{append-nil, append_assoc}
use curp.Prelude.{
  Option-cases, All, ℕ, ◌+◌, String, ◌≡◌, refl, ◌∙◌, ◌≢◌, inl, inr, Option, none, some, List, [],
  ◌∷◌, ◌++◌, arith,
}

module _ (G : Gob) where
  -- The commands that the texts hold, in order.
  unfoldable pub commands_in : List String → List CurpClientCommand
  commands_in [] = []
  commands_in (text ∷ texts) = elim (G.decode text) [
    | none ↦ commands_in texts
    | some cmd ↦ cmd ∷ commands_in texts
  ]

  abbrev pub Decodes : List String → Type 0
  Decodes texts = All (λ text. G.decode text ≢ none) texts

  commands_in-append :
      (texts more : List String)
      → commands_in (texts ++ more) ≡ commands_in texts ++ commands_in more
  unfolding commands_in
  commands_in-append [] more = refl
  commands_in-append (text ∷ texts) more = ground (arith, commands_in-append texts more)

  Decodes-append :
      (texts more : List String) → Decodes (texts ++ more) → Decodes texts × Decodes more
  Decodes-append [] more h = (tt, h)
  Decodes-append (text ∷ texts) more h = let (a, b) = Decodes-append texts more h.1 in ((h.0, a), b)

module _ (K : KvStore) (G : Gob) where
  read_texts-commands_in :
      (texts : List String) (s : StateMachine K)
      → Decodes G texts
      → read_texts K G s texts ≡ runs (record s { slow_path = s.slow_path ++ commands_in G texts })
  unfolding read_texts commands_in
  read_texts-commands_in [] s h = ground (arith, append-nil s.slow_path)
  read_texts-commands_in (text ∷ texts) s h = elim (Option-cases (G.decode text)) [
    | inl e ↦ absurd (h.0 e)
    | inr (cmd, e) ↦ ground (
      arith,
      read_texts-commands_in texts (record s { slow_path = s.slow_path ++ cmd ∷ [] }) h.1,
      append_assoc s.slow_path (cmd ∷ []) (commands_in G texts),
    )
  ]

  -- The loop of `readCommits`; `load i` is what the snapshotter gives if the i-th commit asks it.
  unfoldable pub read_commits :
      StateMachine K
      → ℕ
      → List (Option (List String))
      → (ℕ → Snapshotter)
      → Started (StateMachine K)
  read_commits s i [] load = runs s
  read_commits s i (c ∷ cs) load = elim (read_commit K G s c (load i)) [
    | dies err ↦ dies err
    | runs t ↦ read_commits t (i + 1) cs load
  ]

  read_commits-delivered :
      (R : RaftLib) (cs : List (Option (List String))) (s : StateMachine K) (i : ℕ)
      (load : ℕ → Snapshotter) (d : ℕ → Option String)
      → ((j : ℕ) → load_snapshot (load j) ≡ runs (d j))
      → Decodes G (delivered R cs)
      → read_commits s i cs load
        ≡ runs (record s { slow_path = s.slow_path ++ commands_in G (delivered R cs) })
  unfolding read_commits read_commit commands_in reload
  read_commits-delivered R [] s i load d l h = ground (arith, append-nil s.slow_path)
  read_commits-delivered R (none ∷ cs) s i load d l h =
      ground (arith, l i, read_commits-delivered R cs s (i + 1) load d l h)
  read_commits-delivered R (some texts ∷ cs) s i load d l h =
      let (a, b) = Decodes-append G texts (delivered R cs) h in
      ground (
        arith,
        read_texts-commands_in texts s a,
        read_commits-delivered R cs (record s { slow_path = s.slow_path ++ commands_in G texts })
            (i + 1) load d l b,
        append_assoc s.slow_path (commands_in G texts) (commands_in G (delivered R cs)),
        commands_in-append G texts (delivered R cs),
      )

  -- If a node's commits are in step with the log, every text of the log decodes and the snapshotter never
  -- fails, then the reader of these commits does not stop, and the worker's queue gets the commands of
  -- the log up to the node's applied index: each once, in the order of the log, and nothing else changes.
  pub read_commits-Delivers :
      (R : RaftLib) (log : ℕ → Entry) (indexed : (j : ℕ) → (log j).index ≡ j) (n : CurpNode R)
      (s : StateMachine K) (load : ℕ → Snapshotter) (d : ℕ → Option String)
      → ((j : ℕ) → load_snapshot (load j) ≡ runs (d j))
      → Delivers R log indexed n
      → Decodes G (texts_of R (segment log 1 n.applied_index))
      → read_commits s 0 n.commits load
        ≡ runs (record s {
          slow_path = s.slow_path ++ commands_in G (texts_of R (segment log 1 n.applied_index));
        })
  read_commits-Delivers R log indexed n s load d l same h =
      read_commits-delivered R n.commits s 0 load d l (rw same h) ∙ rw same
