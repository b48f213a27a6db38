-- ===== src/Machine/Replay.antt =====
-- Lists of commands executed one after the other, as curp/state.go executes the commands of a log.
use curp.Command.{CurpClientCommand, conflict}
use curp.Kv.{KvStore, IsStore}
use curp.Machine.{execute_sync}
use curp.Machine.Execute.{Same, execute_sync_comm, execute_sync-Same}
use mathlib.Core.List.{Perm, Permᴰ}
use mathlib.Core.Logic.{∥∥₁_elim}
use mathlib.Core.HLevel.{hedberg}
use curp.Command.Commuting.{conflict_comm}
use curp.Witness.{Witness}
use curp.Witness.Accepts.{IsClear}
use curp.Witness.Invariant.{Inv, IsCompatible}
use curp.Command.{ProposeId}
use curp.Prelude.{map, All, subst, String_discrete, ◌≡◌, refl, ◌∙◌, false, List, [], ◌∷◌}

unfoldable pub execute_all : (K : KvStore) → K.Store → List CurpClientCommand → K.Store
execute_all K s [] = s
execute_all K s (c ∷ cs) = execute_all K (execute_sync K s c).0 cs

-- Two orders of the same commands in which no two that conflict have changed places.
pub data Reorders : List CurpClientCommand → List CurpClientCommand → Type 0 where
  same : (cs : List CurpClientCommand) → Reorders cs cs
  keep :
      (c : CurpClientCommand) {cs ds : List CurpClientCommand}
      → Reorders cs ds
      → Reorders (c ∷ cs) (c ∷ ds)
  swap :
      (c d : CurpClientCommand) (cs : List CurpClientCommand)
      → conflict c d ≡ false
      → Reorders (c ∷ d ∷ cs) (d ∷ c ∷ cs)
  steps : {bs cs ds : List CurpClientCommand} → Reorders bs cs → Reorders cs ds → Reorders bs ds

-- No two commands of the list conflict.
abbrev pub NoConflicts : List CurpClientCommand → Type 0
NoConflicts [] = Unit
NoConflicts (c ∷ cs) = All (λ d. conflict c d ≡ false) cs × NoConflicts cs

All-permᴰ :
    (P : CurpClientCommand → Type 0) {cs ds : List CurpClientCommand}
    → Permᴰ cs ds
    → All P cs
    → All P ds
All-permᴰ P Permᴰ.nil h = h
All-permᴰ P (Permᴰ.cons e p) h = (subst P e h.0, All-permᴰ P p h.1)
All-permᴰ P (Permᴰ.swap e f) h = (subst P f h.1.0, (subst P e h.0, h.1.1))
All-permᴰ P (Permᴰ.trans p q) h = All-permᴰ P q (All-permᴰ P p h)

-- Commands that do not conflict may be put in any order.
Reorders-permᴰ :
    {cs ds : List CurpClientCommand}
    → Permᴰ cs ds
    → NoConflicts cs
    → Reorders cs ds × NoConflicts ds
Reorders-permᴰ Permᴰ.nil h = (same [], h)
Reorders-permᴰ (Permᴰ.cons {a = a} {l₁ = cs} {l₂ = ds} e p) h =
    let (r, k) = Reorders-permᴰ p h.1 in
    (
      subst (λ b. Reorders (a ∷ cs) (b ∷ ds)) e (keep a r),
      (subst (λ b. All (λ d. conflict b d ≡ false) ds) e (All-permᴰ _ p h.0), k),
    )
Reorders-permᴰ (Permᴰ.swap {a = a} {b = b} {a' = b'} {b' = a'} {l = cs} e f) h = (
  rw (← e, ← f) (swap a b cs h.0.0),
  subst (λ x. NoConflicts (b' ∷ x ∷ cs)) e
      (subst (λ x. NoConflicts (x ∷ a ∷ cs)) f
        ((conflict_comm b a ∙ h.0.0, h.1.0), (h.0.1, h.1.1))),
)
Reorders-permᴰ (Permᴰ.trans p q) h =
    let (r, k) = Reorders-permᴰ p h in let (r', k') = Reorders-permᴰ q k in (steps r r', k')

module _ (K : KvStore) (L : IsStore K) where
  pub execute_all-Same :
      (cs : List CurpClientCommand) (s t : K.Store)
      → Same K L s t
      → Same K L (execute_all K s cs) (execute_all K t cs)
  unfolding execute_all
  execute_all-Same [] s t h = h
  execute_all-Same (c ∷ cs) s t h =
      execute_all-Same cs (execute_sync K s c).0 (execute_sync K t c).0
        (execute_sync-Same K L s t c h)

  -- Two orders of a log in which no two commands that conflict have changed places leave stores that
  -- no read tells apart.
  pub execute_all-Reorders :
      (s : K.Store) {cs ds : List CurpClientCommand}
      → Reorders cs ds
      → Same K L (execute_all K s cs) (execute_all K s ds)
  unfolding execute_all
  execute_all-Reorders s (same cs) = λ k. refl
  execute_all-Reorders s (keep c r) = execute_all-Reorders (execute_sync K s c).0 r
  execute_all-Reorders s (swap c d cs h) = execute_all-Same cs _ _ (execute_sync_comm K L s c d h).0
  execute_all-Reorders s (steps r q) = λ k. execute_all-Reorders s r k ∙ execute_all-Reorders s q k

  -- Commands of which no two conflict leave the same store in whatever order they are executed: no
  -- read tells the outcomes apart.
  pub execute_all-perm :
      (s : K.Store) (cs ds : List CurpClientCommand)
      → NoConflicts cs
      → Perm cs ds
      → Same K L (execute_all K s cs) (execute_all K s ds)
  execute_all-perm s cs ds h p =
      ∥∥₁_elim p (hlevel (hedberg String_discrete))
        (λ q. execute_all-Reorders s (Reorders-permᴰ q h).0)

IsCompatible-NoConflicts :
    (m : List (ProposeId × CurpClientCommand)) → IsCompatible m → NoConflicts (map (λ e. e.1) m)
IsCompatible-NoConflicts [] h = tt
IsCompatible-NoConflicts (e ∷ m) h = (clear m h.0, IsCompatible-NoConflicts m h.1)
  where
    clear :
        (n : List (ProposeId × CurpClientCommand))
        → IsClear n e.1
        → All (λ d. conflict e.1 d ≡ false) (map (λ e. e.1) n)
    clear [] c = tt
    clear (f ∷ n) c = (conflict_comm e.1 f.1 ∙ c.0, clear n c.1)

-- The commands that a witness holds may be executed in any order: for a store that they are replayed
-- on, no read tells the outcomes apart.
pub replay_any_order :
    (K : KvStore) (L : IsStore K) (w : Witness) (s : K.Store) (ds : List CurpClientCommand)
    → Inv w
    → Perm (map (λ e. e.1) w.command_map) ds
    → Same K L (execute_all K s (map (λ e. e.1) w.command_map)) (execute_all K s ds)
replay_any_order K L w s ds v p =
    execute_all-perm K L s _ ds (IsCompatible-NoConflicts w.command_map v.compatible) p
