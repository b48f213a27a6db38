-- ===== src/Witness/Accepts.antt =====
-- Which commands a witness of curp/witness/witness.go accepts, and what it then holds.
use mathlib.Core.List.{Perm, Permᴰ}
use mathlib.Core.Logic.{∥∥₁_elim}
use mathlib.Core.Bool.{Bool-set}
use curp.Command.{CurpClientCommand, ProposeId, ProposeId-discrete, propose_id, conflict}
use curp.Witness.{Witness, any_conflict, has_conflict_with, insert_if_not_conflict}
use curp.Prelude.{
  if◌then◌else◌, All, lookup-insert, ◌≡◌, refl, ◌∙◌, ◌↔◌, ite, false, some, List, [], ◌∷◌, lookup,
  arith,
}

-- No recorded command conflicts with this one.
abbrev pub IsClear : List (ProposeId × CurpClientCommand) → CurpClientCommand → Type 0
IsClear m cmd = All (λ e. conflict e.1 cmd ≡ false) m

pub any_conflict-IsClear :
    (m : List (ProposeId × CurpClientCommand)) (cmd : CurpClientCommand)
    → (any_conflict m cmd ≡ false) ↔ IsClear m cmd
unfolding any_conflict
any_conflict-IsClear [] cmd = (λ _. tt, λ _. refl)
any_conflict-IsClear ((_, c) ∷ m) cmd = (
  λ h. ground (arith, (any_conflict-IsClear m cmd).0),
  λ h. ground (arith, (any_conflict-IsClear m cmd).1),
)

-- A witness reports no conflict exactly when no recorded command conflicts with the new one.
pub insert_if_not_conflict_iff :
    (w : Witness) (cmd : CurpClientCommand)
    → ((insert_if_not_conflict w cmd).1 ≡ false) ↔ IsClear w.command_map cmd
unfolding insert_if_not_conflict has_conflict_with
insert_if_not_conflict_iff w cmd = (
  λ h. (any_conflict-IsClear w.command_map cmd).0 (ground arith),
  λ h. ground (arith, (any_conflict-IsClear w.command_map cmd).1 h),
)

-- What a witness holds afterwards: after a conflict what it held; otherwise the command under its
-- id, and every other id as before.
pub lookup-insert_if_not_conflict :
    (w : Witness) (cmd : CurpClientCommand) (id : ProposeId)
    → lookup ProposeId-discrete id (insert_if_not_conflict w cmd).0.command_map ≡ (
        if (insert_if_not_conflict w cmd).1
        then lookup ProposeId-discrete id w.command_map
        else ite
            (ProposeId-discrete id (propose_id cmd))
            (some cmd)
            (lookup ProposeId-discrete id w.command_map))
unfolding insert_if_not_conflict
lookup-insert_if_not_conflict w cmd id =
    ground (arith, lookup-insert ProposeId-discrete id (propose_id cmd) cmd w.command_map)

any_conflict-permᴰ :
    {m n : List (ProposeId × CurpClientCommand)} (cmd : CurpClientCommand)
    → Permᴰ m n
    → any_conflict m cmd ≡ any_conflict n cmd
unfolding any_conflict
any_conflict-permᴰ cmd Permᴰ.nil = refl
any_conflict-permᴰ cmd (Permᴰ.cons e p) = ground (arith, any_conflict-permᴰ cmd p)
any_conflict-permᴰ cmd (Permᴰ.swap e f) = ground arith
any_conflict-permᴰ cmd (Permᴰ.trans p q) = any_conflict-permᴰ cmd p ∙ any_conflict-permᴰ cmd q

-- The order in which Go ranges over the map does not change the answer.
pub has_conflict_with-perm :
    (w v : Witness) (cmd : CurpClientCommand)
    → Perm w.command_map v.command_map
    → has_conflict_with w cmd ≡ has_conflict_with v cmd
unfolding has_conflict_with
has_conflict_with-perm w v cmd p = ∥∥₁_elim p (Bool-set _ _) (any_conflict-permᴰ cmd)
