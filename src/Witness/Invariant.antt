-- ===== src/Witness/Invariant.antt =====
-- What holds of every witness of curp/witness/witness.go between two calls.
use curp.Command.{CurpClientCommand, ProposeId, ProposeId-discrete, propose_id, conflict}
use curp.Command.Commuting.{conflict_comm}
use curp.Witness.{Witness, any_conflict, new_witness, insert_if_not_conflict, remove}
use curp.Witness.Accepts.{IsClear, any_conflict-IsClear}
use curp.Prelude.{
  Bool-cases, All, insert, delete, IsMap, insert-IsMap, delete-IsMap, insert-All, delete-All, ◌≡◌,
  refl, ◌∙◌, inl, inr, if_pos, if_neg, false, List, [], ◌∷◌,
}

-- No two entries conflict.
abbrev pub IsCompatible : List (ProposeId × CurpClientCommand) → Type 0
IsCompatible [] = Unit
IsCompatible (e ∷ m) = IsClear m e.1 × IsCompatible m

-- Each id is there once, under the command that has it, and the commands commute with one another.
pub record Inv (w : Witness) : Type 0 where
  pub distinct : IsMap ProposeId-discrete w.command_map
  pub keyed : All (λ e. propose_id e.1 ≡ e.0) w.command_map
  pub compatible : IsCompatible w.command_map

insert-IsCompatible :
    (k : ProposeId) (cmd : CurpClientCommand) (m : List (ProposeId × CurpClientCommand))
    → IsClear m cmd
    → IsCompatible m
    → IsCompatible (insert ProposeId-discrete k cmd m)
unfolding insert
insert-IsCompatible k cmd [] c h = (tt, tt)
insert-IsCompatible k cmd (e ∷ m) c h = elim (ProposeId-discrete k e.0) [
  | yes here ↦ rw (if_pos _ here) (c.1, h.1)
  | no there ↦ rw (if_neg _ there) (
    insert-All ProposeId-discrete (λ f. conflict f.1 e.1 ≡ false) k cmd m
        (conflict_comm cmd e.1 ∙ c.0) h.0,
    insert-IsCompatible k cmd m c.1 h.1,
  )
]

delete-IsCompatible :
    (k : ProposeId) (m : List (ProposeId × CurpClientCommand))
    → IsCompatible m
    → IsCompatible (delete ProposeId-discrete k m)
unfolding delete
delete-IsCompatible k [] h = tt
delete-IsCompatible k (e ∷ m) h = elim (ProposeId-discrete k e.0) [
  | yes here ↦ rw (if_pos _ here) (delete-IsCompatible k m h.1)
  | no there ↦ rw (if_neg _ there) (
    delete-All ProposeId-discrete (λ f. conflict f.1 e.1 ≡ false) k m h.0,
    delete-IsCompatible k m h.1,
  )
]

pub new_witness-Inv : Inv new_witness
new_witness-Inv = record { distinct = tt; keyed = tt; compatible = tt }

recorded-Inv :
    (w : Witness) (cmd : CurpClientCommand)
    → IsClear w.command_map cmd
    → Inv w
    → Inv (record { command_map = insert ProposeId-discrete (propose_id cmd) cmd w.command_map })
recorded-Inv w cmd c v = record {
  distinct = insert-IsMap ProposeId-discrete (propose_id cmd) cmd w.command_map v.distinct;
  keyed = insert-All ProposeId-discrete _ (propose_id cmd) cmd w.command_map refl v.keyed;
  compatible = insert-IsCompatible (propose_id cmd) cmd w.command_map c v.compatible;
}

-- `InsertIfNotConflict` keeps the invariant, whatever it answers.
pub insert_if_not_conflict-Inv :
    (w : Witness) (cmd : CurpClientCommand) → Inv w → Inv (insert_if_not_conflict w cmd).0
unfolding insert_if_not_conflict
insert_if_not_conflict-Inv w cmd v = elim (Bool-cases (any_conflict w.command_map cmd)) [
  | inl found ↦ rw (found, insert_if_not_conflict) v
  | inr clear ↦
      rw (clear, insert_if_not_conflict)
        (recorded-Inv w cmd ((any_conflict-IsClear w.command_map cmd).0 clear) v)
]

-- `Remove` keeps the invariant.
pub remove-Inv : (w : Witness) (id : ProposeId) → Inv w → Inv (remove w id)
unfolding remove
remove-Inv w id v = record {
  distinct = delete-IsMap ProposeId-discrete id w.command_map v.distinct;
  keyed = delete-All ProposeId-discrete _ id w.command_map v.keyed;
  compatible = delete-IsCompatible id w.command_map v.compatible;
}
