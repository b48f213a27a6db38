-- ===== src/Witness.antt =====
-- curp/witness/witness.go: the commands that a replica has accepted and not yet seen committed.
-- Each exported method but `HasConflictWith` holds the witness's lock throughout, so it is one step.
pub mod Accepts
pub mod Invariant
use curp.Command.{CurpClientCommand, ProposeId, ProposeId-discrete, propose_id, conflict}
use curp.Prelude.{if◌then◌else◌, insert, delete, Bool, true, false, List, [], ◌∷◌}

pub record Witness : Type 0 where
  pub command_map : List (ProposeId × CurpClientCommand)

abbrev pub new_witness : Witness
new_witness = record { command_map = [] }

-- The loop of `HasConflictWith` over the entries, in the order in which Go ranges over the map.
unfoldable pub any_conflict : List (ProposeId × CurpClientCommand) → CurpClientCommand → Bool
any_conflict [] cmd = false
any_conflict ((_, c) ∷ entries) cmd = if conflict c cmd then true else any_conflict entries cmd

unfoldable pub has_conflict_with : Witness → CurpClientCommand → Bool
has_conflict_with w cmd = any_conflict w.command_map cmd

-- True reports a conflict; the command is then not recorded.
unfoldable pub insert_if_not_conflict : Witness → CurpClientCommand → Witness × Bool
unfolding has_conflict_with
insert_if_not_conflict w cmd = if has_conflict_with w cmd then (w, true) else (
  record { command_map = insert ProposeId-discrete (propose_id cmd) cmd w.command_map },
  false,
)

unfoldable pub remove : Witness → ProposeId → Witness
remove w id = record { command_map = delete ProposeId-discrete id w.command_map }
