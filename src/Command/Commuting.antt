-- ===== src/Command/Commuting.antt =====
-- What the conflict test of curp/curp_proto/command_extend.go decides.
use curp.Command.{CurpClientCommand, conflict}
use curp.Command.Op
use curp.Prelude.{◌≡◌, ◌↔◌, ◌⊎◌, true, arith}

-- A command writes its key: it is a PUT or a DELETE.
abbrev pub Writes : CurpClientCommand → Type 0
Writes c = (c.op ≡ Op.put) ⊎ (c.op ≡ Op.delete)

-- Two commands conflict exactly when they have the same key and one of them writes it.
pub conflict_iff :
    (c d : CurpClientCommand) → (conflict c d ≡ true) ↔ ((c.key ≡ d.key) × (Writes c ⊎ Writes d))
unfolding conflict
conflict_iff c d = ground arith

pub conflict_comm : (c d : CurpClientCommand) → conflict c d ≡ conflict d c
unfolding conflict
conflict_comm c d = ground arith
