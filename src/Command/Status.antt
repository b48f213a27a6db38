-- ===== src/Command/Status.antt =====
-- The status codes of curp/curp_proto/command_extend.go.
use curp.Prelude.{ℕ}

abbrev pub accepted : ℕ
accepted = 0

abbrev pub conflict : ℕ
conflict = 1

abbrev pub timeout : ℕ
timeout = 2
