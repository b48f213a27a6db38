-- ===== src/Client/Dials.antt =====
-- The start of a client of curp/client_grpc.go when servers do not answer.
use curp.Client.{Dialled, no_connection, no_reply}
use curp.Prelude.{◌≡◌, ◌⊎◌}

-- The server cannot be asked.
abbrev pub IsDown : Dialled → Type 0
IsDown d = (d ≡ no_connection) ⊎ (d ≡ no_reply)
