-- ===== src/Client/Static.antt =====
-- The counters of a client of curp/client_grpc.go, as a text. The text of a number is an argument.
use Prim.Native.String.{◌++◌}
use curp.Client.{GrpcClient}
use curp.Prelude.{ℕ, String}

-- `Static`, which is `static.String`.
unfoldable pub static_text : (itoa : ℕ → String) → GrpcClient → String
static_text itoa c = "fast: " ++ itoa c.fast ++ ", slow: " ++ itoa c.slow
