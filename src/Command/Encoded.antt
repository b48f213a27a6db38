-- ===== src/Command/Encoded.antt =====
-- `ClientCommand` of curp/command/command.go, the command with an id of its own, and its text. Gob is a
-- parameter.
use curp.Command.{ProposeId}
use curp.Kv.{GoError}
use Prim.Native.String.{◌++◌}
use curp.Prelude.{ℕ, String, none, some}

pub record ClientCommand : Type 0 where
  pub propose_id : ProposeId
  pub op : ℕ
  pub key : String
  pub value : String

-- What gob makes of a command, and what its decoder gives: a command beside the error.
pub record CommandGob : Type 0 where
  pub encode : ClientCommand → String
  pub decode : String → ClientCommand × GoError

-- A decoded command, or the fatal error that ends the process.
pub data Decoded : Type 0 where
  decoded : ClientCommand → Decoded
  fatal : String → Decoded

module _ (G : CommandGob) where
  abbrev pub encode : ClientCommand → String
  encode c = G.encode c

  unfoldable pub decode_client_command : String → Decoded
  decode_client_command content =
      let (c, err) = G.decode content in
      elim err [ none ↦ decoded c | some e ↦ fatal ("could not decode message (" ++ e ++ ")") ]
