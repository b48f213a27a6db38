-- ===== src/Command.antt =====
-- Commands, their ids and replies: curp/command/command.go, curp/curp_proto/curp_command.proto and
-- curp/curp_proto/command_extend.go. Numbers of 32 and 64 bits are plain numbers here: nothing in
-- these files computes with them.
pub mod Op
pub mod Status
pub mod Commuting
pub mod Encoded
use curp.Prelude.{
  if◌then◌else◌, ◌==◌, String_discrete, delete, ℕ, String, ite, Bool, true, false, ◌||◌, List, [],
  ◌∷◌, ℕ_discrete,
}

pub record ProposeId : Type 0 where
  pub client_id : ℕ
  pub seq_id : ℕ

unfoldable pub ProposeId-discrete : Discrete ProposeId
unfolding ℕ_discrete
ProposeId-discrete = hlevel ℕ_discrete

pub record CurpClientCommand : Type 0 where
  pub op : ℕ
  pub client_id : ℕ
  pub seq_id : ℕ
  pub key : String
  pub value : String

pub record CurpReply : Type 0 where
  pub content : String
  pub status_code : ℕ
  pub seq_id : ℕ

-- `(c *CurpClientCommand) ProposeId()`
abbrev pub propose_id : CurpClientCommand → ProposeId
propose_id c = record { client_id = c.client_id; seq_id = c.seq_id }

-- A reply that leaves `SeqId` at its zero value, as every reply of the source does.
abbrev pub reply : String → ℕ → CurpReply
reply content status = record { content = content; status_code = status; seq_id = 0 }

unfoldable pub conflict : CurpClientCommand → CurpClientCommand → Bool
conflict c1 c2 =
    ite (String_discrete c1.key c2.key)
      (if c1.op == Op.put || c2.op == Op.put
        then true
        else (if c1.op == Op.delete || c2.op == Op.delete then true else false))
      false

-- The inner loop of `ConflictBatch`.
conflict_with_batch : CurpClientCommand → List CurpClientCommand → Bool
conflict_with_batch c [] = false
conflict_with_batch c (d ∷ batch2) = if conflict c d then true else conflict_with_batch c batch2

unfoldable pub conflict_batch : List CurpClientCommand → List CurpClientCommand → Bool
unfolding conflict_with_batch
conflict_batch [] batch2 = false
conflict_batch (c ∷ batch1) batch2 =
    if conflict_with_batch c batch2 then true else conflict_batch batch1 batch2

abbrev pub is_read : CurpClientCommand → Bool
is_read cmd = cmd.op == Op.get
