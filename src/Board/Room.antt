-- ===== src/Board/Room.antt =====
-- When the worker's calls on the board of curp/command/cmd_board.go need not wait for a channel.
use curp.Command.{ProposeId, ProposeId-discrete}
use curp.Board.{CommandBoard, insert_er, notify_asr, wait_for_asr, forget}
use curp.Prelude.{
  Option-cases, insert, lookup-insert, lookup-insert_ne, String, ◌≡◌, refl, ◌≢◌, inl, inr, Option,
  some, List, lookup, arith,
}

-- The channel of the id, if there is one, has room.
abbrev pub HasRoom : {A : Type 0} → List (ProposeId × Option A) → ProposeId → Type 0
HasRoom {A} ns id = (a : A) → lookup ProposeId-discrete id ns ≢ some (some a)

pub insert_er-HasRoom :
    (c : CommandBoard) (id : ProposeId) (r : String)
    → HasRoom c.er_notifiers id
    → (d : CommandBoard) × (insert_er c id r ≡ some d)
unfolding insert_er
insert_er-HasRoom c id r room = elim (Option-cases (lookup ProposeId-discrete id c.er_notifiers)) [
  | inl e ↦ (record c { er_buffer = insert ProposeId-discrete id r c.er_buffer }, ground arith)
  | inr (q, e) ↦ elim (Option-cases q) [
    | inl f ↦ (
      record c {
        er_buffer = insert ProposeId-discrete id r c.er_buffer;
        er_notifiers = insert ProposeId-discrete id (some r) c.er_notifiers;
      },
      ground arith,
    )
    | inr (a, f) ↦ absurd (room a (cc))
  ]
]

pub notify_asr-HasRoom :
    (c : CommandBoard) (id : ProposeId)
    → HasRoom c.asr_notifiers id
    → (d : CommandBoard) × (notify_asr c id ≡ some d)
unfolding notify_asr
notify_asr-HasRoom c id room = elim (Option-cases (lookup ProposeId-discrete id c.asr_notifiers)) [
  | inl e ↦ (record c { asr_buffer = insert ProposeId-discrete id tt c.asr_buffer }, ground arith)
  | inr (q, e) ↦ elim (Option-cases q) [
    | inl f ↦ (
      record c {
        asr_buffer = insert ProposeId-discrete id tt c.asr_buffer;
        asr_notifiers = insert ProposeId-discrete id (some tt) c.asr_notifiers;
      },
      ground arith,
    )
    | inr (a, f) ↦ absurd (room a (cc))
  ]
]

-- A sync of an id with a result on the board.
pub wait_for_asr-executed :
    (c : CommandBoard) (id : ProposeId) (r : String) {d : CommandBoard}
    → lookup ProposeId-discrete id c.er_buffer ≡ some r
    → notify_asr c id ≡ some d
    → wait_for_asr d id ≡ (forget d id, some r)
unfolding notify_asr wait_for_asr
wait_for_asr-executed c id r {d} h k =
    ground (arith, lookup-insert ProposeId-discrete id id tt c.asr_buffer)

-- A result for an id whose channel, if there is one, is empty, leaves the other channels.
pub insert_er-room :
    (c : CommandBoard) (id : ProposeId) (r : String)
    → HasRoom c.er_notifiers id
    → (d : CommandBoard) × (insert_er c id r ≡ some d)
      × (d.asr_notifiers ≡ c.asr_notifiers)
      × ((j : ProposeId)
          → j ≢ id
          → lookup ProposeId-discrete j d.er_notifiers ≡ lookup ProposeId-discrete j c.er_notifiers)
unfolding insert_er
insert_er-room c id r room = elim (Option-cases (lookup ProposeId-discrete id c.er_notifiers)) [
  | inl e ↦ (
    record c { er_buffer = insert ProposeId-discrete id r c.er_buffer },
    ground arith,
    refl,
    λ j n. refl,
  )
  | inr (q, e) ↦ elim (Option-cases q) [
    | inl f ↦ (
      record c {
        er_buffer = insert ProposeId-discrete id r c.er_buffer;
        er_notifiers = insert ProposeId-discrete id (some r) c.er_notifiers;
      },
      ground arith,
      refl,
      λ j n. lookup-insert_ne ProposeId-discrete j id (some r) c.er_notifiers n,
    )
    | inr (a, f) ↦ absurd (room a (cc))
  ]
]
