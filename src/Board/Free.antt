-- ===== src/Board/Free.antt =====
-- The board of curp/command/cmd_board.go between two calls of one client: no value is left in a channel.
use curp.Command.{ProposeId, ProposeId-discrete}
use curp.Board.{CommandBoard, register, wait_for_er, insert_er, receive_er, notify_asr}
use curp.Board.Room.{HasRoom}
use curp.Prelude.{
  Option-cases, insert, lookup-insert, lookup-insert_ne, String, ◌≡◌, refl, ◌∙◌, ◌≢◌, inl, inr,
  Option, none, some, List, [], lookup, arith,
}

-- Every channel of `WaitForEr` is empty, and `WaitForAsr` has made none.
pub record IsFree (b : CommandBoard) : Type 0 where
  pub room : (id : ProposeId) → HasRoom b.er_notifiers id
  pub no_asr : b.asr_notifiers ≡ []

pub register-HasRoom :
    {A : Type 0} (ns : List (ProposeId × Option A)) (id : ProposeId)
    → HasRoom ns id
    → (lookup ProposeId-discrete id (register ns id) ≡ some none)
      × ((j : ProposeId) → HasRoom ns j → HasRoom (register ns id) j)
register-HasRoom {A} ns id room = elim (Option-cases (lookup ProposeId-discrete id ns)) [
  | inl e ↦ (
    ground (arith, lookup-insert ProposeId-discrete id id none ns),
    λ j h a k. ground (arith, lookup-insert ProposeId-discrete j id none ns, h a),
  )
  | inr (q, e) ↦ elim (Option-cases q) [
    | inl f ↦ (ground arith, λ j h a k. ground (arith, h a))
    | inr (a, f) ↦ absurd (room a (cc))
  ]
]

-- A call that waits, the worker's result, and the call that wakes up.
pub receive_er-HasRoom :
    (b : CommandBoard) (id : ProposeId) (r : String)
    → ((j : ProposeId) → HasRoom b.er_notifiers j)
    → lookup ProposeId-discrete id b.er_buffer ≡ none
    → (c : CommandBoard) × (d : CommandBoard) × (e : CommandBoard) × (wait_for_er b id ≡ (c, none))
      × (insert_er c id r ≡ some d)
      × (receive_er d id ≡ some (r, e))
      × ((j : ProposeId) → HasRoom e.er_notifiers j)
      × (e.asr_notifiers ≡ b.asr_notifiers)
      × (e.er_buffer ≡ insert ProposeId-discrete id r b.er_buffer)
      × (e.asr_buffer ≡ b.asr_buffer)
unfolding wait_for_er insert_er receive_er
receive_er-HasRoom b id r room new =
    let (waiting, kept) = register-HasRoom b.er_notifiers id (room id) in
    let ns = register b.er_notifiers id in
    let full = insert ProposeId-discrete id (some r) ns in
    let c = record b { er_notifiers = ns } in
    let d = record c {
      er_buffer = insert ProposeId-discrete id r b.er_buffer;
      er_notifiers = full;
    } in
    let e = record d { er_notifiers = insert ProposeId-discrete id none full } in
    (
      c,
      d,
      e,
      ground arith,
      ground arith,
      ground (arith, lookup-insert ProposeId-discrete id id (some r) ns),
      λ j a h. ground (
        arith,
        kept j (room j) a,
        lookup-insert ProposeId-discrete j id none full,
        lookup-insert ProposeId-discrete j id (some r) ns,
      ),
      refl,
      refl,
      refl,
    )

pub receive_er-IsFree :
    (b : CommandBoard) (id : ProposeId) (r : String)
    → IsFree b
    → lookup ProposeId-discrete id b.er_buffer ≡ none
    → (c : CommandBoard) × (d : CommandBoard) × (e : CommandBoard) × (wait_for_er b id ≡ (c, none))
      × (insert_er c id r ≡ some d)
      × (receive_er d id ≡ some (r, e))
      × IsFree e
      × (e.er_buffer ≡ insert ProposeId-discrete id r b.er_buffer)
      × (e.asr_buffer ≡ b.asr_buffer)
receive_er-IsFree b id r free new =
    let (c, d, e, waited, inserted, received, room, ns, er, asr) =
      receive_er-HasRoom b id r free.room new in
    (
      c,
      d,
      e,
      waited,
      inserted,
      received,
      record { room = room; no_asr = ns ∙ free.no_asr },
      er,
      asr,
    )

-- A sync of an id whose channel, if there is one, is empty.
pub notify_asr-room :
    (b : CommandBoard) (id : ProposeId)
    → HasRoom b.asr_notifiers id
    → (d : CommandBoard) × (notify_asr b id ≡ some d)
      × (d.er_notifiers ≡ b.er_notifiers)
      × (d.er_buffer ≡ b.er_buffer)
      × (d.asr_buffer ≡ insert ProposeId-discrete id tt b.asr_buffer)
      × ((j : ProposeId)
          → j ≢ id
          → lookup ProposeId-discrete j d.asr_notifiers
            ≡ lookup ProposeId-discrete j b.asr_notifiers)
      × (lookup ProposeId-discrete id b.asr_notifiers ≡ some none
          → lookup ProposeId-discrete id d.asr_notifiers ≡ some (some tt))
unfolding notify_asr
notify_asr-room b id room = elim (Option-cases (lookup ProposeId-discrete id b.asr_notifiers)) [
  | inl e ↦ (
    record b { asr_buffer = insert ProposeId-discrete id tt b.asr_buffer },
    ground arith,
    refl,
    refl,
    refl,
    λ j n. refl,
    λ h. cc,
  )
  | inr (q, e) ↦ elim (Option-cases q) [
    | inl f ↦ (
      record b {
        asr_buffer = insert ProposeId-discrete id tt b.asr_buffer;
        asr_notifiers = insert ProposeId-discrete id (some tt) b.asr_notifiers;
      },
      ground arith,
      refl,
      refl,
      refl,
      λ j n. lookup-insert_ne ProposeId-discrete j id (some tt) b.asr_notifiers n,
      λ h. ground (arith, lookup-insert ProposeId-discrete id id (some tt) b.asr_notifiers),
    )
    | inr (a, f) ↦ absurd (room a (cc))
  ]
]

pub notify_asr-IsFree :
    (b : CommandBoard) (id : ProposeId)
    → IsFree b
    → notify_asr b id
      ≡ some (record b { asr_buffer = insert ProposeId-discrete id tt b.asr_buffer })
unfolding notify_asr lookup
notify_asr-IsFree b id free = ground (arith, free.no_asr)
