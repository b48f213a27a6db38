-- ===== src/Board/Answers.antt =====
-- Histories of calls on the board of curp/command/cmd_board.go: for any ids, in any order.
use curp.Command.{ProposeId, ProposeId-discrete}
use curp.Board.{
  notify, register, CommandBoard, new_board, insert_er, notify_asr, wait_for_er, receive_er, forget,
  wait_for_asr, receive_asr, resume_asr, not_found,
}
use curp.Prelude.{
  Option-cases, All, insert, insert-All, delete-All, All-lookup, String, ◌≡◌, refl, subst, ◌⊎◌, inl,
  inr, Option, none, some, List, [], ◌∷◌, lookup, arith,
}

-- One stretch of a method under the board's lock, or one receive.
pub data Event : Type 0 where
  inserts_er : ProposeId → String → Event
  notifies_asr : ProposeId → Event
  waits_er : ProposeId → Event
  receives_er : ProposeId → Event
  waits_asr : ProposeId → Event
  receives_asr : ProposeId → Event
  resumes_asr : ProposeId → Event

abbrev pub id_of : Event → ProposeId
id_of (inserts_er id _) = id
id_of (notifies_asr id) = id
id_of (waits_er id) = id
id_of (receives_er id) = id
id_of (waits_asr id) = id
id_of (receives_asr id) = id
id_of (resumes_asr id) = id

abbrev pub received : Option (String × CommandBoard) → Option CommandBoard
received (some (_, c)) = some c
received none = none

abbrev pub received_text : Option (String × CommandBoard) → Option String
received_text (some (r, _)) = some r
received_text none = none

-- The board after an event; none where the event has to wait.
unfoldable pub apply : CommandBoard → Event → Option CommandBoard
apply c (inserts_er id r) = insert_er c id r
apply c (notifies_asr id) = notify_asr c id
apply c (waits_er id) = some (wait_for_er c id).0
apply c (receives_er id) = received (receive_er c id)
apply c (waits_asr id) = some (wait_for_asr c id).0
apply c (receives_asr id) = receive_asr c id
apply c (resumes_asr id) = some (resume_asr c id).0

-- The text that `WaitForEr` or `WaitForAsr` returns by this event, if it returns.
unfoldable pub answer : CommandBoard → Event → Option String
answer c (waits_er id) = (wait_for_er c id).1
answer c (receives_er id) = received_text (receive_er c id)
answer c (waits_asr id) = (wait_for_asr c id).1
answer c (resumes_asr id) = some (resume_asr c id).1
answer c _ = none

unfoldable pub run : CommandBoard → List Event → Option CommandBoard
run c [] = some c
run c (e ∷ events) = elim (apply c e) [ none ↦ none | some d ↦ run d events ]

module _ {A : Type 0} (Q : ProposeId × Option A → Type 0) where
  notify-All :
      (ns : List (ProposeId × Option A)) (id : ProposeId) (a : A)
      {ns' : List (ProposeId × Option A)}
      → Q (id, some a)
      → All Q ns
      → notify ns id a ≡ some ns'
      → All Q ns'
  notify-All ns id a q h e = ground (arith, insert-All ProposeId-discrete Q id (some a) ns q h)

  register-All :
      (ns : List (ProposeId × Option A)) (id : ProposeId)
      → Q (id, none)
      → All Q ns
      → All Q (register ns id)
  register-All ns id q h = ground (arith, insert-All ProposeId-discrete Q id none ns q h)

module _ (P : ProposeId → String → Type 0) where
  -- Every result that the event inserts has the property.
  abbrev pub Inserts : Event → Type 0
  Inserts (inserts_er id r) = P id r
  Inserts _ = Unit

  abbrev pub Stored : ProposeId × String → Type 0
  Stored e = P e.0 e.1

  abbrev pub Sent : ProposeId × Option String → Type 0
  Sent e = (r : String) → e.1 ≡ some r → P e.0 r

  pub record Sound (c : CommandBoard) : Type 0 where
    pub buffered : All Stored c.er_buffer
    pub sent : All Sent c.er_notifiers

  pub new_board-Sound : Sound new_board
  new_board-Sound = record { buffered = tt; sent = tt }

  some-Sent : (id : ProposeId) (r : String) → P id r → Sent (id, some r)
  some-Sent id r p r' e = let same : r ≡ r' = ground arith in subst (P id) same p

  insert_er-Sound :
      (c : CommandBoard) (id : ProposeId) (r : String) {d : CommandBoard}
      → P id r
      → Sound c
      → insert_er c id r ≡ some d
      → Sound d
  unfolding insert_er
  insert_er-Sound c id r {d} p s h = elim (Option-cases (notify c.er_notifiers id r)) [
    | inl full ↦ absurd (ground arith)
    | inr (ns, sent) ↦
        let same : d ≡ record c {
          er_notifiers = ns;
          er_buffer = insert ProposeId-discrete id r c.er_buffer;
        } =
          ground arith in
        rw same (record {
          buffered = insert-All ProposeId-discrete Stored id r c.er_buffer p s.buffered;
          sent = notify-All Sent c.er_notifiers id r (some-Sent id r p) s.sent sent;
        })
  ]

  forget-Sound : (c : CommandBoard) (id : ProposeId) → Sound c → Sound (forget c id)
  unfolding forget
  forget-Sound c id s = record {
    buffered = delete-All ProposeId-discrete Stored id c.er_buffer s.buffered;
    sent = s.sent;
  }

  none-Sent : (id : ProposeId) → Sent (id, none)
  none-Sent id r e = cc

  pub apply-Sound :
      (c : CommandBoard) (e : Event) {d : CommandBoard}
      → Inserts e
      → Sound c
      → apply c e ≡ some d
      → Sound d
  unfolding apply wait_for_er receive_er notify_asr wait_for_asr receive_asr resume_asr
  apply-Sound c (inserts_er id r) p s h = insert_er-Sound c id r p s h
  apply-Sound c (notifies_asr id) p s h = ground arith
  apply-Sound c (waits_er id) p s h =
      ground (arith, register-All Sent c.er_notifiers id (none-Sent id) s.sent)
  apply-Sound c (receives_er id) p s h =
      ground
        (arith, insert-All ProposeId-discrete Sent id none c.er_notifiers (none-Sent id) s.sent)
  apply-Sound c (waits_asr id) p s h = ground (arith, forget-Sound c id s)
  apply-Sound c (receives_asr id) p s h = ground arith
  apply-Sound c (resumes_asr id) p s h = ground (arith, forget-Sound c id s)

  run-Sound :
      (events : List Event) (c : CommandBoard) {d : CommandBoard}
      → All Inserts events
      → Sound c
      → run c events ≡ some d
      → Sound d
  unfolding run
  run-Sound [] c p s h = ground arith
  run-Sound (e ∷ events) c p s h = elim (Option-cases (apply c e)) [
    | inl stuck ↦ absurd (ground arith)
    | inr (b, went) ↦ run-Sound events b p.1 (apply-Sound c e p.0 s went) (ground arith)
  ]

  pub receive_er-Sound :
      (c : CommandBoard) (id : ProposeId) {r : String} {d : CommandBoard}
      → Sound c
      → receive_er c id ≡ some (r, d)
      → P id r
  unfolding receive_er
  receive_er-Sound c id {r} s h =
      All-lookup ProposeId-discrete Sent id c.er_notifiers {v = some r} s.sent (ground arith) r refl

  pub answer-Sound :
      (c : CommandBoard) (e : Event) (r : String)
      → Sound c
      → answer c e ≡ some r
      → P (id_of e) r ⊎ (r ≡ not_found)
  unfolding answer wait_for_er wait_for_asr resume_asr
  answer-Sound c (waits_er id) r s h =
      inl (All-lookup ProposeId-discrete Stored id c.er_buffer s.buffered (ground arith))
  answer-Sound c (receives_er id) r s h = elim (Option-cases (receive_er c id)) [
    | inl empty ↦ absurd (ground arith)
    | inr ((r', d), got) ↦ inl (receive_er-Sound c id {r = r} {d = d} s (ground arith))
  ]
  answer-Sound c (waits_asr id) r s h =
      inl (All-lookup ProposeId-discrete Stored id c.er_buffer s.buffered (ground arith))
  answer-Sound c (resumes_asr id) r s h =
      elim (Option-cases (lookup ProposeId-discrete id c.er_buffer)) [
        | inl gone ↦ inr (ground arith)
        | inr (r', there) ↦
            let same : r' ≡ r = ground arith in
            inl (
              subst (P id) same
                (All-lookup ProposeId-discrete Stored id c.er_buffer s.buffered there))
      ]
  answer-Sound c e r s h = cc

  -- In every history of calls on a new board, for any ids and in any order, what `WaitForEr` or
  -- `WaitForAsr` returns for an id is a result that was inserted under this id, or else the fallback
  -- text: a property of all inserted results is a property of all answers.
  pub answer-inserted :
      (events : List Event) {c : CommandBoard}
      → All Inserts events
      → run new_board events ≡ some c
      → (e : Event) (r : String) → answer c e ≡ some r
      → P (id_of e) r ⊎ (r ≡ not_found)
  answer-inserted events {c} p h e r a =
      answer-Sound c e r (run-Sound events new_board p new_board-Sound h) a

-- A property of all results on the board, and one that follows from it.
module _ (P Q : ProposeId → String → Type 0)
    (f : (id : ProposeId) (r : String) → P id r → Q id r) where
  All-Stored : (es : List (ProposeId × String)) → All (Stored P) es → All (Stored Q) es
  All-Stored [] h = tt
  All-Stored (e ∷ es) h = (f e.0 e.1 h.0, All-Stored es h.1)

  All-Sent : (es : List (ProposeId × Option String)) → All (Sent P) es → All (Sent Q) es
  All-Sent [] h = tt
  All-Sent (e ∷ es) h = (λ r k. f e.0 r (h.0 r k), All-Sent es h.1)

  pub Sound-map : (c : CommandBoard) → Sound P c → Sound Q c
  Sound-map c s = record {
    buffered = All-Stored c.er_buffer s.buffered;
    sent = All-Sent c.er_notifiers s.sent;
  }
