-- ===== src/Board.antt =====
-- curp/command/cmd_board.go: where a call waits for the result of a command and for its commit.
-- Every method runs under the board's lock, but a wait for a channel is outside it: such a method is
-- two or three functions here, one for each stretch under the lock. A channel has room for one
-- value and is never replaced or removed, so a channel is found by its id. A send to a full channel
-- blocks with the lock held: none stands for that, and the step can be taken once the channel has
-- room again.
pub mod Answers
pub mod Channels
pub mod Delivery
pub mod Free
pub mod LostWakeups
pub mod Room
use curp.Command.{ProposeId, ProposeId-discrete}
use curp.Prelude.{insert, delete, String, Option, none, some, List, [], lookup}

pub record CommandBoard : Type 0 where
  pub er_notifiers : List (ProposeId × Option String)
  pub asr_notifiers : List (ProposeId × Option (Unit {0}))
  pub er_buffer : List (ProposeId × String)
  pub asr_buffer : List (ProposeId × Unit {0})

abbrev pub new_board : CommandBoard
new_board = record { er_notifiers = []; asr_notifiers = []; er_buffer = []; asr_buffer = [] }

-- `ch <- a` on a channel with room for one value.
abbrev pub send {ℓ} : {A : Type ℓ} → Option A → A → Option (Option A)
send none a = some (some a)
send (some _) a = none

-- `if _, ok := notifiers[id]; ok { notifiers[id] <- a }`
abbrev pub notify :
    {A : Type 0}
    → List (ProposeId × Option A)
    → ProposeId
    → A
    → Option (List (ProposeId × Option A))
notify notifiers id a = elim (lookup ProposeId-discrete id notifiers) [
  | none ↦ some notifiers
  | some none ↦ some (insert ProposeId-discrete id (some a) notifiers)
  | some (some _) ↦ none
]

-- `if _, ok := notifiers[id]; !ok { notifiers[id] = make(chan, 1) }`
abbrev pub register :
    {A : Type 0} → List (ProposeId × Option A) → ProposeId → List (ProposeId × Option A)
register notifiers id = elim (lookup ProposeId-discrete id notifiers) [
  | none ↦ insert ProposeId-discrete id none notifiers
  | some _ ↦ notifiers
]

unfoldable pub notify_er : CommandBoard → ProposeId → String → Option CommandBoard
notify_er c id result = elim (notify c.er_notifiers id result) [
  | none ↦ none
  | some ns ↦ some (record c { er_notifiers = ns })
]

unfoldable pub insert_er : CommandBoard → ProposeId → String → Option CommandBoard
unfolding notify_er
insert_er c id result =
    notify_er (record c { er_buffer = insert ProposeId-discrete id result c.er_buffer }) id result

unfoldable pub notify_asr : CommandBoard → ProposeId → Option CommandBoard
notify_asr c id = elim (notify c.asr_notifiers id tt) [
  | none ↦ none
  | some ns ↦
      some
        (record c { asr_notifiers = ns; asr_buffer = insert ProposeId-discrete id tt c.asr_buffer })
]

-- `WaitForEr` up to its return or its wait: some is the result that it returns.
unfoldable pub wait_for_er : CommandBoard → ProposeId → CommandBoard × Option String
wait_for_er c id = elim (lookup ProposeId-discrete id c.er_buffer) [
  | some result ↦ (c, some result)
  | none ↦ (record c { er_notifiers = register c.er_notifiers id }, none)
]

-- `result := <-notifyChan`; none while the channel is empty.
unfoldable pub receive_er : CommandBoard → ProposeId → Option (String × CommandBoard)
receive_er c id = elim (lookup ProposeId-discrete id c.er_notifiers) [
  | some (some result) ↦
      some (result, record c { er_notifiers = insert ProposeId-discrete id none c.er_notifiers })
  | _ ↦ none
]

-- The two deferred deletes of `WaitForAsr`.
unfoldable pub forget : CommandBoard → ProposeId → CommandBoard
forget c id = record c {
  er_buffer = delete ProposeId-discrete id c.er_buffer;
  asr_buffer = delete ProposeId-discrete id c.asr_buffer;
}

-- `asrOk && erOk`, with the result.
abbrev executed_and_synced : Option (Unit {0}) → Option String → Option String
executed_and_synced (some _) er = er
executed_and_synced none er = none

-- `WaitForAsr` up to its return or its wait.
unfoldable pub wait_for_asr : CommandBoard → ProposeId → CommandBoard × Option String
unfolding forget
wait_for_asr c id =
    elim (executed_and_synced (lookup ProposeId-discrete id c.asr_buffer)
      (lookup ProposeId-discrete id c.er_buffer)) [
        | some result ↦ (forget c id, some result)
        | none ↦ (record c { asr_notifiers = register c.asr_notifiers id }, none)
      ]

-- `<-notifyChan`, without the lock.
unfoldable pub receive_asr : CommandBoard → ProposeId → Option CommandBoard
receive_asr c id = elim (lookup ProposeId-discrete id c.asr_notifiers) [
  | some (some _) ↦
      some (record c { asr_notifiers = insert ProposeId-discrete id none c.asr_notifiers })
  | _ ↦ none
]

abbrev pub not_found : String
not_found = "NOT FOUND IN BUFFER"

-- The rest of `WaitForAsr`, with the lock taken again.
unfoldable pub resume_asr : CommandBoard → ProposeId → CommandBoard × String
unfolding forget
resume_asr c id = elim (lookup ProposeId-discrete id c.er_buffer) [
  | some result ↦ (forget c id, result)
  | none ↦ (forget c id, not_found)
]
