-- ===== src/Board/Channels.antt =====
-- Channels of curp/command/cmd_board.go that have room for the next value, for each of a list of commands.
use curp.Command.{CurpClientCommand, ProposeId, ProposeId-discrete, propose_id}
use curp.Board.Room.{HasRoom}
use curp.Prelude.{All, ◌≡◌, sym, ◌∙◌, ◌≢◌, Option, none, some, List, [], ◌∷◌, lookup}

abbrev pub Distinct : List CurpClientCommand → Type 0
Distinct [] = Unit
Distinct (c ∷ cs) = All (λ d. propose_id d ≢ propose_id c) cs × Distinct cs

abbrev pub Rooms : {A : Type 0} → List (ProposeId × Option A) → List CurpClientCommand → Type 0
Rooms ns cs = All (λ c. HasRoom ns (propose_id c)) cs

-- The channels of all ids but one are as before.
abbrev pub SameBut :
    {A : Type 0} → ProposeId → List (ProposeId × Option A) → List (ProposeId × Option A) → Type 0
SameBut id ns ms =
    (j : ProposeId) → j ≢ id → lookup ProposeId-discrete j ms ≡ lookup ProposeId-discrete j ns

pub SameBut-HasRoom :
    {A : Type 0} (id j : ProposeId) (ns ms : List (ProposeId × Option A))
    → SameBut id ns ms
    → j ≢ id
    → HasRoom ns j
    → HasRoom ms j
SameBut-HasRoom id j ns ms same n h a k = h a (sym (same j n) ∙ k)

pub SameBut-Rooms :
    {A : Type 0} (id : ProposeId) (ns ms : List (ProposeId × Option A))
    (cs : List CurpClientCommand)
    → SameBut id ns ms
    → All (λ d. propose_id d ≢ id) cs
    → Rooms ns cs
    → Rooms ms cs
SameBut-Rooms id ns ms [] same apart h = tt
SameBut-Rooms id ns ms (c ∷ cs) same apart h = (
  SameBut-HasRoom id (propose_id c) ns ms same apart.0 h.0,
  SameBut-Rooms id ns ms cs same apart.1 h.1,
)

-- An empty channel of an outstanding command has a value after the commits.
abbrev pub Woken :
    List (ProposeId × Option (Unit {0}))
    → List (ProposeId × Option (Unit {0}))
    → List CurpClientCommand
    → Type 0
Woken ns ms cs =
    All
      (λ c.
        lookup ProposeId-discrete (propose_id c) ns ≡ some none
        → lookup ProposeId-discrete (propose_id c) ms ≡ some (some tt))
      cs

pub SameBut-Woken :
    (id : ProposeId) (ns ms ks : List (ProposeId × Option (Unit {0}))) (cs : List CurpClientCommand)
    → SameBut id ns ms
    → All (λ d. propose_id d ≢ id) cs
    → Woken ms ks cs
    → Woken ns ks cs
SameBut-Woken id ns ms ks [] same apart h = tt
SameBut-Woken id ns ms ks (c ∷ cs) same apart h =
    (λ e. h.0 (same (propose_id c) apart.0 ∙ e), SameBut-Woken id ns ms ks cs same apart.1 h.1)

pub All-Rooms :
    {A : Type 0} (ns : List (ProposeId × Option A)) (ms : List (ProposeId × Option A))
    (cs : List CurpClientCommand)
    → ((j : ProposeId) → HasRoom ns j → HasRoom ms j)
    → Rooms ns cs
    → Rooms ms cs
All-Rooms ns ms [] f h = tt
All-Rooms ns ms (c ∷ cs) f h = (f (propose_id c) h.0, All-Rooms ns ms cs f h.1)
