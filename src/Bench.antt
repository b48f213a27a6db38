-- ===== src/Bench.antt =====
-- curp_client: the program that drives the client of curp/client_grpc.go, as a load generator
-- (curp_client/buffer_client.go) or for requests of another program (curp_client/main.go).
pub mod Config
pub mod Draws
pub mod Loop
pub mod Main
pub mod Start
use curp.Client.{SyncEnd, GrpcClient, Answer, content, error, panic, no_answer, Event}
use curp.Client
use curp.Prelude.{
  if◌then◌else◌, ltb, leb, ◌==◌, ℕ, String, Bool, true, false, Option, none, some, List,
}

-- The operation codes of curp_client/main.go: not those of curp/command/command.go.
abbrev pub request_get : ℕ
request_get = 0

abbrev pub request_put : ℕ
request_put = 1

abbrev pub request_delete : ℕ
request_delete = 2

-- `Command` of curp_client/main.go.
pub record Request : Type 0 where
  pub op : ℕ
  pub key : String
  pub value : String

-- What `handleRequest` writes to the connection: a text, or an encoded `GetResponse`, whose commands
-- are one.
pub data Response : Type 0 where
  text : String → Response
  get_response : ℕ → Request → Response

-- `randomTrue(prob)`, with the draw of `rand.Intn(100)` that it may make.
unfoldable pub random_true : ℕ → ℕ → Bool
random_true prob draw = if leb 100 prob then true else (if ltb 0 prob then leb draw prob else false)

-- `genGetKey`, with the key that the clock gives and the draw of its `randomTrue`.
unfoldable pub gen_get_key : (conflict conflict_key key draw : ℕ) → ℕ
unfolding random_true
gen_get_key conflict conflict_key key draw = if random_true conflict draw then conflict_key else key

-- What becomes of a request: it is answered, or dropped where it cannot be decoded, or the client's
-- call panics or does not return.
pub data Handled : Type 0 where
  writes : Response → Handled
  dropped : Handled
  crashes : Handled
  hangs : Handled

abbrev respond : Answer → (String → Response) → Handled
respond (content value) make = writes (make value)
respond (error _) make = writes (make "")
respond panic make = crashes
respond no_answer make = hangs

-- `handleRequest`, with the request that gob decoded from the connection, the events of the fast round
-- of the client's call, and how the leader's `WaitSynced` ends.
unfoldable pub handle_request :
    GrpcClient → Option Request → List Event → SyncEnd → GrpcClient × Handled
handle_request client none events synced = (client, dropped)
handle_request client (some r) events synced =
    let (getting, _) = Client.get client r.key in
    let (putting, _) = Client.put client r.key r.value in
    let (deleting, _) = Client.del client r.key in
    if r.op == request_get
    then (let (c, answer) = Client.propose getting events synced in
        (
          c,
          respond answer
              (λ value. get_response 1 (record { op = request_get; key = r.key; value = value })),
        ))
    else (if r.op == request_put
        then (let (c, answer) = Client.propose putting events synced in
            (c, respond answer (λ _. text "Received PUT Response!")))
        else (if r.op == request_delete
            then (let (c, answer) = Client.propose deleting events synced in
                (c, respond answer (λ _. text "Received DELETE Response!")))
            else (client, writes (text "Received UNSUPPORT Response!"))))
