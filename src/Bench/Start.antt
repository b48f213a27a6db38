-- ===== src/Bench/Start.antt =====
-- `main` of curp_client/main.go: the clients that a process starts, and their loops. The numbers of the
-- configuration that the loops use are arguments.
use curp.Client.{GrpcClient, fetch_leader_from, fetch_leader, new_grpc_client}
use curp.Bench.Loop.{Floats, Looped, crashed, Pass, new_buffer_client, loop}
use curp.Prelude.{
  if◌then◌else◌, ◌==◌, All, ℕ, zero, suc, ◌+◌, String, ◌≡◌, refl, ap, Bool, false, Option, none,
  some, List, [], ◌∷◌, arith,
}

-- The clients, with what the servers answer to each; none is the nil pointer, since the error is dropped.
abbrev pub start_clients : ℕ → ℕ → (ℕ → List Bool) → List (Option GrpcClient)
start_clients i zero answers = []
start_clients i (suc n) answers = new_grpc_client i (answers i) ∷ start_clients (i + 1) n answers

-- One client has the id of the flag; several are numbered from 0.
abbrev pub clients_of : (client_nums id : ℕ) → (ℕ → List Bool) → List (Option GrpcClient)
clients_of client_nums id answers =
    if client_nums == 1
    then new_grpc_client id (answers id) ∷ []
    else start_clients 0 client_nums answers

-- `fmt.Sprintf(":%v", 9360+i)`
abbrev pub bench_port : ℕ → ℕ
bench_port i = 9360 + i

no_leader :
    (i : ℕ) (answers : List Bool)
    → All (λ a. a ≡ false) answers
    → fetch_leader_from i none answers ≡ none
unfolding fetch_leader_from
no_leader i [] h = refl
no_leader i (a ∷ answers) h = ground (arith, no_leader (i + 1) answers h.1)

new_grpc_client-none :
    (client_id : ℕ) (answers : List Bool)
    → All (λ a. a ≡ false) answers
    → new_grpc_client client_id answers ≡ none
unfolding new_grpc_client fetch_leader
new_grpc_client-none client_id answers h = rw (no_leader 0 answers h, new_grpc_client) refl

module _ (F : Floats) (itoa : ℕ → String) (val : String) where
  -- The loop of a client; the first call of a nil pointer panics.
  unfoldable pub run_client :
      Option GrpcClient → (reqs command_size conflicts writes key : ℕ) → (ℕ → Pass) → Looped F
  run_client none reqs command_size conflicts writes key passes = crashed
  run_client (some c) reqs command_size conflicts writes key passes =
      loop F itoa val (new_buffer_client c reqs command_size conflicts writes key) passes

  -- If no server takes itself for the leader when a client starts, the client's loop panics.
  pub run_client-without_leader :
      (client_id : ℕ) (answers : List Bool) (reqs command_size conflicts writes key : ℕ)
      (passes : ℕ → Pass)
      → All (λ a. a ≡ false) answers
      → run_client (new_grpc_client client_id answers) reqs command_size conflicts writes key passes
        ≡ crashed
  unfolding run_client
  run_client-without_leader client_id answers reqs command_size conflicts writes key passes h =
      ap (λ c. run_client c reqs command_size conflicts writes key passes)
        (new_grpc_client-none client_id answers h)
