-- ===== src/Bench/Main.antt =====
-- `main` and `bench_server` of curp_client/main.go: what a process does with its flags, its configuration and
-- its connections.
use curp.Kv.{GoError}
use curp.Client.{SyncEnd, GrpcClient, Event}
use curp.Bench.{Request, Handled, handle_request}
use curp.Bench.Loop.{Floats, Looped, Pass}
use curp.Bench.Start.{clients_of, bench_port, run_client}
use curp.Prelude.{
  if◌then◌else◌, ◌==◌, ℕ, ◌+◌, String, ◌⊎◌, inl, inr, Bool, Option, none, some, List, [], ◌∷◌,
}

-- The flags, but for the addresses, which enter with what the servers answer.
pub record Flags : Type 0 where
  pub client_nums : ℕ
  pub id : ℕ
  pub local_client : Bool

-- The numbers of the configuration that the loops use.
pub record LoopNumbers : Type 0 where
  pub reqs : ℕ
  pub command_size : ℕ
  pub conflicts : ℕ
  pub writes : ℕ
  pub key : ℕ

module _ (F : Floats) where
  -- What one client of the process does: the loop of a load generator, or a server at a port.
  pub data Job : Type 0 where
    loops : Looped F → Job
    serves : (port : ℕ) → Option GrpcClient → Job

module _ (F : Floats) (itoa : ℕ → String) (val : String) where
  job : Flags → LoopNumbers → ℕ → (ℕ → Pass) → Option GrpcClient → Job F
  job flags n i passes client =
      if flags.local_client
      then loops
          (run_client F itoa val client n.reqs n.command_size n.conflicts n.writes n.key passes)
      else serves (bench_port i) client

  jobs_from : Flags → LoopNumbers → ℕ → (ℕ → ℕ → Pass) → List (Option GrpcClient) → List (Job F)
  jobs_from flags n i passes [] = []
  jobs_from flags n i passes (c ∷ cs) =
      job flags n i (passes i) c ∷ jobs_from flags n (i + 1) passes cs

  -- `main`, with what `Read` gives and what the servers answer to each client. None: it panics with the error
  -- of `Read`. One client has the number of its flag, several are numbered from 0.
  unfoldable pub run_main :
      Flags → LoopNumbers × GoError → (ℕ → List Bool) → (ℕ → ℕ → Pass) → Option (List (Job F))
  unfolding jobs_from job
  run_main flags (n, some err) answers passes = none
  run_main flags (n, none) answers passes =
      let first = if flags.client_nums == 1 then flags.id else 0 in
      some (jobs_from flags n first passes (clients_of flags.client_nums flags.id answers))

-- A connection that `bench_server` accepts: the request in it, and what the client's call meets.
pub record Connection : Type 0 where
  pub request : Option Request
  pub events : List Event
  pub synced : SyncEnd

-- The loop of `bench_server` over what `Accept` gives; the process exits with its first error. The connections
-- are handled in the order in which their goroutines call the client.
unfoldable pub accept_all :
    GrpcClient → List (Connection ⊎ String) → GrpcClient × List Handled × GoError
accept_all client [] = (client, [], none)
accept_all client (inr err ∷ rest) = (client, [], some err)
accept_all client (inl conn ∷ rest) =
    let (c, h) = handle_request client conn.request conn.events conn.synced in
    let (d, hs, err) = accept_all c rest in (d, h ∷ hs, err)

-- `bench_server`, with the error of `net.Listen`.
unfoldable pub bench_server :
    GoError → GrpcClient → List (Connection ⊎ String) → GrpcClient × List Handled × GoError
unfolding accept_all
bench_server (some err) client arrivals = (client, [], some err)
bench_server none client arrivals = accept_all client arrivals
