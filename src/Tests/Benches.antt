-- ===== src/Tests/Benches.antt =====
-- The theorems on the loop of curp_client/buffer_client.go, at two requests and three servers.
use curp.Command.{CurpClientCommand, propose_id}
use curp.Client
use curp.Client.{sync_failed, super_quorom, collect, fast_round}
use curp.Bench.{random_true, gen_get_key}
use curp.Bench.Loop.{
  Floats, no_latencies, measure, BufferClient, new_buffer_client, Latencies, hung, Pass,
  next_command, run_pass, loop_from, loop,
}
use curp.Bench.Loop.Passes.{ids, measured, loop-sent}
use curp.Bench.Loop.Finishes.{loop-finishes}
use curp.Tests.Clients.{client_of_3, all_accept}
use curp.Prelude.{ltb, ℕ, ◌+◌, ◌*◌, ◌^◌, String, ◌≡◌, refl, ◌≢◌, some, [], ◌∷◌, map, arith}

program : Unit {0}
unfolding measure super_quorom collect fast_round Client.propose Client.put Client.get
    Client.get_propose_id random_true gen_get_key next_command run_pass loop_from loop
program = tt

-- A loop of three requests, of which two count, all of them reads of fresh keys.
abbrev reads_twice : BufferClient
reads_twice = new_buffer_client client_of_3 2 0 0 0 42

abbrev itoa : ℕ → String
itoa n = "k"

-- The i-th request begins at ten times i and takes i.
abbrev passes : ℕ → Pass
passes i = record {
  key = i;
  conflict_draw = 0;
  write_draw = 0;
  started = 10 * i;
  ended = 11 * i;
  events = all_accept;
  synced = sync_failed;
}

abbrev read_at : ℕ → CurpClientCommand
read_at seq_id = record { op = 1; client_id = 7; seq_id = seq_id; key = "k"; value = "" }

-- What the loop leaves.
abbrev left : BufferClient
left = record reads_twice {
  client = record client_of_3 { seq_id = 3; fast = 3 };
  req_time = some 0 ∷ some 10 ∷ some 20 ∷ [];
  launch_time = some 10;
}

-- Nanoseconds in place of milliseconds.
abbrev whole : Floats
whole = record {
  Float = ℕ;
  zero_ms = 0;
  huge_ms = 10 ^ 39;
  in_ms = λ n. n;
  exceeds = λ a b. ltb b a;
  add = λ a b. a + b;
}

abbrev latencies : Latencies whole
latencies = record { max_latency = 2; min_latency = 1; sum = 3 }

loop-sent_example :
    (map propose_id (read_at 1 ∷ read_at 2 ∷ read_at 3 ∷ []) ≡ ids client_of_3 0 3)
    × (latencies ≡ measured whole passes 1 2 (no_latencies whole))
unfolding program
loop-sent_example =
    loop-sent whole itoa "v" reads_twice passes {c' = left} {l' = latencies}
      {sent' = read_at 1 ∷ read_at 2 ∷ read_at 3 ∷ []} (omega arith) refl

loop-finishes_example : loop whole itoa "v" reads_twice passes ≢ hung
unfolding program
loop-finishes_example =
    loop-finishes whole itoa "v" reads_twice passes (λ i. omega arith) (λ i e. cc)
