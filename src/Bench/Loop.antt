-- ===== src/Bench/Loop.antt =====
-- `BufferClient` of curp_client/buffer_client.go, but for its draws: how it is made, `Pipeline`,
-- `RegisterReply` and `Loop`. Times are in nanoseconds, and latencies milliseconds in a float64 (`Floats`).
pub mod Finishes
pub mod Passes
use curp.Command.{CurpClientCommand, CurpReply}
use curp.Client
use curp.Client.{SyncEnd, GrpcClient, Event, Answer, content, error, panic, no_answer}
use curp.Bench.{random_true, gen_get_key}
use curp.Prelude.{
  if◌then◌else◌, ltb, ◌==◌, length, set, replicate, ℕ, zero, suc, ◌+◌, ◌-◌, String, Bool, true,
  false, Option, none, some, List, [], ◌∷◌, ◌++◌,
}

pub record ReqReply : Type 0 where
  pub val : String
  pub seqnum : ℕ
  pub time : ℕ

-- `reply` is what the channel holds, which has room for `req_num` + 1 values. A time is none where it has
-- not been set. The source of random numbers and `GetClientKey`, which stays nil, are left out.
pub record BufferClient : Type 0 where
  pub client : GrpcClient
  pub reply : List ReqReply
  pub seq : Bool
  pub psize : ℕ
  pub req_num : ℕ
  pub writes : ℕ
  pub window : ℕ
  pub conflict : ℕ
  pub sync_freq : ℕ
  pub conflict_key : ℕ
  pub req_time : List (Option ℕ)
  pub launch_time : Option ℕ

abbrev pub new_buffer_client :
    GrpcClient → (req_num psize conflict writes conflict_key : ℕ) → BufferClient
new_buffer_client c req_num psize conflict writes conflict_key = record {
  client = c;
  reply = [];
  seq = true;
  psize = psize;
  req_num = req_num;
  writes = writes;
  window = 0;
  conflict = conflict;
  sync_freq = 0;
  conflict_key = conflict_key;
  req_time = replicate (req_num + 1) none;
  launch_time = none;
}

abbrev pub pipeline : BufferClient → (sync_freq window : ℕ) → BufferClient
pipeline c sync_freq window = record c { seq = false; sync_freq = sync_freq; window = window }

-- `RegisterReply` at a time. None is a call that blocks, since the channel is full.
abbrev pub register_reply : BufferClient → String → (seqnum t : ℕ) → Option BufferClient
register_reply c val seqnum t =
    if ltb (length c.reply) (c.req_num + 1)
    then some (record c { reply = c.reply ++ record { val = val; seqnum = seqnum; time = t } ∷ [] })
    else none

-- What the clock, the draws and the servers give in one pass of the loop.
pub record Pass : Type 0 where
  pub key : ℕ
  pub conflict_draw : ℕ
  pub write_draw : ℕ
  pub started : ℕ
  pub ended : ℕ
  pub events : List Event
  pub synced : SyncEnd

-- The float64 numbers of the source and what it does with them; their arithmetic rounds.
pub record Floats : Type 1 where
  pub Float : Type 0
  pub zero_ms : Float
  pub huge_ms : Float
  pub in_ms : (nanoseconds : ℕ) → Float
  pub exceeds : Float → Float → Bool
  pub add : Float → Float → Float

module _ (F : Floats) where
  pub record Latencies : Type 0 where
    pub max_latency : F.Float
    pub min_latency : F.Float
    pub sum : F.Float

  -- 0, 10^33 and 0 milliseconds.
  abbrev pub no_latencies : Latencies
  no_latencies = record { max_latency = F.zero_ms; min_latency = F.huge_ms; sum = F.zero_ms }

  -- A latency in nanoseconds is taken in.
  unfoldable pub measure : Latencies → ℕ → Latencies
  measure l nanoseconds =
      let m = F.in_ms nanoseconds in
      record {
        max_latency = (if F.exceeds m l.max_latency then m else l.max_latency);
        min_latency = (if F.exceeds l.min_latency m then m else l.min_latency);
        sum = F.add l.sum m;
      }

  -- How a pass, and the loop, ends. What has been finished has sent these commands; a call of the client may
  -- panic or not return.
  pub data Looped : Type 0 where
    finished : BufferClient → Latencies → List CurpClientCommand → Looped
    crashed : Looped
    hung : Looped

-- The texts of a key, and of the value of all writes: the one character 1, 1024 times.
module _ (F : Floats) (itoa : ℕ → String) (val : String) where
  -- The command of a pass, and the client that has counted it.
  unfoldable pub next_command : BufferClient → Pass → GrpcClient × CurpClientCommand
  next_command c p =
      let key = gen_get_key c.conflict c.conflict_key p.key p.conflict_draw in
      if random_true c.writes p.write_draw
      then Client.put c.client (itoa key) val
      else Client.get c.client (itoa key)

  -- `c.reqTime[i] = time.Now()` and the start of the first request that counts.
  abbrev pub launch : BufferClient → ℕ → Pass → BufferClient
  launch c i p = record c {
    req_time = set c.req_time i (some p.started);
    launch_time = (if i == 1 then some p.started else c.launch_time);
  }

  -- The rest of a pass behind the client's call.
  after_call :
      BufferClient → Latencies F → ℕ → Pass → CurpClientCommand → GrpcClient × Answer → Looped F
  after_call c l i p cmd (client, panic) = crashed
  after_call c l i p cmd (client, no_answer) = hung
  after_call c l i p cmd (client, _) =
      finished (record c { client = client })
        (if i == 0 then l else measure F l (p.ended - p.started)) (cmd ∷ [])

  unfoldable pub run_pass : BufferClient → Latencies F → ℕ → Pass → Looped F
  unfolding after_call next_command
  run_pass c l i p =
      let (counted, cmd) = next_command c p in
      after_call (launch c i p) l i p cmd (Client.propose counted p.events p.synced)

  -- The passes from the i-th on, as many as the first argument says.
  unfoldable pub loop_from :
      ℕ → ℕ → BufferClient → Latencies F → List CurpClientCommand → (ℕ → Pass) → Looped F
  unfolding run_pass
  loop_from zero i c l sent passes = finished c l sent
  loop_from (suc n) i c l sent passes = elim (run_pass c l i (passes i)) [
    | finished c' l' cmds ↦ loop_from n (i + 1) c' l' (sent ++ cmds) passes
    | crashed ↦ crashed
    | hung ↦ hung
  ]

  -- `Loop`; the average that it prints is the sum over `req_num`.
  unfoldable pub loop : BufferClient → (ℕ → Pass) → Looped F
  unfolding loop_from
  loop c passes = loop_from (c.req_num + 1) 0 c (no_latencies F) [] passes
