-- ===== src/Bench/Loop/Passes.antt =====
-- What the loop of curp_client/buffer_client.go has sent and measured when it ends.
use curp.Command.{ProposeId, CurpClientCommand, propose_id}
use curp.Client
use curp.Client.{
  GrpcClient, super_quorom, Answer, content, error, panic, no_answer, fast_round, unfinished,
}
use curp.Client.Ids.{propose-Keeps}
use curp.Bench.Loop.{
  Floats, BufferClient, Latencies, measure, no_latencies, finished, crashed, hung, Pass,
  next_command, launch, after_call, run_pass, loop_from, loop,
}
use mathlib.Core.List.{map-append, append-nil, append_assoc}
use curp.Prelude.{
  if◌then◌else◌, ◌==◌, ℕ, zero, suc, ◌+◌, ◌-◌, ◌%◌, ◌^◌, ◌<◌, String, ◌≡◌, refl, sym, ap, ◌∙◌, some,
  List, [], ◌∷◌, ◌++◌, map, arith,
}

-- The id that the client gives after this many others.
abbrev pub id_at : GrpcClient → ℕ → ProposeId
id_at c i = record { client_id = c.client_id; seq_id = (c.seq_id + i + 1) % 2 ^ 64 }

abbrev pub ids : GrpcClient → ℕ → ℕ → List ProposeId
ids c i zero = []
ids c i (suc n) = id_at c i ∷ ids c (i + 1) n

-- The client after this many commands.
abbrev pub Counted : GrpcClient → ℕ → GrpcClient → Type 0
Counted c i d = (d.seq_id ≡ (c.seq_id + i) % 2 ^ 64) × (d.client_id ≡ c.client_id) × (d.f ≡ c.f)

Counted-id_at : (c d : GrpcClient) (i : ℕ) → Counted c i d → id_at d 0 ≡ id_at c i
Counted-id_at c d i h =
    let seq : (d.seq_id + 0 + 1) % 2 ^ 64 ≡ (c.seq_id + i + 1) % 2 ^ 64 = omega arith in
    cc (seq, h.1)

Counted-suc : (c d e : GrpcClient) (i : ℕ) → Counted c i d → Counted d 1 e → Counted c (i + 1) e
Counted-suc c d e i h k = (omega arith, cc, cc)

-- What so many passes from the i-th on add to the latencies.
abbrev pub measured : (F : Floats) → (ℕ → Pass) → (i n : ℕ) → Latencies F → Latencies F
measured F passes i zero l = l
measured F passes i (suc n) l =
    measured F passes (i + 1) n (measure F l ((passes i).ended - (passes i).started))

module _ (F : Floats) (itoa : ℕ → String) (val : String) where
  pub next_command_lem :
      (c : BufferClient) (p : Pass)
      → (propose_id (next_command F itoa val c p).1 ≡ id_at c.client 0)
        × Counted c.client 1 (next_command F itoa val c p).0
  unfolding next_command Client.put Client.get Client.get_propose_id
  next_command_lem c p = ground arith

  after_call-finished :
      (c : BufferClient) (l : Latencies F) (i : ℕ) (p : Pass) (cmd : CurpClientCommand)
      (g : GrpcClient) (a : Answer) {c' : BufferClient} {l' : Latencies F}
      {cmds : List CurpClientCommand}
      → after_call F itoa val c l i p cmd (g, a) ≡ finished c' l' cmds
      → (c' ≡ record c { client = g })
        × (l' ≡ (if i == 0 then l else measure F l (p.ended - p.started)))
        × (cmds ≡ cmd ∷ [])
  unfolding after_call
  after_call-finished c l i p cmd g (content r) e = ground arith
  after_call-finished c l i p cmd g (error r) e = ground arith
  after_call-finished c l i p cmd g panic e = cc
  after_call-finished c l i p cmd g no_answer e = cc

  -- A pass that ends: its one command, the client behind it, the times, and what it has measured.
  pub run_pass-finished :
      (c : BufferClient) (l : Latencies F) (i : ℕ) (p : Pass) {c' : BufferClient} {l' : Latencies F}
      {cmds : List CurpClientCommand}
      → run_pass F itoa val c l i p ≡ finished c' l' cmds
      → (map propose_id cmds ≡ id_at c.client 0 ∷ [])
        × Counted c.client 1 c'.client
        × (c'.req_num ≡ c.req_num)
        × (c'.launch_time ≡ (if i == 1 then some p.started else c.launch_time))
        × (l' ≡ (if i == 0 then l else measure F l (p.ended - p.started)))
  unfolding run_pass
  run_pass-finished c l i p {c'} {l'} {cmds} e =
      let (counted, cmd) = next_command F itoa val c p in
      let (called, counts) = next_command_lem c p in
      let (seq, id, f, _, _) = propose-Keeps counted p.events p.synced in
      let (q, m, s) =
        after_call-finished (launch F itoa val c i p) l i p cmd
          (Client.propose counted p.events p.synced).0 (Client.propose counted p.events p.synced).1
          {c' = c'} {l' = l'} {cmds = cmds} e in
      (ground arith, ground arith, ground arith, ground arith, m)

  -- A loop that ends has run its next pass, and ends the same from there.
  loop_from-finished :
      (passes : ℕ → Pass) (n i : ℕ) (c : BufferClient) (l : Latencies F)
      (sent : List CurpClientCommand) {c' : BufferClient} {l' : Latencies F}
      {sent' : List CurpClientCommand}
      → loop_from F itoa val (suc n) i c l sent passes ≡ finished c' l' sent'
      → (d : BufferClient) × (m : Latencies F) × (cmds : List CurpClientCommand) × (run_pass F itoa
            val c l i
            (passes i)
          ≡ finished d m cmds)
        × (loop_from F itoa val n (i + 1) d m (sent ++ cmds) passes ≡ finished c' l' sent')
  unfolding loop_from
  loop_from-finished passes n i c l sent {c'} {l'} {sent'} e =
      elim (run_pass F itoa val c l i (passes i))
          as (λ x.
            run_pass F itoa val c l i (passes i) ≡ x
            → (d : BufferClient) × (m : Latencies F) × (cmds : List CurpClientCommand) × (run_pass F
                  itoa val c l i (passes i)
                ≡ finished d m cmds)
              × (loop_from F itoa val n (i + 1) d m (sent ++ cmds) passes ≡ finished c' l' sent')) [
                | finished d m cmds ↦ λ q. (d, m, cmds, q, ground arith)
                | crashed ↦ λ q. absurd (ground arith)
                | hung ↦ λ q. absurd (ground arith)
              ]
        refl

  -- The ids of what `loop_from` has sent when it ends, with what was sent before.
  loop_from-ids :
      (c0 : GrpcClient) (passes : ℕ → Pass) (n i : ℕ) (c : BufferClient) (l : Latencies F)
      (sent : List CurpClientCommand) {c' : BufferClient} {l' : Latencies F}
      {sent' : List CurpClientCommand}
      → Counted c0 i c.client
      → loop_from F itoa val n i c l sent passes ≡ finished c' l' sent'
      → map propose_id sent' ≡ map propose_id sent ++ ids c0 i n
  unfolding loop_from
  loop_from-ids c0 passes zero i c l sent {c'} {l'} {sent'} h e =
      let same : sent ≡ sent' = ground arith in
      ap (map propose_id) (sym same) ∙ sym (append-nil (map propose_id sent))
  loop_from-ids c0 passes (suc n) i c l sent {c'} {l'} {sent'} h e =
      let (d, m, cmds, q, next) = loop_from-finished passes n i c l sent e in
      let (called, counts, _, _, _) =
        run_pass-finished c l i (passes i) {c' = d} {l' = m} {cmds = cmds} q in
      let rest : map propose_id sent' ≡ map propose_id (sent ++ cmds) ++ ids c0 (i + 1) n =
        loop_from-ids c0 passes n (i + 1) d m (sent ++ cmds)
          (Counted-suc c0 c.client d.client i h counts) next in
      let split : map propose_id (sent ++ cmds) ≡ map propose_id sent ++ id_at c.client 0 ∷ [] =
        map-append propose_id sent cmds ∙ ap (λ x. map propose_id sent ++ x) called in
      rest
      ∙ ap (λ x. x ++ ids c0 (i + 1) n) split
      ∙ append_assoc (map propose_id sent) (id_at c.client 0 ∷ []) (ids c0 (i + 1) n)
      ∙ ap (λ x. map propose_id sent ++ x ∷ ids c0 (i + 1) n) (Counted-id_at c0 c.client i h)

  loop_from-measured :
      (passes : ℕ → Pass) (n i : ℕ) (c : BufferClient) (l : Latencies F)
      (sent : List CurpClientCommand) {c' : BufferClient} {l' : Latencies F}
      {sent' : List CurpClientCommand}
      → 0 < i
      → loop_from F itoa val n i c l sent passes ≡ finished c' l' sent'
      → l' ≡ measured F passes i n l
  unfolding loop_from
  loop_from-measured passes zero i c l sent {c'} {l'} {sent'} e f = ground arith
  loop_from-measured passes (suc n) i c l sent {c'} {l'} {sent'} e f =
      let (d, m, cmds, q, next) = loop_from-finished passes n i c l sent f in
      let (_, _, _, _, t) = run_pass-finished c l i (passes i) {c' = d} {l' = m} {cmds = cmds} q in
      let took : m ≡ measure F l ((passes i).ended - (passes i).started) = ground arith in
      loop_from-measured passes n (i + 1) d m (sent ++ cmds) (omega arith) next
      ∙ ap (measured F passes (i + 1) n) took

  loop_from-latencies :
      (passes : ℕ → Pass) (n : ℕ) (c : BufferClient) (sent : List CurpClientCommand)
      {c' : BufferClient} {l' : Latencies F} {sent' : List CurpClientCommand}
      → loop_from F itoa val (n + 1) 0 c (no_latencies F) sent passes ≡ finished c' l' sent'
      → l' ≡ measured F passes 1 n (no_latencies F)
  loop_from-latencies passes n c sent {c'} {l'} {sent'} e =
      let (d, m, cmds, q, next) = loop_from-finished passes n 0 c (no_latencies F) sent (
        ap (λ k. loop_from F itoa val k 0 c (no_latencies F) sent passes) {x = suc n} {y = n + 1}
          (omega arith)
        ∙ e) in
      let (_, _, _, _, t) =
        run_pass-finished c (no_latencies F) 0 (passes 0) {c' = d} {l' = m} {cmds = cmds} q in
      loop_from-measured passes n 1 d m (sent ++ cmds) (omega arith) next
      ∙ ap (measured F passes 1 n) t

  -- A loop that ends has sent one more command than `req_num`, with ids that count up by one from the
  -- client's next, modulo 2^64; and what it has measured are the latencies of the `req_num` passes behind the
  -- first, in order.
  pub loop-sent :
      (c : BufferClient) (passes : ℕ → Pass) {c' : BufferClient} {l' : Latencies F}
      {sent' : List CurpClientCommand}
      → c.client.seq_id < 2 ^ 64
      → loop F itoa val c passes ≡ finished c' l' sent'
      → (map propose_id sent' ≡ ids c.client 0 (c.req_num + 1))
        × (l' ≡ measured F passes 1 c.req_num (no_latencies F))
  unfolding loop
  loop-sent c passes {c'} {l'} {sent'} b e = (
    loop_from-ids c.client passes (c.req_num + 1) 0 c (no_latencies F) [] (omega arith, refl, refl)
        e,
    loop_from-latencies passes c.req_num c [] e,
  )
