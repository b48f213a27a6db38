-- ===== src/Bench/Loop/Finishes.antt =====
-- When the loop of curp_client/buffer_client.go ends.
use curp.Command.{CurpClientCommand}
use curp.Client
use curp.Client.{
  never_returns, GrpcClient, super_quorom, Answer, content, error, panic, no_answer, fast_round,
  unfinished,
}
use curp.Client.Finishes.{replies_in, propose-answers}
use curp.Bench.Loop.{
  Floats, BufferClient, Latencies, no_latencies, finished, crashed, hung, Pass, next_command,
  launch, after_call, run_pass, loop_from, loop,
}
use curp.Bench.Loop.Passes.{next_command_lem, run_pass-finished}
use curp.Prelude.{
  ℕ, zero, suc, ◌+◌, ◌≤◌, String, ◌≡◌, refl, sym, subst, ◌∙◌, ◌≢◌, List, [], ◌++◌, arith,
}

module _ (F : Floats) (itoa : ℕ → String) (val : String) where
  after_call-finishes :
      (c : BufferClient) (l : Latencies F) (i : ℕ) (p : Pass) (cmd : CurpClientCommand)
      (g : GrpcClient) (a : Answer)
      → a ≢ no_answer
      → after_call F itoa val c l i p cmd (g, a) ≢ hung
  unfolding after_call
  after_call-finishes c l i p cmd g (content r) h e = cc
  after_call-finishes c l i p cmd g (error r) h e = cc
  after_call-finishes c l i p cmd g panic h e = cc
  after_call-finishes c l i p cmd g no_answer h e = h refl

  run_pass-finishes :
      (c : BufferClient) (l : Latencies F) (i : ℕ) (p : Pass)
      → super_quorom c.client.f ≤ replies_in p.events
      → p.synced ≢ never_returns
      → run_pass F itoa val c l i p ≢ hung
  unfolding run_pass
  run_pass-finishes c l i p h k =
      let (counted, cmd) = next_command F itoa val c p in
      let (_, (_, _, f)) = next_command_lem F itoa val c p in
      after_call-finishes (launch F itoa val c i p) l i p cmd
        (Client.propose counted p.events p.synced).0 (Client.propose counted p.events p.synced).1
        (propose-answers counted p.events p.synced
          (subst (λ k. super_quorom k ≤ replies_in p.events) {x = c.client.f} {y = counted.f}
            (sym f) h)
          k)

  loop_from-finishes :
      (passes : ℕ → Pass) (f n i : ℕ) (c : BufferClient) (l : Latencies F)
      (sent : List CurpClientCommand)
      → c.client.f ≡ f
      → ((j : ℕ) → super_quorom f ≤ replies_in (passes j).events)
      → ((j : ℕ) → (passes j).synced ≢ never_returns)
      → loop_from F itoa val n i c l sent passes ≢ hung
  unfolding loop_from
  loop_from-finishes passes f zero i c l sent h enough ends e = cc
  loop_from-finishes passes f (suc n) i c l sent h enough ends e =
      elim (run_pass F itoa val c l i (passes i))
          as (λ x. run_pass F itoa val c l i (passes i) ≡ x → ⊥) [
            | finished d m cmds ↦ λ q.
                let (_, (_, _, g), _, _, _) =
                  run_pass-finished F itoa val c l i (passes i) {c' = d} {l' = m} {cmds = cmds} q in
                loop_from-finishes passes f n (i + 1) d m (sent ++ cmds) (g ∙ h) enough ends
                  (ground arith)
            | crashed ↦ λ q. ground arith
            | hung ↦ λ q.
                run_pass-finishes c l i (passes i)
                  (subst (λ k. super_quorom k ≤ replies_in (passes i).events) {x = f}
                    {y = c.client.f} (sym h) (enough i))
                  (ends i) q
          ]
        refl

  -- If a super quorum of servers replies to each command, in whatever order and with whatever replies, and no
  -- call of `WaitSynced` that the loop may make stays without an end, the whole loop never waits for ever.
  pub loop-finishes :
      (c : BufferClient) (passes : ℕ → Pass)
      → ((i : ℕ) → super_quorom c.client.f ≤ replies_in (passes i).events)
      → ((i : ℕ) → (passes i).synced ≢ never_returns)
      → loop F itoa val c passes ≢ hung
  unfolding loop
  loop-finishes c passes h ends =
      loop_from-finishes passes c.client.f (c.req_num + 1) 0 c (no_latencies F) [] refl h ends
