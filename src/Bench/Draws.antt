-- ===== src/Bench/Draws.antt =====
-- How often `randomTrue` of curp_client/buffer_client.go says yes.
use curp.Bench.{random_true}
use curp.Prelude.{if◌then◌else◌, ℕ, zero, suc, ◌+◌, ◌-◌, ◌≤◌, ◌<◌, ◌≡◌, refl, ◌∙◌, arith}

-- Of the draws below a number, those that say yes.
hits : ℕ → ℕ → ℕ
hits prob zero = 0
hits prob (suc n) = if random_true prob n then suc (hits prob n) else hits prob n

-- `rand.Intn(100)` gives each number below 100.
pub hits_of_100 : ℕ → ℕ
unfolding hits
hits_of_100 prob = hits prob 100

hits-le : (prob n : ℕ) → 0 < prob → prob < 100 → n ≤ prob + 1 → hits prob n ≡ n
unfolding hits random_true
hits-le prob zero a b h = refl
hits-le prob (suc n) a b h = ground (arith, hits-le prob n)

hits-add : (prob k n : ℕ) → 0 < prob → prob < 100 → n ≡ k + (prob + 1) → hits prob n ≡ prob + 1
unfolding hits random_true
hits-add prob k zero a b e = absurd (omega arith)
hits-add prob zero n a b e = hits-le prob n a b (omega arith) ∙ omega arith
hits-add prob (suc k) (suc n) a b e = ground (arith, hits-add prob k n)

-- For a probability of 1 to 99 per cent `randomTrue` says yes at one draw in a hundred more than that:
-- at 99 always.
pub random_true_hits : (prob : ℕ) → 0 < prob → prob < 100 → hits_of_100 prob ≡ prob + 1
unfolding hits_of_100
random_true_hits prob a b = hits-add prob (100 - (prob + 1)) 100 a b (omega arith)
