-- ===== src/Base/Loops.antt =====
-- Counted loops.
use Prim.Native.Nat.{ℕ, zero, suc}

-- The loop over `k`, `k + 1`, … with a body that updates the local variables, for some rounds.
abbrev pub loop_up {ℓ} : {Vars : Type ℓ} (body : ℕ → Vars → Vars) (k rounds : ℕ) → Vars → Vars
loop_up body k zero vars = vars
loop_up body k (suc rounds) vars = loop_up body (suc k) rounds (body k vars)
