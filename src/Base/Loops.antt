-- ===== src/Base/Loops.antt =====
-- Counted loops.
use Prim.Native.Nat.{ℕ, zero, suc, ◌+◌}

-- `for k in i..i + rounds { s = body(k, s) }`
unfoldable pub for_range {ℓ} : {S : Type ℓ} → ℕ → ℕ → (ℕ → S → S) → S → S
for_range zero k body state = state
for_range (suc rounds) k body state = for_range rounds (k + 1) body (body k state)
