-- ===== src/Base/Zeros.antt =====
-- What `leading_zeros` says about the size of a word.
use mathlib.Core.Path.{◌≡◌}
use mathlib.Core.Logic.{inl, inr}
use native.Mathlib.Nat.{pow-suc}
use native.Mathlib.Omega.{arith}
use Prim.Native.Nat.{ℕ, zero, suc, ◌-◌, ◌*◌, ◌^◌, ◌<◌, ◌≤◌}
use roga.Base.Tests.{leb, Bool-cases}
use roga.Base.Words.{zeros_above, leading_zeros}

zeros_above_bounds :
    (k x : ℕ)
    → 0 < x
    → x < 2 ^ k
    → (zeros_above k x < k)
      × (2 ^ (k - 1 - zeros_above k x) ≤ x)
      × (x < 2 ^ (k - 1 - zeros_above k x) * 2)
unfolding zeros_above
zeros_above_bounds zero x p q = absurd (omega arith)
zeros_above_bounds (suc k) x p q = elim (Bool-cases (leb (2 ^ k) x)) [
  | inl e ↦
      let same : suc k - 1 - 0 ≡ k = omega arith in
      rw (e, same) (omega arith, ground arith, omega (arith, pow-suc 2 k))
  | inr e ↦
      let (l, lo, hi) = zeros_above_bounds k x p (ground arith) in
      let same : suc k - 1 - suc (zeros_above k x) ≡ k - 1 - zeros_above k x = omega arith in
      rw (e, same) (omega arith, lo, hi)
]

zeros_above-le : (k x : ℕ) → zeros_above k x ≤ k
unfolding zeros_above
zeros_above-le zero x = omega arith
zeros_above-le (suc k) x = elim (Bool-cases (leb (2 ^ k) x)) [
  | inl e ↦ rw e (omega arith)
  | inr e ↦ rw e (omega (arith, zeros_above-le k x))
]

pub leading_zeros-le : (x : ℕ) → leading_zeros x ≤ 64
unfolding leading_zeros
leading_zeros-le x = zeros_above-le 64 x

pub leading_zeros_bounds :
    (x : ℕ)
    → 0 < x
    → x < 2 ^ 64
    → (leading_zeros x < 64)
      × (2 ^ (64 - 1 - leading_zeros x) ≤ x)
      × (x < 2 ^ (64 - 1 - leading_zeros x) * 2)
unfolding leading_zeros
leading_zeros_bounds x p q = zeros_above_bounds 64 x p q
