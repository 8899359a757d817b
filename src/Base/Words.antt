-- ===== src/Base/Words.antt =====
-- Unsigned machine words as numbers, with the wrap-around of the source written out.
use roga.Base.Tests.{leb, if◌then◌else◌}
use Prim.Native.Nat.{ℕ, zero, suc, ◌+◌, ◌-◌, ◌*◌, ◌/◌, ◌%◌, ◌^◌, min}

infixl 75 ◌<<<◌ ◌>>>◌
-- `u64` shift to the left, which drops the bits above the word.
abbrev pub ◌<<<◌ : ℕ → ℕ → ℕ
x <<< k = x * 2 ^ k % 2 ^ 64

abbrev pub ◌>>>◌ : ℕ → ℕ → ℕ
x >>> k = x / 2 ^ k

abbrev pub wrapping_add : ℕ → ℕ → ℕ
wrapping_add a b = (a + b) % 2 ^ 64

abbrev pub wrapping_sub : ℕ → ℕ → ℕ
wrapping_sub a b = (a + 2 ^ 64 - b) % 2 ^ 64

abbrev pub wrapping_neg : ℕ → ℕ
wrapping_neg a = (2 ^ 64 - a) % 2 ^ 64

-- `a * b` at `u64` in a release build.
abbrev pub wrapping_mul : ℕ → ℕ → ℕ
wrapping_mul a b = a * b % 2 ^ 64

-- `saturating_mul` and `saturating_add` at `u64`.
abbrev pub saturating_mul : ℕ → ℕ → ℕ
saturating_mul a b = min (a * b) (2 ^ 64 - 1)

abbrev pub saturating_add : ℕ → ℕ → ℕ
saturating_add a b = min (a + b) (2 ^ 64 - 1)

-- `!a` on a `u64`.
abbrev pub bit_not : ℕ → ℕ
bit_not a = 2 ^ 64 - 1 - a

-- The zero digits above the first one, in a word of `k` digits.
unfoldable pub zeros_above : ℕ → ℕ → ℕ
zeros_above zero x = 0
zeros_above (suc k) x = if leb (2 ^ k) x then 0 else suc (zeros_above k x)

-- `u64::leading_zeros`
unfoldable pub leading_zeros : ℕ → ℕ
unfolding zeros_above
leading_zeros x = zeros_above 64 x
