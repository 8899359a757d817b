-- ===== src/Base/Int.antt =====
-- Signed integers over the native numbers, under the library's names, and the casts and wrapping
-- operations of the source's `i32`, `i64` and `i128`.
use Prim.Native.Nat.{ℕ, suc, ◌+◌, ◌-◌, ◌%◌, ◌^◌, ◌≤◌}
use mathlib.Core.Bool.{Bool}
use roga.Base.Tests.{ltb, leb, if◌then◌else◌}

-- `negsuc n` is -(n + 1).
pub data ℤ : Type 0 where
  pos : ℕ → ℤ
  negsuc : ℕ → ℤ

abbrev pub pos_part : ℤ → ℕ
pos_part (pos n) = n
pos_part (negsuc n) = 0

abbrev pub neg_part : ℤ → ℕ
neg_part (pos n) = 0
neg_part (negsuc n) = suc n

-- a - b, as an integer.
abbrev pub sub_ℕ : ℕ → ℕ → ℤ
sub_ℕ a b = if leb b a then pos (a - b) else negsuc (b - a - 1)

infixl 65 ◌+ℤ◌ ◌-ℤ◌
infix 50 ◌≤ℤ◌
abbrev pub ◌+ℤ◌ : ℤ → ℤ → ℤ
a +ℤ b = sub_ℕ (pos_part a + pos_part b) (neg_part a + neg_part b)

abbrev pub ◌-ℤ◌ : ℤ → ℤ → ℤ
a -ℤ b = sub_ℕ (pos_part a + neg_part b) (neg_part a + pos_part b)

abbrev pub ◌≤ℤ◌ : ℤ → ℤ → Type 0
a ≤ℤ b = pos_part a + neg_part b ≤ pos_part b + neg_part a

abbrev pub ltb_ℤ : ℤ → ℤ → Bool
ltb_ℤ a b = ltb (pos_part a + neg_part b) (pos_part b + neg_part a)

abbrev pub min_ℤ : ℤ → ℤ → ℤ
min_ℤ a b = if ltb_ℤ b a then b else a

-- The value of a bit pattern of `w + 1` bits in two's complement.
abbrev pub signed : ℕ → ℕ → ℤ
signed w n =
    let bits = n % 2 ^ suc w in if ltb bits (2 ^ w) then pos bits else sub_ℕ bits (2 ^ suc w)

-- The bit pattern of an integer, in `w + 1` bits.
abbrev pub pattern_of : ℕ → ℤ → ℕ
pattern_of w a = (pos_part a % 2 ^ suc w + 2 ^ suc w - neg_part a % 2 ^ suc w) % 2 ^ suc w

-- `n as i32`, `n as i64`.
abbrev pub as_i32 : ℕ → ℤ
as_i32 n = signed 31 n

abbrev pub as_i64 : ℕ → ℤ
as_i64 n = signed 63 n

-- `wrapping_add` and `wrapping_sub` at `i64`.
unfoldable pub wrapping_add_i64 : ℤ → ℤ → ℤ
wrapping_add_i64 a b = signed 63 (pattern_of 63 (a +ℤ b))

unfoldable pub wrapping_sub_i64 : ℤ → ℤ → ℤ
wrapping_sub_i64 a b = signed 63 (pattern_of 63 (a -ℤ b))

-- `-a`
abbrev pub neg_ℤ : ℤ → ℤ
neg_ℤ a = pos 0 -ℤ a

-- `-a` at `i32` in a release build, where the least number is its own negation.
abbrev pub wrapping_neg_i32 : ℤ → ℤ
wrapping_neg_i32 a = signed 31 (pattern_of 31 (neg_ℤ a))
