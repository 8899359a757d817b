-- ===== src/Ct.antt =====
-- crates/oram/src/oblivious/ct.rs: comparisons, moves and swaps with a fixed trace. A flag is a
-- number, 0 or 1, as in the source. Words are numbers below 2 ^ 64, with `!`, `wrapping_sub` and the
-- shifts written out; the borrow of `ct_lt` is modelled bit by bit, not by a comparison.
pub mod Compare
pub mod Bytes
pub mod Swap
use roga.Base.{
  ℕ, zero, suc, ◌+◌, ◌-◌, ◌*◌, ◌/◌, ◌%◌, ◌^◌, ◌≡◌, Bool, true, false, List, [], ◌∷◌, bit_and,
  bit_or, bit_xor, bit_not, wrapping_sub, wrapping_neg, wrapping_add, ◌>>>◌, ◌==◌, if◌then◌else◌,
  to_bit, not, length, take, drop, get_elem?, set, Option, none, some,
}
use roga.External.{ScalarCmov, CmovEq}

pub ct_eq {ℓ} : {T : Type ℓ} ⦃e : CmovEq T⦄ → T → T → ℕ
ct_eq ⦃e⦄ a b = e.cmoveq a b 1 0

-- `u64::from_ne_bytes` on a little-endian machine.
unfoldable pub from_bytes : List ℕ → ℕ
from_bytes [] = 0
from_bytes (x ∷ xs) = x + 256 * from_bytes xs

-- 1 if `diff`, a word, is zero.
unfoldable pub is_zero_u64 : ℕ → ℕ
is_zero_u64 diff = bit_xor (bit_or diff (wrapping_neg diff) >>> 63) 1

-- The loop `acc |= x ^ y`.
unfoldable pub fold_difference : ℕ → List ℕ → List ℕ → ℕ
fold_difference acc (x ∷ a) (y ∷ b) = fold_difference (bit_or acc (bit_xor x y)) a b
fold_difference acc a b = acc

unfoldable pub ct_eq_bytes : ℕ → List ℕ → List ℕ → ℕ
unfolding from_bytes is_zero_u64 fold_difference
ct_eq_bytes n a b =
    let a0 = from_bytes (take 8 a) in
    let a1 = from_bytes (drop 8 a) in
    let b0 = from_bytes (take 8 b) in
    let b1 = from_bytes (drop 8 b) in
    let acc32 = fold_difference 0 a b in
    if n == 16
    then is_zero_u64 (bit_or (bit_xor a0 b0) (bit_xor a1 b1))
    else if n == 8
    then is_zero_u64 (bit_xor (from_bytes a) (from_bytes b))
    else bit_and ((acc32 + 2 ^ 32 - 1) % 2 ^ 32) (2 ^ 32 - 1 - acc32) >>> 31

unfoldable pub ct_lt : ℕ → ℕ → ℕ
ct_lt a b =
    let diff = wrapping_sub a b in
    let borrow = bit_or (bit_and (bit_not a) b) (bit_and (bit_not (bit_xor a b)) diff) in
    bit_and (borrow >>> 63) 1

unfoldable pub ct_not : ℕ → ℕ
ct_not cond = bit_xor cond 1

unfoldable pub ct_lt_u8 : ℕ → ℕ → ℕ
ct_lt_u8 a b =
    let diff = (a + 2 ^ 8 - b) % 2 ^ 8 in
    let borrow = bit_or (bit_and (2 ^ 8 - 1 - a) b) (bit_and (2 ^ 8 - 1 - bit_xor a b) diff) in
    bit_and (borrow >>> 7) 1

unfoldable pub ct_lt_u32 : ℕ → ℕ → ℕ
ct_lt_u32 a b =
    let diff = (a + 2 ^ 32 - b) % 2 ^ 32 in
    let borrow = bit_or (bit_and (2 ^ 32 - 1 - a) b) (bit_and (2 ^ 32 - 1 - bit_xor a b) diff) in
    bit_and (borrow >>> 31) 1

module _ ⦃m : ScalarCmov ℕ⦄ where
  unfoldable pub ct_min : ℕ → ℕ → ℕ
  ct_min a b = m.cmovnz a b (ct_lt b a)

  unfoldable pub ct_min_u8 : ℕ → ℕ → ℕ
  ct_min_u8 a b = m.cmovnz a b (ct_lt_u8 b a)

  unfoldable pub ct_min_u32 : ℕ → ℕ → ℕ
  ct_min_u32 a b = m.cmovnz a b (ct_lt_u32 b a)

  unfoldable pub ct_max_u32 : ℕ → ℕ → ℕ
  ct_max_u32 a b = m.cmovnz a b (ct_lt_u32 a b)

-- The crate's own trait `Cmov`, with what an implementation has to do.
pub record Cmov {ℓ} (T : Type ℓ) : Type ℓ where
  pub cmov : T → T → Bool → T
  pub cmov_lem : (a b : T) (choice : Bool) → cmov a b choice ≡ (if choice then b else a)

module _ {ℓ} {T : Type ℓ} ⦃m : Cmov T⦄ where
  -- The default method: the two values after the exchange.
  unfoldable pub cxchg : T → T → Bool → T × T
  cxchg self other choice =
      let tmp = self in
      let self' = m.cmov self other choice in
      let other' = m.cmov other tmp choice in (self', other')

  unfoldable pub ct_swap : T → T → ℕ → T × T
  ct_swap a b cond =
      let choice = not (cond == 0) in
      let tmp = a in let a' = m.cmov a b choice in let b' = m.cmov b tmp choice in (a', b')

  -- The exchange of `arr[i]` and `arr[j]`. An index out of range, which the source must not be given,
  -- changes nothing.
  unfoldable pub cswap_fast : List T → ℕ → ℕ → Bool → List T
  unfolding cxchg
  cswap_fast arr i j choice = elim (get_elem? arr i) [
    | none ↦ arr
    | some a ↦ elim (get_elem? arr j) [
      | none ↦ arr
      | some b ↦ let (a', b') = cxchg a b choice in set (set arr i a') j b'
    ]
  ]

  -- `impl Cmov for [T; N]`: the elements in turn.
  unfoldable pub cmov_array : List T → List T → Bool → List T
  cmov_array (x ∷ a) (y ∷ b) choice = m.cmov x y choice ∷ cmov_array a b choice
  cmov_array a b choice = a

-- `impl_cmov_primitive`: the conditional move of a word, as the crate `cmov` gives it.
module _ ⦃m : ScalarCmov ℕ⦄ where
  unfoldable pub primitive_cmov : ℕ → ℕ → Bool → ℕ
  primitive_cmov self other choice = m.cmovnz self other (to_bit choice)

  pub primitive_cmov_lem :
      (a b : ℕ) (choice : Bool) → primitive_cmov a b choice ≡ (if choice then b else a)
  unfolding primitive_cmov
  primitive_cmov_lem a b true = m.cmovnz_lem a b 1
  primitive_cmov_lem a b false = m.cmovnz_lem a b 0

  instance abbrev pub word_cmov : Cmov ℕ
  word_cmov = record { cmov = primitive_cmov; cmov_lem = primitive_cmov_lem }
