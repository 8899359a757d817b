-- ===== src/Ct/Compare.antt =====
-- The comparisons of ct.rs against the order of the words.
use roga.Base.{
  ℕ, zero, suc, ◌+◌, ◌-◌, ◌/◌, ◌%◌, ◌^◌, ◌<◌, ◌≡◌, refl, arith, Bool, true, false, not, ◌≢◌,
  bit_and, bit_or, bit_xor, bit_and-shift, bit_or-shift, bit_xor-shift, ltb, to_bit, if◌then◌else◌,
  min, max,
}
use roga.External.{ScalarCmov, CmovEq}
use roga.Ct.{ct_eq, ct_lt, ct_lt_u8, ct_lt_u32, ct_not, ct_min, ct_min_u8, ct_min_u32, ct_max_u32}

-- The borrow at one binary digit.
borrow_bit : ℕ → ℕ → ℕ → ℕ
borrow_bit a b d = bit_or (bit_and (1 - a) b) (bit_and (1 - bit_xor a b) d)

borrow_bit_lem :
    (a b d : ℕ)
    → a < 2
    → b < 2
    → d < 2
    → bit_and (borrow_bit a b d) 1 ≡ (if ltb a b then 1 else if ltb b a then 0 else d)
unfolding borrow_bit
borrow_bit_lem zero zero zero p q r = refl
borrow_bit_lem zero zero (suc zero) p q r = refl
borrow_bit_lem zero (suc zero) zero p q r = refl
borrow_bit_lem zero (suc zero) (suc zero) p q r = refl
borrow_bit_lem (suc zero) zero zero p q r = refl
borrow_bit_lem (suc zero) zero (suc zero) p q r = refl
borrow_bit_lem (suc zero) (suc zero) zero p q r = refl
borrow_bit_lem (suc zero) (suc zero) (suc zero) p q r = refl
borrow_bit_lem (suc (suc a)) b d p q r = absurd (omega arith)
borrow_bit_lem a (suc (suc b)) d p q r = absurd (omega arith)
borrow_bit_lem a b (suc (suc d)) p q r = absurd (omega arith)

-- Any word's borrow, shifted to its top digit, is the borrow of the top digits.
borrow_shift :
    (k a b na nx d : ℕ)
    → na / 2 ^ k ≡ 1 - a / 2 ^ k
    → nx / 2 ^ k ≡ 1 - bit_xor (a / 2 ^ k) (b / 2 ^ k)
    → bit_or (bit_and na b) (bit_and nx d) / 2 ^ k ≡ borrow_bit (a / 2 ^ k) (b / 2 ^ k) (d / 2 ^ k)
unfolding borrow_bit
borrow_shift k a b na nx d p q =
    rw (
      bit_or-shift k (bit_and na b) (bit_and nx d),
      bit_and-shift k na b,
      bit_and-shift k nx d,
      p,
      q,
    )

xor_digit : (a b : ℕ) → a < 2 → b < 2 → bit_xor a b < 2
xor_digit zero zero p q = omega arith
xor_digit zero (suc zero) p q = omega arith
xor_digit (suc zero) zero p q = omega arith
xor_digit (suc zero) (suc zero) p q = omega arith
xor_digit (suc (suc a)) b p q = absurd (omega arith)
xor_digit a (suc (suc b)) p q = absurd (omega arith)

-- On 64-bit words the borrow that `ct_lt` computes is 1 if the first is less than the second, and 0
-- otherwise.
pub ct_lt_lem : (a b : ℕ) → a < 2 ^ 64 → b < 2 ^ 64 → ct_lt a b ≡ to_bit (ltb a b)
unfolding ct_lt
ct_lt_lem a b p q =
    rw
      (
        borrow_shift 63 a b (2 ^ 64 - 1 - a) (2 ^ 64 - 1 - bit_xor a b) ((a + 2 ^ 64 - b) % 2 ^ 64)
            (omega arith)
            (omega (
              arith,
              bit_xor-shift 63 a b,
              xor_digit (a / 2 ^ 63) (b / 2 ^ 63) (omega arith) (omega arith),
            )),
        borrow_bit_lem (a / 2 ^ 63) (b / 2 ^ 63) ((a + 2 ^ 64 - b) % 2 ^ 64 / 2 ^ 63) (omega arith)
            (omega arith) (omega arith),
      )
      (ground arith)

-- The same for bytes and for 32-bit words.
pub ct_lt_u8_lem : (a b : ℕ) → a < 2 ^ 8 → b < 2 ^ 8 → ct_lt_u8 a b ≡ to_bit (ltb a b)
unfolding ct_lt_u8
ct_lt_u8_lem a b p q =
    rw
      (
        borrow_shift 7 a b (2 ^ 8 - 1 - a) (2 ^ 8 - 1 - bit_xor a b) ((a + 2 ^ 8 - b) % 2 ^ 8)
            (omega arith)
            (omega (
              arith,
              bit_xor-shift 7 a b,
              xor_digit (a / 2 ^ 7) (b / 2 ^ 7) (omega arith) (omega arith),
            )),
        borrow_bit_lem (a / 2 ^ 7) (b / 2 ^ 7) ((a + 2 ^ 8 - b) % 2 ^ 8 / 2 ^ 7) (omega arith)
            (omega arith) (omega arith),
      )
      (ground arith)

pub ct_lt_u32_lem : (a b : ℕ) → a < 2 ^ 32 → b < 2 ^ 32 → ct_lt_u32 a b ≡ to_bit (ltb a b)
unfolding ct_lt_u32
ct_lt_u32_lem a b p q =
    rw
      (
        borrow_shift 31 a b (2 ^ 32 - 1 - a) (2 ^ 32 - 1 - bit_xor a b) ((a + 2 ^ 32 - b) % 2 ^ 32)
            (omega arith)
            (omega (
              arith,
              bit_xor-shift 31 a b,
              xor_digit (a / 2 ^ 31) (b / 2 ^ 31) (omega arith) (omega arith),
            )),
        borrow_bit_lem (a / 2 ^ 31) (b / 2 ^ 31) ((a + 2 ^ 32 - b) % 2 ^ 32 / 2 ^ 31) (omega arith)
            (omega arith) (omega arith),
      )
      (ground arith)

pub ct_not_lem : (b : Bool) → ct_not (to_bit b) ≡ to_bit (not b)
unfolding ct_not
ct_not_lem true = refl
ct_not_lem false = refl

pub ct_eq_lem {ℓ} :
    {T : Type ℓ} ⦃e : CmovEq T⦄ (a b : T) → ((a ≡ b) → ct_eq a b ≡ 1) × ((a ≢ b) → ct_eq a b ≡ 0)
unfolding ct_eq
ct_eq_lem ⦃e⦄ a b = ((λ h. rw h (e.cmoveq-self b 1 0)), e.cmoveq-ne a b 1 0)

-- The minima and maxima, with a move by the comparison's flag.
module _ ⦃m : ScalarCmov ℕ⦄ (a b : ℕ) where
  pub ct_min_lem : a < 2 ^ 64 → b < 2 ^ 64 → ct_min a b ≡ min a b
  unfolding ct_min
  ct_min_lem p q = rw (m.cmovnz_lem a b (ct_lt b a), ct_lt_lem b a q p) (ground arith)

  -- On bytes `ct_min_u8` is the minimum.
  pub ct_min_u8_lem : a < 2 ^ 8 → b < 2 ^ 8 → ct_min_u8 a b ≡ min a b
  unfolding ct_min_u8
  ct_min_u8_lem p q = rw (m.cmovnz_lem a b (ct_lt_u8 b a), ct_lt_u8_lem b a q p) (ground arith)

  -- On 32-bit words `ct_min_u32` is the minimum and `ct_max_u32` the maximum.
  pub ct_min_max_u32_lem :
      a < 2 ^ 32 → b < 2 ^ 32 → (ct_min_u32 a b ≡ min a b) × (ct_max_u32 a b ≡ max a b)
  unfolding ct_min_u32 ct_max_u32
  ct_min_max_u32_lem p q = (
    rw (m.cmovnz_lem a b (ct_lt_u32 b a), ct_lt_u32_lem b a q p) (ground arith),
    rw (m.cmovnz_lem a b (ct_lt_u32 a b), ct_lt_u32_lem a b p q) (ground arith),
  )
