-- ===== src/Base/Bits.antt =====
-- Laws of the bit operations at variables: the lowest digit, and the shift to the right.
use Prim.Native.Nat.{
  ℕ, zero, suc, ◌+◌, ◌-◌, ◌*◌, ◌/◌, ◌%◌, ◌^◌, ◌≤◌, ◌<◌, min, max, bit_and, bit_or, bit_xor, digits,
  differ, bitwise, bit_and-bitwise, bit_or-bitwise, bit_xor-bitwise,
}
use mathlib.Core.Path.{◌≡◌, refl, sym, ap, ◌∙◌}
use native.Mathlib.Nat.{
  le_refl, pow-succ', div-div-eq-div-mul, pow-suc, one-le-pow, mod-lt, div-add-mod,
  add-mul-mod_self_left, mod-eq_of_lt, mul-div_cancel, mul-mod_left, div-add-mod', div-eq_of_lt,
  mul_assoc,
}
use native.Mathlib.Omega.{arith}

module _ (z : ℕ → ℕ) (f : ℕ → ℕ → ℕ) where
  -- More fuel than digits changes nothing.
  enough_digits : (n m a b : ℕ) → a ≤ n → a ≤ m → digits z f n a b ≡ digits z f m a b
  enough_digits zero zero a b p q = refl
  enough_digits zero (suc m) zero b p q = refl
  enough_digits zero (suc m) (suc a) b p q = absurd (omega arith)
  enough_digits (suc n) zero zero b p q = refl
  enough_digits (suc n) zero (suc a) b p q = absurd (omega arith)
  enough_digits (suc n) (suc m) zero b p q = refl
  enough_digits (suc n) (suc m) (suc a) b p q =
      rw (enough_digits n m (suc a / 2) (b / 2) (omega arith) (omega arith))

  bitwise_low :
      (a b : ℕ)
      → bitwise z f (suc a) b ≡ bitwise z f (suc a / 2) (b / 2) * 2 + f (suc a % 2) (b % 2)
  bitwise_low a b =
      omega (arith, enough_digits a (suc a / 2) (suc a / 2) (b / 2) (omega arith) (le_refl _))

pub bit_and_low : (a b : ℕ) → bit_and a b ≡ bit_and (a / 2) (b / 2) * 2 + min (a % 2) (b % 2)
bit_and_low zero b = simp bit_and-bitwise (omega arith)
bit_and_low (suc a) b = simp bit_and-bitwise (bitwise_low (λ y. 0) min a b)

pub bit_or_low : (a b : ℕ) → bit_or a b ≡ bit_or (a / 2) (b / 2) * 2 + max (a % 2) (b % 2)
bit_or_low zero b = simp bit_or-bitwise (omega arith)
bit_or_low (suc a) b = simp bit_or-bitwise (bitwise_low (λ y. y) max a b)

differ_lem : (x y : ℕ) → x < 2 → y < 2 → differ x y ≡ (x + y) % 2
differ_lem zero y h k = omega arith
differ_lem (suc x) zero h k = omega arith
differ_lem (suc zero) (suc zero) h k = refl
differ_lem (suc zero) (suc (suc y)) h k = absurd (omega arith)
differ_lem (suc (suc x)) (suc y) h k = absurd (omega arith)

pub bit_xor_low : (a b : ℕ) → bit_xor a b ≡ bit_xor (a / 2) (b / 2) * 2 + (a % 2 + b % 2) % 2
bit_xor_low zero b = simp bit_xor-bitwise (omega arith)
bit_xor_low (suc a) b = omega (
  arith,
  bit_xor-bitwise (suc a) b,
  bit_xor-bitwise (suc a / 2) (b / 2),
  bitwise_low (λ y. y) differ a b,
  differ_lem (suc a % 2) (b % 2) (omega arith) (omega arith),
)

div_pow_suc : (a k : ℕ) → a / 2 ^ suc k ≡ a / 2 / 2 ^ k
div_pow_suc a k = rw (pow-succ' 2 k) (sym (div-div-eq-div-mul a 2 (2 ^ k)))

-- Powers of two of a sum, and of a difference.
pub two_pow-add : (a b : ℕ) → 2 ^ (a + b) ≡ 2 ^ a * 2 ^ b
two_pow-add a zero = let same : a + 0 ≡ a = omega arith in rw same (omega arith)
two_pow-add a (suc b) =
    let next : a + suc b ≡ suc (a + b) = omega arith in
    rw (next, pow-suc 2 (a + b), pow-suc 2 b, two_pow-add a b) (mul_assoc (2 ^ a) (2 ^ b) 2)

pub two_pow-sub : (a b : ℕ) → b ≤ a → 2 ^ a ≡ 2 ^ (a - b) * 2 ^ b
two_pow-sub a b h = ap (λ e. 2 ^ e) (omega arith) ∙ two_pow-add (a - b) b

-- The remainder by an even number, from its lowest digit.
mod-mul-two : (a q : ℕ) → 0 < q → a % (q * 2) ≡ a / 2 % q * 2 + a % 2
mod-mul-two a q h =
    let low = a / 2 % q * 2 + a % 2 in
    let bound : a / 2 % q < q = mod-lt (a / 2) h in
    let whole : a ≡ low + q * 2 * (a / 2 / q) = grind (arith, div-add-mod (a / 2) q) in
    ap (λ x. x % (q * 2)) whole
    ∙ add-mul-mod_self_left low (q * 2) (a / 2 / q)
    ∙ mod-eq_of_lt (omega arith)

-- An operation on binary digits commutes with the shift to the right and with low masks.
module _ (op : ℕ → ℕ → ℕ) (digit : ℕ → ℕ → ℕ)
    (low : (a b : ℕ) → op a b ≡ op (a / 2) (b / 2) * 2 + digit (a % 2) (b % 2))
    (small : (a b : ℕ) → digit (a % 2) (b % 2) < 2) (none_set : op 0 0 ≡ 0) where
  op-shift : (k a b : ℕ) → op a b / 2 ^ k ≡ op (a / 2 ^ k) (b / 2 ^ k)
  op-shift zero a b =
      let whole : (x : ℕ) → x / 2 ^ 0 ≡ x = λ x. omega arith in
      rw (whole (op a b), whole a, whole b)
  op-shift (suc k) a b =
      let half : op a b / 2 ≡ op (a / 2) (b / 2) = omega (arith, low a b, small a b) in
      rw (div_pow_suc (op a b) k, half, div_pow_suc a k, div_pow_suc b k)
        (op-shift k (a / 2) (b / 2))

  op-mod : (k a b : ℕ) → op a b % 2 ^ k ≡ op (a % 2 ^ k) (b % 2 ^ k)
  op-mod zero a b =
      let gone : (x : ℕ) → x % 2 ^ 0 ≡ 0 = λ x. omega arith in
      rw (gone (op a b), gone a, gone b) (sym none_set)
  op-mod (suc k) a b =
      let positive : 0 < 2 ^ k = one-le-pow k 2 (omega arith) in
      let cut : (x : ℕ) → x % 2 ^ suc k ≡ x / 2 % 2 ^ k * 2 + x % 2 =
        λ x. ap (λ m. x % m) (pow-suc 2 k) ∙ mod-mul-two x (2 ^ k) positive in
      let half : op a b / 2 ≡ op (a / 2) (b / 2) = omega (arith, low a b, small a b) in
      let odd : op a b % 2 ≡ digit (a % 2) (b % 2) = omega (arith, low a b, small a b) in
      let half_of : (x : ℕ) → x % 2 ^ suc k / 2 ≡ x / 2 % 2 ^ k = λ x. omega (arith, cut x) in
      let odd_of : (x : ℕ) → x % 2 ^ suc k % 2 ≡ x % 2 = λ x. omega (arith, cut x) in
      rw (
        cut (op a b),
        half,
        odd,
        op-mod k (a / 2) (b / 2),
        low (a % 2 ^ suc k) (b % 2 ^ suc k),
        half_of a,
        half_of b,
        odd_of a,
        odd_of b,
      )

module _ (k a b : ℕ) where
  pub bit_and-shift : bit_and a b / 2 ^ k ≡ bit_and (a / 2 ^ k) (b / 2 ^ k)
  bit_and-shift = op-shift bit_and min bit_and_low (λ a b. omega arith) refl k a b

  pub bit_or-shift : bit_or a b / 2 ^ k ≡ bit_or (a / 2 ^ k) (b / 2 ^ k)
  bit_or-shift = op-shift bit_or max bit_or_low (λ a b. omega arith) refl k a b

  pub bit_xor-shift : bit_xor a b / 2 ^ k ≡ bit_xor (a / 2 ^ k) (b / 2 ^ k)
  bit_xor-shift = op-shift bit_xor (λ x y. (x + y) % 2) bit_xor_low (λ a b. omega arith) refl k a b

  pub bit_and-mod : bit_and a b % 2 ^ k ≡ bit_and (a % 2 ^ k) (b % 2 ^ k)
  bit_and-mod = op-mod bit_and min bit_and_low (λ a b. omega arith) refl k a b

  pub bit_or-mod : bit_or a b % 2 ^ k ≡ bit_or (a % 2 ^ k) (b % 2 ^ k)
  bit_or-mod = op-mod bit_or max bit_or_low (λ a b. omega arith) refl k a b

  pub bit_xor-mod : bit_xor a b % 2 ^ k ≡ bit_xor (a % 2 ^ k) (b % 2 ^ k)
  bit_xor-mod = op-mod bit_xor (λ x y. (x + y) % 2) bit_xor_low (λ a b. omega arith) refl k a b

bit_and-zero : (n a : ℕ) → a ≤ n → bit_and a 0 ≡ 0
bit_and-zero zero zero h = refl
bit_and-zero zero (suc a) h = absurd (omega arith)
bit_and-zero (suc n) zero h = refl
bit_and-zero (suc n) (suc a) h =
    omega (arith, bit_and_low (suc a) 0, bit_and-zero n (suc a / 2) (omega arith))

-- A mask of `k` ones keeps the remainder by `2 ^ k`.
pub bit_and-mask : (k a : ℕ) → bit_and a (2 ^ k - 1) ≡ a % 2 ^ k
bit_and-mask zero a = bit_and-zero a a (omega arith) ∙ omega arith
bit_and-mask (suc k) a =
    let positive : 0 < 2 ^ k = one-le-pow k 2 (omega arith) in
    let double : 2 ^ suc k ≡ 2 ^ k * 2 = pow-suc 2 k in
    let half : (2 ^ suc k - 1) / 2 ≡ 2 ^ k - 1 = omega arith in
    let odd : (2 ^ suc k - 1) % 2 ≡ 1 = omega arith in
    let step = bit_and_low a (2 ^ suc k - 1) in
    let inner = ap (λ x. bit_and (a / 2) x) half ∙ bit_and-mask k (a / 2) in
    let split = mod-mul-two a (2 ^ k) positive in
    omega (arith, step, inner, odd, ap (λ x. a % x) double, split)

bit_or_zero_upto : (n a : ℕ) → a ≤ n → (bit_or a 0 ≡ a) × (bit_or 0 a ≡ a)
bit_or_zero_upto zero zero h = (refl, refl)
bit_or_zero_upto zero (suc a) h = absurd (omega arith)
bit_or_zero_upto (suc n) zero h = (refl, refl)
bit_or_zero_upto (suc n) (suc a) h =
    let ih = bit_or_zero_upto n (suc a / 2) (omega arith) in
    (omega (arith, bit_or_low (suc a) 0, ih), omega (arith, bit_or_low 0 (suc a), ih))

pub bit_or-zero : (a : ℕ) → bit_or a 0 ≡ a
bit_or-zero a = (bit_or_zero_upto a a (omega arith)).0

pub zero-bit_or : (a : ℕ) → bit_or 0 a ≡ a
zero-bit_or a = (bit_or_zero_upto a a (omega arith)).1

-- A word with only high digits joined to one with only low digits is their sum.
module _ (k q r : ℕ) (fits : r < 2 ^ k) where
  high_low : (q * 2 ^ k / 2 ^ k ≡ q) × (q * 2 ^ k % 2 ^ k ≡ 0) × (r / 2 ^ k ≡ 0) × (r % 2 ^ k ≡ r)
  high_low =
      let positive : 0 < 2 ^ k = one-le-pow k 2 (omega arith) in
      (mul-div_cancel q positive, mul-mod_left q (2 ^ k), div-eq_of_lt fits, mod-eq_of_lt fits)

  join_parts : (x : ℕ) → x / 2 ^ k ≡ q → x % 2 ^ k ≡ r → x ≡ q * 2 ^ k + r
  join_parts x e f = sym (div-add-mod' x (2 ^ k)) ∙ rw (e, f)

  pub bit_or-high_low : bit_or (q * 2 ^ k) r ≡ q * 2 ^ k + r
  bit_or-high_low =
      let (a, b, c, d) = high_low in
      join_parts _ (rw (bit_or-shift k (q * 2 ^ k) r, a, c) (bit_or-zero q))
        (rw (bit_or-mod k (q * 2 ^ k) r, b, d) (zero-bit_or r))

  pub bit_or-low_high : bit_or r (q * 2 ^ k) ≡ q * 2 ^ k + r
  bit_or-low_high =
      let (a, b, c, d) = high_low in
      join_parts _ (rw (bit_or-shift k r (q * 2 ^ k), a, c) (zero-bit_or q))
        (rw (bit_or-mod k r (q * 2 ^ k), b, d) (bit_or-zero r))
