-- ===== src/Ct/Bytes.antt =====
-- `ct_eq_bytes` of ct.rs, at every key length.
use native.Mathlib.Nat.{pow-suc}
use roga.Base.{
  ℕ, zero, suc, ◌+◌, ◌-◌, ◌/◌, ◌%◌, ◌^◌, ◌<◌, ◌≤◌, ◌≡◌, refl, arith, Bool, true, false, ◌&&◌, ◌∙◌,
  sym, ==_iff, length-take, length-drop, inl, inr, Bool-cases, List, [], ◌∷◌, bit_and, bit_or,
  bit_xor, bit_and-shift, bit_or-shift, bit_xor-shift, bit_xor_low, bit_or_low, to_bit,
  if◌then◌else◌, max, ◌==◌, length, take, drop, wrapping_neg,
}
use roga.Ct.{ct_eq_bytes, from_bytes, is_zero_u64, fold_difference}

-- The equality of two keys.
unfoldable pub bytes_eq : List ℕ → List ℕ → Bool
bytes_eq [] [] = true
bytes_eq (x ∷ a) (y ∷ b) = x == y && bytes_eq a b
bytes_eq a b = false

pub bytes_eq→eq : (a b : List ℕ) → bytes_eq a b ≡ true → a ≡ b
unfolding bytes_eq
bytes_eq→eq [] [] h = refl
bytes_eq→eq [] (y ∷ b) h = cc
bytes_eq→eq (x ∷ a) [] h = cc
bytes_eq→eq (x ∷ a) (y ∷ b) h = ground (arith, bytes_eq→eq a b)

pub bytes_eq_self : (a : List ℕ) → bytes_eq a a ≡ true
unfolding bytes_eq
bytes_eq_self [] = refl
bytes_eq_self (x ∷ a) = ground (arith, bytes_eq_self a)

abbrev pub AreBytes : List ℕ → Type 0
AreBytes [] = Unit
AreBytes (x ∷ a) = (x < 256) × AreBytes a

eq_of_xor : (n a b : ℕ) → a ≤ n → b ≤ n → bit_xor a b ≡ 0 → a ≡ b
eq_of_xor zero a b p q h = omega arith
eq_of_xor (suc n) a b p q h = omega (
  arith,
  bit_xor_low a b,
  eq_of_xor n (a / 2) (b / 2) (omega arith) (omega arith) (omega (arith, bit_xor_low a b)),
)

xor_self : (n a : ℕ) → a ≤ n → bit_xor a a ≡ 0
xor_self zero zero h = refl
xor_self zero (suc a) h = absurd (omega arith)
xor_self (suc n) zero h = refl
xor_self (suc n) (suc a) h =
    omega (arith, bit_xor_low (suc a) (suc a), xor_self n (suc a / 2) (omega arith))

or_zero : (n a b : ℕ) → a ≤ n → b ≤ n → bit_or a b ≡ 0 → (a ≡ 0) × (b ≡ 0)
or_zero zero a b p q h = omega arith
or_zero (suc n) a b p q h = omega (
  arith,
  bit_or_low a b,
  or_zero n (a / 2) (b / 2) (omega arith) (omega arith) (omega (arith, bit_or_low a b)),
)

pub bit_xor-zero_iff : (a b : ℕ) → (bit_xor a b == 0) ≡ a == b
bit_xor-zero_iff a b = ground (arith, eq_of_xor (a + b) a b, same)
  where
    same : a ≡ b → bit_xor a b ≡ 0
    same e = rw e (xor_self b b (omega arith))

bit_or-zero_iff : (a b : ℕ) → (bit_or a b == 0) ≡ (a == 0 && b == 0)
bit_or-zero_iff a b = ground (arith, or_zero (a + b) a b, same)
  where
    same : a ≡ 0 → b ≡ 0 → bit_or a b ≡ 0
    same e f = rw (e, f) refl

module _ (k a b : ℕ) (p : a < 2 ^ k) (q : b < 2 ^ k) where
  small : (x : ℕ) → x < 2 ^ k → x / 2 ^ k ≡ 0
  small x h = grind arith

  fits : (x : ℕ) → x / 2 ^ k ≡ 0 → x < 2 ^ k
  fits x h = grind arith

  pub bit_xor-lt : bit_xor a b < 2 ^ k
  bit_xor-lt = fits _ (rw (bit_xor-shift k a b, small a p, small b q))

  pub bit_or-lt : bit_or a b < 2 ^ k
  bit_or-lt = fits _ (rw (bit_or-shift k a b, small a p, small b q))

-- The folded test for zero: the top digit of `diff | -diff` is set unless `diff` is zero.
or_digit : (a b : ℕ) → a < 2 → b < 2 → bit_or a b ≡ max a b
or_digit zero zero p q = refl
or_digit zero (suc zero) p q = refl
or_digit (suc zero) zero p q = refl
or_digit (suc zero) (suc zero) p q = refl
or_digit (suc (suc a)) b p q = absurd (omega arith)
or_digit a (suc (suc b)) p q = absurd (omega arith)

pub or_neg_top :
    (d : ℕ) → d < 2 ^ 64 → bit_or d (wrapping_neg d) / 2 ^ 63 ≡ (if d == 0 then 0 else 1)
or_neg_top d h =
    rw
      (
        bit_or-shift 63 d (wrapping_neg d),
        or_digit (d / 2 ^ 63) (wrapping_neg d / 2 ^ 63) (omega arith) (omega arith),
      )
      (ground arith)

is_zero_u64_lem : (d : ℕ) → d < 2 ^ 64 → is_zero_u64 d ≡ to_bit (d == 0)
unfolding is_zero_u64
is_zero_u64_lem zero h = refl
is_zero_u64_lem (suc d) h =
    let nonzero : (suc d == 0) ≡ false = ground arith in rw (or_neg_top (suc d) h, nonzero) refl

from_bytes-lt : (a : List ℕ) → AreBytes a → from_bytes a < 256 ^ length a
unfolding from_bytes
from_bytes-lt [] h = omega arith
from_bytes-lt (x ∷ a) h = omega (arith, from_bytes-lt a h.1, pow-suc 256 (length a))

from_bytes_eq :
    (a b : List ℕ)
    → AreBytes a
    → AreBytes b
    → length a ≡ length b
    → (from_bytes a == from_bytes b) ≡ bytes_eq a b
unfolding from_bytes bytes_eq
from_bytes_eq [] [] p q e = refl
from_bytes_eq [] (y ∷ b) p q e = absurd (omega arith)
from_bytes_eq (x ∷ a) [] p q e = absurd (omega arith)
from_bytes_eq (x ∷ a) (y ∷ b) p q e = ground (arith, from_bytes_eq a b)

fold_difference_lem :
    (acc : ℕ) (a b : List ℕ)
    → acc < 256
    → AreBytes a
    → AreBytes b
    → length a ≡ length b
    → (fold_difference acc a b < 256)
      × ((fold_difference acc a b == 0) ≡ (acc == 0 && bytes_eq a b))
unfolding fold_difference bytes_eq
fold_difference_lem acc [] [] h p q e = (h, ground arith)
fold_difference_lem acc [] (y ∷ b) h p q e = absurd (omega arith)
fold_difference_lem acc (x ∷ a) [] h p q e = absurd (omega arith)
fold_difference_lem acc (x ∷ a) (y ∷ b) h p q e =
    let ih =
      fold_difference_lem (bit_or acc (bit_xor x y)) a b
        (bit_or-lt 8 acc (bit_xor x y) h (bit_xor-lt 8 x y p.0 q.0)) p.1 q.1 (omega arith) in
    (ih.0, ground (arith, ih.1, bit_or-zero_iff acc (bit_xor x y), bit_xor-zero_iff x y))

AreBytes-take : (k : ℕ) (a : List ℕ) → AreBytes a → AreBytes (take k a)
AreBytes-take zero a h = tt
AreBytes-take (suc k) [] h = tt
AreBytes-take (suc k) (x ∷ a) h = (h.0, AreBytes-take k a h.1)

AreBytes-drop : (k : ℕ) (a : List ℕ) → AreBytes a → AreBytes (drop k a)
AreBytes-drop zero a h = h
AreBytes-drop (suc k) [] h = tt
AreBytes-drop (suc k) (x ∷ a) h = AreBytes-drop k a h.1

bytes_eq-split :
    (k : ℕ) (a b : List ℕ)
    → length a ≡ length b
    → bytes_eq a b ≡ (bytes_eq (take k a) (take k b) && bytes_eq (drop k a) (drop k b))
unfolding bytes_eq
bytes_eq-split zero a b e = refl
bytes_eq-split (suc k) [] [] e = refl
bytes_eq-split (suc k) [] (y ∷ b) e = absurd (omega arith)
bytes_eq-split (suc k) (x ∷ a) [] e = absurd (omega arith)
bytes_eq-split (suc k) (x ∷ a) (y ∷ b) e = ground (arith, bytes_eq-split k a b)

module _ (a b : List ℕ) (p : AreBytes a) (q : AreBytes b) where
  -- Keys of eight bytes, as words.
  word_eq :
      length a ≡ 8
      → length b ≡ 8
      → (from_bytes a < 2 ^ 64)
        × (from_bytes b < 2 ^ 64)
        × ((bit_xor (from_bytes a) (from_bytes b) == 0) ≡ bytes_eq a b)
  word_eq m n = (
    rw m at (from_bytes-lt a p),
    rw n at (from_bytes-lt b q),
    bit_xor-zero_iff (from_bytes a) (from_bytes b) ∙ from_bytes_eq a b p q (omega arith),
  )

-- The tail test on an 8-bit accumulator: the borrow of `acc32 - 1`.
acc_test :
    (x : ℕ)
    → x < 256
    → bit_and ((x + 2 ^ 32 - 1) % 2 ^ 32) (2 ^ 32 - 1 - x) / 2 ^ 31 ≡ to_bit (x == 0)
acc_test zero h = refl
acc_test (suc x) h =
    let top : (suc x + 2 ^ 32 - 1) % 2 ^ 32 / 2 ^ 31 ≡ 0 = omega arith in
    let other : (2 ^ 32 - 1 - suc x) / 2 ^ 31 ≡ 1 = omega arith in
    let nonzero : (suc x == 0) ≡ false = ground arith in
    rw (bit_and-shift 31 ((suc x + 2 ^ 32 - 1) % 2 ^ 32) (2 ^ 32 - 1 - suc x), top, other, nonzero)
      refl

is_zero_of_test : (d : ℕ) (r : Bool) → d < 2 ^ 64 → (d == 0) ≡ r → is_zero_u64 d ≡ to_bit r
is_zero_of_test d r h e = rw (is_zero_u64_lem d h, e)

-- The three branches of `ct_eq_bytes`.
module _ (a b : List ℕ) (p : AreBytes a) (q : AreBytes b) where
  eight_eq :
      length a ≡ 8
      → length b ≡ 8
      → is_zero_u64 (bit_xor (from_bytes a) (from_bytes b)) ≡ to_bit (bytes_eq a b)
  eight_eq m n =
      let (la, lb, e) = word_eq a b p q m n in
      is_zero_of_test _ (bytes_eq a b) (bit_xor-lt 64 (from_bytes a) (from_bytes b) la lb) e

  sixteen_eq :
      length a ≡ 16
      → length b ≡ 16
      → is_zero_u64 (
          bit_or
            (bit_xor (from_bytes (take 8 a)) (from_bytes (take 8 b)))
            (bit_xor (from_bytes (drop 8 a)) (from_bytes (drop 8 b))))
        ≡ to_bit (bytes_eq a b)
  sixteen_eq m n =
      let (la, lb, e) =
        word_eq (take 8 a) (take 8 b) (AreBytes-take 8 a p) (AreBytes-take 8 b q)
          (omega (arith, length-take 8 a)) (omega (arith, length-take 8 b)) in
      let (ha, hb, f) =
        word_eq (drop 8 a) (drop 8 b) (AreBytes-drop 8 a p) (AreBytes-drop 8 b q)
          (omega (arith, length-drop 8 a)) (omega (arith, length-drop 8 b)) in
      let lo = bit_xor (from_bytes (take 8 a)) (from_bytes (take 8 b)) in
      let hi = bit_xor (from_bytes (drop 8 a)) (from_bytes (drop 8 b)) in
      is_zero_of_test (bit_or lo hi) (bytes_eq a b)
        (bit_or-lt 64 lo hi (bit_xor-lt 64 _ _ la lb) (bit_xor-lt 64 _ _ ha hb))
        (rw (bit_or-zero_iff lo hi, e, f) (sym (bytes_eq-split 8 a b (m ∙ sym n))))

  any_eq :
      length a ≡ length b
      → let acc = fold_difference 0 a b in
        bit_and ((acc + 2 ^ 32 - 1) % 2 ^ 32) (2 ^ 32 - 1 - acc) / 2 ^ 31 ≡ to_bit (bytes_eq a b)
  any_eq m =
      let (small_acc, e) = fold_difference_lem 0 a b (omega arith) p q m in
      rw (acc_test _ small_acc, e)

-- On two byte arrays of the length `n`, `ct_eq_bytes` is 1 if they are equal and 0 if not, whichever
-- of its three ways to compare the length selects.
pub ct_eq_bytes_lem :
    (n : ℕ) (a b : List ℕ)
    → AreBytes a
    → AreBytes b
    → length a ≡ n
    → length b ≡ n
    → ct_eq_bytes n a b ≡ to_bit (bytes_eq a b)
unfolding ct_eq_bytes
ct_eq_bytes_lem n a b p q m k = elim (Bool-cases (n == 16)) [
  | inl e ↦ rw e (sixteen_eq a b p q (m ∙ (==_iff n 16).0 e) (k ∙ (==_iff n 16).0 e))
  | inr e ↦ rw e (elim (Bool-cases (n == 8)) [
    | inl f ↦ rw f (eight_eq a b p q (m ∙ (==_iff n 8).0 f) (k ∙ (==_iff n 8).0 f))
    | inr f ↦ rw f (any_eq a b p q (m ∙ sym k))
  ])
]
