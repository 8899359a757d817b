-- ===== src/External.antt =====
-- What the crate takes from third-party crates: the conditional moves of the crate `cmov` and the
-- block cipher of the crate `aes`, the generators of the crate `rand`, and the floating-point numbers,
-- of which the language of the model has none. Each is a record of the operations with their documented
-- behaviour, and an argument of every definition that uses it.
use roga.Base.{List, length, ℕ, ◌<◌, Bool, ℤ, ◌≡◌, ◌≢◌, ◌==◌, if◌then◌else◌}

-- `cmov::Cmov`: `self.cmovnz(other, condition)` replaces `self` unless `condition` is zero.
pub record ScalarCmov {ℓ} (A : Type ℓ) : Type ℓ where
  pub cmovnz : A → A → ℕ → A
  pub cmovnz_lem : (a b : A) (c : ℕ) → cmovnz a b c ≡ (if c == 0 then a else b)

-- `cmov::CmovEq`: `self.cmoveq(rhs, input, output)` writes `input` to `output` if the two are equal.
pub record CmovEq {ℓ} (A : Type ℓ) : Type ℓ where
  pub cmoveq : A → A → ℕ → ℕ → ℕ
  pub cmoveq-self : (a : A) (i o : ℕ) → cmoveq a a i o ≡ i
  pub cmoveq-ne : (a b : A) (i o : ℕ) → a ≢ b → cmoveq a b i o ≡ o

-- `OramValue`: what a type of values has to offer, the crate `cmov`'s moves among it.
pub record OramValue (V : Type 0) : Type 0 where
  pub scalar : ScalarCmov V
  pub default : V
  pub add : V → V → V

-- `aes::Aes128` with its key: `encrypt_block` maps 16 bytes to 16 bytes.
pub record BlockCipher : Type 0 where
  pub encrypt_block : List ℕ → List ℕ
  pub length-encrypt_block : (block : List ℕ) → length (encrypt_block block) ≡ length block

-- A generator of random numbers with its operations of the crate `rand`, each of which gives the
-- generator afterwards.
pub record Rng (R : Type 0) : Type 0 where
  pub seed_from_u64 : ℕ → R
  pub random : R → ℕ × R
  pub random_range : ℕ → R → ℕ × R
  pub random_range-lt : (n : ℕ) (rng : R) → 0 < n → (random_range n rng).0 < n
  pub fill_bytes : ℕ → R → List ℕ × R

-- `f64`. `literal m e` is m * 10 ^ (- e); `to_nat` is `as usize` and `as u64`, `to_int` is `as i64`.
pub record Float (F : Type 0) : Type 0 where
  pub literal : ℕ → ℕ → F
  pub epsilon : F
  pub ln_2 : F
  pub of_nat : ℕ → F
  pub to_nat : F → ℕ
  pub to_int : F → ℤ
  pub add : F → F → F
  pub sub : F → F → F
  pub mul : F → F → F
  pub div : F → F → F
  pub neg : F → F
  pub lt : F → F → Bool
  pub le : F → F → Bool
  pub eq : F → F → Bool
  pub min : F → F → F
  pub max : F → F → F
  pub ln : F → F
  pub exp : F → F
  pub sqrt : F → F
  pub cbrt : F → F
  pub floor : F → F
  pub ceil : F → F
  pub powi : F → ℤ → F
  pub is_finite : F → Bool
