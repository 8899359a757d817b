-- ===== src/Binomial.antt =====
-- crates/oram/src/oblivious/binomial_solver.rs: the tails of binomial distributions, and the quotas and
-- slacks that bisection finds with them. Floating-point numbers are a parameter. Loops over
-- numbers recur on the rounds left; `ln_gamma` has fuel for eight rounds, which bring any
-- argument from zero on to eight.
pub mod Bisection
use roga.Base.{
  ℕ, zero, suc, ◌+◌, ◌-◌, ◌*◌, ◌/◌, Bool, true, false, ◌&&◌, ◌||◌, ltb, leb, ◌==◌, if◌then◌else◌,
  min, saturating_add, ℤ, pos, as_i32, wrapping_neg_i32, wrapping_mul, Option, none, some,
}
use roga.External.{Float}

-- `while low < high`, with the test of the middle; the distance is enough fuel.
unfoldable pub bisect : (ℕ → Bool) → ℕ → ℕ → ℕ → ℕ
bisect test zero low high = low
bisect test (suc fuel) low high = elim (ltb low high) [
  | false ↦ low
  | true ↦
      let mid = low + (high - low) / 2 in
      elim (test mid) [ true ↦ bisect test fuel low mid | false ↦ bisect test fuel (mid + 1) high ]
]

module _ {F : Type 0} (f : Float F) where
  open f use {literal, of_nat, to_nat, add, sub, mul, div, lt, le, eq, ln, exp, powi}

  -- `while x < 8.0`, with `x` and `adj`.
  unfoldable pub gamma_loop : ℕ → F → F → F × F
  gamma_loop zero x adj = (x, adj)
  gamma_loop (suc fuel) x adj = elim (lt x (of_nat 8)) [
    | true ↦ gamma_loop fuel (add x (of_nat 1)) (add adj (ln x))
    | false ↦ (x, adj)
  ]

  unfoldable pub ln_gamma : F → F
  unfolding gamma_loop
  ln_gamma x₀ =
      let (x, adj) = gamma_loop 8 x₀ (of_nat 0) in
      let main = sub (mul (sub x (literal 5 1)) (ln x)) x in
      let first = div (of_nat 1) (mul (of_nat 12) x) in
      let second = div (of_nat 1) (mul (of_nat 360) (powi x (pos 3))) in
      sub (sub (add (add main (literal 9189385332046727 16)) first) second) adj

  -- The logarithm of the binomial coefficient, from that of the factorial of `n`.
  unfoldable pub ln_comb : F → F → F → F
  unfolding ln_gamma
  ln_comb ln_gamma_n_plus_1 n_f k_f =
      sub (sub ln_gamma_n_plus_1 (ln_gamma (add k_f (of_nat 1))))
        (ln_gamma (add (sub n_f k_f) (of_nat 1)))

  unfoldable pub pmf_from : F → F → F → F → F → F
  unfolding ln_comb
  pmf_from ln_gamma_n_plus_1 ln_p ln_1_minus_p n_f k_f = exp (
      add (add (ln_comb ln_gamma_n_plus_1 n_f k_f) (mul k_f ln_p)) (mul (sub n_f k_f) ln_1_minus_p))

  unfoldable pub binom_pmf : ℕ → ℕ → F → F
  unfolding pmf_from ln_gamma
  binom_pmf n k p =
      let n_f = of_nat n in
      if ltb n k
      then of_nat 0
      else if le (of_nat 1) p
      then (if k == n then of_nat 1 else of_nat 0)
      else if le p (of_nat 0)
      then (if k == 0 then of_nat 1 else of_nat 0)
      else pmf_from (ln_gamma (add n_f (of_nat 1))) (ln p) (ln (sub (of_nat 1) p)) n_f (of_nat k)

  -- `.map(..).sum()` over `i..i + rounds`.
  unfoldable pub cdf_loop : F → F → F → F → ℕ → ℕ → F → F
  unfolding pmf_from
  cdf_loop ln_gamma_n_plus_1 ln_p ln_1_minus_p n_f zero i sum = sum
  cdf_loop ln_gamma_n_plus_1 ln_p ln_1_minus_p n_f (suc rounds) i sum =
      cdf_loop ln_gamma_n_plus_1 ln_p ln_1_minus_p n_f rounds (i + 1)
        (add sum (pmf_from ln_gamma_n_plus_1 ln_p ln_1_minus_p n_f (of_nat i)))

  unfoldable pub binom_cdf : ℕ → ℕ → F → F
  unfolding cdf_loop ln_gamma
  binom_cdf n k₀ p =
      let k = min k₀ n in
      let n_f = of_nat n in
      if le (of_nat 1) p
      then (if k == n then of_nat 1 else of_nat 0)
      else if le p (of_nat 0)
      then of_nat 1
      else f.min
          (cdf_loop (ln_gamma (add n_f (of_nat 1))) (ln p) (ln (sub (of_nat 1) p)) n_f (k + 1) 0
            (of_nat 0))
          (of_nat 1)

  -- One step of a Kahan summation: `sum` and `correction`.
  unfoldable pub kahan : F → F → F → F × F
  kahan term sum correction =
      let adjusted = sub term correction in
      let next_sum = add sum adjusted in (next_sum, sub (sub next_sum sum) adjusted)

  -- Whether the next term no longer counts.
  unfoldable pub negligible : F → F → Bool → Bool
  negligible term sum past_mode = eq term (of_nat 0) || (lt term (mul sum f.epsilon) && past_mode)

  -- `for i in k..=n`, with `rounds` terms left from `i` on, and the sum.
  unfoldable pub upper_loop : ℕ → F → ℕ → ℕ → F → F → F → F
  unfolding kahan negligible
  upper_loop n p zero i term sum correction = sum
  upper_loop n p (suc rounds) i term sum correction =
      let (sum', correction') = kahan term sum correction in
      let ratio = div (of_nat (n - i)) (of_nat (i + 1)) in
      let term' = mul term (mul ratio (div p (sub (of_nat 1) p))) in
      let past_mode = leb (to_nat (mul (of_nat n) p)) i in
      elim (i == n || negligible term' sum' past_mode) [
        | true ↦ sum'
        | false ↦ upper_loop n p rounds (i + 1) term' sum' correction'
      ]

  unfoldable pub binom_sf : ℕ → ℕ → F → F
  unfolding upper_loop binom_pmf
  binom_sf n k p =
      if k == 0
      then of_nat 1
      else if ltb n k || le p (of_nat 0)
      then of_nat 0
      else if le (of_nat 1) p
      then of_nat 1
      else f.min (upper_loop n p (n - k + 1) k (binom_pmf n k p) (of_nat 0) (of_nat 0)) (of_nat 1)

  -- `for i in (0..=k).rev()`, from the greatest index on.
  unfoldable pub lower_loop : ℕ → F → ℕ → F → F → F → F
  unfolding kahan negligible
  lower_loop n p zero term sum correction =
      let (sum', correction') = kahan term sum correction in sum'
  lower_loop n p (suc i) term sum correction =
      let (sum', correction') = kahan term sum correction in
      let ratio = div (of_nat (suc i)) (of_nat (n - suc i + 1)) in
      let term' = mul term (mul ratio (div (sub (of_nat 1) p) p)) in
      let past_mode = leb (suc i) (to_nat (mul (of_nat n) p)) in
      elim (negligible term' sum' past_mode) [
        | true ↦ sum'
        | false ↦ lower_loop n p i term' sum' correction'
      ]

  unfoldable pub binom_lower_tail : ℕ → ℕ → F → F
  unfolding lower_loop binom_pmf
  binom_lower_tail n k p =
      if leb n k || le p (of_nat 0)
      then of_nat 1
      else if le (of_nat 1) p
      then of_nat 0
      else f.min (lower_loop n p k (binom_pmf n k p) (of_nat 0) (of_nat 0)) (of_nat 1)

  -- Whether the upper tail from `mid` on is at most the target.
  unfoldable pub upper_fits : ℕ → F → F → ℕ → Bool
  unfolding binom_sf
  upper_fits n p target mid = le (binom_sf n mid p) target

  -- The division by a `shard_count` of zero is a panic.
  unfoldable pub suggested_per_shard_quota : ℕ → ℕ → ℕ → Option ℕ
  unfolding bisect upper_fits
  suggested_per_shard_quota batch_size shard_count security_bits =
      let p = div (of_nat 1) (of_nat shard_count) in
      let target = mul (powi (of_nat 2) (wrapping_neg_i32 (as_i32 security_bits))) p in
      let low = batch_size / shard_count in
      if shard_count == 0
      then none
      else some (bisect (upper_fits batch_size p target) (batch_size - low) low batch_size)

  -- `while k < n && cdf < alpha`, with `rounds` values of `k` left.
  unfoldable pub ppf_loop : F → F → F → F → F → ℕ → ℕ → F → ℕ
  unfolding pmf_from
  ppf_loop ln_gamma_n_plus_1 ln_p ln_1_minus_p n_f alpha zero k cdf = k
  ppf_loop ln_gamma_n_plus_1 ln_p ln_1_minus_p n_f alpha (suc rounds) k cdf = elim (lt cdf alpha) [
    | false ↦ k
    | true ↦
        ppf_loop ln_gamma_n_plus_1 ln_p ln_1_minus_p n_f alpha rounds (k + 1)
          (add cdf (pmf_from ln_gamma_n_plus_1 ln_p ln_1_minus_p n_f (of_nat (k + 1))))
  ]

  unfoldable pub binom_ppf : ℕ → F → F → ℕ
  unfolding ppf_loop binom_cdf ln_gamma
  binom_ppf n p alpha =
      let n_f = of_nat n in
      let mean = mul n_f p in
      let deviation = f.sqrt (mul mean (sub (of_nat 1) p)) in
      let start = min (to_nat (sub mean (mul (of_nat 3) deviation))) n in
      if le (of_nat 1) p
      then n
      else if le p (of_nat 0)
      then 0
      else ppf_loop (ln_gamma (add n_f (of_nat 1))) (ln p) (ln (sub (of_nat 1) p)) n_f alpha
          (n - start) start (binom_cdf n start p)
        - 1

  unfoldable pub dp_det_threshold : F → F → F → F → F → F → F
  unfolding binom_ppf
  dp_det_threshold t l k alpha a attempts =
      let exact_margin = sub t (mul (div l k) (of_nat (binom_ppf (to_nat t) (div k l) alpha))) in
      sub (sub t (mul (mul (add (of_nat 1) attempts) a) k)) exact_margin

  -- Whether the lower tail that lies `mid` below the mean is at most the target.
  unfoldable pub lower_fits : ℕ → F → F → ℕ → ℕ → Bool
  unfolding binom_lower_tail
  lower_fits total_n p target per_shard_capacity mid =
      le (binom_lower_tail total_n (per_shard_capacity - mid) p) target

  -- The product of the capacity and the number of shards wraps, as in a release build.
  unfoldable pub shard_coordination_slack : ℕ → ℕ → ℕ → ℕ
  unfolding bisect upper_fits lower_fits
  shard_coordination_slack per_shard_capacity shard_count security_bits =
      let p = div (of_nat 1) (of_nat shard_count) in
      let total_n = wrapping_mul per_shard_capacity shard_count in
      let target =
        div (mul (powi (of_nat 2) (wrapping_neg_i32 (as_i32 security_bits))) p) (of_nat 2) in
      let low =
        bisect (upper_fits total_n p target) (total_n - per_shard_capacity) per_shard_capacity
          total_n in
      let low_deviation =
        bisect (lower_fits total_n p target per_shard_capacity) per_shard_capacity 0
          per_shard_capacity in
      if leb shard_count 1 then 0 else saturating_add (low - per_shard_capacity) low_deviation
