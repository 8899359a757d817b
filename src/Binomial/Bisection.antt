-- ===== src/Binomial/Bisection.antt =====
-- The results of the bisections of binomial_solver.rs.
use roga.Base.{
  ℕ, zero, suc, ◌+◌, ◌-◌, ◌*◌, ◌/◌, ◌≤◌, ◌<◌, ◌≡◌, ◌^◌, ◌⊎◌, inl, inr, Bool, true, false,
  saturating_add, arith, as_i32, wrapping_neg_i32, none, some, refl,
}
use native.Mathlib.Nat.{div-le_self, mod-eq_of_lt}
use roga.External.{Float}
use roga.Binomial.{
  bisect, upper_fits, lower_fits, suggested_per_shard_quota, shard_coordination_slack,
}

-- `r` lies from `low` to `high`; the test holds at `r` unless that is the upper end, and not just
-- below `r` unless that is the lower end.
abbrev pub IsTurn : (ℕ → Bool) → ℕ → ℕ → ℕ → Type 0
IsTurn test low high r =
    (low ≤ r) × (r ≤ high) × (r < high → test r ≡ true) × (low < r → test (r - 1) ≡ false)

pub bisect-IsTurn :
    (test : ℕ → Bool) (fuel low high : ℕ)
    → low ≤ high
    → high - low ≤ fuel
    → IsTurn test low high (bisect test fuel low high)
unfolding bisect
bisect-IsTurn test zero low high h k =
    (omega arith, omega arith, λ p. absurd (omega arith), λ p. absurd (omega arith))
bisect-IsTurn test (suc fuel) low high h k = ground (
  arith,
  bisect-IsTurn test fuel low (low + (high - low) / 2),
  bisect-IsTurn test fuel (low + (high - low) / 2 + 1) high,
)

module _ {F : Type 0} (f : Float F) where
  -- 2 ^ (- security_bits), shared out among the shards.
  abbrev pub failure_share : ℕ → ℕ → F
  failure_share shard_count security_bits =
      f.mul (f.powi (f.of_nat 2) (wrapping_neg_i32 (as_i32 security_bits)))
        (f.div (f.of_nat 1) (f.of_nat shard_count))

  -- Whether the tail of one shard's load from `quota` on is below its share.
  abbrev pub quota_fits : ℕ → ℕ → ℕ → ℕ → Bool
  quota_fits batch_size shard_count security_bits =
      upper_fits f batch_size (f.div (f.of_nat 1) (f.of_nat shard_count))
        (failure_share shard_count security_bits)

  abbrev pub upper_slack_fits : ℕ → ℕ → ℕ → ℕ → Bool
  upper_slack_fits per_shard_capacity shard_count security_bits =
      upper_fits f (per_shard_capacity * shard_count) (f.div (f.of_nat 1) (f.of_nat shard_count))
        (f.div (failure_share shard_count security_bits) (f.of_nat 2))

  abbrev pub lower_slack_fits : ℕ → ℕ → ℕ → ℕ → Bool
  lower_slack_fits per_shard_capacity shard_count security_bits =
      lower_fits f (per_shard_capacity * shard_count) (f.div (f.of_nat 1) (f.of_nat shard_count))
        (f.div (failure_share shard_count security_bits) (f.of_nat 2)) per_shard_capacity

  suggested_per_shard_quota-suc :
      (batch_size shards security_bits : ℕ)
      → suggested_per_shard_quota f batch_size (suc shards) security_bits
        ≡ some (
            bisect
              (quota_fits batch_size (suc shards) security_bits)
              (batch_size - batch_size / suc shards)
              (batch_size / suc shards)
              batch_size)
  unfolding suggested_per_shard_quota
  suggested_per_shard_quota-suc batch_size shards security_bits = ground arith

  -- With no shard the suggestion is a panic, that of a division by zero. Otherwise a quota is
  -- returned: it lies from the mean load of a shard to the size of the batch; its tail passes the
  -- test unless it is the size of the batch, and the tail of one less fails it unless the quota is
  -- the mean. The arithmetic on floating-point numbers is arbitrary.
  pub suggested_per_shard_quota-IsTurn :
      (batch_size shard_count security_bits : ℕ)
      → ((shard_count ≡ 0)
          × (suggested_per_shard_quota f batch_size shard_count security_bits ≡ none))
        ⊎ ((0 < shard_count)
            × (quota : ℕ) × (suggested_per_shard_quota f batch_size shard_count security_bits
                ≡ some quota)
            × IsTurn
                (quota_fits batch_size shard_count security_bits)
                (batch_size / shard_count)
                batch_size
                quota)
  unfolding suggested_per_shard_quota
  suggested_per_shard_quota-IsTurn batch_size zero security_bits = inl (refl, refl)
  suggested_per_shard_quota-IsTurn batch_size (suc shards) security_bits = inr (
    omega arith,
    _,
    suggested_per_shard_quota-suc batch_size shards security_bits,
    bisect-IsTurn (quota_fits batch_size (suc shards) security_bits)
        (batch_size - batch_size / suc shards) (batch_size / suc shards) batch_size
        (div-le_self _ _) (omega arith),
  )

  -- With more than one shard, and if the capacity of a shard times the number of shards is below 2 ^
  -- 64, the slack is the sum of what the two bisections give, saturated: how far the upper one is
  -- above the capacity of a shard, and the lower one. Each of the two lies in its range, passes its
  -- test unless it is the upper end, and the number below it fails the test unless it is the lower
  -- end. The arithmetic on floating-point numbers is arbitrary.
  pub shard_coordination_slack-turns :
      (per_shard_capacity shard_count security_bits : ℕ)
      → 1 < shard_count
      → per_shard_capacity * shard_count < 2 ^ 64
      → (upper lower : ℕ) × IsTurn
          (upper_slack_fits per_shard_capacity shard_count security_bits)
          per_shard_capacity
          (per_shard_capacity * shard_count)
          upper
        × IsTurn
            (lower_slack_fits per_shard_capacity shard_count security_bits)
            0
            per_shard_capacity
            lower
        × (shard_coordination_slack f per_shard_capacity shard_count security_bits
            ≡ saturating_add (upper - per_shard_capacity) lower)
  unfolding shard_coordination_slack
  shard_coordination_slack-turns per_shard_capacity shard_count security_bits h fits = (
    _,
    _,
    bisect-IsTurn (upper_slack_fits per_shard_capacity shard_count security_bits)
        (per_shard_capacity * shard_count - per_shard_capacity) per_shard_capacity
        (per_shard_capacity * shard_count) (grind arith) (omega arith),
    bisect-IsTurn (lower_slack_fits per_shard_capacity shard_count security_bits) per_shard_capacity
        0 per_shard_capacity (omega arith) (omega arith),
    rw (mod-eq_of_lt fits) (ground arith),
  )
