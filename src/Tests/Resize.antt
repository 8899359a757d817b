-- ===== src/Tests/Resize.antt =====
-- Tests of the decision to resize and of the bisections that it rests on.
use roga.Base.{
  ℕ, ◌-◌, ◌≤◌, ◌<◌, ◌≡◌, refl, arith, ◌^◌, pos, ◌-ℤ◌, saturating_add, wrapping_sub_i64, leb, ◌⊎◌,
  none, some,
}
use roga.Tests.Numbers.{whole, counter}
use roga.Ct.{ct_lt}
use roga.Binomial.{bisect, suggested_per_shard_quota, shard_coordination_slack}
use roga.Binomial.Bisection.{
  IsTurn, quota_fits, upper_slack_fits, lower_slack_fits, suggested_per_shard_quota-IsTurn,
  shard_coordination_slack-turns,
}
use roga.Resize.{CtDiscreteLaplace, geometric_loop, geometric_with, sample_with}
use roga.Resize.Sampler.{advance, run_length, sample_with_lem}

bisect-third : bisect (λ n. leb 7 n) 20 3 20 ≡ 7
unfolding bisect
bisect-third = refl

suggested_per_shard_quota-IsTurn_example :
    ((◌≡◌ {A = ℕ} 4 0) × (suggested_per_shard_quota whole 9 4 2 ≡ none))
    ⊎ ((0 < 4)
        × (quota : ℕ) × (suggested_per_shard_quota whole 9 4 2 ≡ some quota)
        × IsTurn (quota_fits whole 9 4 2) 2 9 quota)
suggested_per_shard_quota-IsTurn_example = suggested_per_shard_quota-IsTurn whole 9 4 2

shard_coordination_slack-turns_example :
    (upper lower : ℕ) × IsTurn (upper_slack_fits whole 5 2 3) 5 10 upper
    × IsTurn (lower_slack_fits whole 5 2 3) 0 5 lower
    × (shard_coordination_slack whole 5 2 3 ≡ saturating_add (upper - 5) lower)
shard_coordination_slack-turns_example =
    shard_coordination_slack-turns whole 5 2 3 (omega arith) (omega arith)

abbrev small_sampler : CtDiscreteLaplace
small_sampler = record { failure_cutoff = 2 ^ 47; trials = 3 }

words : (rng : ℕ) → (counter.random rng).0 < 2 ^ 64
words rng = omega arith

-- Of the draws 0, 1/4 and 1/2 two are below the cutoff, and of 3/4, 0 and 1/4 none comes first.
sample_with-small : sample_with small_sampler counter.random 0 ≡ (pos 2, 6)
unfolding sample_with geometric_with geometric_loop ct_lt wrapping_sub_i64
sample_with-small = refl

sample_with_lem_example :
    (sample_with small_sampler counter.random 0 ≡ (
      pos (run_length counter.random (2 ^ 47) 3 0)
          -ℤ pos (run_length counter.random (2 ^ 47) 3 (advance counter.random 3 0)),
      advance counter.random 6 0,
    ))
    × (run_length counter.random (2 ^ 47) 3 0 ≤ 3)
    × (run_length counter.random (2 ^ 47) 3 (advance counter.random 3 0) ≤ 3)
sample_with_lem_example =
    sample_with_lem counter.random small_sampler words (omega arith) (omega arith) 0
