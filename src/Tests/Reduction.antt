-- ===== src/Tests/Reduction.antt =====
-- Tests of the reduction and of the addition of flow records.
use roga.Base.{◌≡◌, refl, [], ◌∷◌, min, some, wrapping_add}
use roga.Tests.Fixtures.{
  plain_cmov, word_value, wrapping_add_assoc, key_a, key_b, block, sample, sample-AreBlocks,
}
use roga.Ct.{ct_eq_bytes, ct_min_u8, ct_lt_u8, ct_not, fold_difference, from_bytes, is_zero_u64}
use roga.Ct.Bytes.{bytes_eq}
use roga.Routing.{ct_is_real}
use roga.Block.{is_real, ct_identity_eq, conditional_dummy}
use roga.Reduction.{
  block_reducible, reduce_loop, reduce_equal_runs_with_accumulator, reduce_equal_runs,
}
use roga.Reduction.Runs.{merge_runs, reduce_equal_runs_with_accumulator_lem}
use roga.Reduction.Totals.{gathered, reduce_equal_runs-totals}
use roga.Reduction.Counts.{count_live, count_runs, reduce_equal_runs-count}

reduce_equal_runs-sample :
    reduce_equal_runs (block_reducible 2) sample
    ≡ block 0 0 0 key_a
      ∷ block 0 3 10 key_a
      ∷ block 7 1 30 key_a
      ∷ block 0 0 5 key_b
      ∷ block 9 2 30 key_b
      ∷ []
unfolding reduce_equal_runs reduce_equal_runs_with_accumulator reduce_loop block_reducible is_real
    ct_identity_eq conditional_dummy ct_is_real ct_eq_bytes ct_min_u8 ct_lt_u8 ct_not
    fold_difference from_bytes is_zero_u64
reduce_equal_runs-sample = refl

reduce_equal_runs_with_accumulator_lem_example :
    reduce_equal_runs_with_accumulator (block_reducible 2) wrapping_add sample
    ≡ merge_runs wrapping_add sample
reduce_equal_runs_with_accumulator_lem_example =
    reduce_equal_runs_with_accumulator_lem 2 wrapping_add sample sample-AreBlocks

reduce_equal_runs-totals_example :
    let after = reduce_equal_runs_with_accumulator (block_reducible 2) wrapping_add sample in
    (gathered (λ b. b.value) wrapping_add key_a after ≡ some 30)
    × (gathered (λ b. b.epoch) min key_a after ≡ some 1)
unfolding gathered bytes_eq
reduce_equal_runs-totals_example =
    reduce_equal_runs-totals 2 wrapping_add key_a sample wrapping_add_assoc sample-AreBlocks

reduce_equal_runs-count_example :
    count_live key_a (reduce_equal_runs_with_accumulator (block_reducible 2) wrapping_add sample)
    ≡ 1
unfolding count_runs bytes_eq
reduce_equal_runs-count_example =
    reduce_equal_runs-count 2 wrapping_add key_a sample sample-AreBlocks
