-- ===== src/Tests/Oram.antt =====
-- Tests of a tree: buckets of two blocks, keys of two bytes, an eviction at every second append and four
-- overflow slots.
use roga.Base.{
  ℕ, ◌+◌, ◌≡◌, refl, arith, true, ◌||◌, ◌&&◌, not, to_bit, ltb, [], ◌∷◌, none, some, Option, ◌>>=◌,
  replicate, for_range, leading_zeros, resize,
}
use roga.Tests.Fixtures.{
  plain_cmov, plain_eq, word_value, identity_cipher, key_a, key_b, block, tag_block,
}
use roga.Tests.Numbers.{whole, counter}
use roga.Block.{dummy}
use roga.Routing.{tree_height_for_capacity, ilog2}
use roga.Stash
use roga.Ct.{primitive_cmov}
use roga.Compaction.{
  floor_pow2, pair_choice, left_offset, right_offset, half_choice, swap_loop, swap_pair,
  compact_pow2, compact_fuel, distribute_pow2, distribute_fuel,
}
use roga.Oram.{Params, ObliviousHistogram, new}
use roga.Oram.Ops.{append, read_total, batch_loop, append_prepared_masked_batch}
use roga.Oram.Batch.{append_prepared_masked_batch-fuel}
use roga.Oram.Order.{payload_gt, tree_readout_gt, readout_order, lex_lt}
use roga.Oram.Order.Lex.{comes_after, payload_gt_lem, tree_readout_gt_lem}

abbrev pub small : Params
small = record { z = 2; k = 2; a = 2; s = 4 }

-- A tree of height 1 with nothing in it.
abbrev pub empty_tree : ObliviousHistogram ℕ ℕ ℕ
empty_tree = record {
  physical_memory = replicate 8 (block 0 0 0 (0 ∷ 0 ∷ []));
  stash = record {
    blocks = replicate 8 (block 0 0 0 (0 ∷ 0 ∷ []));
    path_size = 4;
    sort_keys = replicate 8 0;
    insert_scratch = [];
    compact_marks_buf = [];
    distribute_marks = [];
  };
  height = 1;
  epoch = 0;
  prf = identity_cipher;
  append_ctr = 0;
  evict_ctr = 0;
  sweep_end = 0;
  auto_resize = none;
  filler_ctr = 0;
  peak_overflow = 0;
}

new-four : new counter (λ key. identity_cipher) small 4 7 ≡ some (empty_tree, 8)
unfolding new tree_height_for_capacity ilog2 leading_zeros Stash.new dummy
new-four = refl

append_prepared_masked_batch-fuel_example :
    batch_loop whole counter small 8 empty_tree 0 3 (λ i. (i + 5, i, key_a, 1))
    ≡ append_prepared_masked_batch whole counter small empty_tree 3 (λ i. (i + 5, i, key_a, 1))
append_prepared_masked_batch-fuel_example =
    append_prepared_masked_batch-fuel whole counter small empty_tree 3 5 (λ i. (i + 5, i, key_a, 1))

payload_gt_lem_example :
    payload_gt 2 (block 7 0 1 key_b) (block 9 0 1 key_a)
    ≡ to_bit (comes_after true true (lex_lt key_a key_b))
payload_gt_lem_example =
    payload_gt_lem 2 (block 7 0 1 key_b) (block 9 0 1 key_a)
      (tag_block 7 0 1 3 (omega arith) (omega arith) (omega arith))
      (tag_block 9 0 1 2 (omega arith) (omega arith) (omega arith))

tree_readout_gt_lem_example :
    tree_readout_gt 2 (block 7 0 1 key_b) (block 9 0 1 key_a)
    ≡ to_bit (
        comes_after true true (
          ltb (readout_order (block 9 0 1 key_a)) (readout_order (block 7 0 1 key_b))
          || (not (ltb (readout_order (block 7 0 1 key_b)) (readout_order (block 9 0 1 key_a)))
              && lex_lt key_a key_b)))
tree_readout_gt_lem_example =
    tree_readout_gt_lem 2 (block 7 0 1 key_b) (block 9 0 1 key_a)
      (tag_block 7 0 1 3 (omega arith) (omega arith) (omega arith))
      (tag_block 9 0 1 2 (omega arith) (omega arith) (omega arith))

-- Three appends, with an eviction after the second, and a read.
abbrev run : Option ℕ
run = do
  t₁ ← append whole counter small empty_tree key_a 3
  t₂ ← append whole counter small t₁ key_b 10
  t₃ ← append whole counter small t₂ key_a 4
  (total, t₄) ← read_total whole counter small t₃ key_a
  some total

run-seven : run ≡ some 7
unfolding append read_total for_range leading_zeros resize primitive_cmov distribute_fuel
    compact_fuel floor_pow2 compact_pow2 swap_loop swap_pair distribute_pow2 pair_choice left_offset
    right_offset half_choice
run-seven = refl
