-- ===== src/Tests/Stash.antt =====
-- Tests of the stash: two slots of a path buffer and four overflow slots, with keys of two bytes.
use roga.Base.{
  ℕ, ◌+◌, ◌≡◌, refl, arith, List, [], ◌∷◌, none, some, drop, replicate, for_range, leading_zeros,
  resize,
}
use roga.Tests.Fixtures.{
  plain_cmov, word_value, key_a, key_b, block, tag_block, sample, sample-AreBlocks,
}
use roga.Ct.{word_cmov, primitive_cmov, cxchg, cswap_fast, ct_lt, ct_not}
use roga.Ct.Bytes.{bytes_eq}
use roga.Routing.{
  ct_is_real, ct_depth, ct_node_on_path, deepest_shared_level, to_leaf, address_to_leaf,
}
use roga.Block.{
  OramBlock, is_real, dummy, conditional_dummy, assign_if, block_cmov, oram_block_cmov,
}
use roga.Block.Laws.{AreBlocks}
use roga.Reduction.{block_reducible}
use roga.Reduction.Totals.{gathered}
use roga.Compaction.{
  floor_pow2, pair_choice, left_offset, right_offset, half_choice, swap_loop, swap_pair,
  compact_pow2, compact_fuel, compact_payload, distribute_pow2, distribute_fuel, distribute_payload,
  compact_marks, compact_marks_loop,
}
use roga.Stash.{
  ObliviousStash, insert, insert_batch, prepared, read_and_remove, with_blocks, occupancy, sum_real,
  copy_slice,
}
use roga.Stash.Insert.{Inserted, insert-Inserted}
use roga.Stash.Remove.{removed, read_and_remove_lem, read_and_remove-gathered}
use roga.Stash.Prepared.{Update, requested}
use roga.Stash.Batch.{Batched, insert_batch-Batched, insert_batch-full}
use roga.Stash.Eviction.{
  level_loop, assign_loop, slot_loop, layout_loop, build_leaf_to_root_layout_marks, copy_back,
  write_to_path,
}
use roga.Stash.Eviction.Levels.{deepest_free, Assigned, level_loop_lem, assign_loop_lem}

abbrev stash_of : List (OramBlock ℕ) → ObliviousStash ℕ
stash_of overflow = record {
  blocks = block 0 0 0 key_a ∷ block 0 0 0 key_a ∷ overflow;
  path_size = 2;
  sort_keys = [];
  insert_scratch = [];
  compact_marks_buf = [];
  distribute_marks = [];
}

abbrev slots : List (OramBlock ℕ)
slots = block 7 3 10 key_a ∷ block 0 0 0 key_a ∷ block 9 2 30 key_b ∷ block 0 0 0 key_a ∷ []

abbrev full_slots : List (OramBlock ℕ)
full_slots = block 7 3 10 key_a ∷ []

slots-AreBlocks : AreBlocks 2 slots
slots-AreBlocks = (
  tag_block 7 3 10 2 (omega arith) (omega arith) (omega arith),
  (
    tag_block 0 0 0 2 (omega arith) (omega arith) (omega arith),
    (
      tag_block 9 2 30 3 (omega arith) (omega arith) (omega arith),
      (tag_block 0 0 0 2 (omega arith) (omega arith) (omega arith), tt),
    ),
  ),
)

full_slots-AreBlocks : AreBlocks 2 full_slots
full_slots-AreBlocks = (tag_block 7 3 10 2 (omega arith) (omega arith) (omega arith), tt)

abbrev updates : ℕ → Update ℕ
updates i = (5 + i, 1, 100, key_b, 1)

-- A real block descends to the leaf, and the tree gets it there.
write_to_path-leaf :
    (elim (write_to_path 1 2
      (stash_of (block 5 3 10 key_a ∷ block 0 0 0 key_a ∷ []))
      (replicate 4 (block 0 0 0 key_a))
      2) [ none ↦ [] | some r ↦ r.1 ])
    ≡ block 0 0 0 key_a ∷ block 0 0 0 key_a ∷ block 5 3 10 key_a ∷ block 0 0 0 key_a ∷ []
unfolding write_to_path ct_depth ct_node_on_path assign_loop level_loop
    build_leaf_to_root_layout_marks layout_loop slot_loop copy_back copy_slice compact_marks
    compact_marks_loop compact_payload compact_fuel compact_pow2 distribute_payload distribute_fuel
    distribute_pow2 swap_loop swap_pair half_choice right_offset left_offset pair_choice floor_pow2
    for_range cswap_fast cxchg primitive_cmov leading_zeros dummy block_reducible is_real ct_is_real
    conditional_dummy deepest_shared_level to_leaf address_to_leaf ct_lt ct_not block_cmov resize
write_to_path-leaf = refl

insert-Inserted_example :
    Inserted (stash_of slots) (block 8 1 40 key_b) (insert (stash_of slots) 8 1 40 key_b)
unfolding occupancy sum_real is_real ct_is_real
insert-Inserted_example =
    insert-Inserted 2 8 1 40 key_b (stash_of slots)
      (tag_block 8 1 40 3 (omega arith) (omega arith) (omega arith)) slots-AreBlocks (omega arith)

read_and_remove_lem_example :
    read_and_remove 2 (stash_of (drop 2 sample)) key_b
    ≡ (30, key_b, stash_of (block 7 1 20 key_a ∷ block 0 0 5 key_b ∷ block 0 2 30 key_b ∷ []))
unfolding gathered removed bytes_eq with_blocks
read_and_remove_lem_example =
    read_and_remove_lem 2 key_b (omega arith, (omega arith, tt)) refl (stash_of (drop 2 sample))
      (
        tag_block 0 0 0 2 (omega arith) (omega arith) (omega arith),
        (tag_block 0 0 0 2 (omega arith) (omega arith) (omega arith), sample-AreBlocks.1.1),
      )

read_and_remove-gathered_example :
    let after = (read_and_remove 2 (stash_of slots) key_b).2 in
    (gathered (λ b. b.value) (λ x y. x + y) key_b after.blocks ≡ none)
    × (gathered (λ b. b.value) (λ x y. x + y) key_a after.blocks ≡ some 10)
unfolding gathered bytes_eq
read_and_remove-gathered_example =
    read_and_remove-gathered (λ b. b.value) (λ x y. x + y) 2 key_b key_a (stash_of slots)
      (omega arith, (omega arith, tt)) refl
      (
        tag_block 0 0 0 2 (omega arith) (omega arith) (omega arith),
        (tag_block 0 0 0 2 (omega arith) (omega arith) (omega arith), slots-AreBlocks),
      )
      refl

updates-AreBlocks : AreBlocks 2 (prepared 2 2 0 updates)
unfolding prepared assign_if block_cmov
updates-AreBlocks = (
  tag_block 5 1 100 3 (omega arith) (omega arith) (omega arith),
  (tag_block 6 1 100 3 (omega arith) (omega arith) (omega arith), tt),
)

insert_batch-Batched_example :
    Batched
      (stash_of slots)
      (block 5 1 100 key_b ∷ block 6 1 100 key_b ∷ [])
      (insert_batch 2 (stash_of slots) 2 updates)
unfolding requested
insert_batch-Batched_example =
    insert_batch-Batched 2 (stash_of slots) 2 updates slots-AreBlocks updates-AreBlocks
      (omega arith) (omega arith) (omega arith)

insert_batch-full_example : insert_batch 2 (stash_of full_slots) 2 updates ≡ none
unfolding requested
insert_batch-full_example =
    insert_batch-full 2 (stash_of full_slots) 2 updates full_slots-AreBlocks updates-AreBlocks
      (omega arith) (omega arith) (omega arith)

level_loop_lem_example : level_loop 2 1 2 4 (0 ∷ 1 ∷ 2 ∷ 0 ∷ []) 0 ≡ (0 ∷ 2 ∷ 2 ∷ 0 ∷ [], 1)
unfolding deepest_free
level_loop_lem_example =
    level_loop_lem 2 2 (omega arith) (omega arith) 4 (0 ∷ 1 ∷ 2 ∷ 0 ∷ []) (omega arith)
      (omega arith, (omega arith, (omega arith, (omega arith, tt))))

assign_loop_lem_example : Assigned 2 3 0 4 (assign_loop 2 11 3 sample (0 ∷ 0 ∷ 0 ∷ 0 ∷ []) 0)
unfolding sum_real is_real ct_is_real
assign_loop_lem_example =
    assign_loop_lem 2 2 11 3 (omega arith) (omega arith) (omega arith) sample (0 ∷ 0 ∷ 0 ∷ 0 ∷ []) 0
      sample-AreBlocks (omega arith, (omega arith, (omega arith, (omega arith, tt)))) (omega arith)
