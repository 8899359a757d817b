-- ===== src/Stash/Eviction.antt =====
-- `ObliviousStash::write_to_path` of crates/oram/src/oblivious_histogram/stash.rs: the real blocks are
-- assigned to the levels of a path, moved to their slots by a compaction and a distribution, and
-- copied to the tree. A mark or a count whose index is out of range, where the source panics, is not
-- written.
pub mod Levels
pub mod Layout
use roga.Base.{
  ℕ, zero, suc, ◌+◌, ◌-◌, ◌*◌, Option, none, some, List, [], ◌∷◌, ◌++◌, bit_and, bit_or, leb, ltb,
  ◌==◌, if◌then◌else◌, length, take, drop, replicate, resize, set, get_or,
}
use roga.External.{ScalarCmov, OramValue}
use roga.Ct.{ct_not, ct_lt}
use roga.Routing.{ct_is_real, ct_depth, ct_node_on_path, deepest_shared_level}
use roga.Block.{OramBlock, dummy, is_real, oram_block_cmov}
use roga.Reduction.{block_reducible}
use roga.Compaction.{compact_marks, compact_payload, distribute_payload}
use roga.Stash.{ObliviousStash, copy_slice}

-- `for level in (0..n_levels).rev()`, with `level_counts` and `assigned`.
unfoldable pub level_loop : ℕ → ℕ → ℕ → ℕ → List ℕ → ℕ → List ℕ × ℕ
unfolding ct_lt ct_not
level_loop z block_is_real block_level zero level_counts assigned = (level_counts, assigned)
level_loop z block_is_real block_level (suc level) level_counts assigned =
    let legal_level = ct_lt level (block_level + 1) in
    let bucket_not_full = ct_lt (get_or level_counts level 0) z in
    let should_assign =
      bit_and (bit_and (bit_and legal_level bucket_not_full) (ct_not assigned)) block_is_real in
    level_loop z block_is_real block_level level
      (set level_counts level (get_or level_counts level 0 + should_assign))
      (bit_or assigned should_assign)

-- The loop over the blocks, with `level_counts` and `overflow_count`.
unfoldable pub assign_loop : {V : Type 0} → ℕ → ℕ → ℕ → List (OramBlock V) → List ℕ → ℕ → List ℕ × ℕ
unfolding level_loop is_real deepest_shared_level ct_not
assign_loop z position height [] level_counts overflow_count = (level_counts, overflow_count)
assign_loop z position height (block ∷ blocks) level_counts overflow_count =
    let block_is_real = is_real block in
    let block_level = deepest_shared_level position block.tag height in
    let (level_counts', assigned) =
      level_loop z block_is_real block_level (height + 1) level_counts 0 in
    let should_overflow = bit_and block_is_real (ct_not assigned) in
    assign_loop z position height blocks level_counts' (overflow_count + should_overflow)

-- `for slot in slot..slot + n`, with `idx`, `prefix_sum` and `marks`.
unfoldable pub slot_loop : ℕ → ℕ → ℕ → ℕ × ℕ × List ℕ → ℕ × ℕ × List ℕ
unfolding ct_lt
slot_loop zero slot count (idx, prefix_sum, marks) = (idx, prefix_sum, marks)
slot_loop (suc n) slot count (idx, prefix_sum, marks) =
    let prefix_sum' = prefix_sum + ct_lt slot count in
    slot_loop n (slot + 1) count (idx + 1, prefix_sum', set marks idx prefix_sum')

-- `for &count in level_counts.iter().rev()`: the levels below the first argument, the deepest first.
unfoldable pub layout_loop : ℕ → ℕ → List ℕ → ℕ × ℕ × List ℕ → ℕ × ℕ × List ℕ
unfolding slot_loop
layout_loop z zero level_counts state = state
layout_loop z (suc level) level_counts state =
    layout_loop z level level_counts (slot_loop z 0 (get_or level_counts level 0) state)

unfoldable pub build_leaf_to_root_layout_marks : ℕ → List ℕ → List ℕ → ℕ → ℕ → ℕ → List ℕ
unfolding layout_loop slot_loop
build_leaf_to_root_layout_marks z marks level_counts overflow_count path_size len =
    let marks' = if length marks == len + 1 then marks else resize (len + 1) 0 marks in
    let state = layout_loop z (length level_counts) level_counts (1, 0, set marks' 0 0) in
    let (idx, prefix_sum, marks'') = slot_loop (len - path_size) 0 overflow_count state in marks''

module _ {V : Type 0} where
  -- `for depth in depth..depth + n`, which copies the buckets of the path into the tree.
  unfoldable pub copy_back :
      ℕ → ℕ → ℕ → ℕ → ℕ → List (OramBlock V) → List (OramBlock V) → Option (List (OramBlock V))
  unfolding copy_slice ct_node_on_path
  copy_back z position height zero depth blocks memory = some memory
  copy_back z position height (suc n) depth blocks memory =
      elim (copy_slice memory (ct_node_on_path position depth height * z) blocks
        ((height - depth) * z) z) [
          | none ↦ none
          | some memory' ↦ copy_back z position height n (depth + 1) blocks memory'
        ]

-- The stash and the tree afterwards.
unfoldable pub write_to_path :
    {V : Type 0} ⦃w : ScalarCmov ℕ⦄ ⦃p : ScalarCmov (List ℕ)⦄ ⦃v : OramValue V⦄
    → ℕ
    → ℕ
    → ObliviousStash V
    → List (OramBlock V)
    → ℕ
    → Option (ObliviousStash V × List (OramBlock V))
unfolding ct_depth assign_loop build_leaf_to_root_layout_marks compact_marks compact_payload
    distribute_payload copy_back dummy block_reducible
write_to_path z k self physical_memory position =
    let height = ct_depth position in
    let (level_counts, overflow_count) =
      assign_loop z position height self.blocks (replicate 32 0) 0 in
    let overflow_capacity = length self.blocks - self.path_size in
    let marks = compact_marks (block_reducible k) self.blocks self.compact_marks_buf in
    let layout =
      build_leaf_to_root_layout_marks z self.distribute_marks (take (height + 1) level_counts)
        overflow_count self.path_size (length self.blocks) in
    let moved = distribute_payload (compact_payload self.blocks marks) layout in
    if leb overflow_capacity overflow_count
    then none
    else elim (copy_back z position height (height + 1) 0 moved physical_memory) [
      | none ↦ none
      | some memory ↦ some (
        record {
          blocks = replicate self.path_size (dummy k) ++ drop self.path_size moved;
          path_size = self.path_size;
          sort_keys = self.sort_keys;
          insert_scratch = self.insert_scratch;
          compact_marks_buf = marks;
          distribute_marks = layout;
        },
        memory,
      )
    ]
