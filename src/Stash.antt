-- ===== src/Stash.antt =====
-- crates/oram/src/oblivious_histogram/stash.rs: the buffer of the blocks of a path and of those that
-- overflowed. The path buffer is the first `path_size` blocks. `none` is a panic: an overflow of the
-- stash, or a slice out of range. Z (blocks in a bucket), K (bytes of a key) and S (overflow
-- slots) are arguments. Metrics are left out.
pub mod Eviction
pub mod Insert
pub mod Remove
pub mod Prepared
pub mod Batch
pub mod Buckets
pub mod Copies
pub mod WriteBack
pub mod Paths
pub mod Exchange
use roga.Base.{
  ℕ, zero, suc, ◌+◌, ◌-◌, ◌*◌, ◌/◌, ◌^◌, ◌≡◌, Bool, ◌&&◌, not, Option, none, some, List, [], ◌∷◌,
  ◌++◌, bit_and, bit_or, ltb, leb, ◌==◌, if◌then◌else◌, to_bit, length, take, drop, replicate,
  resize, set, get_or,
}
use roga.External.{ScalarCmov, CmovEq, OramValue}
use roga.Ct.{ct_not, ct_lt, ct_eq, ct_eq_bytes, cmov_array, word_cmov}
use roga.Routing.{ct_is_real, to_leaf, ct_depth, ct_node_on_path}
use roga.Block.{OramBlock, dummy, is_real, conditional_dummy, assign_if, oram_block_cmov}
use roga.Reduction.{block_reducible}
use roga.Compaction.{mark, compact_marks, compact_payload}

pub record ObliviousStash (V : Type 0) : Type 0 where
  pub blocks : List (OramBlock V)
  pub path_size : ℕ
  pub sort_keys : List ℕ
  pub insert_scratch : List (OramBlock V)
  pub compact_marks_buf : List ℕ
  pub distribute_marks : List ℕ

-- `dst[i..i + n].copy_from_slice(&src[j..j + n])`
unfoldable pub copy_slice : {A : Type 0} → List A → ℕ → List A → ℕ → ℕ → Option (List A)
copy_slice dst i src j n =
    if leb (i + n) (length dst) && leb (j + n) (length src)
    then some (take i dst ++ (take n (drop j src) ++ drop (i + n) dst))
    else none

module _ {V : Type 0} ⦃v : OramValue V⦄ where
  unfoldable pub new : ℕ → ℕ → ℕ → ObliviousStash V
  unfolding dummy
  new k s path_size =
      let len = path_size + s in
      record {
        blocks = replicate len (dummy k);
        path_size = path_size;
        sort_keys = replicate len 0;
        insert_scratch = [];
        compact_marks_buf = [];
        distribute_marks = [];
      }

unfoldable pub identity_eq : {V : Type 0} → ℕ → OramBlock V → List ℕ → ℕ
unfolding ct_eq_bytes
identity_eq k block target = ct_eq_bytes k block.payload target

unfoldable pub count_matching_blocks_in :
    {V : Type 0} ⦃e : CmovEq ℕ⦄ → List (OramBlock V) → ℕ → ℕ → ℕ → ℕ
unfolding ct_is_real to_leaf
count_matching_blocks_in [] height target_leaf target_epoch = 0
count_matching_blocks_in (block ∷ blocks) height target_leaf target_epoch =
    let matches =
      bit_and (bit_and (ct_is_real block.tag) (ct_eq (to_leaf block.tag height) target_leaf))
        (ct_eq block.epoch target_epoch) in
    matches + count_matching_blocks_in blocks height target_leaf target_epoch

module _ {V : Type 0} where
  unfoldable pub count_matching_blocks : ⦃e : CmovEq ℕ⦄ → ObliviousStash V → ℕ → ℕ → ℕ → ℕ
  unfolding count_matching_blocks_in
  count_matching_blocks self height target_leaf target_epoch =
      count_matching_blocks_in self.blocks height target_leaf target_epoch

  unfoldable pub count_blocks_with_in : (ℕ → ℕ → Bool) → List (OramBlock V) → ℕ
  unfolding ct_is_real
  count_blocks_with_in pred [] = 0
  count_blocks_with_in pred (block ∷ blocks) =
      to_bit (not (ct_is_real block.tag == 0) && pred block.tag block.epoch)
      + count_blocks_with_in pred blocks

  unfoldable pub count_blocks_with : ObliviousStash V → (ℕ → ℕ → Bool) → ℕ
  unfolding count_blocks_with_in
  count_blocks_with self pred = count_blocks_with_in pred self.blocks

  unfoldable pub sum_real : List (OramBlock V) → ℕ
  unfolding is_real
  sum_real [] = 0
  sum_real (block ∷ blocks) = is_real block + sum_real blocks

  unfoldable pub occupancy : ObliviousStash V → ℕ
  unfolding sum_real
  occupancy self = sum_real (drop self.path_size self.blocks)

  unfoldable pub with_blocks : ObliviousStash V → List (OramBlock V) → ObliviousStash V
  with_blocks self blocks = record {
    blocks = blocks;
    path_size = self.path_size;
    sort_keys = self.sort_keys;
    insert_scratch = self.insert_scratch;
    compact_marks_buf = self.compact_marks_buf;
    distribute_marks = self.distribute_marks;
  }

module _ {V : Type 0} ⦃w : ScalarCmov ℕ⦄ ⦃p : ScalarCmov (List ℕ)⦄ ⦃v : OramValue V⦄ where
  -- The loop of `read_and_remove`: the result's value and key, and the blocks afterwards.
  unfoldable pub remove_loop :
      ℕ → List ℕ → V → List ℕ → List (OramBlock V) → V × List ℕ × List (OramBlock V)
  unfolding identity_eq is_real cmov_array conditional_dummy
  remove_loop k payload result_value result_payload [] = (result_value, result_payload, [])
  remove_loop k payload result_value result_payload (block ∷ blocks) =
      let is_target = bit_and (identity_eq k block payload) (is_real block) in
      let result_value' = v.scalar.cmovnz result_value block.value is_target in
      let result_payload' = cmov_array result_payload block.payload (not (is_target == 0)) in
      let (value, found, rest) = remove_loop k payload result_value' result_payload' blocks in
      (value, found, conditional_dummy block is_target ∷ rest)

  unfoldable pub read_and_remove : ℕ → ObliviousStash V → List ℕ → V × List ℕ × ObliviousStash V
  unfolding remove_loop with_blocks
  read_and_remove k self payload =
      let (value, found, blocks) = remove_loop k payload v.default (replicate k 0) self.blocks in
      (value, found, with_blocks self blocks)

  -- The loop of `insert`, over the overflow slots: these afterwards, and the flag `placed`.
  unfoldable pub insert_loop : ℕ → ℕ → V → List ℕ → ℕ → List (OramBlock V) → List (OramBlock V) × ℕ
  unfolding is_real ct_not assign_if
  insert_loop tag epoch value payload placed [] = ([], placed)
  insert_loop tag epoch value payload placed (block ∷ blocks) =
      let is_dummy = ct_not (is_real block) in
      let put = bit_and is_dummy (ct_not placed) in
      let block' = assign_if block tag epoch value payload put in
      let (rest, placed') = insert_loop tag epoch value payload (bit_or placed put) blocks in
      (block' ∷ rest, placed')

  unfoldable pub insert : ObliviousStash V → ℕ → ℕ → V → List ℕ → Option (ObliviousStash V)
  unfolding insert_loop with_blocks
  insert self tag epoch value payload =
      let (overflow, placed) =
        insert_loop tag epoch value payload 0 (drop self.path_size self.blocks) in
      if placed == 0
      then none
      else some (with_blocks self (take self.path_size self.blocks ++ overflow))

  -- The blocks that the loop over `update_at` writes, from its index `i` on. An update is a tag, an
  -- epoch, a value, a key and the flag of a real update.
  unfoldable pub prepared : ℕ → ℕ → ℕ → (ℕ → ℕ × ℕ × V × List ℕ × ℕ) → List (OramBlock V)
  unfolding dummy assign_if
  prepared k zero i update_at = []
  prepared k (suc count) i update_at =
      let (tag, epoch, value, payload, is_real_update) = update_at i in
      assign_if (dummy k) tag epoch value payload (bit_and is_real_update 1)
      ∷ prepared k count (i + 1) update_at

  -- The loop that makes the blocks from `real_len` on dummies, from the index `i` on.
  unfoldable pub clear_from : ℕ → ℕ → List (OramBlock V) → List (OramBlock V)
  unfolding ct_lt ct_not conditional_dummy
  clear_from real_len i [] = []
  clear_from real_len i (block ∷ blocks) =
      conditional_dummy block (ct_not (ct_lt i real_len)) ∷ clear_from real_len (i + 1) blocks

  -- `insert_scratch` is cut to the overflow slots' number, and both it and the updates are written over.
  unfoldable pub insert_batch :
      ℕ → ObliviousStash V → ℕ → (ℕ → ℕ × ℕ × V × List ℕ × ℕ) → Option (ObliviousStash V)
  unfolding prepared clear_from compact_marks compact_payload block_reducible
  insert_batch k self count update_at =
      let overflow = drop self.path_size self.blocks in
      let overflow_len = length self.blocks - self.path_size in
      let work_len = overflow_len + count in
      let scratch = overflow ++ prepared k count 0 update_at in
      let marks = compact_marks (block_reducible k) scratch self.compact_marks_buf in
      let real_len = mark marks work_len in
      let cleared = clear_from real_len 0 (compact_payload scratch marks) in
      if ltb overflow_len real_len
      then none
      else some (record {
        blocks = take self.path_size self.blocks ++ take overflow_len cleared;
        path_size = self.path_size;
        sort_keys = self.sort_keys;
        insert_scratch = cleared;
        compact_marks_buf = marks;
        distribute_marks = self.distribute_marks;
      })

  unfoldable pub grow_extend_path_buffer : ℕ → ℕ → ObliviousStash V → ObliviousStash V
  unfolding dummy
  grow_extend_path_buffer z k self =
      let blocks' =
        take self.path_size self.blocks
        ++ (replicate z (dummy k) ++ drop self.path_size self.blocks) in
      record {
        blocks = blocks';
        path_size = self.path_size + z;
        sort_keys = resize (length blocks') 0 self.sort_keys;
        insert_scratch = self.insert_scratch;
        compact_marks_buf = self.compact_marks_buf;
        distribute_marks = self.distribute_marks;
      }

  unfoldable pub read_sibling_bucket :
      ℕ → ℕ → ObliviousStash V → List (OramBlock V) → ℕ → Option (ObliviousStash V)
  unfolding copy_slice dummy
  read_sibling_bucket z k self physical_memory sibling_leaf =
      let scratch =
        if ltb (length self.insert_scratch) z
        then resize z (dummy k) self.insert_scratch
        else self.insert_scratch in
      elim (copy_slice scratch 0 physical_memory (sibling_leaf * z) z) [
        | none ↦ none
        | some scratch' ↦ some (record {
          blocks = self.blocks;
          path_size = self.path_size;
          sort_keys = self.sort_keys;
          insert_scratch = scratch';
          compact_marks_buf = self.compact_marks_buf;
          distribute_marks = self.distribute_marks;
        })
      ]

module _ {V : Type 0} where
  -- The loop of `read_from_path`, over the depths below the second argument, from the deepest on. A
  -- depth above the height, at which the source would subtract below zero, must not be reached.
  unfoldable pub read_loop :
      ℕ → ℕ → List (OramBlock V) → ℕ → ℕ → List (OramBlock V) → Option (List (OramBlock V))
  unfolding copy_slice ct_node_on_path
  read_loop z zero memory position height blocks = some blocks
  read_loop z (suc depth) memory position height blocks =
      elim (copy_slice blocks (depth * z) memory (ct_node_on_path position depth height * z) z) [
        | none ↦ none
        | some blocks' ↦ read_loop z depth memory position height blocks'
      ]

  -- A `z` of zero, which divides, is a panic too.
  unfoldable pub read_from_path :
      ℕ → ObliviousStash V → List (OramBlock V) → ℕ → Option (ObliviousStash V)
  unfolding read_loop ct_depth with_blocks
  read_from_path z self memory position =
      let height = ct_depth position in
      if z == 0
      then none
      else elim (read_loop z (self.path_size / z) memory position height self.blocks) [
        | none ↦ none
        | some blocks ↦ some (with_blocks self blocks)
      ]
