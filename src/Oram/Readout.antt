-- ===== src/Oram/Readout.antt =====
-- The readouts of oblivious_histogram/mod.rs. The readouts that run in parallel, over chunks that
-- do not overlap, are loops over the list of the chunks. The blocks are as many as the debug assertion
-- of `oblivious_tree_readout` says, so that its slices are in range. `into_readout_tree_aware` reuses memory and
-- has the result of `readout_tree_aware`.
use roga.Base.{
  ℕ, zero, suc, ◌+◌, ◌-◌, ◌*◌, ◌^◌, Bool, false, not, ◌||◌, Option, none, some, List, [], ◌∷◌, ◌++◌,
  ◌>>=◌, ◌>>◌, guard, ltb, ◌==◌, if◌then◌else◌, length, take, drop, replicate, ◌<<<◌,
}
use roga.External.{ScalarCmov, OramValue}
use roga.Ct.{ct_lt, word_cmov}
use roga.Routing
use roga.Routing.{routing_bits, max_tree_height, ilog2}
use roga.Block.{OramBlock, dummy, oram_block_cmov}
use roga.Reduction.{block_reducible, reduce_equal_runs}
use roga.Compaction.{compact_marks, compact_payload}
use roga.Sort.{sort_by}
use roga.Sort.Merge.{merge_sorted_by}
use roga.Oram.{Params, ObliviousHistogram, readout_len}
use roga.Oram.Order.{payload_gt, tree_readout_gt, lex_lt}

-- `n.is_power_of_two()` and `n.next_power_of_two()`.
unfoldable pub is_power_of_two : ℕ → Bool
unfolding ilog2
is_power_of_two n = if n == 0 then false else 2 ^ ilog2 n == n

unfoldable pub next_power_of_two : ℕ → ℕ
unfolding is_power_of_two ilog2
next_power_of_two n = if n == 0 then 1 else if is_power_of_two n then n else 2 ^ (ilog2 n + 1)

-- `chunks_exact(n)`, of which there are `count`.
unfoldable pub chunks : {A : Type 0} → ℕ → ℕ → List A → List (List A)
chunks n zero xs = []
chunks n (suc count) xs = take n xs ∷ chunks n count (drop n xs)

unfoldable pub concat : {A : Type 0} → List (List A) → List A
concat [] = []
concat (xs ∷ xss) = xs ++ concat xss

unfoldable pub sort_each : {A : Type 0} → (List A → List A) → List (List A) → List (List A)
sort_each sort [] = []
sort_each sort (xs ∷ xss) = sort xs ∷ sort_each sort xss

-- The greatest counter, as both readout and router find it.
unfoldable pub max_load_loop : ⦃w : ScalarCmov ℕ⦄ → ℕ → List ℕ → ℕ
unfolding ct_lt
max_load_loop max_load [] = max_load
max_load_loop ⦃w⦄ max_load (count ∷ counts) =
    max_load_loop (w.cmovnz max_load count (ct_lt max_load count)) counts

module _ {V : Type 0} ⦃w : ScalarCmov ℕ⦄ ⦃p : ScalarCmov (List ℕ)⦄ ⦃v : OramValue V⦄ where
  unfoldable pub oblivious_readout : ℕ → List (OramBlock V) → List (OramBlock V)
  unfolding sort_by payload_gt reduce_equal_runs compact_marks compact_payload block_reducible
  oblivious_readout k blocks =
      let reduced = reduce_equal_runs (block_reducible k) (sort_by blocks (payload_gt k)) in
      compact_payload reduced (compact_marks (block_reducible k) reduced [])

  -- `for depth in depth..depth + rounds`, with the blocks and the marks.
  unfoldable pub depth_loop :
      ℕ → ℕ → ℕ → ℕ → List (OramBlock V) → List ℕ → Option (List (OramBlock V) × List ℕ)
  unfolding chunks concat sort_each sort_by tree_readout_gt compact_marks compact_payload
      merge_sorted_by block_reducible
  depth_loop z k zero depth blocks marks = some (blocks, marks)
  depth_loop z k (suc rounds) depth blocks marks =
      let first_node = 1 <<< depth in
      let end_node = 1 <<< (depth + 1) in
      let level_start = first_node * z in
      let level_end = end_node * z in
      let level = take (level_end - level_start) (drop level_start blocks) in
      let sorted = concat (
        sort_each (λ bucket. sort_by bucket (tree_readout_gt k))
          (chunks z (end_node - first_node) level)) in
      let marks' = compact_marks (block_reducible k) sorted marks in
      let compacted = compact_payload sorted marks' in
      elim (merge_sorted_by (take level_start blocks ++ compacted) level_start
        (tree_readout_gt k)) [
          | none ↦ none
          | some merged ↦ depth_loop z k rounds (depth + 1) (merged ++ drop level_end blocks) marks'
        ]

  unfoldable pub oblivious_tree_readout :
      ℕ → ℕ → List (OramBlock V) → ℕ → ℕ → Option (List (OramBlock V))
  unfolding is_power_of_two oblivious_readout depth_loop sort_by merge_sorted_by tree_readout_gt
      reduce_equal_runs block_reducible
  oblivious_tree_readout z k blocks overflow_len height =
      let tree_len = (1 <<< (height + 1)) * z in
      if not (is_power_of_two overflow_len) || ltb tree_len overflow_len
      then some (oblivious_readout k blocks)
      else (do
        (levels, marks) ← depth_loop z k (height + 1) 0 blocks []
        merged ←
            merge_sorted_by
              (take tree_len levels ++ sort_by (drop tree_len levels) (tree_readout_gt k)) tree_len
              (tree_readout_gt k)
        some (reduce_equal_runs (block_reducible k) merged))

module _ {V F R : Type 0} ⦃w : ScalarCmov ℕ⦄ ⦃p : ScalarCmov (List ℕ)⦄ ⦃v : OramValue V⦄
    (c : Params) where
  -- The tree's blocks, and those of the overflow slots.
  unfoldable pub all_blocks : ObliviousHistogram V F R → List (OramBlock V)
  all_blocks self = self.physical_memory ++ drop self.stash.path_size self.stash.blocks

  unfoldable pub readout : ObliviousHistogram V F R → List (OramBlock V)
  unfolding all_blocks oblivious_readout
  readout self = oblivious_readout c.k (all_blocks self)

  -- `blocks` is overwritten.
  unfoldable pub readout_tree_aware_into :
      ObliviousHistogram V F R → List (OramBlock V) → Option (List (OramBlock V))
  unfolding all_blocks readout_len oblivious_tree_readout
  readout_tree_aware_into self blocks = do
    guard (length blocks == readout_len self)
    oblivious_tree_readout c.z c.k (all_blocks self)
        (length self.stash.blocks - self.stash.path_size) self.height

  unfoldable pub readout_tree_aware : ObliviousHistogram V F R → Option (List (OramBlock V))
  unfolding readout_tree_aware_into readout_len dummy
  readout_tree_aware self = readout_tree_aware_into self (replicate (readout_len self) (dummy c.k))

  unfoldable pub into_readout_tree_aware : ObliviousHistogram V F R → Option (List (OramBlock V))
  unfolding all_blocks oblivious_tree_readout
  into_readout_tree_aware self =
      oblivious_tree_readout c.z c.k (all_blocks self)
        (length self.stash.blocks - self.stash.path_size) self.height

-- `export_entries`: an entry is a tag, a key and a value.
module _ {V : Type 0} ⦃v : OramValue V⦄ where
  unfoldable pub only_real : List (OramBlock V) → List (OramBlock V)
  unfolding Routing.ct_is_real
  only_real [] = []
  only_real (block ∷ blocks) =
      if Routing.ct_is_real block.tag == 0 then only_real blocks else block ∷ only_real blocks

  -- A stable sort by the keys, which is what `sort_by_key` promises.
  unfoldable pub insert_by_key : OramBlock V → List (OramBlock V) → List (OramBlock V)
  unfolding lex_lt
  insert_by_key block [] = block ∷ []
  insert_by_key block (first ∷ blocks) =
      let later = first ∷ insert_by_key block blocks in
      if lex_lt first.payload block.payload then later else block ∷ (first ∷ blocks)

  unfoldable pub sort_by_key : List (OramBlock V) → List (OramBlock V)
  unfolding insert_by_key
  sort_by_key [] = []
  sort_by_key (block ∷ blocks) = insert_by_key block (sort_by_key blocks)

  -- The loop behind the first block, with `current_tag`, `current_payload` and `current_val`.
  unfoldable pub merge_duplicates : ℕ → List ℕ → V → List (OramBlock V) → List (ℕ × List ℕ × V)
  unfolding lex_lt
  merge_duplicates tag payload val [] = (tag, payload, val) ∷ []
  merge_duplicates tag payload val (block ∷ blocks) =
      let same = not (lex_lt block.payload payload || lex_lt payload block.payload) in
      let joined = merge_duplicates tag payload (v.add val block.value) blocks in
      let opened = merge_duplicates block.tag block.payload block.value blocks in
      if same then joined else (tag, payload, val) ∷ opened

  unfoldable pub merge_sorted : List (OramBlock V) → List (ℕ × List ℕ × V)
  unfolding merge_duplicates
  merge_sorted [] = []
  merge_sorted (first ∷ blocks) = merge_duplicates first.tag first.payload first.value blocks

unfoldable pub export_entries :
    {V F R : Type 0} ⦃v : OramValue V⦄ → ObliviousHistogram V F R → List (ℕ × List ℕ × V)
unfolding only_real sort_by_key merge_sorted
export_entries self =
    merge_sorted (sort_by_key (only_real (self.stash.blocks ++ self.physical_memory)))
