-- ===== src/Oram/Subtree.antt =====
-- `readout_subtree_partitioned` of oblivious_histogram/mod.rs: the upper part of the tree is sorted and
-- spread over the inboxes of the lower subtrees, each of which is then read out alone.
use roga.Base.{
  ℕ, zero, suc, ◌+◌, ◌-◌, ◌*◌, Option, none, some, List, [], ◌∷◌, ◌++◌, ltb, leb, if◌then◌else◌,
  max, bit_and, resize, length, take, drop, replicate, ◌<<<◌, ◌>>>◌,
}
use roga.External.{ScalarCmov, CmovEq, OramValue, Float}
use roga.Ct.{ct_lt, word_cmov}
use roga.Routing.{routing_bits, max_tree_height}
use roga.Block.{OramBlock, dummy, is_real, oram_block_cmov}
use roga.Reduction.{block_reducible, reduce_equal_runs}
use roga.Compaction.{mark, compact_marks, compact_payload, distribute_payload}
use roga.Sort.{sort_by}
use roga.Stash.{copy_slice}
use roga.Router.{build_distribute_marks_router, tally}
use roga.Binomial.{suggested_per_shard_quota}
use roga.Oram.{Params, ObliviousHistogram}
use roga.Oram.Order.{tree_readout_gt}
use roga.Oram.Readout.{next_power_of_two, max_load_loop, oblivious_tree_readout, readout_tree_aware}

pub record SubtreeReadoutOverflow : Type 0 where
  pub max_load : ℕ
  pub inbox_len : ℕ
  pub subtree_count : ℕ

-- `Result`, whose `Ok` is a list of blocks.
pub data SubtreeReadout (V : Type 0) : Type 0 where
  ok : List (OramBlock V) → SubtreeReadout V
  err : SubtreeReadoutOverflow → SubtreeReadout V

-- `Ok` of a result that may be a panic.
unfoldable pub as_ok : {V : Type 0} → Option (List (OramBlock V)) → Option (SubtreeReadout V)
as_ok none = none
as_ok (some blocks) = some (ok blocks)

-- The loop over the upper blocks, from the index `i` on, with `counts`.
unfoldable pub destination_loop :
    {V : Type 0} ⦃e : CmovEq ℕ⦄ → ℕ → ℕ → ℕ → List (OramBlock V) → List ℕ → List ℕ
unfolding tally ct_lt is_real routing_bits
destination_loop cut_depth real_upper_len i [] counts = counts
destination_loop cut_depth real_upper_len i (block ∷ blocks) counts =
    let active = bit_and (ct_lt i real_upper_len) (is_real block) in
    let destination = routing_bits block.tag >>> (max_tree_height - cut_depth) in
    destination_loop cut_depth real_upper_len (i + 1) blocks (tally active destination 0 counts)

module _ {V : Type 0} ⦃w : ScalarCmov ℕ⦄ ⦃p : ScalarCmov (List ℕ)⦄ ⦃v : OramValue V⦄ where
  -- `for local_depth in local_depth..local_depth + rounds`, which copies one level of a subtree.
  unfoldable pub gather_loop :
      ℕ → List (OramBlock V) → ℕ → ℕ → ℕ → ℕ → List (OramBlock V) → Option (List (OramBlock V))
  unfolding copy_slice
  gather_loop z memory cut_depth subtree zero local_depth chunk = some chunk
  gather_loop z memory cut_depth subtree (suc rounds) local_depth chunk =
      let nodes_at_depth = 1 <<< local_depth in
      let global_depth = cut_depth + local_depth in
      let global_first_node = (1 <<< global_depth) + subtree * nodes_at_depth in
      let source_start = global_first_node * z in
      let destination_start = nodes_at_depth * z in
      elim (copy_slice chunk destination_start memory source_start (nodes_at_depth * z)) [
        | none ↦ none
        | some chunk' ↦ gather_loop z memory cut_depth subtree rounds (local_depth + 1) chunk'
      ]

  -- One chunk of the output, that of the given subtree.
  unfoldable pub subtree_chunk :
      ℕ → ℕ → List (OramBlock V) → List (OramBlock V) → ℕ → ℕ → ℕ → ℕ → Option (List (OramBlock V))
  unfolding gather_loop copy_slice oblivious_tree_readout dummy
  subtree_chunk z k memory upper cut_depth local_height inbox_len subtree =
      let local_tree_len = (1 <<< (local_height + 1)) * z in
      let blank = replicate (local_tree_len + inbox_len) (dummy k) in
      elim (gather_loop z memory cut_depth subtree (local_height + 1) 0 blank) [
        | none ↦ none
        | some chunk ↦
            elim (copy_slice chunk local_tree_len upper (subtree * inbox_len) inbox_len) [
              | none ↦ none
              | some chunk' ↦ oblivious_tree_readout z k chunk' inbox_len local_height
            ]
      ]

  -- `subtree..subtree + rounds`, one chunk behind the other.
  unfoldable pub chunk_loop :
      (ℕ → Option (List (OramBlock V))) → ℕ → ℕ → Option (List (OramBlock V))
  chunk_loop chunk_of zero subtree = some []
  chunk_loop chunk_of (suc rounds) subtree = elim (chunk_of subtree) [
    | none ↦ none
    | some chunk ↦ elim (chunk_loop chunk_of rounds (subtree + 1)) [
      | none ↦ none
      | some output ↦ some (chunk ++ output)
    ]
  ]

module _ {V F R : Type 0} ⦃w : ScalarCmov ℕ⦄ ⦃p : ScalarCmov (List ℕ)⦄ ⦃v : OramValue V⦄
    ⦃e : CmovEq ℕ⦄ (f : Float F) (c : Params) where
  unfoldable pub readout_subtree_partitioned :
      ObliviousHistogram V F R → ℕ → ℕ → Option (SubtreeReadout V)
  unfolding as_ok readout_tree_aware suggested_per_shard_quota next_power_of_two sort_by
      tree_readout_gt reduce_equal_runs block_reducible compact_marks compact_payload
      destination_loop max_load_loop build_distribute_marks_router distribute_payload subtree_chunk
      chunk_loop dummy
  readout_subtree_partitioned self local_height security_bits =
      if leb self.height local_height
      then as_ok (readout_tree_aware c self)
      else let cut_depth = self.height - local_height in
        let subtree_count = 1 <<< cut_depth in
        let upper_tree_len = subtree_count * c.z in
        let overflow = drop self.stash.path_size self.stash.blocks in
        let upper_input_len = upper_tree_len + length overflow in
        elim (suggested_per_shard_quota f upper_input_len subtree_count security_bits) [
          | none ↦ none
          | some suggested_quota ↦
              let inbox_len = next_power_of_two (max suggested_quota 1) in
              let input = take upper_tree_len self.physical_memory ++ overflow in
              let reduced =
                reduce_equal_runs (block_reducible c.k) (sort_by input (tree_readout_gt c.k)) in
              let marks = compact_marks (block_reducible c.k) reduced [] in
              let real_upper_len = mark marks (length reduced) in
              let upper = compact_payload reduced marks in
              let counts =
                destination_loop cut_depth real_upper_len 0 upper (replicate subtree_count 0) in
              let max_load = max_load_loop 0 counts in
              let routed_len = subtree_count * inbox_len in
              let routed = resize routed_len (dummy c.k) upper in
              let distribute_marks = build_distribute_marks_router [] counts inbox_len routed_len in
              let spread = distribute_payload routed distribute_marks in
              if ltb inbox_len max_load
              then some (
                  err (record {
                    max_load = max_load;
                    inbox_len = inbox_len;
                    subtree_count = subtree_count;
                  }))
              else as_ok (
                  chunk_loop
                    (subtree_chunk c.z c.k self.physical_memory spread cut_depth local_height
                      inbox_len)
                    subtree_count 0)
        ]
