-- ===== src/Router.antt =====
-- crates/oram/src/sharded_oblivious_histogram/router.rs: the shard of a tag, and the number of records
-- that each shard gets.
pub mod Loads
pub mod Marks
use roga.Base.{
  ℕ, ◌+◌, ◌-◌, List, [], ◌∷◌, resize, set, ◌==◌, if◌then◌else◌, bit_and, ◌>>>◌, wrapping_add,
  length, replicate,
}
use roga.External.{CmovEq, BlockCipher}
use roga.Ct.{ct_lt, ct_eq}
use roga.Crypto.{prf_tag}
use roga.Stash.Eviction.{slot_loop}
use roga.Block.{OramBlock, is_real}

-- `shard_count` is above zero.
unfoldable pub shard_index_for_tag : ℕ → ℕ → ℕ
shard_index_for_tag tag shard_count =
    let shard_raw = tag >>> 32 in bit_and shard_raw (shard_count - 1)

unfoldable pub prepare_key : BlockCipher → List ℕ → ℕ → ℕ × ℕ
unfolding prf_tag shard_index_for_tag
prepare_key prf key shard_count =
    let tag = prf_tag prf key in let shard = shard_index_for_tag tag shard_count in (shard, tag)

-- The loop over the counters, from the candidate on.
unfoldable pub tally : ⦃e : CmovEq ℕ⦄ → ℕ → ℕ → ℕ → List ℕ → List ℕ
tally active shard candidate [] = []
tally active shard candidate (count ∷ counts) =
    let should_increment = bit_and active (ct_eq shard candidate) in
    wrapping_add count should_increment ∷ tally active shard (candidate + 1) counts

-- The loop over the blocks, from the index `i` on.
unfoldable pub loads_loop :
    {V : Type 0} ⦃e : CmovEq ℕ⦄ → ℕ → ℕ → List (OramBlock V) → List ℕ → List ℕ
unfolding tally ct_lt is_real shard_index_for_tag
loads_loop reduced_len i [] counts = counts
loads_loop reduced_len i (block ∷ blocks) counts =
    let active = bit_and (ct_lt i reduced_len) (is_real block) in
    let shard = shard_index_for_tag block.tag (length counts) in
    loads_loop reduced_len (i + 1) blocks (tally active shard 0 counts)

unfoldable pub count_shard_loads_oblivious :
    {V : Type 0} ⦃e : CmovEq ℕ⦄ → List ℕ → List (OramBlock V) → ℕ → List ℕ
unfolding loads_loop
count_shard_loads_oblivious counts blocks reduced_len =
    loads_loop reduced_len 0 blocks (replicate (length counts) 0)

-- `for &count in counts`, with `idx`, `prefix_sum` and `marks`; the inner loop is the one of the layout
-- of a path.
unfoldable pub quota_loop : ℕ → List ℕ → ℕ × ℕ × List ℕ → ℕ × ℕ × List ℕ
unfolding slot_loop
quota_loop quota [] state = state
quota_loop quota (count ∷ counts) state = quota_loop quota counts (slot_loop quota 0 count state)

unfoldable pub build_distribute_marks_router : List ℕ → List ℕ → ℕ → ℕ → List ℕ
unfolding quota_loop
build_distribute_marks_router marks counts per_shard_quota len =
    let marks' = if length marks == len + 1 then marks else resize (len + 1) 0 marks in
    let (idx, prefix_sum, marks'') = quota_loop per_shard_quota counts (1, 0, set marks' 0 0) in
    marks''
