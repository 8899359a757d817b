-- ===== src/Shards/Histogram.antt =====
-- The struct ShardedObliviousHistogram of crates/oram/src/sharded_oblivious_histogram/mod.rs: a router
-- whose shards are trees. The loops that run in parallel work on one shard each. `none` is a panic.
-- Z, K, A and S are the fields of `Params`. That a histogram must not be dropped with pending updates
-- is the test `drop_panics`.
use roga.Base.{
  ℕ, zero, suc, ◌+◌, ◌-◌, ◌*◌, ◌/◌, Bool, true, false, not, Option, none, some, List, [], ◌∷◌,
  ◌>>=◌, ◌>>◌, guard, traverse, ◌==◌, max, get_or, length, saturating_add, saturating_mul,
  wrapping_add, leading_zeros,
}
use roga.External.{ScalarCmov, CmovEq, OramValue, BlockCipher, Float, Rng}
use roga.Ct.{word_cmov}
use roga.Routing
use roga.Block.{OramBlock, real, oram_block_cmov}
use roga.Binomial.{shard_coordination_slack}
use roga.Binomial
use roga.Resize.{AutoResizeConfig}
use roga.Oram
use roga.Oram.{Params, ObliviousHistogram}
use roga.Oram.Ops.{append_prepared_masked_batch}
use roga.Shards.{OramShard, ShardedBatchRouter}
use roga.Shards

abbrev pub shard_coordination_security_bits : ℕ
shard_coordination_security_bits = 80

unfoldable pub deflated_per_shard_resize_target : {F : Type 0} → Float F → ℕ → ℕ → ℕ → ℕ
unfolding shard_coordination_slack
deflated_per_shard_resize_target f z total_baseline_target shard_count =
    let z_scale = max (z / 4) 1 in
    let effective_total_target = saturating_mul total_baseline_target z_scale in
    let per_shard_target = effective_total_target / shard_count in
    let slack =
      shard_coordination_slack f per_shard_target shard_count shard_coordination_security_bits in
    let deflated_effective_target = per_shard_target - slack in
    max (deflated_effective_target / z_scale) 1

pub record ShardedObliviousHistogram (V F R G : Type 0) : Type 0 where
  pub router : ShardedBatchRouter (ObliviousHistogram V F R) V
  pub epoch : ℕ
  pub capacity : ℕ
  pub size_in_bytes : ℕ
  pub auto_resize : Bool
  pub dummy_read_rng : G

-- The number of frontends is at least one, and the bits of their union bound are added.
unfoldable pub suggested_per_shard_quota_with_frontends :
    {F : Type 0} → Float F → ℕ → ℕ → ℕ → ℕ → Option ℕ
unfolding Binomial.suggested_per_shard_quota
suggested_per_shard_quota_with_frontends fl batch_size shard_count security_bits frontend_count =
    let f = max frontend_count 1 in
    let frontend_union_bits = 64 - leading_zeros (f - 1) in
    elim (Binomial.suggested_per_shard_quota fl (batch_size / f) shard_count
      (saturating_add security_bits frontend_union_bits)) [
        | none ↦ none
        | some quota ↦ some (f * quota)
      ]

unfoldable pub suggested_per_shard_quota : {F : Type 0} → Float F → ℕ → ℕ → ℕ → Option ℕ
unfolding suggested_per_shard_quota_with_frontends
suggested_per_shard_quota fl batch_size shard_count security_bits =
    suggested_per_shard_quota_with_frontends fl batch_size shard_count security_bits 4

module _ {V F R : Type 0} ⦃w : ScalarCmov ℕ⦄ ⦃p : ScalarCmov (List ℕ)⦄ ⦃v : OramValue V⦄
    ⦃e : CmovEq ℕ⦄ (f : Float F) (r : Rng R) (c : Params) where
  -- The trait OramShard at a tree.
  unfoldable pub process_batch_chunk :
      ObliviousHistogram V F R → List (OramBlock V) → Option (ObliviousHistogram V F R)
  unfolding append_prepared_masked_batch Routing.ct_is_real
  process_batch_chunk self chunk = append_prepared_masked_batch f r c self (length chunk) (λ i.
      let b = get_or chunk i (real 0 0 v.default []) in
      (b.tag, b.value, b.payload, Routing.ct_is_real b.tag))

  unfoldable pub tree_shard : OramShard (ObliviousHistogram V F R) V
  unfolding process_batch_chunk
  tree_shard = record { process_batch_chunk = process_batch_chunk }

  -- `target`, if any, is what the coordinator asks for.
  unfoldable pub apply_grow_signal :
      Option ℕ
      → List (ObliviousHistogram V F R)
      → ℕ
      → ℕ
      → Option (List (ObliviousHistogram V F R) × ℕ × ℕ)
  unfolding Oram.apply_deferred_auto_resize_grow
  apply_grow_signal none trees capacity size_in_bytes = some (trees, capacity, size_in_bytes)
  apply_grow_signal (some target) trees capacity size_in_bytes =
      traverse (Oram.apply_deferred_auto_resize_grow f r c) trees >>= λ grown.
      some (grown, capacity * 2, size_in_bytes * 2)

  unfoldable pub handle_deferred_resize :
      Bool
      → List (ObliviousHistogram V F R)
      → ℕ
      → ℕ
      → Option (List (ObliviousHistogram V F R) × ℕ × ℕ)
  unfolding Oram.take_deferred_auto_resize_signal apply_grow_signal
  handle_deferred_resize false trees capacity size_in_bytes = some (trees, capacity, size_in_bytes)
  handle_deferred_resize true [] capacity size_in_bytes = some ([], capacity, size_in_bytes)
  handle_deferred_resize true (tree ∷ trees) capacity size_in_bytes =
      let (grow_signal, tree') = Oram.take_deferred_auto_resize_signal f r c tree in
      apply_grow_signal grow_signal (tree' ∷ trees) capacity size_in_bytes

  -- The loop over the shards, from the index `i` on.
  unfoldable pub enable_loop :
      AutoResizeConfig F
      → ℕ
      → ℕ
      → List (ObliviousHistogram V F R)
      → Option (List (ObliviousHistogram V F R))
  unfolding Oram.enable_deferred_auto_resize
  enable_loop cfg deflated_target i [] = some []
  enable_loop cfg deflated_target i (tree ∷ trees) =
      let shard_cfg = record cfg { t_capacity = deflated_target; seed = wrapping_add cfg.seed i } in
      elim (Oram.enable_deferred_auto_resize f r c tree shard_cfg (i == 0)) [
        | none ↦ none
        | some tree' ↦ elim (enable_loop cfg deflated_target (i + 1) trees) [
          | none ↦ none
          | some trees' ↦ some (tree' ∷ trees')
        ]
      ]

  module _ {G : Type 0} (g : Rng G) where
    -- `(0..n).map(..)`
    unfoldable pub new_trees :
        {H : Type 0}
        → Rng H
        → (List ℕ → BlockCipher)
        → ℕ
        → ℕ
        → H
        → Option (List (ObliviousHistogram V F R) × H)
    unfolding Oram.new
    new_trees h aes128 zero shard_capacity rng = some ([], rng)
    new_trees h aes128 (suc n) shard_capacity rng =
        elim (Oram.new {V = V} {F = F} {R = R} h aes128 c shard_capacity rng) [
          | none ↦ none
          | some (tree, rng') ↦ elim (new_trees h aes128 n shard_capacity rng') [
            | none ↦ none
            | some (trees, rng'') ↦ some (tree ∷ trees, rng'')
          ]
        ]

    unfoldable pub sum_sizes : ℕ → List (ObliviousHistogram V F R) → ℕ
    unfolding Oram.size_in_bytes
    sum_sizes block_size [] = 0
    sum_sizes block_size (tree ∷ trees) =
        Oram.size_in_bytes tree block_size + sum_sizes block_size trees

    -- A division by no shards is a panic. `block_size` is the size of a block in bytes.
    unfoldable pub new_with_frontends :
        {H : Type 0}
        → Rng H
        → (List ℕ → BlockCipher)
        → ℕ
        → ℕ
        → ℕ
        → ℕ
        → ℕ
        → ℕ
        → H
        → Option (ShardedObliviousHistogram V F R G × H)
    unfolding new_trees sum_sizes Shards.new_with_frontends tree_shard
    new_with_frontends h aes128 block_size shard_count total_block_capacity batch_size
          per_shard_quota frontend_count rng =
        do
          guard (not (shard_count == 0))
          let shard_capacity = total_block_capacity / shard_count
          (trees, rng') ← new_trees h aes128 shard_count shard_capacity rng
          let (seed, rng'') = h.random rng'
          let (router, rng''') =
              Shards.new_with_frontends (tree_shard) c.k h aes128 trees batch_size per_shard_quota
                frontend_count rng''
          some (
            record {
              router = router;
              epoch = 0;
              capacity = total_block_capacity;
              size_in_bytes = sum_sizes block_size trees;
              auto_resize = false;
              dummy_read_rng = g.seed_from_u64 seed;
            },
            rng''',
          )

    unfoldable pub new :
        {H : Type 0}
        → Rng H
        → (List ℕ → BlockCipher)
        → ℕ
        → ℕ
        → ℕ
        → ℕ
        → ℕ
        → H
        → Option (ShardedObliviousHistogram V F R G × H)
    unfolding new_with_frontends
    new h aes128 block_size shard_count total_block_capacity batch_size per_shard_quota rng =
        new_with_frontends h aes128 block_size shard_count total_block_capacity batch_size
          per_shard_quota 4 rng
