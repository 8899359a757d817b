-- ===== src/Shards/Access.antt =====
-- The methods of ShardedObliviousHistogram: appends and flushes, reads, growth and the readouts.
use roga.Base.{
  ℕ, ◌+◌, ◌*◌, ◌/◌, Bool, true, false, not, Option, none, some, List, [], ◌∷◌, ◌++◌, map, ◌>>=◌,
  ◌>>◌, guard, traverse, leb, ◌==◌, if◌then◌else◌, max, min, length,
}
use roga.External.{ScalarCmov, CmovEq, OramValue, Float, Rng}
use roga.Ct.{word_cmov}
use roga.Block.{OramBlock, real, oram_block_cmov}
use roga.Reduction.{block_reducible}
use roga.Compaction.{compact_marks, compact_payload}
use roga.Crypto.{prf_tag, copy_prefix}
use roga.Router.{prepare_key}
use roga.Resize.{AutoResizeConfig}
use roga.Oram
use roga.Oram.{Params, ObliviousHistogram}
use roga.Oram.Ops
use roga.Oram.Ops.{read_prepared_total, read_dummy}
use roga.Oram.Readout
use roga.Oram.Readout.{concat}
use roga.Oram.Subtree
use roga.Oram.Subtree.{SubtreeReadout, SubtreeReadoutOverflow, ok, err}
use roga.Shards
use roga.Shards.{ShardedBatchRouter}
use roga.Shards.Histogram.{
  ShardedObliviousHistogram, tree_shard, handle_deferred_resize, enable_loop,
  deflated_per_shard_resize_target,
}

module _ {V F R : Type 0} where
  unfoldable pub sum_occupancy : List (ObliviousHistogram V F R) → ℕ
  unfolding Oram.stash_occupancy
  sum_occupancy [] = 0
  sum_occupancy (tree ∷ trees) = Oram.stash_occupancy tree + sum_occupancy trees

  unfoldable pub max_peak : List (ObliviousHistogram V F R) → ℕ
  max_peak [] = 0
  max_peak (tree ∷ trees) = max tree.peak_overflow (max_peak trees)

  unfoldable pub sum_readout_len : List (ObliviousHistogram V F R) → ℕ
  unfolding Oram.readout_len
  sum_readout_len [] = 0
  sum_readout_len (tree ∷ trees) = Oram.readout_len tree + sum_readout_len trees

  -- Whether all shards have readouts of one length.
  unfoldable pub same_lengths : ℕ → List (ObliviousHistogram V F R) → Bool
  unfolding Oram.readout_len
  same_lengths len [] = true
  same_lengths len (tree ∷ trees) =
      if Oram.readout_len tree == len then same_lengths len trees else false

module _ {V F R : Type 0} ⦃w : ScalarCmov ℕ⦄ ⦃p : ScalarCmov (List ℕ)⦄ ⦃v : OramValue V⦄
    ⦃e : CmovEq ℕ⦄ (f : Float F) (r : Rng R) (c : Params) where
  -- One round of the loop of `read_total`: the result, the shard and the generator.
  unfoldable pub read_round :
      {G : Type 0}
      → Rng G
      → Bool
      → ℕ
      → List ℕ
      → V
      → ObliviousHistogram V F R
      → G
      → Option (V × ObliviousHistogram V F R × G)
  unfolding read_prepared_total read_dummy
  read_round g true prepared_key payload result tree rng = do
    (total, tree') ← read_prepared_total f r c tree prepared_key payload
    some (total, tree', rng)
  read_round g false prepared_key payload result tree rng = do
    (tree', rng') ← read_dummy f r c g tree rng
    some (result, tree', rng')

  -- What `emit_shard` is called with, shard by shard, and the overflow that ends the calls, if any.
  unfoldable pub emit_loop :
      ℕ
      → ℕ
      → ℕ
      → List (ObliviousHistogram V F R)
      → Option (List (ℕ × List (OramBlock V)) × Option SubtreeReadoutOverflow)
  unfolding Oram.Subtree.readout_subtree_partitioned
  emit_loop local_height security_bits shard_index [] = some ([], none)
  emit_loop local_height security_bits shard_index (shard ∷ shards) =
      elim (Oram.Subtree.readout_subtree_partitioned f c shard local_height security_bits) [
        | none ↦ none
        | some (err overflow) ↦ some ([], some overflow)
        | some (ok output) ↦ elim (emit_loop local_height security_bits (shard_index + 1) shards) [
          | none ↦ none
          | some (emitted, overflow) ↦ some ((shard_index, output) ∷ emitted, overflow)
        ]
      ]

module _ {V F R G : Type 0} where
  unfoldable pub drop_panics : ShardedObliviousHistogram V F R G → Bool
  drop_panics self = not (length self.router.pending == 0)

  unfoldable pub shard_count : ShardedObliviousHistogram V F R G → ℕ
  shard_count self = self.router.shard_count

  -- A division by no shards is a panic.
  unfoldable pub shard_capacity : ShardedObliviousHistogram V F R G → Option ℕ
  shard_capacity self =
      if self.router.shard_count == 0 then none else some (self.capacity / self.router.shard_count)

  unfoldable pub stash_occupancy : ShardedObliviousHistogram V F R G → ℕ
  unfolding sum_occupancy
  stash_occupancy self = sum_occupancy self.router.shards

  unfoldable pub peak_overflow : ShardedObliviousHistogram V F R G → ℕ
  unfolding max_peak
  peak_overflow self = max_peak self.router.shards

  -- The shards with what is done to each, in the router.
  unfoldable pub with_shards :
      ShardedObliviousHistogram V F R G
      → List (ObliviousHistogram V F R)
      → ShardedObliviousHistogram V F R G
  with_shards self shards = record self { router = record self.router { shards = shards } }

  unfoldable pub reset_metrics :
      ShardedObliviousHistogram V F R G → ShardedObliviousHistogram V F R G
  unfolding with_shards Oram.reset_metrics
  reset_metrics self = with_shards self (map Oram.reset_metrics self.router.shards)

  unfoldable pub readout_len : ShardedObliviousHistogram V F R G → ℕ
  unfolding sum_readout_len
  readout_len self = sum_readout_len self.router.shards

module _ {V F R G : Type 0} ⦃w : ScalarCmov ℕ⦄ ⦃p : ScalarCmov (List ℕ)⦄ ⦃v : OramValue V⦄
    ⦃e : CmovEq ℕ⦄ (f : Float F) (r : Rng R) (c : Params) where
  unfoldable pub flush :
      ShardedObliviousHistogram V F R G → Option (ShardedObliviousHistogram V F R G)
  unfolding Shards.flush tree_shard handle_deferred_resize
  flush self = do
    router ← Shards.flush (tree_shard f r c) c.k self.router
    (trees, capacity, size_in_bytes) ←
        handle_deferred_resize f r c self.auto_resize router.shards self.capacity self.size_in_bytes
    some (record self {
      router = record router { shards = trees };
      capacity = capacity;
      size_in_bytes = size_in_bytes;
    })

  unfoldable pub append :
      ShardedObliviousHistogram V F R G → List ℕ → V → Option (ShardedObliviousHistogram V F R G)
  unfolding prf_tag copy_prefix real flush
  append self key value =
      let prepared_key = prf_tag self.router.prf key in
      let payload = copy_prefix c.k key in
      let pending = self.router.pending ++ (real prepared_key self.epoch value payload ∷ []) in
      let self' = record self { router = record self.router { pending = pending } } in
      if leb self.router.batch_capacity (length pending) then flush self' else some self'

  unfoldable pub enable_auto_resize :
      ShardedObliviousHistogram V F R G
      → AutoResizeConfig F
      → Option (ShardedObliviousHistogram V F R G)
  unfolding deflated_per_shard_resize_target enable_loop
  enable_auto_resize self cfg =
      let deflated_target =
        deflated_per_shard_resize_target f c.z cfg.t_capacity self.router.shard_count in
      if self.router.shard_count == 0 then none else (do
        trees ← enable_loop f r c cfg deflated_target 0 self.router.shards
        some (record self { auto_resize = true; router = record self.router { shards = trees } }))

  unfoldable pub grow :
      ShardedObliviousHistogram V F R G → Option (ShardedObliviousHistogram V F R G)
  unfolding Oram.Ops.grow
  grow self = do
    trees ← traverse (Oram.Ops.grow f r c) self.router.shards
    some (record self {
      epoch = min (self.epoch + 1) 255;
      router = record self.router { shards = trees };
      capacity = self.capacity * 2;
      size_in_bytes = self.size_in_bytes * 2;
    })

  -- The loop over the shards, from the index `shard` on: the result, the shards and the generator.
  unfoldable pub read_loop :
      Rng G
      → ℕ
      → ℕ
      → List ℕ
      → V
      → ℕ
      → List (ObliviousHistogram V F R)
      → G
      → Option (V × List (ObliviousHistogram V F R) × G)
  unfolding read_round
  read_loop g target_shard prepared_key payload result shard [] rng = some (result, [], rng)
  read_loop g target_shard prepared_key payload result shard (tree ∷ trees) rng =
      elim (read_round f r c g (shard == target_shard) prepared_key payload result tree rng) [
        | none ↦ none
        | some (result', tree', rng') ↦
            elim (read_loop g target_shard prepared_key payload result' (shard + 1) trees rng') [
              | none ↦ none
              | some (total, trees', rng'') ↦ some (total, tree' ∷ trees', rng'')
            ]
      ]

  unfoldable pub read_total :
      Rng G
      → ShardedObliviousHistogram V F R G
      → List ℕ
      → Option (V × ShardedObliviousHistogram V F R G)
  unfolding flush prepare_key copy_prefix read_loop
  read_total g self₀ key = do
    self ← flush self₀
    let (target_shard, prepared_key) = prepare_key self.router.prf key self.router.shard_count
    let payload = copy_prefix c.k key
    (result, trees, rng) ←
        read_loop g target_shard prepared_key payload v.default 0 self.router.shards
          self.dummy_read_rng
    some (
      result,
      record self { router = record self.router { shards = trees }; dummy_read_rng = rng },
    )

  -- The blocks, and the histogram after the flush.
  unfoldable pub readout :
      ShardedObliviousHistogram V F R G
      → Option (List (OramBlock V) × ShardedObliviousHistogram V F R G)
  unfolding flush Oram.Readout.readout concat compact_marks compact_payload block_reducible
  readout self₀ = do
    self ← flush self₀
    let result = concat (map (Oram.Readout.readout c) self.router.shards)
    some (compact_payload result (compact_marks (block_reducible c.k) result []), self)

  -- The chunks of the output are as long as the readout of the first shard; none is a panic.
  unfoldable pub readout_tree_aware :
      ShardedObliviousHistogram V F R G
      → Option (List (OramBlock V) × ShardedObliviousHistogram V F R G)
  unfolding flush same_lengths Oram.readout_len Oram.Readout.readout_tree_aware concat
  readout_tree_aware self₀ = do
    self ← flush self₀
    let per_shard_len = elim self.router.shards as (λ _. ℕ) [
      | [] ↦ 0
      | tree ∷ _ ↦ Oram.readout_len tree
    ]
    guard (same_lengths per_shard_len self.router.shards)
    guard (not (per_shard_len == 0))
    outputs ← traverse (Oram.Readout.readout_tree_aware c) self.router.shards
    some (concat outputs, self)

  unfoldable pub into_readout_subtree_partitioned :
      ShardedObliviousHistogram V F R G
      → ℕ
      → ℕ
      → Option (List (ℕ × List (OramBlock V)) × Option SubtreeReadoutOverflow)
  unfolding flush emit_loop
  into_readout_subtree_partitioned self₀ local_height security_bits = do
    self ← flush self₀
    emit_loop f r c local_height security_bits 0 self.router.shards

  unfoldable pub export_entries :
      ShardedObliviousHistogram V F R G
      → Option (List (ℕ × List ℕ × V) × ShardedObliviousHistogram V F R G)
  unfolding flush Oram.Readout.export_entries concat
  export_entries self₀ = do
    self ← flush self₀
    some (concat (map Oram.Readout.export_entries self.router.shards), self)
