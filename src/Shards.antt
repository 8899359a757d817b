-- ===== src/Shards.antt =====
-- crates/oram/src/sharded_oblivious_histogram/mod.rs, the router of batches: the struct RouterFrontend
-- and the struct ShardedBatchRouter, generic in its shards. The loops that run in parallel work
-- on frontends and shards of their own, and are loops over lists. `none` is a panic.
pub mod Histogram
pub mod Access
pub mod Flush
use roga.Base.{
  ℕ, zero, suc, ◌+◌, ◌-◌, ◌*◌, ◌/◌, ◌^◌, Bool, true, false, not, ◌||◌, Option, none, some, List, [],
  ◌∷◌, ◌++◌, ◌>>=◌, ◌>>◌, guard, traverse, ltb, leb, ◌==◌, if◌then◌else◌, max, bit_and, bit_or,
  resize, length, take, drop, replicate, ◌<<<◌,
}
use roga.External.{ScalarCmov, CmovEq, OramValue, BlockCipher, Rng}
use roga.Ct.{ct_not, word_cmov}
use roga.Routing.{ct_is_real}
use roga.Block.{OramBlock, dummy, oram_block_cmov}
use roga.Reduction.{block_reducible}
use roga.Compaction.{distribute_payload}
use roga.Sort.Reduce.{sort_reduce_compact}
use roga.Router.{shard_index_for_tag, count_shard_loads_oblivious, build_distribute_marks_router}
use roga.Oram.Readout.{max_load_loop}

-- The trait OramShard: what a shard does with a chunk of updates.
pub record OramShard (S V : Type 0) : Type 0 where
  pub process_batch_chunk : S → List (OramBlock V) → Option S

pub record RouterFrontend (V : Type 0) : Type 0 where
  pub router_blocks : List (OramBlock V)
  pub router_keys : List ℕ
  pub router_marks : List ℕ
  pub router_dist_marks : List ℕ
  pub router_counts : List ℕ

-- The key by which a frontend sorts: the shard, dummies behind the real blocks, the tag's low bits.
unfoldable pub router_key : ℕ → ℕ → ℕ
unfolding shard_index_for_tag ct_is_real ct_not
router_key shard_count tag =
    let shard = shard_index_for_tag tag shard_count in
    let real = ct_is_real tag in
    bit_or (bit_or (shard <<< 58) (ct_not real <<< 57)) (bit_and tag 0x01ffffffffffffff)

module _ {V : Type 0} ⦃w : ScalarCmov ℕ⦄ ⦃p : ScalarCmov (List ℕ)⦄ ⦃v : OramValue V⦄ ⦃e : CmovEq ℕ⦄
    (k : ℕ) where
  unfoldable pub RouterFrontend_new : ℕ → ℕ → ℕ → RouterFrontend V
  unfolding dummy
  RouterFrontend_new sub_batch_size shard_count per_shard_sub_quota =
      let routed_len = shard_count * per_shard_sub_quota in
      let max_cap = max routed_len sub_batch_size in
      record {
        router_blocks = replicate max_cap (dummy k);
        router_keys = replicate max_cap 0;
        router_marks = [];
        router_dist_marks = [];
        router_counts = replicate shard_count 0;
      }

  -- `router_blocks` and `router_keys` are overwritten first.
  unfoldable pub process_sub_batch :
      RouterFrontend V → List (OramBlock V) → ℕ → ℕ → Option (RouterFrontend V)
  unfolding sort_reduce_compact block_reducible router_key count_shard_loads_oblivious max_load_loop
      dummy build_distribute_marks_router distribute_payload
  process_sub_batch self batch_slice shard_count per_shard_sub_quota = do
    (reduced_len, blocks, keys, marks) ←
        sort_reduce_compact (block_reducible k) batch_slice self.router_marks
          (λ block. router_key shard_count block.tag)
    let counts = count_shard_loads_oblivious self.router_counts blocks reduced_len
    let max_load = max_load_loop 0 counts
    guard (leb max_load per_shard_sub_quota)
    let routed_len = shard_count * per_shard_sub_quota
    let routed = resize routed_len (dummy k) blocks
    let dist_marks =
        build_distribute_marks_router self.router_dist_marks counts per_shard_sub_quota routed_len
    some (record {
      router_blocks = distribute_payload routed dist_marks;
      router_keys = keys;
      router_marks = marks;
      router_dist_marks = dist_marks;
      router_counts = counts;
    })

pub record ShardedBatchRouter (S V : Type 0) : Type 0 where
  pub shards : List S
  pub prf : BlockCipher
  pub shard_count : ℕ
  pub batch_capacity : ℕ
  pub per_shard_quota : ℕ
  pub frontend_count : ℕ
  pub pending : List (OramBlock V)
  pub frontends : List (RouterFrontend V)

-- `frontends.zip(batch.chunks(n))`, with what is done to each pair: the shorter one ends it.
unfoldable pub zip_chunks :
    {V : Type 0}
    → (RouterFrontend V → List (OramBlock V) → Option (RouterFrontend V))
    → ℕ
    → List (RouterFrontend V)
    → List (OramBlock V)
    → Option (List (RouterFrontend V))
zip_chunks process n [] batch = some []
zip_chunks process n (frontend ∷ frontends) [] = some (frontend ∷ frontends)
zip_chunks process n (frontend ∷ frontends) (block ∷ batch) =
    elim (process frontend (take n (block ∷ batch))) [
      | none ↦ none
      | some frontend' ↦ elim (zip_chunks process n frontends (drop n (block ∷ batch))) [
        | none ↦ none
        | some frontends' ↦ some (frontend' ∷ frontends')
      ]
    ]

module _ {S V : Type 0} (o : OramShard S V) where
  -- The loop over the frontends at the shard with the index `s`. `none`: a slice is out of range.
  unfoldable pub shard_chunks : ℕ → ℕ → List (RouterFrontend V) → S → Option S
  shard_chunks sub_quota s [] shard = some shard
  shard_chunks sub_quota s (frontend ∷ frontends) shard =
      let chunk = take sub_quota (drop (s * sub_quota) frontend.router_blocks) in
      elim (leb ((s + 1) * sub_quota) (length frontend.router_blocks)) [
        | false ↦ none
        | true ↦ elim (o.process_batch_chunk shard chunk) [
          | none ↦ none
          | some shard' ↦ shard_chunks sub_quota s frontends shard'
        ]
      ]

  -- The loop over the shards, from the index `s` on.
  unfoldable pub shards_loop : ℕ → List (RouterFrontend V) → ℕ → List S → Option (List S)
  unfolding shard_chunks
  shards_loop sub_quota frontends s [] = some []
  shards_loop sub_quota frontends s (shard ∷ shards) =
      elim (shard_chunks sub_quota s frontends shard) [
        | none ↦ none
        | some shard' ↦ elim (shards_loop sub_quota frontends (s + 1) shards) [
          | none ↦ none
          | some shards' ↦ some (shard' ∷ shards')
        ]
      ]

  module _ ⦃w : ScalarCmov ℕ⦄ ⦃p : ScalarCmov (List ℕ)⦄ ⦃v : OramValue V⦄ ⦃e : CmovEq ℕ⦄
      (k : ℕ) where
    -- The random bytes are the key of the cipher, which `aes128` makes of it.
    unfoldable pub new_with_frontends :
        {G : Type 0}
        → Rng G
        → (List ℕ → BlockCipher)
        → List S
        → ℕ
        → ℕ
        → ℕ
        → G
        → ShardedBatchRouter S V × G
    unfolding RouterFrontend_new
    new_with_frontends g aes128 shards batch_size per_shard_quota frontend_count₀ rng =
        let shard_count = length shards in
        let (raw_key, rng') = g.fill_bytes 16 rng in
        let frontend_count = max frontend_count₀ 1 in
        let sub_batch_size = batch_size / frontend_count in
        let per_shard_sub_quota = per_shard_quota / frontend_count in
        (
          record {
            shards = shards;
            prf = aes128 raw_key;
            shard_count = shard_count;
            batch_capacity = batch_size;
            per_shard_quota = per_shard_quota;
            frontend_count = frontend_count;
            pending = [];
            frontends =
                replicate frontend_count
                  (RouterFrontend_new k sub_batch_size shard_count per_shard_sub_quota);
          },
          rng',
        )

    unfoldable pub new :
        {G : Type 0}
        → Rng G
        → (List ℕ → BlockCipher)
        → List S
        → ℕ
        → ℕ
        → G
        → ShardedBatchRouter S V × G
    unfolding new_with_frontends
    new g aes128 shards batch_size per_shard_quota rng =
        new_with_frontends g aes128 shards batch_size per_shard_quota 4 rng

    -- The division by the number of frontends and chunks of no element are panics.
    unfoldable pub flush : ShardedBatchRouter S V → Option (ShardedBatchRouter S V)
    unfolding zip_chunks process_sub_batch shards_loop dummy
    flush self =
        let n = self.batch_capacity in
        let f_count = length self.frontends in
        let sub_n = n / f_count in
        let sub_quota = self.per_shard_quota / f_count in
        let pending =
          if ltb (length self.pending) n then resize n (dummy k) self.pending else self.pending in
        if length self.pending == 0 then some self else (do
          guard (not (f_count == 0 || sub_n == 0))
          frontends ←
              zip_chunks
                (λ frontend sub_batch.
                  process_sub_batch k frontend sub_batch self.shard_count sub_quota)
                sub_n self.frontends (take n pending)
          shards ← shards_loop sub_quota frontends 0 self.shards
          some (record self { frontends = frontends; shards = shards; pending = drop n pending }))

    -- `while self.pending.len() >= self.batch_capacity`: a flush takes one block at least.
    unfoldable pub increment_loop : ℕ → ShardedBatchRouter S V → Option (ShardedBatchRouter S V)
    unfolding flush
    increment_loop zero self = some self
    increment_loop (suc fuel) self = elim (leb self.batch_capacity (length self.pending)) [
      | false ↦ some self
      | true ↦ elim (flush self) [ none ↦ none | some self' ↦ increment_loop fuel self' ]
    ]

    unfoldable pub increment_blocks :
        ShardedBatchRouter S V → List (OramBlock V) → Option (ShardedBatchRouter S V)
    unfolding increment_loop
    increment_blocks self blocks =
        let pending' = self.pending ++ blocks in
        increment_loop (length pending') (record self { pending = pending' })
