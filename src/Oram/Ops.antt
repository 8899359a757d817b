-- ===== src/Oram/Ops.antt =====
-- The operations of ops.rs, appends, evictions and reads, and `grow` of resize.rs. The loops that do not
-- follow a list have fuel: a round of the batch's loop takes one update at least, if the interval
-- of evictions is not zero.
use roga.Base.{
  ℕ, zero, suc, ◌+◌, ◌-◌, ◌%◌, true, false, Option, none, some, List, ◌>>=◌, not, ltb, leb, ◌==◌,
  if◌then◌else◌, min, bit_or, bit_xor,
}
use roga.External.{ScalarCmov, CmovEq, OramValue, Float, Rng}
use roga.Crypto.{prf_tag, copy_prefix}
use roga.Routing.{leaf_count, to_leaf}
use roga.Stash
use roga.Stash.Eviction.{write_to_path}
use roga.Sort.Reduce.{merge_accumulate_for_path}
use roga.Histogram
use roga.Oram.{
  Params, ObliviousHistogram, is_multiple_of, update_peak_overflow, grow_physical_storage,
  tell_grown, accumulate_resize_accounting, check_and_maybe_resize_post_eviction, access_path,
}

module _ {V F R : Type 0} ⦃w : ScalarCmov ℕ⦄ ⦃p : ScalarCmov (List ℕ)⦄ ⦃v : OramValue V⦄
    ⦃e : CmovEq ℕ⦄ (f : Float F) (r : Rng R) (c : Params) where
  unfoldable pub current_evict_interval : ObliviousHistogram V F R → ℕ
  unfolding Histogram.current_evict_interval
  current_evict_interval self = Histogram.current_evict_interval c.a self.evict_ctr self.sweep_end

  -- The leaf, and the tree with the counter raised.
  unfoldable pub next_evict_leaf : ObliviousHistogram V F R → ℕ × ObliviousHistogram V F R
  unfolding Histogram.next_evict_leaf
  next_evict_leaf self =
      let (leaf, ctr) = Histogram.next_evict_leaf self.evict_ctr self.height in
      (leaf, record self { evict_ctr = ctr })

  unfoldable pub evict_after_insert : ObliviousHistogram V F R → Option (ObliviousHistogram V F R)
  unfolding next_evict_leaf Stash.read_from_path Stash.read_sibling_bucket merge_accumulate_for_path
      accumulate_resize_accounting write_to_path update_peak_overflow
      check_and_maybe_resize_post_eviction
  evict_after_insert self₀ = do
    let (evict_leaf, self) = next_evict_leaf self₀
    stash ← Stash.read_from_path c.z self.stash self.physical_memory evict_leaf
    stash' ←
        if leb self.evict_ctr self.sweep_end
        then Stash.read_sibling_bucket c.z c.k stash self.physical_memory (bit_xor evict_leaf 1)
        else some stash
    merged ← merge_accumulate_for_path c.k stash' evict_leaf
    let counted = accumulate_resize_accounting f r c (record self { stash = merged }) evict_leaf
    (written, memory) ← write_to_path c.z c.k counted.stash counted.physical_memory evict_leaf
    check_and_maybe_resize_post_eviction f r c
        (update_peak_overflow (record counted { stash = written; physical_memory = memory }))

  unfoldable pub finish_append_after_insert :
      ObliviousHistogram V F R → Option (ObliviousHistogram V F R)
  unfolding current_evict_interval evict_after_insert
  finish_append_after_insert self₀ =
      let self = record self₀ { append_ctr = self₀.append_ctr + 1 } in
      let evict_period = current_evict_interval self in
      if not (is_multiple_of self.append_ctr evict_period)
      then some self
      else evict_after_insert self

  unfoldable pub add_prepared_inner :
      ObliviousHistogram V F R → ℕ → V → List ℕ → Option (ObliviousHistogram V F R)
  unfolding Stash.insert finish_append_after_insert
  add_prepared_inner self key val payload = do
    stash ← Stash.insert self.stash key self.epoch val payload
    finish_append_after_insert (record self { stash = stash })

  unfoldable pub append : ObliviousHistogram V F R → List ℕ → V → Option (ObliviousHistogram V F R)
  unfolding prf_tag copy_prefix add_prepared_inner
  append self key val =
      let prepared_key = prf_tag self.prf key in
      let payload = copy_prefix c.k key in add_prepared_inner self prepared_key val payload

  unfoldable pub flush : ObliviousHistogram V F R → ObliviousHistogram V F R
  flush self = self

  -- How many updates a round of the batch's loop takes, so that it ends at the next eviction.
  unfoldable pub chunk_len : ObliviousHistogram V F R → ℕ → ℕ → ℕ
  chunk_len self offset count =
      let evict_period = current_evict_interval self in
      let interval_offset = self.append_ctr % evict_period in
      let until_evict =
        if interval_offset == 0 then evict_period else evict_period - interval_offset in
      min (count - offset) until_evict

  -- The round itself, with the updates from `offset` on. An update is a tag, a value, a key and the
  -- flag of a real one.
  unfoldable pub batch_chunk :
      ObliviousHistogram V F R
      → ℕ
      → ℕ
      → (ℕ → ℕ × V × List ℕ × ℕ)
      → Option (ObliviousHistogram V F R)
  unfolding current_evict_interval Stash.insert_batch evict_after_insert
  batch_chunk self offset len update_at = do
    stash ← Stash.insert_batch c.k self.stash len (λ i.
        let (tag, val, payload, cond) = update_at (offset + i) in
        (tag, self.epoch, val, payload, cond))
    let self' = record self { stash = stash; append_ctr = self.append_ctr + len }
    if is_multiple_of self'.append_ctr (current_evict_interval self)
        then evict_after_insert self'
        else some self'

  -- The remainder by an interval of zero is a panic.
  unfoldable pub batch_round :
      ObliviousHistogram V F R
      → ℕ
      → ℕ
      → (ℕ → ℕ × V × List ℕ × ℕ)
      → Option (ObliviousHistogram V F R × ℕ)
  batch_round self offset count update_at =
      let len = chunk_len self offset count in
      if current_evict_interval self == 0
      then none
      else elim (batch_chunk self offset len update_at) [
        | none ↦ none
        | some self' ↦ some (self', offset + len)
      ]

  -- `while offset < count`
  unfoldable pub batch_loop :
      ℕ
      → ObliviousHistogram V F R
      → ℕ
      → ℕ
      → (ℕ → ℕ × V × List ℕ × ℕ)
      → Option (ObliviousHistogram V F R)
  batch_loop zero self offset count update_at = some self
  batch_loop (suc fuel) self offset count update_at = elim (ltb offset count) [
    | false ↦ some self
    | true ↦ elim (batch_round self offset count update_at) [
      | none ↦ none
      | some (self', offset') ↦ batch_loop fuel self' offset' count update_at
    ]
  ]

  unfoldable pub append_prepared_masked_batch :
      ObliviousHistogram V F R → ℕ → (ℕ → ℕ × V × List ℕ × ℕ) → Option (ObliviousHistogram V F R)
  append_prepared_masked_batch self count update_at = batch_loop count self 0 count update_at

  unfoldable pub read_prepared_total :
      ObliviousHistogram V F R → ℕ → List ℕ → Option (V × ObliviousHistogram V F R)
  unfolding to_leaf Stash.read_from_path merge_accumulate_for_path Stash.read_and_remove
      write_to_path update_peak_overflow
  read_prepared_total self tag payload = do
    let leaf = to_leaf tag self.height
    stash ← Stash.read_from_path c.z self.stash self.physical_memory leaf
    merged ← merge_accumulate_for_path c.k stash leaf
    let (result, found, removed) = Stash.read_and_remove c.k merged payload
    (written, memory) ← write_to_path c.z c.k removed self.physical_memory leaf
    some (result, update_peak_overflow (record self { stash = written; physical_memory = memory }))

  unfoldable pub read_total :
      ObliviousHistogram V F R → List ℕ → Option (V × ObliviousHistogram V F R)
  unfolding prf_tag copy_prefix read_prepared_total
  read_total self key =
      let tag = prf_tag self.prf key in
      let payload = copy_prefix c.k key in read_prepared_total self tag payload

  -- The random numbers are those of the caller.
  unfoldable pub read_dummy :
      {G : Type 0} → Rng G → ObliviousHistogram V F R → G → Option (ObliviousHistogram V F R × G)
  unfolding leaf_count access_path update_peak_overflow
  read_dummy g self rng = do
    let (suffix, rng') = g.random_range (leaf_count self.height) rng
    let leaf = bit_or (leaf_count self.height) suffix
    self' ← access_path f r c self leaf
    some (update_peak_overflow self', rng')

  -- `for new_leaf in leaf..leaf + rounds`
  unfoldable pub migrate_loop : ℕ → ℕ → ObliviousHistogram V F R → Option (ObliviousHistogram V F R)
  unfolding access_path
  migrate_loop zero leaf self = some self
  migrate_loop (suc rounds) leaf self = elim (access_path f r c self leaf) [
    | none ↦ none
    | some self' ↦ migrate_loop rounds (leaf + 1) self'
  ]

  unfoldable pub grow : ObliviousHistogram V F R → Option (ObliviousHistogram V F R)
  unfolding grow_physical_storage tell_grown leaf_count migrate_loop
  grow self = do
    grown ← grow_physical_storage f r c self
    told ← tell_grown f r c grown
    let migrated_leaves = leaf_count told.height
    migrate_loop (leaf_count (told.height + 1) - migrated_leaves) migrated_leaves told
