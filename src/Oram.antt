-- ===== src/Oram.antt =====
-- The tree of one shard: the struct ObliviousHistogram of crates/oram/src/oblivious_histogram/mod.rs
-- with its simple methods, the methods of ops.rs, and the growth of resize.rs. `none` is a panic;
-- debug assertions are left out. Z, K, A and S are the fields of `Params`. Of the metrics only the
-- peak of the stash is kept, since no other one is read.
pub mod Ops
pub mod Readout
pub mod Order
pub mod Subtree
pub mod Batch
pub mod Round
pub mod Totals
pub mod Eviction
pub mod Append
pub mod Fresh
pub mod Read
use roga.Base.{
  ℕ, zero, suc, ◌+◌, ◌-◌, ◌*◌, ◌%◌, Bool, true, false, ◌&&◌, Option, none, some, List, ◌++◌, ◌>>=◌,
  ◌>>◌, guard, ltb, leb, ◌==◌, if◌then◌else◌, min, max, bit_or, bit_xor, length, replicate,
  saturating_add, ◌<<<◌,
}
use roga.External.{ScalarCmov, CmovEq, OramValue, BlockCipher, Float, Rng}
use roga.Crypto.{prf_tag, copy_prefix}
use roga.Routing.{leaf_count, to_leaf, tree_height_for_capacity, max_tree_height}
use roga.Block.{OramBlock, dummy}
use roga.Stash
use roga.Stash.{ObliviousStash}
use roga.Stash.Eviction.{write_to_path}
use roga.Sort.Reduce.{merge_accumulate_for_path}
use roga.Histogram.{next_evict_leaf, current_evict_interval}
use roga.Resize.{
  AutoResizeConfig, AutoResizeState, record_eviction, should_check_epoch, evaluate_signal,
  reset_counters, on_tree_grown, configured, effective_t_capacity,
}

-- The constants of OramConfig and BlockConfig.
pub record Params : Type 0 where
  pub z : ℕ
  pub k : ℕ
  pub a : ℕ
  pub s : ℕ

pub record ObliviousHistogram (V F R : Type 0) : Type 0 where
  pub physical_memory : List (OramBlock V)
  pub stash : ObliviousStash V
  pub height : ℕ
  pub epoch : ℕ
  pub prf : BlockCipher
  pub append_ctr : ℕ
  pub evict_ctr : ℕ
  pub sweep_end : ℕ
  pub auto_resize : Option (AutoResizeState F R)
  pub filler_ctr : ℕ
  pub peak_overflow : ℕ

-- `n.is_multiple_of(m)`
abbrev pub is_multiple_of : ℕ → ℕ → Bool
is_multiple_of n m = if m == 0 then n == 0 else n % m == 0

module _ {V F R : Type 0} where
  -- `n.random` of the source's caller gives the key of the cipher, which `aes128` makes of it.
  unfoldable pub new :
      {G : Type 0} ⦃v : OramValue V⦄
      → Rng G
      → (List ℕ → BlockCipher)
      → Params
      → ℕ
      → G
      → Option (ObliviousHistogram V F R × G)
  unfolding tree_height_for_capacity dummy Stash.new
  new g aes128 c block_capacity rng = do
    let (raw_key, rng') = g.fill_bytes 16 rng
    height ← tree_height_for_capacity block_capacity c.z
    let path_size = c.z * (height + 1)
    some (
      record {
        physical_memory = replicate ((1 <<< (height + 1)) * c.z) (dummy c.k);
        stash = Stash.new c.k c.s path_size;
        height = height;
        epoch = 0;
        prf = aes128 raw_key;
        append_ctr = 0;
        evict_ctr = 0;
        sweep_end = 0;
        auto_resize = none;
        filler_ctr = 0;
        peak_overflow = 0;
      },
      rng',
    )

  unfoldable pub reset_metrics : ObliviousHistogram V F R → ObliviousHistogram V F R
  reset_metrics self = record self { peak_overflow = 0 }

  -- `block_size` is the size of a block in bytes.
  unfoldable pub size_in_bytes : ObliviousHistogram V F R → ℕ → ℕ
  size_in_bytes self block_size = length self.physical_memory * block_size

  unfoldable pub capacity : Params → ObliviousHistogram V F R → ℕ
  capacity c self = (1 <<< self.height) * c.z

  unfoldable pub stash_occupancy : ObliviousHistogram V F R → ℕ
  unfolding Stash.occupancy
  stash_occupancy self = Stash.occupancy self.stash

  unfoldable pub sweep_active : ObliviousHistogram V F R → Bool
  sweep_active self = ltb self.evict_ctr self.sweep_end

  unfoldable pub set_sweep_window_active :
      ObliviousHistogram V F R → Bool → ObliviousHistogram V F R
  set_sweep_window_active self active = record self {
    sweep_end = if active then 18446744073709551615 else 0;
  }

  unfoldable pub readout_len : ObliviousHistogram V F R → ℕ
  readout_len self = length self.physical_memory + (length self.stash.blocks - self.stash.path_size)

  unfoldable pub update_peak_overflow : ObliviousHistogram V F R → ObliviousHistogram V F R
  unfolding Stash.occupancy
  update_peak_overflow self =
      let cur = Stash.occupancy self.stash in
      if ltb self.peak_overflow cur then record self { peak_overflow = cur } else self

module _ {V F R : Type 0} ⦃w : ScalarCmov ℕ⦄ ⦃p : ScalarCmov (List ℕ)⦄ ⦃v : OramValue V⦄
    ⦃e : CmovEq ℕ⦄ (f : Float F) (r : Rng R) (c : Params) where
  -- resize.rs
  unfoldable pub configure_auto_resize :
      ObliviousHistogram V F R
      → AutoResizeConfig F
      → Bool
      → Bool
      → Option (ObliviousHistogram V F R)
  unfolding configured
  configure_auto_resize self cfg defer_checks emits_grow_signal = do
    auto ← configured f r c.z c.a self.height cfg defer_checks emits_grow_signal
    some (record self { auto_resize = some auto })

  unfoldable pub enable_auto_resize :
      ObliviousHistogram V F R → AutoResizeConfig F → Option (ObliviousHistogram V F R)
  unfolding configure_auto_resize
  enable_auto_resize self cfg = configure_auto_resize self cfg false true

  unfoldable pub enable_deferred_auto_resize :
      ObliviousHistogram V F R → AutoResizeConfig F → Bool → Option (ObliviousHistogram V F R)
  unfolding configure_auto_resize
  enable_deferred_auto_resize self cfg emits_grow_signal =
      configure_auto_resize self cfg true emits_grow_signal

  -- The height after it is that of the result.
  unfoldable pub grow_physical_storage :
      ObliviousHistogram V F R → Option (ObliviousHistogram V F R)
  unfolding dummy leaf_count Stash.grow_extend_path_buffer
  grow_physical_storage self = do
    guard (ltb self.height max_tree_height)
    some (record self {
      physical_memory = self.physical_memory ++ replicate (length self.physical_memory) (dummy c.k);
      height = self.height + 1;
      epoch = min (self.epoch + 1) 255;
      sweep_end = self.evict_ctr + leaf_count self.height;
      stash = Stash.grow_extend_path_buffer c.z c.k self.stash;
    })

  -- The state of the resize decision after the tree has grown.
  unfoldable pub tell_grown : ObliviousHistogram V F R → Option (ObliviousHistogram V F R)
  unfolding on_tree_grown
  tell_grown self = elim self.auto_resize [
    | none ↦ some self
    | some auto ↦ elim (on_tree_grown f r c.z c.a auto self.height) [
      | none ↦ none
      | some auto' ↦ some (record self { auto_resize = some auto' })
    ]
  ]

  unfoldable pub apply_auto_resize_grow :
      ObliviousHistogram V F R → Option (ObliviousHistogram V F R)
  unfolding grow_physical_storage tell_grown
  apply_auto_resize_grow self = do self' ← grow_physical_storage self; tell_grown self'

  -- The signal that was pending, if any, and the tree without it.
  unfoldable pub take_deferred_auto_resize_signal :
      ObliviousHistogram V F R → Option ℕ × ObliviousHistogram V F R
  take_deferred_auto_resize_signal self = elim self.auto_resize [
    | none ↦ (none, self)
    | some auto ↦ (
      auto.pending_grow,
      record self { auto_resize = some (record auto { pending_grow = none }) },
    )
  ]

  unfoldable pub apply_deferred_auto_resize_grow :
      ObliviousHistogram V F R → Option (ObliviousHistogram V F R)
  unfolding reset_counters apply_auto_resize_grow
  apply_deferred_auto_resize_grow self = elim self.auto_resize [
    | none ↦ apply_auto_resize_grow self
    | some auto ↦
        apply_auto_resize_grow (record self { auto_resize = some (reset_counters f r auto) })
  ]

  unfoldable pub accumulate_resize_accounting :
      ObliviousHistogram V F R → ℕ → ObliviousHistogram V F R
  unfolding record_eviction Stash.count_matching_blocks
  accumulate_resize_accounting self evict_leaf = elim self.auto_resize [
    | none ↦ self
    | some auto ↦
        let c_t = Stash.count_matching_blocks self.stash self.height evict_leaf self.epoch in
        record self { auto_resize = some (record_eviction f r auto c_t) }
  ]

  unfoldable pub check_and_maybe_resize_post_eviction :
      ObliviousHistogram V F R → Option (ObliviousHistogram V F R)
  unfolding should_check_epoch evaluate_signal apply_auto_resize_grow
  check_and_maybe_resize_post_eviction self = elim self.auto_resize [
    | none ↦ some self
    | some auto ↦
        let (grow_signal, auto') = evaluate_signal f r c.z auto in
        if should_check_epoch f r auto
        then if auto.deferred
          then if auto'.emits_grow_signal
            then some
                (record self { auto_resize = some (record auto' { pending_grow = grow_signal }) })
            else some (record self { auto_resize = some auto' })
          else elim grow_signal [
            | none ↦ some (record self { auto_resize = some auto' })
            | some fill_target ↦ apply_auto_resize_grow (record self { auto_resize = some auto' })
          ]
        else some self
  ]

  -- `read_from_path`, `merge_accumulate_for_path` and `write_to_path` in a row.
  unfoldable pub access_path : ObliviousHistogram V F R → ℕ → Option (ObliviousHistogram V F R)
  unfolding Stash.read_from_path merge_accumulate_for_path write_to_path
  access_path self leaf = do
    stash ← Stash.read_from_path c.z self.stash self.physical_memory leaf
    stash' ← merge_accumulate_for_path c.k stash leaf
    (stash'', memory) ← write_to_path c.z c.k stash' self.physical_memory leaf
    some (record self { stash = stash''; physical_memory = memory })
