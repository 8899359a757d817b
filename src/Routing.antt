-- ===== src/Routing.antt =====
-- crates/oram/src/oblivious_histogram/routing.rs and tree.rs: tags as addresses of tree leaves, and
-- the indices of a complete binary tree. A tag is a `u64`; its low 31 bits route, and a tag of zero
-- marks a dummy block. Tree nodes are numbered from 1, the children of `x` being 2x and 2x + 1.
pub mod Leaves
pub mod Paths
pub mod Ranks
use roga.Base.{
  ℕ, ◌+◌, ◌-◌, ◌*◌, ◌^◌, ◌≡◌, Bool, Option, none, some, ◌&&◌, bit_and, bit_or, bit_xor, bit_not,
  wrapping_sub, wrapping_neg, ◌<<<◌, ◌>>>◌, leading_zeros, leb, ltb, ◌==◌, if◌then◌else◌, max,
}
use roga.Ct.{ct_not}

abbrev pub max_tree_height : ℕ
max_tree_height = 31

abbrev pub real_addr_marker : ℕ
real_addr_marker = 1 <<< max_tree_height

abbrev pub routing_addr_mask : ℕ
routing_addr_mask = (real_addr_marker <<< 1) - 1

abbrev pub routing_bits_mask : ℕ
routing_bits_mask = real_addr_marker - 1

abbrev pub high_identity_bits_mask : ℕ
high_identity_bits_mask = bit_not routing_addr_mask

unfoldable pub address_to_leaf : ℕ → ℕ → ℕ
address_to_leaf addr height =
    let routing = bit_or (bit_and addr routing_bits_mask) real_addr_marker in
    routing >>> (max_tree_height - height)

-- `none` is a failed assertion.
unfoldable pub force_leaf_routing : ℕ → ℕ → ℕ → Option ℕ
force_leaf_routing addr leaf height =
    let prefix_bits = height + 1 in
    let prefix_shift = max_tree_height - height in
    let prefix_mask = ((1 <<< prefix_bits) - 1) <<< prefix_shift in
    let forced_prefix = leaf <<< prefix_shift in
    let raw =
      bit_or (bit_or (bit_and addr routing_bits_mask) real_addr_marker)
        (bit_and addr high_identity_bits_mask) in
    if leb height max_tree_height && (leb (1 <<< height) leaf && ltb leaf (1 <<< (height + 1)))
    then some (bit_or (bit_and raw (bit_not prefix_mask)) forced_prefix)
    else none

-- The trait `OramAddress` at `u64`.
unfoldable pub ct_is_real : ℕ → ℕ
ct_is_real tag = bit_or tag (wrapping_neg tag) >>> 63

unfoldable pub routing_bits : ℕ → ℕ
routing_bits tag = bit_and tag routing_bits_mask

unfoldable pub to_leaf : ℕ → ℕ → ℕ
unfolding address_to_leaf
to_leaf tag height = address_to_leaf tag height

unfoldable pub path_rank_key : ℕ → ℕ → ℕ → ℕ
unfolding ct_is_real routing_bits ct_not
path_rank_key tag position height =
    let routing = routing_bits tag in
    let leaf_suffix_mask = wrapping_sub (1 <<< height) 1 in
    let evict_suffix = bit_and position leaf_suffix_mask in
    let evict_routing = evict_suffix <<< (max_tree_height - height) in
    let ranked_routing = bit_xor routing evict_routing in
    let marker = ct_is_real tag in
    let dummy_bit = ct_not marker in
    let identity = tag >>> 32 in bit_or (bit_or (dummy_bit <<< 63) (ranked_routing <<< 32)) identity

-- tree.rs
unfoldable pub ct_node_on_path : ℕ → ℕ → ℕ → ℕ
ct_node_on_path leaf depth height = leaf >>> (height - depth)

-- `63u64.saturating_sub(..)`
unfoldable pub ct_depth : ℕ → ℕ
ct_depth node = 63 - leading_zeros node

unfoldable pub is_leaf : ℕ → ℕ → Bool
unfolding ct_depth
is_leaf node height = ct_depth node == height

unfoldable pub leaf_count : ℕ → ℕ
leaf_count height = 1 <<< height

-- `n.ilog2()`, for `n` above zero.
unfoldable pub ilog2 : ℕ → ℕ
ilog2 n = 63 - leading_zeros n

-- `z.trailing_zeros()` of a power of two is its logarithm. `none`: `z` is no power of two, or the
-- capacity is zero, for which `ilog2` panics.
unfoldable pub tree_height_for_capacity : ℕ → ℕ → Option ℕ
unfolding ilog2
tree_height_for_capacity block_capacity z =
    if 2 ^ ilog2 z == z && ltb 0 block_capacity
    then some (max (ilog2 block_capacity - ilog2 z) 1)
    else none

-- stash.rs: the deepest level at which the path to a block's leaf meets the path to `target_leaf`.
unfoldable pub deepest_shared_level : ℕ → ℕ → ℕ → ℕ
deepest_shared_level target_leaf block_tag height =
    let block_leaf = to_leaf block_tag height in
    let differing_bits = bit_xor target_leaf block_leaf in
    let shared_prefix_bits = leading_zeros differing_bits in height + shared_prefix_bits - 64
