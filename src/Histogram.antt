-- ===== src/Histogram.antt =====
-- The schedule of evictions in crates/oram/src/oblivious_histogram/ops.rs: how many appends an eviction
-- waits for, and which leaf it goes to.
pub mod Evictions
use roga.Base.{ℕ, zero, suc, ◌+◌, ◌-◌, ◌*◌, ◌/◌, ◌%◌, ◌^◌, bit_or, ◌>>>◌, ltb, if◌then◌else◌, max}
use roga.Routing.{leaf_count}

-- `reverse_bits` of a word of the given width.
unfoldable pub reverse_bits : ℕ → ℕ → ℕ
reverse_bits zero x = 0
reverse_bits (suc width) x = x % 2 * 2 ^ width + reverse_bits width (x / 2)

-- The leaf, and the counter `evict_ctr` afterwards. The height is not zero.
unfoldable pub next_evict_leaf : ℕ → ℕ → ℕ × ℕ
unfolding leaf_count reverse_bits
next_evict_leaf evict_ctr height =
    let num_leaves = leaf_count height in
    let raw = evict_ctr % num_leaves in
    let rev = reverse_bits 64 raw >>> (64 - height) in
    (bit_or (leaf_count height) rev, evict_ctr + 1)

-- `a` is the constant A.
unfoldable pub current_evict_interval : ℕ → ℕ → ℕ → ℕ
current_evict_interval a evict_ctr sweep_end =
    let ordinary = a in if ltb evict_ctr sweep_end then max (ordinary / 2) 1 else ordinary
