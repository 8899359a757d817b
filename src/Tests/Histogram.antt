-- ===== src/Tests/Histogram.antt =====
-- Tests of the eviction schedule, at a tree of height 3.
use roga.Base.{◌≤◌, ◌<◌, ◌≡◌, ◌↔◌, ◌%◌, ◌^◌, ◌/◌, refl, arith}
use roga.Routing.{leaf_count, path_rank_key}
use roga.Routing.Ranks.{path_rank_key-top}
use roga.Histogram.{reverse_bits, next_evict_leaf, current_evict_interval}
use roga.Histogram.Evictions.{next_evict_leaf-distinct}

next_evict_leaf-three : next_evict_leaf 11 3 ≡ (14, 12)
unfolding next_evict_leaf leaf_count reverse_bits
next_evict_leaf-three = refl

current_evict_interval-sweep : current_evict_interval 20 0 1 ≡ 10
unfolding current_evict_interval
current_evict_interval-sweep = refl

next_evict_leaf-distinct_example :
    (8 ≤ (next_evict_leaf 11 3).0)
    × ((next_evict_leaf 11 3).0 < 16)
    × (((next_evict_leaf 11 3).0 ≡ (next_evict_leaf 19 3).0) ↔ (11 % 8 ≡ 19 % 8))
next_evict_leaf-distinct_example = next_evict_leaf-distinct 11 19 3 (omega arith)

path_rank_key-top_example : path_rank_key 0 13 3 / 2 ^ 63 ≡ 1
path_rank_key-top_example = path_rank_key-top 0 13 3 (omega arith) (omega arith)
