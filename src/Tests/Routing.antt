-- ===== src/Tests/Routing.antt =====
-- Tests of the routing of tags, at a tree of height 3.
use roga.Base.{◌*◌, ◌≤◌, ◌≡◌, ◌^◌, ◌↔◌, refl, arith, leading_zeros}
use roga.Routing.{address_to_leaf, to_leaf, deepest_shared_level, ct_node_on_path}
use roga.Routing.Paths.{deepest_shared_level_iff}

deepest_shared_level-tag : deepest_shared_level 11 (6 * 2 ^ 28) 3 ≡ 0
unfolding deepest_shared_level to_leaf address_to_leaf leading_zeros
deepest_shared_level-tag = refl

deepest_shared_level_iff_example :
    (1 ≤ deepest_shared_level 11 (6 * 2 ^ 28) 3)
    ↔ (ct_node_on_path 11 1 3 ≡ ct_node_on_path (to_leaf (6 * 2 ^ 28) 3) 1 3)
deepest_shared_level_iff_example =
    deepest_shared_level_iff 11 (6 * 2 ^ 28) 3 1 (omega arith) (omega arith) (omega arith)
      (omega arith)
