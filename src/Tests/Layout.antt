-- ===== src/Tests/Layout.antt =====
-- Tests of the layout marks: two levels of two slots with two overflow slots, and two shards of three.
use roga.Base.{◌≡◌, refl, arith, [], ◌∷◌, resize}
use roga.Ct.{ct_lt}
use roga.Compaction.Marks.{IsMarks}
use roga.Compaction.Real.{flags, sums}
use roga.Stash.Eviction.{slot_loop, build_leaf_to_root_layout_marks}
use roga.Stash.Eviction.Layout.{
  slot_bits, level_bits, layout_bits, build_leaf_to_root_layout_marks_lem,
}
use roga.Router.{quota_loop, build_distribute_marks_router}
use roga.Router.Marks.{shard_bits, build_distribute_marks_router_lem}

distribute_marks_use_fixed_slots :
    build_distribute_marks_router [] (2 ∷ 1 ∷ []) 3 6 ≡ 0 ∷ 1 ∷ 2 ∷ 2 ∷ 3 ∷ 3 ∷ 3 ∷ []
unfolding build_distribute_marks_router quota_loop slot_loop ct_lt resize
distribute_marks_use_fixed_slots = refl

build_leaf_to_root_layout_marks_lem_example :
    let layout = build_leaf_to_root_layout_marks 2 (9 ∷ []) (0 ∷ 1 ∷ []) 2 4 6 in
    (layout ≡ 0 ∷ 1 ∷ 1 ∷ 1 ∷ 1 ∷ 2 ∷ 3 ∷ []) × IsMarks 6 layout
unfolding flags sums layout_bits level_bits slot_bits
build_leaf_to_root_layout_marks_lem_example =
    build_leaf_to_root_layout_marks_lem 2 (9 ∷ []) (0 ∷ 1 ∷ []) 2 4 6 (omega arith)
      (omega arith, (omega arith, tt)) (omega arith) (omega arith) (omega arith) refl

build_distribute_marks_router_lem_example :
    let marks = build_distribute_marks_router [] (2 ∷ 1 ∷ []) 3 6 in
    (marks ≡ 0 ∷ 1 ∷ 2 ∷ 2 ∷ 3 ∷ 3 ∷ 3 ∷ []) × IsMarks 6 marks
unfolding flags sums shard_bits slot_bits
build_distribute_marks_router_lem_example =
    build_distribute_marks_router_lem [] (2 ∷ 1 ∷ []) 3 6 (omega arith)
      (omega arith, (omega arith, tt)) (omega arith) refl
