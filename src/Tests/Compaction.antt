-- ===== src/Tests/Compaction.antt =====
-- Tests of compaction and distribution, at five entries, of which two are marked, and at the sample.
use roga.Base.{
  resize, ℕ, zero, suc, ◌+◌, ◌<◌, ◌≡◌, ◌⊎◌, inl, inr, refl, arith, List, [], ◌∷◌, take, get_elem?,
  some, for_range, leading_zeros,
}
use roga.Tests.Fixtures.{plain_cmov, word_value, key_a, key_b, block, sample, sample-AreBlocks}
use roga.Ct.{word_cmov, primitive_cmov, cxchg, cswap_fast}
use roga.Routing.{ct_is_real}
use roga.Block.{is_real, oram_block_cmov}
use roga.Reduction.{block_reducible}
use roga.Compaction.{
  mark, floor_pow2, pair_choice, left_offset, right_offset, half_choice, swap_loop, swap_pair,
  compact_pow2, compact_fuel, compact_payload, distribute_payload, compact_marks,
  compact_marks_loop,
}
use roga.Compaction.Marks.{IsMarks}
use roga.Compaction.RoundTrip.{compact_payload-distribute_payload}
use roga.Compaction.Stable.{get_elem?-compact_payload, get_elem?-distribute_payload}
use roga.Compaction.Real.{compact_payload-compact_marks}

abbrev five : List ℕ
five = 10 ∷ 11 ∷ 12 ∷ 13 ∷ 14 ∷ []

-- The entries 1 and 3 are marked.
abbrev marks : List ℕ
marks = 0 ∷ 0 ∷ 1 ∷ 1 ∷ 2 ∷ 2 ∷ []

compact-five : take 2 (compact_payload five marks) ≡ 11 ∷ 13 ∷ []
unfolding compact_payload compact_fuel compact_pow2 swap_loop swap_pair half_choice right_offset
    left_offset pair_choice floor_pow2 for_range cswap_fast cxchg primitive_cmov leading_zeros
compact-five = refl

compact_marks-sample :
    compact_marks (block_reducible 2) sample (9 ∷ 9 ∷ []) ≡ 0 ∷ 0 ∷ 1 ∷ 2 ∷ 2 ∷ 3 ∷ []
unfolding compact_marks compact_marks_loop block_reducible is_real ct_is_real resize
compact_marks-sample = refl

marks-IsMarks : IsMarks 5 marks
marks-IsMarks = record { step = go; bounded = omega arith }
  where
    go :
        (i : ℕ)
        → i < 5
        → (mark marks (i + 1) ≡ mark marks i) ⊎ (mark marks (i + 1) ≡ mark marks i + 1)
    go zero h = inl refl
    go (suc zero) h = inr refl
    go (suc (suc zero)) h = inl refl
    go (suc (suc (suc zero))) h = inr refl
    go (suc (suc (suc (suc zero)))) h = inl refl
    go (suc (suc (suc (suc (suc i))))) h = absurd (omega arith)

compact_payload-distribute_payload_example :
    (distribute_payload (compact_payload five marks) marks ≡ five)
    × (compact_payload (distribute_payload five marks) marks ≡ five)
compact_payload-distribute_payload_example =
    compact_payload-distribute_payload five marks (omega arith)

get_elem?-compact_payload_example : get_elem? (compact_payload five marks) 1 ≡ some 13
get_elem?-compact_payload_example =
    get_elem?-compact_payload five marks 3 (omega arith) marks-IsMarks (omega arith) refl

get_elem?-distribute_payload_example : get_elem? (distribute_payload five marks) 3 ≡ some 11
get_elem?-distribute_payload_example =
    get_elem?-distribute_payload five marks 3 (omega arith) marks-IsMarks (omega arith) refl

compact_payload-compact_marks_example :
    let marks' = compact_marks (block_reducible 2) sample [] in
    (mark marks' 5 ≡ 3)
    × (take 3 (compact_payload sample marks')
        ≡ block 7 3 10 key_a ∷ block 7 1 20 key_a ∷ block 9 2 30 key_b ∷ [])
compact_payload-compact_marks_example =
    compact_payload-compact_marks 2 sample [] sample-AreBlocks (omega arith)
