-- ===== src/Tests/Sort.antt =====
-- Tests of the sorting network.
use mathlib.Core.List.Permᴰ.{Permᴰ}
use roga.Sort.Network.{AllWithin, trace, trace-AllWithin}
use roga.Sort.Pairs.{zip, sort_with_payload-Permᴰ}
use roga.Sort.Single.{sort_by-Permᴰ}
use roga.Base.{ℕ, List, length, ◌≡◌, refl, [], ◌∷◌, some, ltb, to_bit, for_range, leading_zeros}
use roga.Tests.Fixtures.{plain_cmov}
use roga.Ct.{word_cmov, primitive_cmov, cxchg, cswap_fast}
use roga.Routing.{ilog2}
use roga.Sort.Merge.{concat_wire, odd_even_merge_by_raw, merge_sorted_by}
use roga.Sort.{
  top_loop, pairs_loop, tail_loop, resume_loop, blocks_loop, rest_loop, q_loop, p_loop, network,
  minmax_by_raw, cascade_loop, cascade_by_raw, sort_by, minmax_with_payload_raw,
  cascade_payload_loop, cascade_with_payload_raw, sort_with_payload,
}

sort_by-seven :
    sort_by (5 ∷ 3 ∷ 9 ∷ 1 ∷ 7 ∷ 2 ∷ 4 ∷ []) (λ a b. to_bit (ltb b a))
    ≡ 1 ∷ 2 ∷ 3 ∷ 4 ∷ 5 ∷ 7 ∷ 9 ∷ []
unfolding sort_by network top_loop p_loop pairs_loop tail_loop q_loop resume_loop blocks_loop
    rest_loop for_range minmax_by_raw cascade_by_raw cascade_loop cswap_fast cxchg primitive_cmov
sort_by-seven = refl

sort_with_payload-six :
    sort_with_payload {P = ℕ} (5 ∷ 3 ∷ 9 ∷ 1 ∷ 7 ∷ 2 ∷ []) (50 ∷ 30 ∷ 90 ∷ 10 ∷ 70 ∷ 20 ∷ [])
    ≡ some (1 ∷ 2 ∷ 3 ∷ 5 ∷ 7 ∷ 9 ∷ [], 10 ∷ 20 ∷ 30 ∷ 50 ∷ 70 ∷ 90 ∷ [])
unfolding sort_with_payload network top_loop p_loop pairs_loop tail_loop q_loop resume_loop
    blocks_loop rest_loop for_range minmax_with_payload_raw cascade_with_payload_raw
    cascade_payload_loop cswap_fast cxchg primitive_cmov
sort_with_payload-six = refl

merge_sorted_by-six :
    merge_sorted_by {P = ℕ} (1 ∷ 5 ∷ 6 ∷ 9 ∷ 2 ∷ 7 ∷ []) 4 (λ a b. to_bit (ltb b a))
    ≡ some (1 ∷ 2 ∷ 5 ∷ 6 ∷ 7 ∷ 9 ∷ [])
unfolding merge_sorted_by odd_even_merge_by_raw concat_wire ilog2 leading_zeros for_range
    minmax_by_raw cswap_fast cxchg primitive_cmov
merge_sorted_by-six = refl

trace-AllWithin_example : AllWithin 6 (trace 6)
trace-AllWithin_example = trace-AllWithin 6

sort_with_payload-Permᴰ_example :
    (keys' payloads' : List ℕ) × (sort_with_payload {P = ℕ} (5 ∷ 3 ∷ 9 ∷ []) (50 ∷ 30 ∷ 90 ∷ [])
      ≡ some (keys', payloads'))
    × (length keys' ≡ 3)
    × (length payloads' ≡ 3)
    × Permᴰ (zip keys' payloads') (zip {A = ℕ} {B = ℕ} (5 ∷ 3 ∷ 9 ∷ []) (50 ∷ 30 ∷ 90 ∷ []))
sort_with_payload-Permᴰ_example = sort_with_payload-Permᴰ (5 ∷ 3 ∷ 9 ∷ []) (50 ∷ 30 ∷ 90 ∷ []) refl

sort_by-Permᴰ_example :
    (length (sort_by {P = ℕ} (5 ∷ 3 ∷ 9 ∷ []) (λ a b. to_bit (ltb b a))) ≡ 3)
    × Permᴰ (sort_by {P = ℕ} (5 ∷ 3 ∷ 9 ∷ []) (λ a b. to_bit (ltb b a))) (5 ∷ 3 ∷ 9 ∷ [])
sort_by-Permᴰ_example = sort_by-Permᴰ (5 ∷ 3 ∷ 9 ∷ []) (λ a b. to_bit (ltb b a))
