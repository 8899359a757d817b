-- ===== src/Sort/Merge.antt =====
-- The merge of two sorted runs in djbsort.rs. Each call of the recursion halves the strides' lengths, so
-- the length of the array is more than enough fuel.
use roga.Base.{
  ℕ, zero, suc, ◌+◌, ◌-◌, ◌*◌, ◌/◌, ◌^◌, true, false, ◌&&◌, ◌||◌, Option, none, some, List, ltb,
  leb, ◌==◌, if◌then◌else◌, length, for_range, min,
}
use roga.Ct.{Cmov}
use roga.Routing.{ilog2}
use roga.Sort.{minmax_by_raw}

unfoldable pub concat_wire : ℕ → ℕ → ℕ → ℕ → ℕ → ℕ → ℕ
concat_wire first_start first_stride first_len second_start second_stride index =
    if ltb index first_len
    then first_start + index * first_stride
    else second_start + (index - first_len) * second_stride

module _ {P : Type 0} ⦃m : Cmov P⦄ where
  unfoldable pub odd_even_merge_by_raw : (P → P → ℕ) → ℕ → ℕ → ℕ → ℕ → ℕ → ℕ → ℕ → List P → List P
  unfolding minmax_by_raw concat_wire
  odd_even_merge_by_raw greater zero first_start first_stride first_len second_start second_stride
        second_len payloads =
      payloads
  odd_even_merge_by_raw greater (suc fuel) first_start first_stride first_len second_start
        second_stride second_len payloads =
      elim (first_len == 0 || second_len == 0) [
        | true ↦ payloads
        | false ↦ elim (first_len == 1 && second_len == 1) [
          | true ↦ minmax_by_raw greater first_start second_start payloads
          | false ↦
              let first_odd_len = (first_len + 1) / 2 in
              let second_odd_len = (second_len + 1) / 2 in
              let first_even_len = first_len / 2 in
              let second_even_len = second_len / 2 in
              let odd =
                odd_even_merge_by_raw greater fuel first_start (first_stride * 2) first_odd_len
                  second_start (second_stride * 2) second_odd_len payloads in
              let even =
                odd_even_merge_by_raw greater fuel (first_start + first_stride) (first_stride * 2)
                  first_even_len (second_start + second_stride) (second_stride * 2) second_even_len
                  odd in
              let odd_len = first_odd_len + second_odd_len in
              let even_len = first_even_len + second_even_len in
              for_range (min even_len (odd_len - 1)) 0
                (λ i.
                  minmax_by_raw greater
                    (concat_wire (first_start + first_stride) (first_stride * 2) first_even_len
                      (second_start + second_stride) (second_stride * 2) i)
                    (concat_wire first_start (first_stride * 2) first_odd_len second_start
                      (second_stride * 2) (i + 1)))
                even
        ]
      ]

  -- `none` is a failed assertion.
  unfoldable pub merge_sorted_by : List P → ℕ → (P → P → ℕ) → Option (List P)
  unfolding odd_even_merge_by_raw ilog2
  merge_sorted_by payloads split greater =
      let second_len = length payloads - split in
      if ltb (length payloads) split
      then none
      else if split == 0 || second_len == 0
      then some payloads
      else if 2 ^ ilog2 split == split
          && (2 ^ ilog2 second_len == second_len && leb second_len split)
      then some
          (odd_even_merge_by_raw greater (length payloads) 0 1 split split 1 second_len payloads)
      else none
