-- ===== src/Compaction.antt =====
-- crates/oram/src/oblivious/compaction.rs: order-preserving compaction of the marked entries of an
-- array, and distribution, its inverse, by exchanges that depend on the marks alone. A slice is a
-- list, `split_at_mut` is `take` and `drop`, and an index is a `usize` with its wrap-around. The
-- recursion is on fuel; the length of the array is enough, as the theorems in `Compaction.Rank` show.
pub mod Loop
pub mod Inverse
pub mod RoundTrip
pub mod Targets
pub mod Marks
pub mod Rank
pub mod Stable
pub mod Real
pub mod Permutes
use roga.Base.{
  ℕ, zero, suc, ◌+◌, ◌-◌, ◌/◌, ◌%◌, ◌^◌, Bool, xor, not, List, ◌++◌, bit_and, bit_not, wrapping_sub,
  wrapping_add, leading_zeros, ◌==◌, leb, if◌then◌else◌, length, take, drop, get_or, for_range, [],
  ◌∷◌, set, resize,
}
use roga.Ct.{Cmov, cswap_fast}
use roga.Reduction.{Reducible}

-- `payload[i]`; the marks have one entry more than the array.
abbrev pub mark : List ℕ → ℕ → ℕ
mark payload i = get_or payload i 0

-- The largest power of two up to `n`: `1 << (usize::BITS - 1 - n.leading_zeros())`.
unfoldable pub floor_pow2 : ℕ → ℕ
floor_pow2 n = 2 ^ (64 - 1 - leading_zeros n)

-- The two-element case of both functions.
unfoldable pub pair_choice : List ℕ → ℕ → Bool
pair_choice payload z =
    let m = wrapping_sub (mark payload 1) (mark payload 0) in
    let d = wrapping_sub (mark payload 2) (mark payload 1) in not (bit_and (bit_not m) d == z)

-- The offsets of the two halves, and which entries of the halves are exchanged.
unfoldable pub left_offset : ℕ → ℕ → ℕ
left_offset half z = bit_and z (half - 1)

unfoldable pub right_offset : ℕ → ℕ → ℕ → ℕ
right_offset half z m = bit_and (wrapping_add z m) (half - 1)

unfoldable pub half_choice : ℕ → ℕ → ℕ → ℕ → Bool
unfolding left_offset right_offset
half_choice half z m i =
    xor (xor (leb half (wrapping_add (left_offset half z) m)) (leb half z))
      (leb (right_offset half z m) i)

module _ {ℓ} {T : Type ℓ} ⦃m : Cmov T⦄ where
  -- `for i in 0..n { cswap_fast(arr, i, d + i, choice(i)) }`
  unfoldable pub swap_loop : ℕ → ℕ → (ℕ → Bool) → List T → List T
  swap_loop n d choice arr = for_range n 0 (λ i s. cswap_fast s i (d + i) (choice i)) arr

  unfoldable pub swap_pair : List T → List ℕ → ℕ → List T
  swap_pair arr payload z = cswap_fast arr 0 1 (pair_choice payload z)

  unfoldable pub compact_pow2 : ℕ → List T → List ℕ → ℕ → List T
  compact_pow2 zero arr payload z = arr
  compact_pow2 (suc fuel) arr payload z =
      let half = length arr / 2 in
      let m = wrapping_sub (mark payload half) (mark payload 0) in
      let left = compact_pow2 fuel (take half arr) (take (half + 1) payload) (left_offset half z) in
      let right = compact_pow2 fuel (drop half arr) (drop half payload) (right_offset half z m) in
      if length arr == 2
      then swap_pair arr payload z
      else swap_loop half half (half_choice half z m) (left ++ right)

  unfoldable pub compact_fuel : ℕ → List T → List ℕ → List T
  compact_fuel zero arr payload = arr
  compact_fuel (suc fuel) arr payload =
      let n = length arr in
      let n1 = floor_pow2 n in
      let n2 = n - n1 in
      let m = wrapping_sub (mark payload n2) (mark payload 0) in
      let left = compact_fuel fuel (take n2 arr) (take (n2 + 1) payload) in
      let right = compact_pow2 n (drop n2 arr) (drop n2 payload) (wrapping_add (n1 - n2) m % n1) in
      if leb n 1
      then arr
      else if n2 == 0
      then compact_pow2 n arr payload 0
      else swap_loop n2 n1 (λ i. leb m i) (left ++ right)

  unfoldable pub compact_payload : List T → List ℕ → List T
  compact_payload arr payload = compact_fuel (length arr) arr payload

  unfoldable pub distribute_pow2 : ℕ → List T → List ℕ → ℕ → List T
  distribute_pow2 zero arr payload z = arr
  distribute_pow2 (suc fuel) arr payload z =
      let half = length arr / 2 in
      let m = wrapping_sub (mark payload half) (mark payload 0) in
      let swapped = swap_loop half half (half_choice half z m) arr in
      let left =
        distribute_pow2 fuel (take half swapped) (take (half + 1) payload) (left_offset half z) in
      let right =
        distribute_pow2 fuel (drop half swapped) (drop half payload) (right_offset half z m) in
      if length arr == 2 then swap_pair arr payload z else left ++ right

  unfoldable pub distribute_fuel : ℕ → List T → List ℕ → List T
  distribute_fuel zero arr payload = arr
  distribute_fuel (suc fuel) arr payload =
      let n = length arr in
      let n1 = floor_pow2 n in
      let n2 = n - n1 in
      let m = wrapping_sub (mark payload n2) (mark payload 0) in
      let swapped = swap_loop n2 n1 (λ i. leb m i) arr in
      let left = distribute_fuel fuel (take n2 swapped) (take (n2 + 1) payload) in
      let right =
        distribute_pow2 n (drop n2 swapped) (drop n2 payload) (wrapping_add (n1 - n2) m % n1) in
      if leb n 1 then arr else if n2 == 0 then distribute_pow2 n arr payload 0 else left ++ right

  unfoldable pub distribute_payload : List T → List ℕ → List T
  distribute_payload arr payload = distribute_fuel (length arr) arr payload

-- The loop over `records` from the index `i` on.
module _ {V T : Type 0} (r : Reducible V T) where
  unfoldable pub compact_marks_loop : List T → ℕ → ℕ → List ℕ → List ℕ
  compact_marks_loop [] i sum marks = marks
  compact_marks_loop (record_i ∷ records) i sum marks =
      let sum' = sum + r.ct_is_real record_i in
      compact_marks_loop records (i + 1) sum' (set marks (i + 1) sum')

  unfoldable pub compact_marks : List T → List ℕ → List ℕ
  unfolding compact_marks_loop
  compact_marks records marks =
      let n = length records in
      let marks' = if length marks == n + 1 then marks else resize (n + 1) 0 marks in
      compact_marks_loop records 0 0 (set marks' 0 0)
