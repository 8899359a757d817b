-- ===== src/Compaction/Inverse.antt =====
-- The inverse exchanges of distribution and compaction in compaction.rs, on a power of two of entries.
use roga.Base.{
  ℕ, zero, suc, ◌+◌, ◌/◌, ◌≤◌, ◌≡◌, refl, ap, ◌∙◌, arith, Bool, true, false, List, ◌++◌, ◌==◌,
  if◌then◌else◌, length, get_elem?, list_ext, Bool-cases, inl, inr, take, drop, take-append,
  drop-append, take-append-drop, length-take, length-drop, length-append, wrapping_sub,
}
use roga.Ct.{Cmov}
use roga.Ct.Swap.{swap_index, get_elem?-cswap_fast, length-cswap_fast}
use roga.Compaction.{
  swap_loop, swap_pair, mark, pair_choice, half_choice, left_offset, right_offset, compact_pow2,
  distribute_pow2,
}
use roga.Compaction.Loop.{length-swap_loop, swap_loop_twice}

swap_index_twice : (c : Bool) (t : ℕ) → swap_index 0 1 c (swap_index 0 1 c t) ≡ t
swap_index_twice c t = ground arith

module _ {ℓ} {T : Type ℓ} ⦃m : Cmov T⦄ where
  pub length-swap_pair :
      (arr : List T) (p : List ℕ) (z : ℕ) → length (swap_pair arr p z) ≡ length arr
  unfolding swap_pair
  length-swap_pair arr p z = length-cswap_fast arr 0 1 _

  swap_pair_twice :
      (arr : List T) (p : List ℕ) (z : ℕ) → 2 ≤ length arr → swap_pair (swap_pair arr p z) p z ≡ arr
  unfolding swap_pair
  swap_pair_twice arr p z h = list_ext _ _ λ t.
      let same = length-swap_pair arr p z in
      get_elem?-cswap_fast _ 0 1 t (pair_choice p z) (omega (arith, same)) (omega (arith, same))
        (omega arith)
      ∙ get_elem?-cswap_fast arr 0 1 (swap_index 0 1 (pair_choice p z) t) (pair_choice p z)
          (omega arith) (omega arith) (omega arith)
      ∙ ap (get_elem? arr) (swap_index_twice (pair_choice p z) t)

  module _ (fuel : ℕ) (arr : List T) (p : List ℕ) (z n : ℕ) (size : length arr ≡ n) where
    abbrev moved : ℕ
    moved = wrapping_sub (mark p (n / 2)) (mark p 0)

    abbrev exchange : List T → List T
    exchange = swap_loop (n / 2) (n / 2) (half_choice (n / 2) z moved)

    abbrev left_of : (ℕ → List T → List ℕ → ℕ → List T) → List T → List T
    left_of f a = f fuel (take (n / 2) a) (take (n / 2 + 1) p) (left_offset (n / 2) z)

    abbrev right_of : (ℕ → List T → List ℕ → ℕ → List T) → List T → List T
    right_of f a = f fuel (drop (n / 2) a) (drop (n / 2) p) (right_offset (n / 2) z moved)

    compact_pow2_step : compact_pow2 (suc fuel) arr p z ≡ (
        if n == 2
        then swap_pair arr p z
        else exchange (left_of compact_pow2 arr ++ right_of compact_pow2 arr))
    unfolding compact_pow2
    compact_pow2_step = rw (← size)

    distribute_pow2_step : distribute_pow2 (suc fuel) arr p z ≡ (
        if n == 2
        then swap_pair arr p z
        else left_of distribute_pow2 (exchange arr) ++ right_of distribute_pow2 (exchange arr))
    unfolding distribute_pow2
    distribute_pow2_step = rw (← size)

  halves_length :
      (n : ℕ) (arr l r : List T)
      → length l ≡ length (take (n / 2) arr)
      → length r ≡ length (drop (n / 2) arr)
      → length arr ≡ n
      → (length l ≡ n / 2) × (length (l ++ r) ≡ n)
  halves_length n arr l r hl hr e =
      omega (arith, length-append l r, length-take (n / 2) arr, length-drop (n / 2) arr)

  pub if_length :
      (b : Bool) (x y : List T) (n : ℕ)
      → length x ≡ n
      → length y ≡ n
      → length (if b then x else y) ≡ n
  if_length true x y n p q = p
  if_length false x y n p q = q

  pub length-compact_pow2 :
      (fuel : ℕ) (arr : List T) (p : List ℕ) (z : ℕ)
      → length (compact_pow2 fuel arr p z) ≡ length arr
  unfolding compact_pow2
  length-compact_pow2 zero arr p z = refl
  length-compact_pow2 (suc fuel) arr p z =
      let left =
        length-compact_pow2 fuel (take (length arr / 2) arr) (take (length arr / 2 + 1) p)
          (left_offset (length arr / 2) z) in
      let right =
        length-compact_pow2 fuel (drop (length arr / 2) arr) (drop (length arr / 2) p)
          (right_offset (length arr / 2) z (moved fuel arr p z (length arr) refl)) in
      if_length (length arr == 2) _ _ _ (length-swap_pair arr p z)
        (length-swap_loop _ _ _ _ ∙ (halves_length (length arr) arr _ _ left right refl).1)

  pub length-distribute_pow2 :
      (fuel : ℕ) (arr : List T) (p : List ℕ) (z : ℕ)
      → length (distribute_pow2 fuel arr p z) ≡ length arr
  unfolding distribute_pow2
  length-distribute_pow2 zero arr p z = refl
  length-distribute_pow2 (suc fuel) arr p z =
      let n = length arr in
      let swapped = exchange fuel arr p z n refl arr in
      let left =
        length-distribute_pow2 fuel (take (n / 2) swapped) (take (n / 2 + 1) p)
          (left_offset (n / 2) z) in
      let right =
        length-distribute_pow2 fuel (drop (n / 2) swapped) (drop (n / 2) p)
          (right_offset (n / 2) z (moved fuel arr p z n refl)) in
      if_length (length arr == 2) _ _ _ (length-swap_pair arr p z)
        (halves_length n swapped _ _ left right (length-swap_loop _ _ _ arr)).1

  pub distribute_pow2-compact_pow2 :
      (fuel : ℕ) (arr : List T) (p : List ℕ) (z : ℕ)
      → distribute_pow2 fuel (compact_pow2 fuel arr p z) p z ≡ arr
  unfolding compact_pow2 distribute_pow2
  distribute_pow2-compact_pow2 zero arr p z = refl
  distribute_pow2-compact_pow2 (suc fuel) arr p z = elim (Bool-cases (length arr == 2)) [
    | inl two ↦
        rw (compact_pow2_step fuel arr p z n refl, two)
          (rw (distribute_pow2_step fuel (swap_pair arr p z) p z n (length-swap_pair arr p z), two)
            (swap_pair_twice arr p z (ground arith)))
    | inr more ↦
        rw (compact_pow2_step fuel arr p z n refl, more)
          (rw
            (
              distribute_pow2_step fuel merged p z n merged_size,
              more,
              back,
              fst,
              snd,
              distribute_pow2-compact_pow2 fuel (take (n / 2) arr) (take (n / 2 + 1) p)
                  (left_offset (n / 2) z),
              distribute_pow2-compact_pow2 fuel (drop (n / 2) arr) (drop (n / 2) p)
                  (right_offset (n / 2) z mv),
            )
            (take-append-drop (n / 2) arr))
  ]
    where
      n : ℕ
      n = length arr

      mv : ℕ
      mv = moved fuel arr p z n refl

      l : List T
      l = left_of fuel arr p z n refl compact_pow2 arr

      r : List T
      r = right_of fuel arr p z n refl compact_pow2 arr

      sizes : (length l ≡ n / 2) × (length (l ++ r) ≡ n)
      sizes =
          halves_length n arr l r
            (length-compact_pow2 fuel (take (n / 2) arr) (take (n / 2 + 1) p)
              (left_offset (n / 2) z))
            (length-compact_pow2 fuel (drop (n / 2) arr) (drop (n / 2) p)
              (right_offset (n / 2) z mv))
            refl

      merged : List T
      merged = exchange fuel arr p z n refl (l ++ r)

      merged_size : length merged ≡ n
      merged_size = length-swap_loop (n / 2) (n / 2) (half_choice (n / 2) z mv) (l ++ r) ∙ sizes.1

      back : exchange fuel arr p z n refl merged ≡ l ++ r
      back =
          swap_loop_twice (n / 2) (n / 2) (half_choice (n / 2) z mv) (l ++ r) (omega arith)
            (omega (arith, sizes.1))

      fst : take (n / 2) (l ++ r) ≡ l
      fst = take-append (n / 2) l r sizes.0

      snd : drop (n / 2) (l ++ r) ≡ r
      snd = drop-append (n / 2) l r sizes.0

  pub compact_pow2-distribute_pow2 :
      (fuel : ℕ) (arr : List T) (p : List ℕ) (z : ℕ)
      → compact_pow2 fuel (distribute_pow2 fuel arr p z) p z ≡ arr
  unfolding compact_pow2 distribute_pow2
  compact_pow2-distribute_pow2 zero arr p z = refl
  compact_pow2-distribute_pow2 (suc fuel) arr p z = elim (Bool-cases (length arr == 2)) [
    | inl two ↦
        rw (distribute_pow2_step fuel arr p z n refl, two)
          (rw (compact_pow2_step fuel (swap_pair arr p z) p z n (length-swap_pair arr p z), two)
            (swap_pair_twice arr p z (ground arith)))
    | inr more ↦
        rw (distribute_pow2_step fuel arr p z n refl, more)
          (rw
            (
              compact_pow2_step fuel (l ++ r) p z n sizes.1,
              more,
              fst,
              snd,
              compact_pow2-distribute_pow2 fuel (take (n / 2) swapped) (take (n / 2 + 1) p)
                  (left_offset (n / 2) z),
              compact_pow2-distribute_pow2 fuel (drop (n / 2) swapped) (drop (n / 2) p)
                  (right_offset (n / 2) z mv),
              take-append-drop (n / 2) swapped,
            )
            (swap_loop_twice (n / 2) (n / 2) (half_choice (n / 2) z mv) arr (omega arith)
              (omega arith)))
  ]
    where
      n : ℕ
      n = length arr

      mv : ℕ
      mv = moved fuel arr p z n refl

      swapped : List T
      swapped = exchange fuel arr p z n refl arr

      l : List T
      l = left_of fuel arr p z n refl distribute_pow2 swapped

      r : List T
      r = right_of fuel arr p z n refl distribute_pow2 swapped

      sizes : (length l ≡ n / 2) × (length (l ++ r) ≡ n)
      sizes =
          halves_length n swapped l r
            (length-distribute_pow2 fuel (take (n / 2) swapped) (take (n / 2 + 1) p)
              (left_offset (n / 2) z))
            (length-distribute_pow2 fuel (drop (n / 2) swapped) (drop (n / 2) p)
              (right_offset (n / 2) z mv))
            (length-swap_loop (n / 2) (n / 2) (half_choice (n / 2) z mv) arr)

      fst : take (n / 2) (l ++ r) ≡ l
      fst = take-append (n / 2) l r sizes.0

      snd : drop (n / 2) (l ++ r) ≡ r
      snd = drop-append (n / 2) l r sizes.0
