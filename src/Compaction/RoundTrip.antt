-- ===== src/Compaction/RoundTrip.antt =====
-- `compact_payload` and `distribute_payload` of compaction.rs, one after the other.
use native.Mathlib.Nat.{one-le-pow}
use roga.Base.{
  ℕ, zero, suc, ◌+◌, ◌-◌, ◌*◌, ◌%◌, ◌^◌, ◌<◌, ◌≤◌, ◌≡◌, refl, ◌∙◌, arith, Bool, false, List, ◌++◌,
  ◌==◌, if◌then◌else◌, length, leb, Bool-cases, inl, inr, take, drop, take-append, drop-append,
  take-append-drop, length-take, length-drop, length-append, wrapping_sub, wrapping_add,
  leading_zeros_bounds, leading_zeros,
}
use roga.Ct.{Cmov}
use roga.Compaction.{
  swap_loop, mark, floor_pow2, compact_pow2, compact_fuel, compact_payload, distribute_pow2,
  distribute_fuel, distribute_payload,
}
use roga.Compaction.Loop.{length-swap_loop, swap_loop_twice}
use roga.Compaction.Inverse.{
  length-compact_pow2, length-distribute_pow2, distribute_pow2-compact_pow2,
  compact_pow2-distribute_pow2, if_length,
}

-- The largest power of two up to `n`, and what is left of `n`.
pub floor_pow2_bounds :
    (n : ℕ) → 0 < n → n < 2 ^ 64 → (0 < floor_pow2 n) × (floor_pow2 n ≤ n) × (n < floor_pow2 n * 2)
unfolding floor_pow2
floor_pow2_bounds n p q =
    let (a, b, c) = leading_zeros_bounds n p q in
    (one-le-pow (64 - 1 - leading_zeros n) 2 (omega arith), b, c)

-- What the exchange loop of a split array needs to undo itself.
pub split_bounds :
    (n : ℕ)
    → leb n 1 ≡ false
    → n < 2 ^ 64
    → (n - floor_pow2 n ≤ floor_pow2 n) × (floor_pow2 n + (n - floor_pow2 n) ≡ n)
split_bounds n big fits = let b = floor_pow2_bounds n (ground arith) fits in omega arith

module _ {ℓ} {T : Type ℓ} ⦃m : Cmov T⦄ where
  module _ (fuel : ℕ) (arr : List T) (p : List ℕ) (n : ℕ) (size : length arr ≡ n) where
    abbrev pub rest : ℕ
    rest = n - floor_pow2 n

    abbrev pub count_low : ℕ
    count_low = wrapping_sub (mark p rest) (mark p 0)

    abbrev pub offset : ℕ
    offset = wrapping_add (floor_pow2 n - rest) count_low % floor_pow2 n

    abbrev pub exchange : List T → List T
    exchange = swap_loop rest (floor_pow2 n) (λ i. leb count_low i)

    pub compact_fuel_step : compact_fuel (suc fuel) arr p ≡ (
        if leb n 1
        then arr
        else if rest == 0
        then compact_pow2 n arr p 0
        else exchange (
            compact_fuel fuel (take rest arr) (take (rest + 1) p)
            ++ compact_pow2 n (drop rest arr) (drop rest p) offset))
    unfolding compact_fuel
    compact_fuel_step = rw (← size)

    pub distribute_fuel_step : distribute_fuel (suc fuel) arr p ≡ (
        if leb n 1
        then arr
        else if rest == 0
        then distribute_pow2 n arr p 0
        else distribute_fuel fuel (take rest (exchange arr)) (take (rest + 1) p)
          ++ distribute_pow2 n (drop rest (exchange arr)) (drop rest p) offset)
    unfolding distribute_fuel
    distribute_fuel_step = rw (← size)

  pub parts_length :
      (k : ℕ) (arr l r : List T)
      → length l ≡ length (take k arr)
      → length r ≡ length (drop k arr)
      → k ≤ length arr
      → (length l ≡ k) × (length (l ++ r) ≡ length arr)
  parts_length k arr l r hl hr h =
      omega (arith, length-append l r, length-take k arr, length-drop k arr)

  pub length-compact_fuel :
      (fuel : ℕ) (arr : List T) (p : List ℕ) → length (compact_fuel fuel arr p) ≡ length arr
  unfolding compact_fuel
  length-compact_fuel zero arr p = refl
  length-compact_fuel (suc fuel) arr p = rw (compact_fuel_step fuel arr p n refl) (
      if_length (leb n 1) _ _ n refl (
        if_length (k == 0) _ _ n (length-compact_pow2 n arr p 0) (
          length-swap_loop _ _ _ _
          ∙ (parts_length k arr _ _ (length-compact_fuel fuel (take k arr) (take (k + 1) p))
              (length-compact_pow2 n (drop k arr) (drop k p) (offset fuel arr p n refl))
              (omega arith)).1)))
    where
      n : ℕ
      n = length arr

      k : ℕ
      k = n - floor_pow2 n

  pub length-distribute_fuel :
      (fuel : ℕ) (arr : List T) (p : List ℕ) → length (distribute_fuel fuel arr p) ≡ length arr
  unfolding distribute_fuel
  length-distribute_fuel zero arr p = refl
  length-distribute_fuel (suc fuel) arr p = rw (distribute_fuel_step fuel arr p n refl) (
      if_length (leb n 1) _ _ n refl (
        if_length (k == 0) _ _ n (length-distribute_pow2 n arr p 0) (
          (parts_length k swapped _ _
            (length-distribute_fuel fuel (take k swapped) (take (k + 1) p))
            (length-distribute_pow2 n (drop k swapped) (drop k p) (offset fuel arr p n refl))
            (omega (arith, same))).1
          ∙ same)))
    where
      n : ℕ
      n = length arr

      k : ℕ
      k = n - floor_pow2 n

      swapped : List T
      swapped = exchange fuel arr p n refl arr

      same : length swapped ≡ n
      same = length-swap_loop k (floor_pow2 n) (λ i. leb (count_low fuel arr p n refl) i) arr

  pub distribute_fuel-compact_fuel :
      (fuel : ℕ) (arr : List T) (p : List ℕ)
      → length arr < 2 ^ 64
      → distribute_fuel fuel (compact_fuel fuel arr p) p ≡ arr
  unfolding compact_fuel distribute_fuel
  distribute_fuel-compact_fuel zero arr p fits = refl
  distribute_fuel-compact_fuel (suc fuel) arr p fits = elim (Bool-cases (leb n 1)) [
    | inl small ↦
        rw (compact_fuel_step fuel arr p n refl, small)
          (rw (distribute_fuel_step fuel arr p n refl, small))
    | inr big ↦ elim (Bool-cases (k == 0)) [
      | inl whole ↦
          rw (compact_fuel_step fuel arr p n refl, big, whole)
            (rw
              (
                distribute_fuel_step fuel (compact_pow2 n arr p 0) p n
                    (length-compact_pow2 n arr p 0),
                big,
                whole,
              )
              (distribute_pow2-compact_pow2 n arr p 0))
      | inr split ↦
          let back : exchange fuel arr p n refl merged ≡ l ++ r =
            swap_loop_twice k (floor_pow2 n) choice (l ++ r) (split_bounds n big fits).0
              (omega (arith, sizes.1, split_bounds n big fits)) in
          rw (compact_fuel_step fuel arr p n refl, big, split)
            (rw
              (
                distribute_fuel_step fuel merged p n merged_size,
                big,
                split,
                back,
                fst,
                snd,
                distribute_fuel-compact_fuel fuel (take k arr) (take (k + 1) p)
                    (omega (arith, length-take k arr)),
                distribute_pow2-compact_pow2 n (drop k arr) (drop k p) (offset fuel arr p n refl),
              )
              (take-append-drop k arr))
    ]
  ]
    where
      n : ℕ
      n = length arr

      k : ℕ
      k = n - floor_pow2 n

      choice : ℕ → Bool
      choice i = leb (count_low fuel arr p n refl) i

      l : List T
      l = compact_fuel fuel (take k arr) (take (k + 1) p)

      r : List T
      r = compact_pow2 n (drop k arr) (drop k p) (offset fuel arr p n refl)

      sizes : (length l ≡ k) × (length (l ++ r) ≡ n)
      sizes =
          parts_length k arr l r (length-compact_fuel fuel (take k arr) (take (k + 1) p))
            (length-compact_pow2 n (drop k arr) (drop k p) (offset fuel arr p n refl)) (omega arith)

      merged : List T
      merged = exchange fuel arr p n refl (l ++ r)

      merged_size : length merged ≡ n
      merged_size = length-swap_loop k (floor_pow2 n) choice (l ++ r) ∙ sizes.1

      fst : take k (l ++ r) ≡ l
      fst = take-append k l r sizes.0

      snd : drop k (l ++ r) ≡ r
      snd = drop-append k l r sizes.0

  pub compact_fuel-distribute_fuel :
      (fuel : ℕ) (arr : List T) (p : List ℕ)
      → length arr < 2 ^ 64
      → compact_fuel fuel (distribute_fuel fuel arr p) p ≡ arr
  unfolding compact_fuel distribute_fuel
  compact_fuel-distribute_fuel zero arr p fits = refl
  compact_fuel-distribute_fuel (suc fuel) arr p fits = elim (Bool-cases (leb n 1)) [
    | inl small ↦
        rw (distribute_fuel_step fuel arr p n refl, small)
          (rw (compact_fuel_step fuel arr p n refl, small))
    | inr big ↦ elim (Bool-cases (k == 0)) [
      | inl whole ↦
          rw (distribute_fuel_step fuel arr p n refl, big, whole)
            (rw
              (
                compact_fuel_step fuel (distribute_pow2 n arr p 0) p n
                    (length-distribute_pow2 n arr p 0),
                big,
                whole,
              )
              (compact_pow2-distribute_pow2 n arr p 0))
      | inr split ↦
          rw (distribute_fuel_step fuel arr p n refl, big, split)
            (rw
              (
                compact_fuel_step fuel (l ++ r) p n sizes.1,
                big,
                split,
                fst,
                snd,
                compact_fuel-distribute_fuel fuel (take k swapped) (take (k + 1) p)
                    (omega (arith, length-take k swapped)),
                compact_pow2-distribute_pow2 n (drop k swapped) (drop k p)
                    (offset fuel arr p n refl),
                take-append-drop k swapped,
              )
              (swap_loop_twice k (floor_pow2 n) choice arr (split_bounds n big fits).0
                (omega (arith, split_bounds n big fits))))
    ]
  ]
    where
      n : ℕ
      n = length arr

      k : ℕ
      k = n - floor_pow2 n

      choice : ℕ → Bool
      choice i = leb (count_low fuel arr p n refl) i

      swapped : List T
      swapped = exchange fuel arr p n refl arr

      same : length swapped ≡ n
      same = length-swap_loop k (floor_pow2 n) choice arr

      l : List T
      l = distribute_fuel fuel (take k swapped) (take (k + 1) p)

      r : List T
      r = distribute_pow2 n (drop k swapped) (drop k p) (offset fuel arr p n refl)

      sizes : (length l ≡ k) × (length (l ++ r) ≡ n)
      sizes =
          let s =
            parts_length k swapped l r
              (length-distribute_fuel fuel (take k swapped) (take (k + 1) p))
              (length-distribute_pow2 n (drop k swapped) (drop k p) (offset fuel arr p n refl))
              (omega (arith, same)) in
          (s.0, s.1 ∙ same)

      fst : take k (l ++ r) ≡ l
      fst = take-append k l r sizes.0

      snd : drop k (l ++ r) ≡ r
      snd = drop-append k l r sizes.0

pub length-compact_payload {ℓ} :
    {T : Type ℓ} ⦃m : Cmov T⦄ (arr : List T) (marks : List ℕ)
    → length (compact_payload arr marks) ≡ length arr
unfolding compact_payload
length-compact_payload arr p = length-compact_fuel (length arr) arr p

pub length-distribute_payload {ℓ} :
    {T : Type ℓ} ⦃m : Cmov T⦄ (arr : List T) (marks : List ℕ)
    → length (distribute_payload arr marks) ≡ length arr
unfolding distribute_payload
length-distribute_payload arr p = length-distribute_fuel (length arr) arr p

-- Compaction and distribution by the same marks undo each other, in both orders, for any marks and
-- any array of less than 2 ^ 64 entries.
pub compact_payload-distribute_payload {ℓ} :
    {T : Type ℓ} ⦃m : Cmov T⦄ (arr : List T) (marks : List ℕ)
    → length arr < 2 ^ 64
    → (distribute_payload (compact_payload arr marks) marks ≡ arr)
      × (compact_payload (distribute_payload arr marks) marks ≡ arr)
unfolding compact_payload distribute_payload
compact_payload-distribute_payload arr p fits = (
  rw (length-compact_fuel (length arr) arr p)
      (distribute_fuel-compact_fuel (length arr) arr p fits),
  rw (length-distribute_fuel (length arr) arr p)
      (compact_fuel-distribute_fuel (length arr) arr p fits),
)
