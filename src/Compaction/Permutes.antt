-- ===== src/Compaction/Permutes.antt =====
-- Compaction and distribution of compaction.rs rearrange an array, whatever the marks are.
use mathlib.Core.List.Permᴰ
use mathlib.Core.List.Permᴰ.{Permᴰ}
use roga.Base.{
  ℕ, zero, suc, ◌+◌, ◌-◌, ◌/◌, ◌<◌, arith, Bool, true, false, List, ◌++◌, if◌then◌else◌,
  leading_zeros, ◌==◌, leb, length, get_elem?, take, drop, take-append-drop, Option-cases, inl, inr,
  for_range,
}
use native.Mathlib.Nat.{one-le-pow}
use roga.Ct.{Cmov, cswap_fast}
use roga.Compaction.{
  swap_loop, swap_pair, pair_choice, compact_pow2, compact_fuel, compact_payload, distribute_pow2,
  distribute_fuel, distribute_payload, floor_pow2,
}
use roga.Sort.Rearrange.{exchange-Permᴰ, cswap_fast_lem}

floor_pow2-pos : (n : ℕ) → 0 < floor_pow2 n
unfolding floor_pow2
floor_pow2-pos n = one-le-pow (64 - 1 - leading_zeros n) 2 (omega arith)

module _ {T : Type 0} where
  either-Permᴰ :
      (b : Bool) (x y arr : List T) → Permᴰ x arr → Permᴰ y arr → Permᴰ (if b then x else y) arr
  either-Permᴰ true x y arr p q = p
  either-Permᴰ false x y arr p q = q

module _ {T : Type 0} ⦃m : Cmov T⦄ where
  cswap_fast-Permᴰ :
      (arr : List T) (i j : ℕ) (choice : Bool) → i < j → Permᴰ (cswap_fast arr i j choice) arr
  unfolding cswap_fast
  cswap_fast-Permᴰ arr i j choice h = elim (Option-cases (get_elem? arr i)) [
    | inl e ↦ rw (e, cswap_fast) (Permᴰ.refl arr)
    | inr (a, e) ↦ elim (Option-cases (get_elem? arr j)) [
      | inl g ↦ rw (e, cswap_fast) (rw (g, cswap_fast) (Permᴰ.refl arr))
      | inr (b, g) ↦
          rw (cswap_fast_lem arr i j a b choice h e g)
            (either-Permᴰ choice _ _ arr (exchange-Permᴰ arr i j a b h e g) (Permᴰ.refl arr))
    ]
  ]

  rounds-Permᴰ :
      (n i d : ℕ) (choice : ℕ → Bool) (arr : List T)
      → 0 < d
      → Permᴰ (for_range n i (λ k s. cswap_fast s k (d + k) (choice k)) arr) arr
  unfolding for_range
  rounds-Permᴰ zero i d choice arr h = Permᴰ.refl arr
  rounds-Permᴰ (suc n) i d choice arr h =
      Permᴰ.trans (rounds-Permᴰ n (i + 1) d choice _ h)
        (cswap_fast-Permᴰ arr i (d + i) (choice i) (omega arith))

  pub swap_loop-Permᴰ :
      (n d : ℕ) (choice : ℕ → Bool) (arr : List T)
      → (0 < n → 0 < d)
      → Permᴰ (swap_loop n d choice arr) arr
  unfolding swap_loop for_range
  swap_loop-Permᴰ zero d choice arr h = Permᴰ.refl arr
  swap_loop-Permᴰ (suc n) d choice arr h = rounds-Permᴰ (suc n) 0 d choice arr (h (omega arith))

  swap_pair-Permᴰ : (arr : List T) (payload : List ℕ) (z : ℕ) → Permᴰ (swap_pair arr payload z) arr
  unfolding swap_pair
  swap_pair-Permᴰ arr payload z = cswap_fast-Permᴰ arr 0 1 (pair_choice payload z) (omega arith)

  -- Two parts of an array, each of them rearranged.
  parts-Permᴰ :
      (n : ℕ) (arr left right : List T)
      → Permᴰ left (take n arr)
      → Permᴰ right (drop n arr)
      → Permᴰ (left ++ right) arr
  parts-Permᴰ n arr left right l r =
      let whole = take-append-drop n arr in
      Permᴰ.trans (Permᴰ.append_right right l)
        (Permᴰ.trans (Permᴰ.append_left (take n arr) r) (rw whole (Permᴰ.refl arr)))

  pub compact_pow2-Permᴰ :
      (fuel : ℕ) (arr : List T) (payload : List ℕ) (z : ℕ)
      → Permᴰ (compact_pow2 fuel arr payload z) arr
  unfolding compact_pow2
  compact_pow2-Permᴰ zero arr payload z = Permᴰ.refl arr
  compact_pow2-Permᴰ (suc fuel) arr payload z =
      either-Permᴰ (length arr == 2) _ _ arr (swap_pair-Permᴰ arr payload z) (
        Permᴰ.trans (swap_loop-Permᴰ _ _ _ _ (λ h. h)) (
          parts-Permᴰ (length arr / 2) arr _ _ (compact_pow2-Permᴰ fuel _ _ _)
            (compact_pow2-Permᴰ fuel _ _ _)))

  pub compact_payload-Permᴰ :
      (arr : List T) (payload : List ℕ) → Permᴰ (compact_payload arr payload) arr
  unfolding compact_payload compact_fuel
  compact_payload-Permᴰ arr payload = on_fuel (length arr) arr payload
    where
      on_fuel :
          (fuel : ℕ) (arr : List T) (payload : List ℕ) → Permᴰ (compact_fuel fuel arr payload) arr
      on_fuel zero arr payload = Permᴰ.refl arr
      on_fuel (suc fuel) arr payload = either-Permᴰ (leb (length arr) 1) _ _ arr (Permᴰ.refl arr) (
          either-Permᴰ (length arr - floor_pow2 (length arr) == 0) _ _ arr
            (compact_pow2-Permᴰ (length arr) arr payload 0)
            (Permᴰ.trans (swap_loop-Permᴰ _ _ _ _ (λ h. floor_pow2-pos (length arr))) (
              parts-Permᴰ (length arr - floor_pow2 (length arr)) arr _ _ (on_fuel fuel _ _)
                (compact_pow2-Permᴰ (length arr) _ _ _))))

  pub distribute_pow2-Permᴰ :
      (fuel : ℕ) (arr : List T) (payload : List ℕ) (z : ℕ)
      → Permᴰ (distribute_pow2 fuel arr payload z) arr
  unfolding distribute_pow2
  distribute_pow2-Permᴰ zero arr payload z = Permᴰ.refl arr
  distribute_pow2-Permᴰ (suc fuel) arr payload z =
      either-Permᴰ (length arr == 2) _ _ arr (swap_pair-Permᴰ arr payload z) (
        Permᴰ.trans
          (parts-Permᴰ (length arr / 2) _ _ _ (distribute_pow2-Permᴰ fuel _ _ _)
            (distribute_pow2-Permᴰ fuel _ _ _))
          (swap_loop-Permᴰ _ _ _ arr (λ h. h)))

  pub distribute_payload-Permᴰ :
      (arr : List T) (payload : List ℕ) → Permᴰ (distribute_payload arr payload) arr
  unfolding distribute_payload distribute_fuel
  distribute_payload-Permᴰ arr payload = on_fuel (length arr) arr payload
    where
      on_fuel :
          (fuel : ℕ) (arr : List T) (payload : List ℕ)
          → Permᴰ (distribute_fuel fuel arr payload) arr
      on_fuel zero arr payload = Permᴰ.refl arr
      on_fuel (suc fuel) arr payload = either-Permᴰ (leb (length arr) 1) _ _ arr (Permᴰ.refl arr) (
          either-Permᴰ (length arr - floor_pow2 (length arr) == 0) _ _ arr
            (distribute_pow2-Permᴰ (length arr) arr payload 0)
            (Permᴰ.trans
              (parts-Permᴰ (length arr - floor_pow2 (length arr)) _ _ _ (on_fuel fuel _ _)
                (distribute_pow2-Permᴰ (length arr) _ _ _))
              (swap_loop-Permᴰ _ _ _ arr (λ h. floor_pow2-pos (length arr)))))
