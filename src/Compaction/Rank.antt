-- ===== src/Compaction/Rank.antt =====
-- Compaction of compaction.rs on arrays of a power of two: the places of the marked entries.
use native.Mathlib.Decide.{dec_lt}
use native.Mathlib.Nat.{pow-suc, one-le-pow, mod-lt}
use roga.Base.{
  ℕ, zero, suc, ◌+◌, ◌-◌, ◌*◌, ◌/◌, ◌%◌, ◌^◌, ◌<◌, ◌≤◌, ◌≡◌, refl, ap, ◌∙◌, arith, Bool, true,
  false, not, ◌==◌, if◌then◌else◌, ltb, bit_and, bit_and-mask, List, ◌++◌, length, take, drop,
  get_elem?, get_elem?-append, get_elem?-take, get_elem?-drop, wrapping_sub, length-take,
  length-drop, length-append, none, ==-ne,
}
use roga.Ct.{Cmov}
use roga.Ct.Swap.{get_elem?-cswap_fast, swap_index}
use roga.Compaction.{
  mark, swap_loop, swap_pair, pair_choice, half_choice, left_offset, right_offset, compact_pow2,
}
use roga.Compaction.Loop.{loop_index, get_elem?-swap_loop}
use roga.Compaction.Inverse.{length-compact_pow2}
use roga.Compaction.Marks.{
  IsMarks, IsMarked, rank, mark_between, mark-lt, take-IsMarks, drop-IsMarks, rank-take,
  take-IsMarked, rank-drop, drop-IsMarked,
}
use roga.Compaction.Targets.{choice, left_target, right_target}

-- The mask of the two-element case: 1 if the second entry alone is marked.
and_not_digit : (m d : ℕ) → m < 2 → d < 2 → bit_and (2 ^ 64 - 1 - m) d ≡ (if m == 0 then d else 0)
and_not_digit zero zero p q = refl
and_not_digit zero (suc zero) p q = refl
and_not_digit (suc zero) zero p q = refl
and_not_digit (suc zero) (suc zero) p q = refl
and_not_digit (suc (suc m)) d p q = absurd (omega arith)
and_not_digit m (suc (suc d)) p q = absurd (omega arith)

pair_choice_lem :
    (p : List ℕ) (z : ℕ)
    → IsMarks 2 p
    → pair_choice p z ≡ not ((if mark p 1 == mark p 0 then mark p 2 - mark p 1 else 0) == z)
unfolding pair_choice
pair_choice_lem p z v =
    let m : wrapping_sub (mark p 1) (mark p 0) ≡ mark p 1 - mark p 0 =
      omega (arith, mark_between v 0 1, mark-lt v 1) in
    let d : wrapping_sub (mark p 2) (mark p 1) ≡ mark p 2 - mark p 1 =
      omega (arith, mark_between v 1 2, mark-lt v 2) in
    let bm : mark p 1 - mark p 0 < 2 = omega (arith, mark_between v 0 1) in
    let bd : mark p 2 - mark p 1 < 2 = omega (arith, mark_between v 1 2) in
    rw (m, d, and_not_digit (mark p 1 - mark p 0) (mark p 2 - mark p 1) bm bd)
      (ground (arith, mark_between v 0 1))

pair_target :
    (p : List ℕ) (z i : ℕ)
    → IsMarks 2 p
    → z < 2
    → i < 2
    → IsMarked p i
    → swap_index 0 1 (pair_choice p z) ((z + rank p i) % 2) ≡ i
pair_target p z zero v a b k =
    let m : mark p 1 ≡ mark p 0 + 1 = k in rw (pair_choice_lem p z v) (ground (arith, m))
pair_target p z (suc zero) v a b k =
    let d : mark p 2 ≡ mark p 1 + 1 = k in rw (pair_choice_lem p z v) (ground (arith, d, v.step 0))
pair_target p z (suc (suc i)) v a b k = absurd (omega arith)

half_choice_lem :
    (k z m i : ℕ)
    → z < 2 ^ k * 2
    → m ≤ 2 ^ k
    → 2 ^ k < 2 ^ 61
    → half_choice (2 ^ k) z m i ≡ choice (2 ^ k) z m i
unfolding half_choice left_offset right_offset
half_choice_lem k z m i p q h =
    let low : z % 2 ^ k < 2 ^ k = mod-lt z (one-le-pow k 2 (omega arith)) in
    let sum : (z % 2 ^ k + m) % 2 ^ 64 ≡ z % 2 ^ k + m = omega arith in
    let all : (z + m) % 2 ^ 64 ≡ z + m = omega arith in
    rw (bit_and-mask k z, sum, all, bit_and-mask k (z + m))

left_offset_lem : (k z : ℕ) → left_offset (2 ^ k) z ≡ z % 2 ^ k
unfolding left_offset
left_offset_lem k z = bit_and-mask k z

right_offset_lem :
    (k z m : ℕ)
    → z < 2 ^ k * 2
    → m ≤ 2 ^ k
    → 2 ^ k < 2 ^ 61
    → right_offset (2 ^ k) z m ≡ (z + m) % 2 ^ k
unfolding right_offset
right_offset_lem k z m p q h =
    let all : (z + m) % 2 ^ 64 ≡ z + m = omega arith in rw all (bit_and-mask k (z + m))

loop_index_cong :
    (h : ℕ) (f g : ℕ → Bool) (t : ℕ)
    → ((i : ℕ) → f i ≡ g i)
    → loop_index h 0 h f t ≡ loop_index h 0 h g t
loop_index_cong h f g t e = ground (arith, e t, e (t - h))

module _ {ℓ} {T : Type ℓ} ⦃m : Cmov T⦄ where
  -- One level of the recursion, from the two halves.
  compact_pow2_level :
      (k fuel : ℕ) (arr : List T) (p : List ℕ) (z : ℕ)
      → length arr ≡ 2 ^ suc (suc k)
      → let h = 2 ^ suc k in
        let c = wrapping_sub (mark p h) (mark p 0) in
        compact_pow2 (suc fuel) arr p z
        ≡ swap_loop h h (half_choice h z c) (
            compact_pow2 fuel (take h arr) (take (h + 1) p) (left_offset h z)
            ++ compact_pow2 fuel (drop h arr) (drop h p) (right_offset h z c))
  unfolding compact_pow2
  compact_pow2_level k fuel arr p z size =
      let positive : 0 < 2 ^ k = one-le-pow k 2 (omega arith) in
      let half : length arr / 2 ≡ 2 ^ suc k = omega (arith, pow-suc 2 (suc k)) in
      let more : (length arr == 2) ≡ false =
        ==-ne (length arr) 2 (λ e. omega (arith, pow-suc 2 (suc k), pow-suc 2 k)) in
      rw (more, half)

  -- The exchange of two halves `l` and `r` that are compacted to their own ring positions.
  module _ (k z c : ℕ) (l r : List T) (hl : length l ≡ 2 ^ k) (hr : length r ≡ 2 ^ k)
      (hz : z < 2 ^ k * 2) (hc : c ≤ 2 ^ k) (big : 2 ^ k < 2 ^ 61) where
    abbrev merged : List T
    merged = swap_loop (2 ^ k) (2 ^ k) (half_choice (2 ^ k) z c) (l ++ r)

    get_elem?-merged :
        (t : ℕ)
        → get_elem? merged t
          ≡ get_elem? (l ++ r) (loop_index (2 ^ k) 0 (2 ^ k) (choice (2 ^ k) z c) t)
    get_elem?-merged t =
        get_elem?-swap_loop (2 ^ k) (2 ^ k) (half_choice (2 ^ k) z c) (l ++ r) t (omega arith)
          (omega (arith, length-append l r))
        ∙ ap (get_elem? (l ++ r)) (
            loop_index_cong (2 ^ k) (half_choice (2 ^ k) z c) (choice (2 ^ k) z c) t
              (λ i. half_choice_lem k z c i hz hc big))

    from_left :
        (a : ℕ)
        → a < c
        → get_elem? merged ((z + a) % (2 * 2 ^ k)) ≡ get_elem? l ((z % 2 ^ k + a) % 2 ^ k)
    from_left a h =
        let t = (z % 2 ^ k + a) % 2 ^ k in
        let inside : t < 2 ^ k = mod-lt (z % 2 ^ k + a) (one-le-pow k 2 (omega arith)) in
        let low : ltb t (length l) ≡ true = ground arith in
        get_elem?-merged ((z + a) % (2 * 2 ^ k))
        ∙ ap (get_elem? (l ++ r)) (left_target (2 ^ k) z c a (omega arith) hc h)
        ∙ get_elem?-append l r t
        ∙ ap (λ b. if b then get_elem? l t else get_elem? r (t - length l)) low

    from_right :
        (a : ℕ)
        → a < 2 ^ k
        → get_elem? merged ((z + (c + a)) % (2 * 2 ^ k))
          ≡ get_elem? r (((z + c) % 2 ^ k + a) % 2 ^ k)
    from_right a h =
        let t = ((z + c) % 2 ^ k + a) % 2 ^ k in
        let high : ltb (2 ^ k + t) (length l) ≡ false = ground arith in
        let index : 2 ^ k + t - length l ≡ t = omega arith in
        get_elem?-merged ((z + (c + a)) % (2 * 2 ^ k))
        ∙ ap (get_elem? (l ++ r)) (right_target (2 ^ k) z c a (omega arith) hc h)
        ∙ get_elem?-append l r (2 ^ k + t)
        ∙ ap (λ b. if b then get_elem? l (2 ^ k + t) else get_elem? r (2 ^ k + t - length l)) high
        ∙ ap (get_elem? r) index

  -- A power-of-two block is compacted to the ring position `z + rank`.
  pub get_elem?-compact_pow2 :
      (k fuel : ℕ) (arr : List T) (p : List ℕ) (z i : ℕ)
      → k < fuel
      → length arr ≡ 2 ^ suc k
      → z < 2 ^ suc k
      → 2 ^ suc k < 2 ^ 62
      → IsMarks (2 ^ suc k) p
      → i < 2 ^ suc k
      → IsMarked p i
      → get_elem? (compact_pow2 fuel arr p z) ((z + rank p i) % 2 ^ suc k) ≡ get_elem? arr i
  unfolding compact_pow2 swap_pair
  get_elem?-compact_pow2 k zero arr p z i f size hz big v hi marked = absurd (omega arith)
  get_elem?-compact_pow2 zero (suc fuel) arr p z i f size hz big v hi marked =
      let two : (length arr == 2) ≡ true = ground arith in
      rw two (
        get_elem?-cswap_fast arr 0 1 ((z + rank p i) % 2) (pair_choice p z) (omega arith)
          (omega arith) (omega arith)
        ∙ ap (get_elem? arr) (pair_target p z i v hz hi marked))
  get_elem?-compact_pow2 (suc k) (suc fuel) arr p z i f size hz big v hi marked =
      rw (compact_pow2_level k fuel arr p z size) (elim (dec_lt i h) [
        | yes low ↦
            let ih =
              get_elem?-compact_pow2 k fuel (take h arr) (take (h + 1) p) (left_offset h z) i
                (omega arith) size_left (rw (left_offset_lem (suc k) z) (mod-lt z positive))
                (omega arith) (take-IsMarks v h (omega arith)) low
                (take-IsMarked h p i low marked) in
            let sum : z % h + rank p i ≡ left_offset h z + rank (take (h + 1) p) i =
              omega (arith, left_offset_lem (suc k) z, rank-take h p i (omega arith)) in
            let before : rank p i < c =
              omega (arith, count, mark_between v 0 i, mark_between v (i + 1) h) in
            let inside : ltb i h ≡ true = ground arith in
            rw double (
              from_left (suc k) z c l r length_l length_r (omega arith) few (omega arith) (rank p i)
                before)
            ∙ ap (λ x. get_elem? l (x % h)) sum
            ∙ ih
            ∙ get_elem?-take h arr i
            ∙ ap (λ b. if b then get_elem? arr i else none) inside
        | no high ↦
            let j = i - h in
            let whole : h + j ≡ i = omega arith in
            let marked' : IsMarked p (h + j) = rw whole marked in
            let ih =
              get_elem?-compact_pow2 k fuel (drop h arr) (drop h p) (right_offset h z c) j
                (omega arith) size_right
                (rw (right_offset_lem (suc k) z c (omega arith) few (omega arith))
                  (mod-lt (z + c) positive))
                (omega arith) (drop-IsMarks v h h (omega arith)) (omega arith)
                (drop-IsMarked h p j marked') in
            let later : rank (drop h p) j ≡ mark p i - mark p h =
              rank-drop h p j ∙ ap (λ x. mark p x - mark p h) whole in
            let total : rank p i ≡ c + rank (drop h p) j =
              omega (arith, count, later, mark_between v 0 h, mark_between v h i) in
            let below : rank (drop h p) j < h = omega (arith, later, mark_between v h i) in
            let sum : (z + c) % h + rank (drop h p) j ≡ right_offset h z c + rank (drop h p) j =
              omega (arith, right_offset_lem (suc k) z c (omega arith) few (omega arith)) in
            rw (double, total)
              (from_right (suc k) z c l r length_l length_r (omega arith) few (omega arith)
                (rank (drop h p) j) below)
            ∙ ap (λ x. get_elem? r (x % h)) sum
            ∙ ih
            ∙ get_elem?-drop h arr j
            ∙ ap (get_elem? arr) whole
      ])
    where
      h : ℕ
      h = 2 ^ suc k

      c : ℕ
      c = wrapping_sub (mark p h) (mark p 0)

      l : List T
      l = compact_pow2 fuel (take h arr) (take (h + 1) p) (left_offset h z)

      r : List T
      r = compact_pow2 fuel (drop h arr) (drop h p) (right_offset h z c)

      double : 2 ^ suc (suc k) ≡ 2 * 2 ^ suc k
      double = omega (arith, pow-suc 2 (suc k))

      positive : 0 < 2 ^ suc k
      positive = one-le-pow (suc k) 2 (omega arith)

      count : wrapping_sub (mark p h) (mark p 0) ≡ mark p h - mark p 0
      count = omega (
        arith,
        double,
        mark_between v 0 h (omega arith) (omega (arith, double)),
        mark-lt v h (omega (arith, double)),
      )

      few : c ≤ h
      few = omega (arith, count, mark_between v 0 h (omega arith) (omega (arith, double)))

      size_left : length (take h arr) ≡ 2 ^ suc k
      size_left = omega (arith, length-take h arr, double)

      size_right : length (drop h arr) ≡ 2 ^ suc k
      size_right = omega (arith, length-drop h arr, double)

      length_l : length l ≡ 2 ^ suc k
      length_l =
          length-compact_pow2 fuel (take h arr) (take (h + 1) p) (left_offset h z) ∙ size_left

      length_r : length r ≡ 2 ^ suc k
      length_r = length-compact_pow2 fuel (drop h arr) (drop h p) (right_offset h z c) ∙ size_right
