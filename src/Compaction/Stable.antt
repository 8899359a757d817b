-- ===== src/Compaction/Stable.antt =====
-- The places of marked entries in `compact_payload` and `distribute_payload` of compaction.rs.
use native.Mathlib.Decide.{dec_lt, dec_le}
use native.Mathlib.Nat.{pow-suc, one-le-pow, mod-lt, mod-eq_of_lt}
use roga.Base.{
  ℕ, zero, suc, ◌+◌, ◌-◌, ◌%◌, ◌^◌, ◌<◌, ◌≤◌, ◌≡◌, inl, inr, refl, sym, ap, ◌∙◌, arith, Bool, true,
  false, ◌==◌, if◌then◌else◌, ltb, leb, List, ◌++◌, length, take, drop, get_elem?, get_elem?-append,
  get_elem?-take, get_elem?-drop, wrapping_sub, wrapping_add, length-take, length-drop,
  length-append, Bool-cases, none, leading_zeros, leading_zeros_bounds, ==_iff,
}
use roga.Ct.{Cmov}
use roga.Compaction.{
  mark, swap_loop, compact_pow2, compact_fuel, compact_payload, distribute_payload, floor_pow2,
}
use roga.Compaction.Loop.{loop_index, get_elem?-swap_loop}
use roga.Compaction.Inverse.{length-compact_pow2}
use roga.Compaction.RoundTrip.{
  compact_fuel_step, rest, split_bounds, parts_length, length-compact_fuel,
  length-distribute_payload, compact_payload-distribute_payload,
}
use roga.Compaction.Marks.{
  IsMarks, IsMarked, rank, mark_between, mark-lt, take-IsMarks, drop-IsMarks, rank-take,
  take-IsMarked, rank-drop, drop-IsMarked,
}
use roga.Compaction.Rank.{get_elem?-compact_pow2}
use roga.Compaction.Targets.{mod_once}

-- The largest power of two up to `n`, for an `n` above 1.
pow_form : (e : ℕ) → 1 < 2 ^ e → (k : ℕ) × (2 ^ e ≡ 2 ^ suc k)
pow_form zero h = absurd (omega arith)
pow_form (suc k) h = (k, refl)

floor_pow2_form : (n : ℕ) → 1 < n → n < 2 ^ 64 → (k : ℕ) × (floor_pow2 n ≡ 2 ^ suc k)
unfolding floor_pow2
floor_pow2_form n p q =
    pow_form (64 - 1 - leading_zeros n) (omega (arith, leading_zeros_bounds n (omega arith) q))

lt-two-pow : (k : ℕ) → k < 2 ^ k
lt-two-pow zero = omega arith
lt-two-pow (suc k) = omega (arith, lt-two-pow k, pow-suc 2 k)

-- Where an exchange of the low entries with the entries from `d` on takes an entry from.
loop_index-low :
    (n d : ℕ) (ch : ℕ → Bool) (t : ℕ)
    → n ≤ d
    → t < d + n
    → loop_index n 0 d ch t ≡ (
        if ltb t n
        then (if ch t then d + t else t)
        else if ltb t d
        then t
        else if ch (t - d)
        then t - d
        else t)
loop_index-low n d ch t a b = ground arith

-- `n1` is the power of two, `n2` the rest, `c` the marked entries of the low part.
split_left : (n1 n2 c a : ℕ) → n2 ≤ n1 → c ≤ n2 → a < c → loop_index n2 0 n1 (λ i. leb c i) a ≡ a
split_left n1 n2 c a p q h =
    rw (loop_index-low n2 n1 (λ i. leb c i) a p (omega arith)) (ground arith)

split_right :
    (n1 n2 c a : ℕ)
    → n2 ≤ n1
    → c ≤ n2
    → a < n1
    → c + a < n1 + n2
    → loop_index n2 0 n1 (λ i. leb c i) (c + a) ≡ n2 + ((n1 - n2 + c) % n1 + a) % n1
split_right n1 n2 c a p q h k =
    rw (loop_index-low n2 n1 (λ i. leb c i) (c + a) p k)
      (ground (arith, mod_once n1 (n1 - n2 + c), mod_once n1 ((n1 - n2 + c) % n1 + a)))

module _ {ℓ} {T : Type ℓ} ⦃m : Cmov T⦄ where
  -- The exchange of the compacted rest `l` with the compacted power-of-two block `r`.
  module _ (n1 n2 c : ℕ) (l r : List T) (hl : length l ≡ n2) (hr : length r ≡ n1) (small : n2 ≤ n1)
      (few : c ≤ n2) where
    abbrev merged : List T
    merged = swap_loop n2 n1 (λ i. leb c i) (l ++ r)

    get_elem?-merged :
        (t : ℕ) → get_elem? merged t ≡ get_elem? (l ++ r) (loop_index n2 0 n1 (λ i. leb c i) t)
    get_elem?-merged t =
        get_elem?-swap_loop n2 n1 (λ i. leb c i) (l ++ r) t small (omega (arith, length-append l r))

    from_low : (a : ℕ) → a < c → get_elem? merged a ≡ get_elem? l a
    from_low a h =
        let inside : ltb a (length l) ≡ true = ground arith in
        get_elem?-merged a
        ∙ ap (get_elem? (l ++ r)) (split_left n1 n2 c a small few h)
        ∙ get_elem?-append l r a
        ∙ ap (λ b. if b then get_elem? l a else get_elem? r (a - length l)) inside

    from_high :
        (a : ℕ)
        → a < n1
        → c + a < n1 + n2
        → get_elem? merged (c + a) ≡ get_elem? r (((n1 - n2 + c) % n1 + a) % n1)
    from_high a h k =
        let q = ((n1 - n2 + c) % n1 + a) % n1 in
        let outside : ltb (n2 + q) (length l) ≡ false = ground arith in
        let index : n2 + q - length l ≡ q = omega arith in
        get_elem?-merged (c + a)
        ∙ ap (get_elem? (l ++ r)) (split_right n1 n2 c a small few h k)
        ∙ get_elem?-append l r (n2 + q)
        ∙ ap (λ b. if b then get_elem? l (n2 + q) else get_elem? r (n2 + q - length l)) outside
        ∙ ap (get_elem? r) index

  pub get_elem?-compact_fuel :
      (fuel : ℕ) (arr : List T) (p : List ℕ) (i : ℕ)
      → length arr ≤ fuel
      → length arr < 2 ^ 62
      → IsMarks (length arr) p
      → i < length arr
      → IsMarked p i
      → get_elem? (compact_fuel fuel arr p) (rank p i) ≡ get_elem? arr i
  get_elem?-compact_fuel zero arr p i f big v hi marked = absurd (omega arith)
  get_elem?-compact_fuel (suc fuel) arr p i f big v hi marked = elim (dec_le n 1) [
    | yes tiny ↦
        let small : leb n 1 ≡ true = ground arith in
        let first : rank p i ≡ i = omega (arith, mark_between v 0 i (omega arith) (omega arith)) in
        rw (compact_fuel_step fuel arr p n refl, small, first)
    | no more ↦
        let big_n : leb n 1 ≡ false = ground arith in
        let (k, form) = floor_pow2_form n (omega arith) (omega arith) in
        let bounds = split_bounds n big_n (omega arith) in
        elim (Bool-cases (rest fuel arr p n refl == 0)) [
          | inl whole ↦
              let exact : n ≡ 2 ^ suc k =
                omega (arith, (==_iff (rest fuel arr p n refl) 0).0 whole, bounds, form) in
              let within : rank p i < 2 ^ suc k = omega (arith, mark_between v 0 i, exact) in
              rw (compact_fuel_step fuel arr p n refl, big_n, whole)
                (ap (get_elem? (compact_pow2 n arr p 0))
                    (sym (mod-eq_of_lt within) ∙ ap (λ x. x % 2 ^ suc k) (omega arith))
                  ∙ get_elem?-compact_pow2 k n arr p 0 i (omega (arith, lt-two-pow (suc k))) exact
                      (one-le-pow (suc k) 2 (omega arith)) (omega arith) (rw (← exact) v)
                      (omega arith) marked)
          | inr split ↦
              let (small, sum) = bounds in
              let length_r : length r ≡ n1 =
                length-compact_pow2 n (drop n2 arr) (drop n2 p) (wrapping_add (n1 - n2) c % n1)
                ∙ omega (arith, size_high, sum) in
              rw (compact_fuel_step fuel arr p n refl, big_n, split)
                (elim (dec_lt i n2) [
                  | yes low ↦
                      let ih =
                        get_elem?-compact_fuel fuel (take n2 arr) (take (n2 + 1) p) i
                          (omega (arith, length-take n2 arr, form, one-le-pow (suc k) 2))
                          (omega (arith, length-take n2 arr))
                          (rw (size_low) (take-IsMarks v n2 (omega arith)))
                          (omega (arith, size_low)) (take-IsMarked n2 p i low marked) in
                      let before : rank p i < c =
                        omega (arith, count, mark_between v 0 i, mark_between v (i + 1) n2) in
                      let inside : ltb i n2 ≡ true = ground arith in
                      from_low n1 n2 c l r sizes.0 length_r small few (rank p i) before
                      ∙ ap (get_elem? l) (sym (rank-take n2 p i (omega arith)))
                      ∙ ih
                      ∙ get_elem?-take n2 arr i
                      ∙ ap (λ b. if b then get_elem? arr i else none) inside
                  | no high ↦
                      let j = i - n2 in
                      let whole : n2 + j ≡ i = omega arith in
                      let z = wrapping_add (n1 - n2) c % n1 in
                      let place : z ≡ (n1 - n2 + c) % n1 = ap (λ x. x % n1) (omega (arith, few)) in
                      let ih =
                        get_elem?-compact_pow2 k n (drop n2 arr) (drop n2 p) z j
                          (omega (arith, lt-two-pow (suc k), form)) (omega (arith, size_high, form))
                          (rw (← form) (
                            mod-lt (wrapping_add (n1 - n2) c)
                              (omega (arith, form, one-le-pow (suc k) 2))))
                          (omega (arith, form)) (rw (← form) (drop-IsMarks v n2 n1 (omega arith)))
                          (omega (arith, form)) (drop-IsMarked n2 p j (rw whole marked)) in
                      let later : rank (drop n2 p) j ≡ mark p i - mark p n2 =
                        rank-drop n2 p j ∙ ap (λ x. mark p x - mark p n2) whole in
                      let total : rank p i ≡ c + rank (drop n2 p) j =
                        omega (arith, count, later, mark_between v 0 n2, mark_between v n2 i) in
                      let below = mark_between v n2 i in
                      rw total (
                        from_high n1 n2 c l r sizes.0 length_r small few (rank (drop n2 p) j)
                          (omega (arith, later, below))
                          (omega (arith, total, mark_between v 0 i, sum)))
                      ∙ ap (λ x. get_elem? r ((x + rank (drop n2 p) j) % n1)) (sym place)
                      ∙ ap (λ x. get_elem? r ((z + rank (drop n2 p) j) % x)) form
                      ∙ ih
                      ∙ get_elem?-drop n2 arr j
                      ∙ ap (get_elem? arr) whole
                ])
        ]
  ]
    where
      n : ℕ
      n = length arr

      n1 : ℕ
      n1 = floor_pow2 n

      n2 : ℕ
      n2 = n - floor_pow2 n

      c : ℕ
      c = wrapping_sub (mark p n2) (mark p 0)

      l : List T
      l = compact_fuel fuel (take n2 arr) (take (n2 + 1) p)

      r : List T
      r = compact_pow2 n (drop n2 arr) (drop n2 p) (wrapping_add (n1 - n2) c % n1)

      size_low : length (take n2 arr) ≡ n2
      size_low = omega (arith, length-take n2 arr)

      count : wrapping_sub (mark p n2) (mark p 0) ≡ mark p n2 - mark p 0
      count = omega (arith, mark_between v 0 n2, mark-lt v n2 (omega arith))

      few : c ≤ n2
      few = omega (arith, count, mark_between v 0 n2)

      sizes : (length l ≡ n2) × (length (l ++ r) ≡ n)
      sizes =
          parts_length n2 arr l r (length-compact_fuel fuel (take n2 arr) (take (n2 + 1) p))
            (length-compact_pow2 n (drop n2 arr) (drop n2 p) (wrapping_add (n1 - n2) c % n1))
            (omega arith)

      size_high : length (drop n2 arr) ≡ n - n2
      size_high = length-drop n2 arr

-- `compact_payload` brings each marked entry to the place that is its rank among the marked entries,
-- if the array has less than 2 ^ 62 entries and the marks grow by at most one at each entry and fit
-- a word.
pub get_elem?-compact_payload {ℓ} :
    {T : Type ℓ} ⦃m : Cmov T⦄ (arr : List T) (marks : List ℕ) (i : ℕ)
    → length arr < 2 ^ 62
    → IsMarks (length arr) marks
    → i < length arr
    → IsMarked marks i
    → get_elem? (compact_payload arr marks) (rank marks i) ≡ get_elem? arr i
unfolding compact_payload
get_elem?-compact_payload arr marks i big v hi marked =
    get_elem?-compact_fuel (length arr) arr marks i (omega arith) big v hi marked

-- `distribute_payload` puts into each marked place the entry whose index is the rank of the place,
-- if the array has less than 2 ^ 62 entries and the marks grow by at most one at each entry and fit
-- a word.
pub get_elem?-distribute_payload {ℓ} :
    {T : Type ℓ} ⦃m : Cmov T⦄ (arr : List T) (marks : List ℕ) (i : ℕ)
    → length arr < 2 ^ 62
    → IsMarks (length arr) marks
    → i < length arr
    → IsMarked marks i
    → get_elem? (distribute_payload arr marks) i ≡ get_elem? arr (rank marks i)
get_elem?-distribute_payload arr marks i big v hi marked =
    let spread = distribute_payload arr marks in
    let same : length spread ≡ length arr = length-distribute_payload arr marks in
    sym (get_elem?-compact_payload spread marks i (rw same big) (rw same v) (rw same hi) marked)
    ∙ ap (λ a. get_elem? a (rank marks i))
        (compact_payload-distribute_payload arr marks (omega arith)).1
