-- ===== src/Histogram/Evictions.antt =====
-- The leaves of evictions in `next_evict_leaf` of ops.rs.
use native.Mathlib.Nat.{one-le-pow, pow-suc, mod-lt, mul-div_left, mod-eq_of_lt, pow-le-pow_right}
use native.Mathlib.Decide.{dec_lt}
use roga.Base.{
  ℕ, zero, suc, ◌+◌, ◌-◌, ◌*◌, ◌/◌, ◌%◌, ◌^◌, ◌<◌, ◌≤◌, ◌≡◌, ◌↔◌, ◌⊎◌, inl, inr, refl, sym, ap, ◌∙◌,
  arith, bit_or, bit_or-high_low, two_pow-add,
}
use roga.Routing.{leaf_count}
use roga.Histogram.{reverse_bits, next_evict_leaf}

reverse_step : (w x : ℕ) → reverse_bits (suc w) x ≡ x % 2 * 2 ^ w + reverse_bits w (x / 2)
unfolding reverse_bits
reverse_step w x = refl

digit : (x : ℕ) → (x % 2 ≡ 0) ⊎ (x % 2 ≡ 1)
digit x = elim (dec_lt (x % 2) 1) [ yes p ↦ inl (omega arith) | no p ↦ inr (omega arith) ]

-- A step by the lowest digit.
reverse_even : (w x : ℕ) → x % 2 ≡ 0 → reverse_bits (suc w) x ≡ reverse_bits w (x / 2)
reverse_even w x e = rw (reverse_step w x, e) (omega arith)

reverse_odd : (w x : ℕ) → x % 2 ≡ 1 → reverse_bits (suc w) x ≡ 2 ^ w + reverse_bits w (x / 2)
reverse_odd w x e = rw (reverse_step w x, e) (omega arith)

reverse_bits-lt : (w x : ℕ) → reverse_bits w x < 2 ^ w
reverse_bits-lt zero x = unfold reverse_bits in omega arith
reverse_bits-lt (suc w) x = elim (digit x) [
  | inl e ↦ omega (arith, reverse_even w x e, pow-suc 2 w, reverse_bits-lt w (x / 2))
  | inr e ↦ omega (arith, reverse_odd w x e, pow-suc 2 w, reverse_bits-lt w (x / 2))
]

reverse_bits-zero : (w : ℕ) → reverse_bits w 0 ≡ 0
reverse_bits-zero zero = unfold reverse_bits in refl
reverse_bits-zero (suc w) = reverse_even w 0 (omega arith) ∙ reverse_bits-zero w

-- The reversal of a word of few bits stands at the top.
reverse_bits-add : (w j x : ℕ) → x < 2 ^ w → reverse_bits (w + j) x ≡ reverse_bits w x * 2 ^ j
reverse_bits-add zero j x h =
    let none : x ≡ 0 = omega arith in
    let same : 0 + j ≡ j = omega arith in
    let empty : reverse_bits 0 0 ≡ 0 = reverse_bits-zero 0 in
    rw (none, same, reverse_bits-zero j, empty) (omega arith)
reverse_bits-add (suc w) j x h =
    let same : suc w + j ≡ suc (w + j) = omega arith in
    let ih : reverse_bits (w + j) (x / 2) ≡ reverse_bits w (x / 2) * 2 ^ j =
      reverse_bits-add w j (x / 2) (omega (arith, pow-suc 2 w)) in
    elim (digit x) [
      | inl e ↦ rw (same, reverse_even (w + j) x e, reverse_even w x e, ih)
      | inr e ↦
          rw (same, reverse_odd (w + j) x e, reverse_odd w x e, ih, two_pow-add w j) (grind arith)
    ]

reverse_bits-inj : (w x y : ℕ) → x < 2 ^ w → y < 2 ^ w → reverse_bits w x ≡ reverse_bits w y → x ≡ y
reverse_bits-inj zero x y p q h = omega arith
reverse_bits-inj (suc w) x y p q h =
    let rest : reverse_bits w (x / 2) ≡ reverse_bits w (y / 2) → x / 2 ≡ y / 2 =
      reverse_bits-inj w (x / 2) (y / 2) (omega (arith, pow-suc 2 w))
        (omega (arith, pow-suc 2 w)) in
    let a = reverse_bits-lt w (x / 2) in
    let b = reverse_bits-lt w (y / 2) in
    elim (digit x) [
      | inl e ↦ elim (digit y) [
        | inl f ↦
            let g = rest (omega (arith, reverse_even w x e, reverse_even w y f)) in omega arith
        | inr f ↦ absurd (omega (arith, reverse_even w x e, reverse_odd w y f))
      ]
      | inr e ↦ elim (digit y) [
        | inl f ↦ absurd (omega (arith, reverse_odd w x e, reverse_even w y f))
        | inr f ↦ let g = rest (omega (arith, reverse_odd w x e, reverse_odd w y f)) in omega arith
      ]
    ]

count_lem : (height : ℕ) → height ≤ 31 → leaf_count height ≡ 2 ^ height
unfolding leaf_count
count_lem height h =
    let small : 2 ^ height ≤ 2 ^ 31 =
      pow-le-pow_right {n = 2} (omega arith) {i = height} {j = 31} h in
    let once : 1 * 2 ^ height ≡ 2 ^ height = omega arith in rw once (mod-eq_of_lt (omega arith))

-- The leaf is the first leaf plus the reversal of the counter's low bits.
leaf_lem :
    (ctr height : ℕ)
    → height ≤ 31
    → (next_evict_leaf ctr height).0 ≡ 2 ^ height + reverse_bits height (ctr % 2 ^ height)
unfolding next_evict_leaf
leaf_lem ctr height h =
    let raw = ctr % 2 ^ height in
    let small : raw < 2 ^ height = mod-lt ctr (one-le-pow height 2 (omega arith)) in
    let width : 64 ≡ height + (64 - height) = omega arith in
    let top : reverse_bits 64 raw ≡ reverse_bits height raw * 2 ^ (64 - height) =
      ap (λ w. reverse_bits w raw) width ∙ reverse_bits-add height (64 - height) raw small in
    let shifted : reverse_bits 64 raw / 2 ^ (64 - height) ≡ reverse_bits height raw =
      ap (λ x. x / 2 ^ (64 - height)) top
      ∙ mul-div_left (reverse_bits height raw) (one-le-pow (64 - height) 2 (omega arith)) in
    let first : 2 ^ height ≡ 1 * 2 ^ height = omega arith in
    rw (count_lem height h, shifted)
      (ap (λ x. bit_or x (reverse_bits height raw)) first
        ∙ bit_or-high_low height 1 (reverse_bits height raw) (reverse_bits-lt height raw)
        ∙ omega arith)

-- In a tree of a height of at most 31 the leaf that `next_evict_leaf` gives is a node of the last
-- level, and two evictions go to the same leaf exactly if their counters agree modulo the number of
-- leaves, so that as many evictions in a row as there are leaves visit every leaf once.
pub next_evict_leaf-distinct :
    (ctr ctr' height : ℕ)
    → height ≤ 31
    → let leaf = (next_evict_leaf ctr height).0 in
      (2 ^ height ≤ leaf)
      × (leaf < 2 ^ (height + 1))
      × ((leaf ≡ (next_evict_leaf ctr' height).0) ↔ (ctr % 2 ^ height ≡ ctr' % 2 ^ height))
next_evict_leaf-distinct ctr ctr' height h =
    let positive : 0 < 2 ^ height = one-le-pow height 2 (omega arith) in
    let x = ctr % 2 ^ height in
    let y = ctr' % 2 ^ height in
    let a = leaf_lem ctr height h in
    let b = leaf_lem ctr' height h in
    (
      omega arith,
      omega (arith, two_pow-add height 1, reverse_bits-lt height x),
      (
        λ e. reverse_bits-inj height x y (mod-lt ctr positive) (mod-lt ctr' positive) (omega arith),
        λ e. a ∙ ap (λ r. 2 ^ height + reverse_bits height r) e ∙ sym b,
      ),
    )
