-- ===== src/Routing/Paths.antt =====
-- `deepest_shared_level` of stash.rs against the levels on which two paths have one node.
use native.Mathlib.Decide.{dec_lt}
use native.Mathlib.Nat.{pow-le-pow_right, one-le-pow, div-eq_of_lt}
use roga.Base.{
  ℕ, zero, suc, ◌+◌, ◌-◌, ◌*◌, ◌/◌, ◌^◌, ◌<◌, ◌≤◌, ◌≡◌, ◌↔◌, refl, sym, ◌∙◌, arith, bit_xor,
  bit_xor-shift, leading_zeros, leading_zeros_bounds, ==_iff, two_pow-add,
}
use roga.Ct.Bytes.{bit_xor-zero_iff}
use roga.Routing.{to_leaf, ct_node_on_path, deepest_shared_level, ct_depth}
use roga.Routing.Leaves.{address_to_leaf_bounds}

zero_count : leading_zeros 0 ≡ 64
unfolding leading_zeros
zero_count = refl

exponent_lt : (a b : ℕ) → 2 ^ a < 2 ^ b → a < b
exponent_lt a b h = elim (dec_lt a b) [
  | yes p ↦ p
  | no p ↦
      absurd (omega (arith, pow-le-pow_right {n = 2} (omega arith) {i = b} {j = a} (omega arith)))
]

-- For a node, a word above zero, `ct_depth` is `h` exactly if the node is from 2 ^ h to 2 ^ (h + 1)
-- - 1.
pub ct_depth_iff :
    (node h : ℕ)
    → 0 < node
    → node < 2 ^ 64
    → (ct_depth node ≡ h) ↔ ((2 ^ h ≤ node) × (node < 2 ^ (h + 1)))
unfolding ct_depth
ct_depth_iff node h p q = (to, from)
  where
    lz : ℕ
    lz = leading_zeros node

    bounds : (lz < 64) × (2 ^ (64 - 1 - lz) ≤ node) × (node < 2 ^ (64 - 1 - lz) * 2)
    bounds = leading_zeros_bounds node p q

    to : 63 - lz ≡ h → (2 ^ h ≤ node) × (node < 2 ^ (h + 1))
    to e = rw (← e) (bounds.1, omega (arith, two_pow-add (63 - lz) 1, bounds.2))

    from : (2 ^ h ≤ node) × (node < 2 ^ (h + 1)) → 63 - lz ≡ h
    from (lo, hi) =
        let below : h < 63 - lz + 1 =
          exponent_lt h (63 - lz + 1) (omega (arith, two_pow-add (63 - lz) 1, bounds.2)) in
        let above : 63 - lz < h + 1 = exponent_lt (63 - lz) (h + 1) (omega (arith, bounds.1)) in
        omega arith

-- A difference below `2 ^ s` is one that the shift by `s` does not show.
shift_equal : (s a b : ℕ) → (bit_xor a b < 2 ^ s) ↔ (a / 2 ^ s ≡ b / 2 ^ s)
shift_equal s a b = (to, from)
  where
    to : bit_xor a b < 2 ^ s → a / 2 ^ s ≡ b / 2 ^ s
    to h =
        let gone : bit_xor (a / 2 ^ s) (b / 2 ^ s) ≡ 0 =
          sym (bit_xor-shift s a b) ∙ div-eq_of_lt h in
        (==_iff _ _).0 (sym (bit_xor-zero_iff (a / 2 ^ s) (b / 2 ^ s)) ∙ (==_iff _ 0).1 gone)

    from : a / 2 ^ s ≡ b / 2 ^ s → bit_xor a b < 2 ^ s
    from e =
        let gone : bit_xor a b / 2 ^ s ≡ 0 =
          bit_xor-shift s a b
          ∙ (==_iff _ 0).0 (bit_xor-zero_iff (a / 2 ^ s) (b / 2 ^ s) ∙ (==_iff _ _).1 e) in
        let positive : 0 < 2 ^ s = one-le-pow s 2 (omega arith) in grind arith

leaf_range :
    (tag height : ℕ)
    → height ≤ 31
    → (2 ^ height ≤ to_leaf tag height) × (to_leaf tag height < 2 ^ (height + 1))
unfolding to_leaf
leaf_range tag height h = address_to_leaf_bounds tag height h

top_bit : (a h : ℕ) → 2 ^ h ≤ a → a < 2 ^ (h + 1) → a / 2 ^ h ≡ 1
top_bit a h lo hi =
    let positive : 0 < 2 ^ h = one-le-pow h 2 (omega arith) in
    let double : 2 ^ (h + 1) ≡ 2 ^ h * 2 = two_pow-add h 1 in sym (grind arith)

-- The leading zeros of a difference below `2 ^ height` say how many bits it has.
shared_prefix :
    (d height level : ℕ)
    → height ≤ 31
    → d < 2 ^ height
    → level ≤ height
    → (level ≤ height + leading_zeros d - 64) ↔ (d < 2 ^ (height - level))
shared_prefix zero height level h top k =
    (λ e. one-le-pow (height - level) 2 (omega arith), λ e. omega (arith, zero_count))
shared_prefix (suc d') height level h top k = (to, from)
  where
    d : ℕ
    d = suc d'

    lz : ℕ
    lz = leading_zeros d

    word : d < 2 ^ 64
    word =
        omega
          (arith, pow-le-pow_right {n = 2} (omega arith) {i = height} {j = 64} (omega arith), top)

    bounds : (lz < 64) × (2 ^ (64 - 1 - lz) ≤ d) × (d < 2 ^ (64 - 1 - lz) * 2)
    bounds = leading_zeros_bounds d (omega arith) word

    to : level ≤ height + lz - 64 → d < 2 ^ (height - level)
    to e = elim (dec_lt 0 level) [
      | yes q ↦ omega (
        arith,
        bounds,
        two_pow-add (63 - lz) 1,
        pow-le-pow_right {n = 2} (omega arith) {i = 63 - lz + 1} {j = height - level}
            (omega (arith, bounds, e, q)),
      )
      | no q ↦ let same : height - level ≡ height = omega arith in rw same top
    ]

    from : d < 2 ^ (height - level) → level ≤ height + lz - 64
    from e =
        let few : 63 - lz < height - level =
          exponent_lt (63 - lz) (height - level) (omega (arith, bounds)) in
        omega (arith, bounds)

-- In a tree of a height of at most 31, a level of the tree is at most `deepest_shared_level` of a
-- leaf `target` and a tag exactly if the paths to `target` and to the leaf of the tag have their
-- node of that level in common.
pub deepest_shared_level_iff :
    (target tag height level : ℕ)
    → height ≤ 31
    → 2 ^ height ≤ target
    → target < 2 ^ (height + 1)
    → level ≤ height
    → (level ≤ deepest_shared_level target tag height)
      ↔ (ct_node_on_path target level height ≡ ct_node_on_path (to_leaf tag height) level height)
unfolding deepest_shared_level ct_node_on_path
deepest_shared_level_iff target tag height level h lo hi k = (to, from)
  where
    leaf : ℕ
    leaf = to_leaf tag height

    d : ℕ
    d = bit_xor target leaf

    lz : ℕ
    lz = leading_zeros d

    leaf_bounds : (2 ^ height ≤ leaf) × (leaf < 2 ^ (height + 1))
    leaf_bounds = leaf_range tag height h

    top : d < 2 ^ height
    top =
        (shift_equal height target leaf).1
          (top_bit target height lo hi ∙ sym (top_bit leaf height leaf_bounds.0 leaf_bounds.1))

    shared : (level ≤ height + lz - 64) ↔ (d < 2 ^ (height - level))
    shared = shared_prefix d height level h top k

    to : level ≤ height + lz - 64 → target / 2 ^ (height - level) ≡ leaf / 2 ^ (height - level)
    to e = (shift_equal (height - level) target leaf).0 (shared.0 e)

    from : target / 2 ^ (height - level) ≡ leaf / 2 ^ (height - level) → level ≤ height + lz - 64
    from e = shared.1 ((shift_equal (height - level) target leaf).1 e)
