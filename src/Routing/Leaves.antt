-- ===== src/Routing/Leaves.antt =====
-- Tags and leaves of routing.rs: which leaf of the tree a tag names.
use native.Mathlib.Nat.{one-le-pow, mod-lt, add-mul-div_left, mul_comm, div-lt_iff_lt-mul}
use roga.Base.{
  ℕ, ◌+◌, ◌-◌, ◌*◌, ◌/◌, ◌%◌, ◌^◌, ◌<◌, ◌≤◌, ◌≡◌, ap, ◌∙◌, arith, bit_and, bit_or, bit_and-mask,
  bit_or-low_high, two_pow-add, two_pow-sub, ◌==◌, if◌then◌else◌,
}
use roga.Ct.Bytes.{or_neg_top}
use roga.Routing.{address_to_leaf, ct_is_real, routing_bits, routing_bits_mask, real_addr_marker}

-- On a tag, a 64-bit word, `ct_is_real` is 0 if the tag is zero and 1 otherwise.
pub ct_is_real_lem : (tag : ℕ) → tag < 2 ^ 64 → ct_is_real tag ≡ (if tag == 0 then 0 else 1)
unfolding ct_is_real
ct_is_real_lem tag h = or_neg_top tag h

pub routing_bits_lem : (tag : ℕ) → routing_bits tag ≡ tag % 2 ^ 31
unfolding routing_bits
routing_bits_lem tag = bit_and-mask 31 tag

marked_routing :
    (tag : ℕ) → bit_or (bit_and tag routing_bits_mask) real_addr_marker ≡ 2 ^ 31 + tag % 2 ^ 31
marked_routing tag =
    ap (λ x. bit_or x real_addr_marker) (bit_and-mask 31 tag)
    ∙ bit_or-low_high 31 1 (tag % 2 ^ 31) (omega arith)

-- In a tree of a height of at most 31 the leaf of a tag is the first leaf plus the leading `height`
-- of the tag's 31 routing bits.
pub address_to_leaf_lem :
    (tag height : ℕ)
    → height ≤ 31
    → address_to_leaf tag height ≡ 2 ^ height + tag % 2 ^ 31 / 2 ^ (31 - height)
unfolding address_to_leaf
address_to_leaf_lem tag height h =
    let positive : 0 < 2 ^ (31 - height) = one-le-pow (31 - height) 2 (omega arith) in
    let split : 2 ^ 31 ≡ 2 ^ (31 - height) * 2 ^ height = two_pow-sub 31 height h in
    ap (λ x. x / 2 ^ (31 - height)) (marked_routing tag ∙ omega (arith, split))
    ∙ add-mul-div_left (tag % 2 ^ 31) (2 ^ height) positive
    ∙ omega arith

-- In a tree of a height of at most 31 the leaf of any tag is a node of the last level.
pub address_to_leaf_bounds :
    (tag height : ℕ)
    → height ≤ 31
    → (2 ^ height ≤ address_to_leaf tag height) × (address_to_leaf tag height < 2 ^ (height + 1))
address_to_leaf_bounds tag height h =
    let positive : 0 < 2 ^ (31 - height) = one-le-pow (31 - height) 2 (omega arith) in
    let split : 2 ^ 31 ≡ 2 ^ height * 2 ^ (31 - height) =
      two_pow-sub 31 height h ∙ mul_comm (2 ^ (31 - height)) (2 ^ height) in
    let small : tag % 2 ^ 31 / 2 ^ (31 - height) < 2 ^ height =
      (div-lt_iff_lt-mul positive).1 (rw (← split) (mod-lt tag (omega arith))) in
    let double : 2 ^ (height + 1) ≡ 2 ^ height * 2 = two_pow-add height 1 in
    rw (address_to_leaf_lem tag height h) (omega arith, omega (arith, double))
