-- ===== src/Routing/Ranks.antt =====
-- `path_rank_key` of routing.rs, the key by which the blocks of a path are sorted.
use native.Mathlib.Nat.{one-le-pow, pow-le-pow_right, mod-lt}
use roga.Base.{
  ℕ, ◌-◌, ◌*◌, ◌/◌, ◌%◌, ◌^◌, ◌<◌, ◌≤◌, ◌≡◌, refl, arith, Bool-cases, inl, inr, bit_or, bit_xor,
  bit_and, bit_and-mask, bit_or-shift, ◌>>>◌, ◌<<<◌, wrapping_sub, ◌==◌, if◌then◌else◌, two_pow-sub,
}
use roga.Ct.{ct_not}
use roga.Ct.Bytes.{bit_xor-lt}
use roga.Routing.{path_rank_key, routing_bits, ct_is_real}
use roga.Routing.Leaves.{ct_is_real_lem, routing_bits_lem}

power : (h : ℕ) → h ≤ 31 → 2 ^ h ≤ 2 ^ 31
power h l = pow-le-pow_right {n = 2} (omega arith) {i = h} {j = 31} l

suffix_mask : (h : ℕ) → h ≤ 31 → wrapping_sub (1 <<< h) 1 ≡ 2 ^ h - 1
suffix_mask h l =
    let small = power h l in
    let positive : 0 < 2 ^ h = one-le-pow h 2 (omega arith) in
    let once : 1 * 2 ^ h ≡ 2 ^ h = omega arith in rw once (omega arith)

evict_routing :
    (position h : ℕ) → h ≤ 31 → bit_and position (wrapping_sub (1 <<< h) 1) <<< (31 - h) < 2 ^ 31
evict_routing position h l =
    let positive : 0 < 2 ^ (31 - h) = one-le-pow (31 - h) 2 (omega arith) in
    let suffix : position % 2 ^ h < 2 ^ h = mod-lt position (one-le-pow h 2 (omega arith)) in
    let split : 2 ^ 31 ≡ 2 ^ (31 - h) * 2 ^ h = two_pow-sub 31 h l in
    let room : position % 2 ^ h * 2 ^ (31 - h) < 2 ^ 31 = grind arith in
    rw (suffix_mask h l, bit_and-mask h position) (omega arith)

-- In a tree of a height of at most 31 the highest bit of `path_rank_key` of a tag, a 64-bit word, is
-- 1 for the tag zero and 0 for any other, so that dummies rank behind all real blocks.
pub path_rank_key-top :
    (tag position height : ℕ)
    → tag < 2 ^ 64
    → height ≤ 31
    → path_rank_key tag position height / 2 ^ 63 ≡ (if tag == 0 then 1 else 0)
unfolding path_rank_key ct_not
path_rank_key-top tag position height h l =
    let evict = bit_and position (wrapping_sub (1 <<< height) 1) <<< (31 - height) in
    let routed : routing_bits tag < 2 ^ 31 = rw (routing_bits_lem tag) (omega arith) in
    let ranked : bit_xor (routing_bits tag) evict < 2 ^ 31 =
      bit_xor-lt 31 (routing_bits tag) evict routed (evict_routing position height l) in
    let d = bit_xor (ct_is_real tag) 1 <<< 63 in
    let r = bit_xor (routing_bits tag) evict <<< 32 in
    let i = tag >>> 32 in
    let none : r / 2 ^ 63 ≡ 0 = omega arith in
    let none' : i / 2 ^ 63 ≡ 0 = omega arith in
    rw (bit_or-shift 63 (bit_or d r) i, bit_or-shift 63 d r, none, none', ct_is_real_lem tag h)
      (elim (Bool-cases (tag == 0)) [ inl e ↦ rw e refl | inr e ↦ rw e refl ])
