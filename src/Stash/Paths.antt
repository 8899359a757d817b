-- ===== src/Stash/Paths.antt =====
-- `read_from_path` and `write_to_path` of stash.rs on a tree of the right size: where the buckets of a
-- path stand, and what the two operations do to the blocks of the tree and of the stash.
use native.Mathlib.Nat.{one-le-pow, div-lt_iff_lt-mul, le-div_iff_mul-le}
use roga.Base.{
  ℕ, ◌+◌, ◌-◌, ◌*◌, ◌^◌, ◌<◌, ◌≤◌, ◌≡◌, sym, ap, subst, arith, two_pow-add, two_pow-sub,
}
use roga.Routing.{ct_depth, ct_node_on_path}
use roga.Routing.Paths.{ct_depth_iff}
use roga.Stash.Copies.{path_node}
use roga.Stash.WriteBack.{Fits}

pub two_pow-le : (a b : ℕ) → a ≤ b → 2 ^ a ≤ 2 ^ b
two_pow-le a b h =
    let positive : 0 < 2 ^ (b - a) = one-le-pow (b - a) 2 (omega arith) in
    grind (arith, two_pow-sub b a h)

pub bucket_before : (z a b : ℕ) → a < b → a * z + z ≤ b * z
bucket_before z a b h =
    let split : b ≡ a + 1 + (b - a - 1) = omega arith in
    subst (λ n. a * z + z ≤ n * z) (sym split) (grind arith)

module _ (z position height : ℕ) (leaf_from : 2 ^ height ≤ position)
    (leaf_to : position < 2 ^ (height + 1)) where
  -- The nodes of a path, by their depth.
  path_node-bounds :
      (d : ℕ)
      → d ≤ height
      → (2 ^ d ≤ path_node position height d) × (path_node position height d < 2 ^ (d + 1))
  unfolding ct_node_on_path
  path_node-bounds d h =
      let s = height - d in
      let positive : 0 < 2 ^ s = one-le-pow s 2 (omega arith) in
      let low : 2 ^ d * 2 ^ s ≤ position =
        omega
          (arith, two_pow-add d s, ap (λ e. 2 ^ e) (let e : d + s ≡ height = omega arith in e)) in
      let high : position < 2 ^ (d + 1) * 2 ^ s = omega (
        arith,
        two_pow-add (d + 1) s,
        ap (λ e. 2 ^ e) (let e : d + 1 + s ≡ height + 1 = omega arith in e),
      ) in
      ((le-div_iff_mul-le positive).1 low, (div-lt_iff_lt-mul positive).1 high)

  pub Fits-path :
      (room : ℕ)
      → (height + 1) * z ≤ room
      → Fits z position height (height + 1) 0 0 (2 ^ (height + 1) * z) room
  Fits-path room h = record {
    from = λ d p q. omega arith;
    to = λ d p q.
        let (low, high) = path_node-bounds d (omega arith) in
        omega (
          arith,
          bucket_before z (path_node position height d) (2 ^ (height + 1))
              (omega (arith, two_pow-le (d + 1) (height + 1) (omega arith))),
        );
    apart = λ d d' p q r.
        let (low, high) = path_node-bounds d (omega arith) in
        let (low', high') = path_node-bounds d' (omega arith) in
        bucket_before z (path_node position height d) (path_node position height d')
          (omega (arith, two_pow-le (d + 1) d' (omega arith)));
    slot = λ d p q. grind arith;
  }

  pub ct_depth_leaf : height ≤ 31 → ct_depth position ≡ height
  ct_depth_leaf h =
      let positive : 0 < 2 ^ height = one-le-pow height 2 (omega arith) in
      (ct_depth_iff position height (omega arith)
          (omega (arith, two_pow-le (height + 1) 64 (omega arith)))).1
        (leaf_from, leaf_to)
