-- ===== src/Oram/Order.antt =====
-- The comparisons of blocks in oblivious_histogram/mod.rs: `payload_gt` and `tree_readout_gt`, and the
-- plain order by which `export_entries` sorts.
pub mod Lex
use roga.Base.{
  ℕ, zero, suc, ◌+◌, ◌-◌, Bool, true, false, List, [], ◌∷◌, bit_and, bit_or, get_or, ltb, ◌<<<◌,
  ◌>>>◌, if◌then◌else◌,
}
use roga.Ct.{ct_lt, ct_not, ct_lt_u8}
use roga.Routing
use roga.Routing.{routing_bits}
use roga.Block.{OramBlock}

-- `for i in i..i + rounds`, with `greater` and `less`, over the bytes of two keys.
unfoldable pub compare_loop : List ℕ → List ℕ → ℕ → ℕ → ℕ → ℕ → ℕ × ℕ
unfolding ct_not ct_lt_u8
compare_loop a b zero i greater less = (greater, less)
compare_loop a b (suc rounds) i greater less =
    let undecided = ct_not (bit_or greater less) in
    let greater' = bit_or greater (bit_and undecided (ct_lt_u8 (get_or b i 0) (get_or a i 0))) in
    let less' = bit_or less (bit_and undecided (ct_lt_u8 (get_or a i 0) (get_or b i 0))) in
    compare_loop a b rounds (i + 1) greater' less'

-- How both comparisons end: dummies come last.
unfoldable pub dummies_last : ℕ → ℕ → ℕ → ℕ
unfolding ct_not
dummies_last a_real b_real greater =
    let a_dummy_after_real = bit_and (ct_not a_real) b_real in
    let both_real = bit_and a_real b_real in bit_or a_dummy_after_real (bit_and both_real greater)

module _ {V : Type 0} where
  -- `k` is the constant K.
  unfoldable pub payload_gt : ℕ → OramBlock V → OramBlock V → ℕ
  unfolding compare_loop dummies_last Routing.ct_is_real
  payload_gt k a b =
      let (greater, less) = compare_loop a.payload b.payload k 0 0 0 in
      dummies_last (Routing.ct_is_real a.tag) (Routing.ct_is_real b.tag) greater

  -- The routing bits, and behind them the bits above 32.
  unfoldable pub readout_order : OramBlock V → ℕ
  unfolding routing_bits
  readout_order a = bit_or (routing_bits a.tag <<< 32) (a.tag >>> 32)

  unfoldable pub tree_readout_gt : ℕ → OramBlock V → OramBlock V → ℕ
  unfolding compare_loop dummies_last readout_order ct_lt Routing.ct_is_real
  tree_readout_gt k a b =
      let a_order = readout_order a in
      let b_order = readout_order b in
      let (greater, less) =
        compare_loop a.payload b.payload k 0 (ct_lt b_order a_order) (ct_lt a_order b_order) in
      dummies_last (Routing.ct_is_real a.tag) (Routing.ct_is_real b.tag) greater

-- The order of byte arrays in the standard library.
unfoldable pub lex_lt : List ℕ → List ℕ → Bool
lex_lt [] [] = false
lex_lt [] (y ∷ b) = true
lex_lt (x ∷ a) [] = false
lex_lt (x ∷ a) (y ∷ b) = if ltb x y then true else if ltb y x then false else lex_lt a b
