-- ===== src/Reduction.antt =====
-- crates/oram/src/oblivious/reduction.rs: the pass over sorted blocks that adds up each run of blocks
-- with one key. The source's trait `Reducible` is a record of its operations, of which OramBlock
-- is the one instance; `value_mut` and `epoch_mut` are a reader and a writer each. Timings are left out.
pub mod Runs
pub mod Totals
pub mod Order
pub mod Counts
use roga.Base.{ℕ, List, [], ◌∷◌, bit_and}
use roga.External.{ScalarCmov, OramValue}
use roga.Ct.{ct_not, ct_min_u8}
use roga.Block.{OramBlock, is_real, ct_identity_eq, conditional_dummy}

pub record Reducible (V T : Type 0) : Type 0 where
  pub ct_is_real : T → ℕ
  pub ct_identity_eq : T → T → ℕ
  pub value : T → V
  pub set_value : T → V → T
  pub epoch : T → ℕ
  pub set_epoch : T → ℕ → T
  pub conditional_dummy : T → ℕ → T

-- `impl Reducible for OramBlock`, with keys of `k` bytes.
unfoldable pub block_reducible : {V : Type 0} ⦃w : ScalarCmov ℕ⦄ → ℕ → Reducible V (OramBlock V)
unfolding is_real ct_identity_eq conditional_dummy
block_reducible k = record {
  ct_is_real = is_real;
  ct_identity_eq = ct_identity_eq k;
  value = λ b. b.value;
  set_value = λ b v. record { tag = b.tag; epoch = b.epoch; value = v; payload = b.payload };
  epoch = λ b. b.epoch;
  set_epoch = λ b e. record { tag = b.tag; epoch = e; value = b.value; payload = b.payload };
  conditional_dummy = λ b c. conditional_dummy b c;
}

module _ {V T : Type 0} ⦃w : ScalarCmov ℕ⦄ ⦃v : OramValue V⦄ (r : Reducible V T)
    (combine : V → V → V) where
  -- The loop over `rest`, with what stands in its variables: the blocks from `prev` on afterwards.
  unfoldable pub reduce_loop : V → ℕ → T → List T → List T
  unfolding ct_not ct_min_u8
  reduce_loop acc_val acc_epoch prev [] = prev ∷ []
  reduce_loop acc_val acc_epoch prev (cur ∷ rest) =
      let val = r.value cur in
      let e = r.epoch cur in
      let cur_real = r.ct_is_real cur in
      let same = bit_and (bit_and (r.ct_identity_eq cur prev) cur_real) (r.ct_is_real prev) in
      let start_new = bit_and cur_real (ct_not same) in
      let combined_val = combine acc_val val in
      let min_epoch = ct_min_u8 acc_epoch e in
      let acc_val' = v.scalar.cmovnz (v.scalar.cmovnz acc_val combined_val same) val start_new in
      let acc_epoch' = w.cmovnz (w.cmovnz acc_epoch min_epoch same) e start_new in
      let cur' = r.set_value cur (v.scalar.cmovnz (r.value cur) acc_val' cur_real) in
      let cur'' = r.set_epoch cur' (w.cmovnz (r.epoch cur') acc_epoch' cur_real) in
      r.conditional_dummy prev same ∷ reduce_loop acc_val' acc_epoch' cur'' rest

  unfoldable pub reduce_equal_runs_with_accumulator : List T → List T
  unfolding reduce_loop
  reduce_equal_runs_with_accumulator [] = []
  reduce_equal_runs_with_accumulator (first ∷ rest) =
      let first_real = r.ct_is_real first in
      let val = r.value first in
      let e = r.epoch first in
      let acc_val = v.scalar.cmovnz v.default val first_real in
      let acc_epoch = w.cmovnz 0 e first_real in
      let first' = r.set_value first (v.scalar.cmovnz (r.value first) acc_val first_real) in
      let first'' = r.set_epoch first' (w.cmovnz (r.epoch first') acc_epoch first_real) in
      reduce_loop acc_val acc_epoch first'' rest

-- `SumAccumulator`.
unfoldable pub reduce_equal_runs :
    {V T : Type 0} ⦃w : ScalarCmov ℕ⦄ ⦃v : OramValue V⦄ → Reducible V T → List T → List T
unfolding reduce_equal_runs_with_accumulator
reduce_equal_runs ⦃w⦄ ⦃v⦄ r blocks = reduce_equal_runs_with_accumulator r v.add blocks
