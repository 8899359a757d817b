-- ===== src/Resize.antt =====
-- The decision to resize in crates/oram/src/oblivious_histogram/resize.rs: its sampler of discrete
-- Laplace noise, its thresholds and its state. Floating-point numbers and the generator of random
-- numbers are parameters. `none` is a failed assertion; debug assertions are left out.
pub mod Sampler
use roga.Base.{
  ℕ, zero, suc, ◌+◌, ◌-◌, ◌*◌, ◌/◌, ◌^◌, Bool, ◌&&◌, ◌||◌, not, is_none, Option, none, some, ltb,
  leb, if◌then◌else◌, min, max, bit_and, ◌>>>◌, ◌<<<◌, wrapping_add, saturating_add, saturating_mul,
  ℤ, pos, ◌+ℤ◌, ltb_ℤ, min_ℤ, as_i64, wrapping_add_i64, wrapping_sub_i64,
}
use roga.External.{Float, Rng}
use roga.Ct.{ct_lt}
use roga.Routing.{leaf_count}
use roga.Binomial.{dp_det_threshold}

abbrev pub sampler_probability_bits : ℕ
sampler_probability_bits = 48

abbrev pub sampler_probability_scale : ℕ
sampler_probability_scale = 1 <<< sampler_probability_bits

abbrev pub sampler_statistical_bits : ℕ
sampler_statistical_bits = 128

abbrev pub resize_attempts : ℕ
resize_attempts = 2

pub record AutoResizeConfig (F : Type 0) : Type 0 where
  pub t_capacity : ℕ
  pub eps : F
  pub alpha : F
  pub seed : ℕ

pub record CtDiscreteLaplace : Type 0 where
  pub failure_cutoff : ℕ
  pub trials : ℕ

module _ {F : Type 0} (f : Float F) where
  open f use {literal, of_nat, to_nat, to_int, add, sub, mul, div, lt, ln, exp, powi}

  unfoldable pub AutoResizeConfig_new : ℕ → AutoResizeConfig F
  AutoResizeConfig_new t_capacity = record {
    t_capacity = t_capacity;
    eps = of_nat 1;
    alpha = literal 5 2;
    seed = 0;
  }

  unfoldable pub CtDiscreteLaplace_new : F → Option CtDiscreteLaplace
  CtDiscreteLaplace_new eps =
      let target_q = exp (div (f.neg eps) (of_nat 6)) in
      let scaled_q = mul target_q (of_nat sampler_probability_scale) in
      let failure_cutoff = saturating_add (to_nat (f.floor scaled_q)) 2 in
      let q = div (of_nat failure_cutoff) (of_nat sampler_probability_scale) in
      let target_log_probability = mul (f.neg (of_nat (sampler_statistical_bits + 1))) f.ln_2 in
      let trials = to_nat (f.ceil (div target_log_probability (ln q))) in
      if f.is_finite eps
        && lt (of_nat 0) eps
        && (ltb failure_cutoff sampler_probability_scale && ltb 0 trials)
      then some (record { failure_cutoff = failure_cutoff; trials = trials })
      else none

  unfoldable pub upper_quantile : CtDiscreteLaplace → F → Option ℤ
  upper_quantile self probability =
      let q = div (of_nat self.failure_cutoff) (of_nat sampler_probability_scale) in
      let z = sub (f.ceil (div (ln (mul probability (add (of_nat 1) q))) (ln q))) (of_nat 1) in
      if f.is_finite probability && (lt (of_nat 0) probability && lt probability (literal 5 1))
      then some (min_ℤ (to_int (f.max z (of_nat 0))) (as_i64 self.trials))
      else none

  unfoldable pub dp_initial_k : ℕ → ℕ → ℕ → ℕ
  dp_initial_k t_capacity l a =
      let a_f = f.max (of_nat a) (of_nat 1) in
      let raw = f.cbrt (div (mul (of_nat t_capacity) (of_nat l)) (mul a_f a_f)) in
      let k = max (to_nat (f.floor raw)) 1 in min k l

-- The loop of `geometric_with`, with `active`, `magnitude` and the generator.
unfoldable pub geometric_loop : {R : Type 0} → (R → ℕ × R) → ℕ → ℕ → ℕ → ℕ → R → ℕ × R
unfolding ct_lt
geometric_loop next_word failure_cutoff zero active magnitude rng = (magnitude, rng)
geometric_loop next_word failure_cutoff (suc rounds) active magnitude rng =
    let (word, rng') = next_word rng in
    let draw = word >>> (64 - sampler_probability_bits) in
    let active' = bit_and active (ct_lt draw failure_cutoff) in
    geometric_loop next_word failure_cutoff rounds active' (wrapping_add magnitude active') rng'

unfoldable pub geometric_with : {R : Type 0} → CtDiscreteLaplace → (R → ℕ × R) → R → ℤ × R
unfolding geometric_loop
geometric_with self next_word rng =
    let (magnitude, rng') = geometric_loop next_word self.failure_cutoff self.trials 1 0 rng in
    (as_i64 magnitude, rng')

unfoldable pub sample_with : {R : Type 0} → CtDiscreteLaplace → (R → ℕ × R) → R → ℤ × R
unfolding geometric_with
sample_with self next_word rng =
    let (positive, rng') = geometric_with self next_word rng in
    let (negative, rng'') = geometric_with self next_word rng' in
    (wrapping_sub_i64 positive negative, rng'')

unfoldable pub sample : {R : Type 0} → Rng R → CtDiscreteLaplace → R → ℤ × R
unfolding sample_with
sample r self rng = sample_with self r.random rng

pub record AutoResizeState (F R : Type 0) : Type 0 where
  pub config : AutoResizeConfig F
  pub k : ℕ
  pub t_hat_units : ℤ
  pub evictions_since_check : ℕ
  pub c_sum : ℕ
  pub total_resizes : ℕ
  pub deferred : Bool
  pub emits_grow_signal : Bool
  pub pending_grow : Option ℕ
  pub sampler : CtDiscreteLaplace
  pub rng : R

-- `z` is the constant Z.
unfoldable pub effective_t_capacity : ℕ → ℕ → ℕ
effective_t_capacity z t_capacity = let scale = max (z / 4) 1 in saturating_mul t_capacity scale

module _ {F R : Type 0} (f : Float F) (r : Rng R) where
  open f use {of_nat, sub, mul, div}

  unfoldable pub dp_epoch_units : ℕ → ℕ → ℕ → F → ℕ → CtDiscreteLaplace → R → Option (ℤ × R)
  unfolding dp_det_threshold upper_quantile sample
  dp_epoch_units t_capacity l k alpha a sampler rng =
      let t = of_nat t_capacity in
      let sensitivity = div (of_nat l) (of_nat k) in
      let threshold =
        dp_det_threshold f t (of_nat l) (of_nat k) alpha (of_nat a) (of_nat resize_attempts) in
      let deterministic_units =
        f.to_int (f.floor (div (sub threshold (div t (of_nat 2))) sensitivity)) in
      let attempts_tail = f.powi (mul (of_nat 2) alpha) (pos resize_attempts) in
      elim (upper_quantile f sampler alpha) [
        | none ↦ none
        | some estimator_zeta_units ↦ elim (upper_quantile f sampler attempts_tail) [
          | none ↦ none
          | some attempts_zeta_units ↦
              let (theta_units, rng') = sample r sampler rng in
              some (
                wrapping_sub_i64
                    (wrapping_sub_i64 (wrapping_add_i64 deterministic_units theta_units)
                      estimator_zeta_units)
                    attempts_zeta_units,
                rng',
              )
        ]
      ]

  -- The methods of AutoResizeState.
  unfoldable pub record_eviction : AutoResizeState F R → ℕ → AutoResizeState F R
  record_eviction self matching_blocks = record self {
    c_sum = self.c_sum + matching_blocks;
    evictions_since_check = self.evictions_since_check + 1;
  }

  unfoldable pub should_check_epoch : AutoResizeState F R → Bool
  should_check_epoch self =
      (not self.emits_grow_signal || is_none self.pending_grow)
      && leb self.k self.evictions_since_check

  -- The signal, and the state afterwards.
  unfoldable pub evaluate_signal : ℕ → AutoResizeState F R → Option ℕ × AutoResizeState F R
  unfolding effective_t_capacity sample
  evaluate_signal z self =
      let effective_t = effective_t_capacity z self.config.t_capacity in
      let (eta, rng') = sample r self.sampler self.rng in
      let noisy_estimate_units = pos self.c_sum +ℤ eta in
      let do_grow = ltb_ℤ self.t_hat_units noisy_estimate_units in
      (
        if do_grow then some effective_t else none,
        record self { c_sum = 0; evictions_since_check = 0; rng = rng' },
      )

  unfoldable pub reset_counters : AutoResizeState F R → AutoResizeState F R
  reset_counters self = record self { c_sum = 0; evictions_since_check = 0; pending_grow = none }

  -- `z` and `a` are the constants Z and A.
  unfoldable pub on_tree_grown : ℕ → ℕ → AutoResizeState F R → ℕ → Option (AutoResizeState F R)
  unfolding leaf_count effective_t_capacity dp_initial_k dp_epoch_units
  on_tree_grown z a self new_height =
      let config' = record self.config { t_capacity = saturating_mul self.config.t_capacity 2 } in
      let l_new = leaf_count new_height in
      let effective_t = effective_t_capacity z config'.t_capacity in
      let k' = dp_initial_k f effective_t l_new a in
      elim (dp_epoch_units effective_t l_new k' config'.alpha a self.sampler self.rng) [
        | none ↦ none
        | some (units, rng') ↦ some (record self {
          total_resizes = self.total_resizes + 1;
          config = config';
          k = k';
          t_hat_units = units;
          rng = rng';
        })
      ]

  -- The state that `configure_auto_resize` of a tree with the given height puts in place.
  unfoldable pub configured :
      ℕ → ℕ → ℕ → AutoResizeConfig F → Bool → Bool → Option (AutoResizeState F R)
  unfolding leaf_count effective_t_capacity dp_initial_k CtDiscreteLaplace_new dp_epoch_units
  configured z a height cfg defer_checks emits_grow_signal =
      let l = leaf_count height in
      let effective_t = effective_t_capacity z cfg.t_capacity in
      let k = dp_initial_k f effective_t l a in
      elim (CtDiscreteLaplace_new f cfg.eps) [
        | none ↦ none
        | some sampler ↦
            elim (dp_epoch_units effective_t l k cfg.alpha a sampler (r.seed_from_u64 cfg.seed)) [
              | none ↦ none
              | some (units, rng) ↦ some (record {
                config = cfg;
                k = k;
                t_hat_units = units;
                evictions_since_check = 0;
                c_sum = 0;
                total_resizes = 0;
                deferred = defer_checks;
                emits_grow_signal = emits_grow_signal;
                pending_grow = none;
                sampler = sampler;
                rng = rng;
              })
            ]
      ]
