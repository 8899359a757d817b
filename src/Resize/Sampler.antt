-- ===== src/Resize/Sampler.antt =====
-- The sampler of resize.rs against its plain description: two runs of successes, one after the other.
use roga.Base.{
  ℕ, zero, suc, ◌+◌, ◌/◌, ◌%◌, ◌^◌, ◌≤◌, ◌<◌, ◌≡◌, refl, ap, arith, ltb, to_bit, if◌then◌else◌,
  Bool-cases, inl, inr, pos, ◌-ℤ◌, as_i64, wrapping_sub_i64, ◌∙◌,
}
use native.Mathlib.Nat.{zero-add}
use roga.Ct.{ct_lt}
use roga.Ct.Compare.{ct_lt_lem}
use roga.Resize.{CtDiscreteLaplace, geometric_loop, geometric_with, sample_with}

as_i64-pos : (n : ℕ) → n < 2 ^ 63 → as_i64 n ≡ pos n
as_i64-pos n h = ground arith

wrapping_sub_i64-pos :
    (a b : ℕ) → a < 2 ^ 63 → b < 2 ^ 63 → wrapping_sub_i64 (pos a) (pos b) ≡ pos a -ℤ pos b
unfolding wrapping_sub_i64
wrapping_sub_i64-pos a b p q = ground arith

module _ {R : Type 0} (next_word : R → ℕ × R) where
  -- The generator after some draws.
  abbrev pub advance : ℕ → R → R
  advance zero rng = rng
  advance (suc n) rng = advance n (next_word rng).1

  -- Of some draws, how many come before the first that is not below the cutoff.
  abbrev pub run_length : ℕ → ℕ → R → ℕ
  run_length cutoff zero rng = 0
  run_length cutoff (suc n) rng =
      let rest = run_length cutoff n (next_word rng).1 in
      if ltb ((next_word rng).0 / 2 ^ 16) cutoff then suc rest else 0

  pub run_length-le : (cutoff n : ℕ) (rng : R) → run_length cutoff n rng ≤ n
  run_length-le cutoff zero rng = omega arith
  run_length-le cutoff (suc n) rng = ground (arith, run_length-le cutoff n (next_word rng).1)

  advance-add : (m n : ℕ) (rng : R) → advance (m + n) rng ≡ advance n (advance m rng)
  advance-add zero n rng = rw zero-add
  advance-add (suc m) n rng =
      ap (λ k. advance k rng) (let e : suc m + n ≡ suc (m + n) = omega arith in e)
      ∙ advance-add m n (next_word rng).1

  module _ (words : (rng : R) → (next_word rng).0 < 2 ^ 64) (cutoff : ℕ)
      (fits : cutoff < 2 ^ 64) where
    draw_below :
        (rng : R)
        → ct_lt ((next_word rng).0 / 2 ^ 16) cutoff
          ≡ to_bit (ltb ((next_word rng).0 / 2 ^ 16) cutoff)
    draw_below rng = ct_lt_lem _ _ (omega (arith, words rng)) fits

    inactive_loop :
        (rounds magnitude : ℕ) (rng : R)
        → magnitude < 2 ^ 64
        → geometric_loop next_word cutoff rounds 0 magnitude rng ≡ (magnitude, advance rounds rng)
    unfolding geometric_loop
    inactive_loop zero magnitude rng h = refl
    inactive_loop (suc rounds) magnitude rng h =
        let e : (magnitude + 0) % 2 ^ 64 ≡ magnitude = omega arith in
        elim (Bool-cases (ltb ((next_word rng).0 / 2 ^ 16) cutoff)) [
          | inl below ↦ rw (draw_below rng, below, e) (inactive_loop rounds magnitude _ h)
          | inr above ↦ rw (draw_below rng, above, e) (inactive_loop rounds magnitude _ h)
        ]

    active_loop :
        (rounds magnitude : ℕ) (rng : R)
        → magnitude + rounds < 2 ^ 64
        → geometric_loop next_word cutoff rounds 1 magnitude rng
          ≡ (magnitude + run_length cutoff rounds rng, advance rounds rng)
    unfolding geometric_loop
    active_loop zero magnitude rng h = ground arith
    active_loop (suc rounds) magnitude rng h =
        let e : (magnitude + 1) % 2 ^ 64 ≡ magnitude + 1 = omega arith in
        let e₀ : (magnitude + 0) % 2 ^ 64 ≡ magnitude = omega arith in
        elim (Bool-cases (ltb ((next_word rng).0 / 2 ^ 16) cutoff)) [
          | inl below ↦
              rw (draw_below rng, below, e)
                (active_loop rounds (magnitude + 1) _ (omega arith)
                  ∙ ap (λ m. (m, advance rounds (next_word rng).1)) (omega arith))
          | inr above ↦
              rw (draw_below rng, above, e₀)
                (inactive_loop rounds magnitude _ (omega arith)
                  ∙ ap (λ m. (m, advance rounds (next_word rng).1)) (omega arith))
        ]

  module _ (self : CtDiscreteLaplace) (words : (rng : R) → (next_word rng).0 < 2 ^ 64)
      (cutoff_fits : self.failure_cutoff < 2 ^ 64) (trials_fit : self.trials < 2 ^ 63) where
    geometric_with_lem :
        (rng : R)
        → geometric_with self next_word rng
          ≡ (pos (run_length self.failure_cutoff self.trials rng), advance self.trials rng)
    unfolding geometric_with
    geometric_with_lem rng =
        let e : 0 + run_length self.failure_cutoff self.trials rng
            ≡ run_length self.failure_cutoff self.trials rng =
          omega arith in
        rw (active_loop words self.failure_cutoff cutoff_fits self.trials 0 rng (omega arith), e)
          (ap (λ m. (m, advance self.trials rng))
            (as_i64-pos _ (omega (arith, run_length-le self.failure_cutoff self.trials rng))))

    sample_with-geometric_with :
        (rng : R)
        → sample_with self next_word rng ≡ (
          wrapping_sub_i64
              (geometric_with self next_word rng).0
              (geometric_with self next_word (geometric_with self next_word rng).1).0,
          (geometric_with self next_word (geometric_with self next_word rng).1).1,
        )
    unfolding sample_with
    sample_with-geometric_with rng = refl

    -- The branch-free sampler returns the difference of two numbers of successes before the first
    -- failure, each of them in `trials` draws of its own and at most `trials`, and has made twice
    -- `trials` draws whatever they are, if the generator's words are 64-bit words, the cutoff is one
    -- too, and `trials` is less than 2 ^ 63.
    pub sample_with_lem :
        (rng : R)
        → (sample_with self next_word rng ≡ (
          pos (run_length self.failure_cutoff self.trials rng)
              -ℤ pos (run_length self.failure_cutoff self.trials (advance self.trials rng)),
          advance (self.trials + self.trials) rng,
        ))
          × (run_length self.failure_cutoff self.trials rng ≤ self.trials)
          × (run_length self.failure_cutoff self.trials (advance self.trials rng) ≤ self.trials)
    sample_with_lem rng = (
      rw (
        sample_with-geometric_with rng,
        geometric_with_lem rng,
        geometric_with_lem (advance self.trials rng),
        advance-add self.trials self.trials rng,
        wrapping_sub_i64-pos (run_length self.failure_cutoff self.trials rng)
            (run_length self.failure_cutoff self.trials (advance self.trials rng))
            (omega (arith, run_length-le self.failure_cutoff self.trials rng))
            (omega
              (arith, run_length-le self.failure_cutoff self.trials (advance self.trials rng))),
      ),
      run_length-le _ _ _,
      run_length-le _ _ _,
    )
