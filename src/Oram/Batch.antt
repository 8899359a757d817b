-- ===== src/Oram/Batch.antt =====
-- The loop of `append_prepared_masked_batch` of ops.rs: its rounds, and why they end.
use roga.Base.{
  ℕ, zero, suc, ◌+◌, ◌-◌, ◌≤◌, ◌<◌, ◌≡◌, refl, arith, false, some, List, ◌>>=◌, ltb, ◌==◌,
  if◌then◌else◌, Bool-cases, inl, inr, Option-cases, ltb→lt,
}
use roga.External.{ScalarCmov, CmovEq, OramValue, Float, Rng}
use roga.Oram.{Params, ObliviousHistogram}
use roga.Oram.Ops.{
  current_evict_interval, chunk_len, batch_round, batch_loop, append_prepared_masked_batch,
}

module _ {V F R : Type 0} ⦃w : ScalarCmov ℕ⦄ ⦃p : ScalarCmov (List ℕ)⦄ ⦃v : OramValue V⦄
    ⦃e : CmovEq ℕ⦄ (f : Float F) (r : Rng R) (c : Params) where
  chunk_len_bounds :
      (self : ObliviousHistogram V F R) (offset count : ℕ)
      → offset < count
      → (current_evict_interval f r c self == 0) ≡ false
      → (0 < chunk_len f r c self offset count)
        × (chunk_len f r c self offset count ≤ count - offset)
  unfolding chunk_len
  chunk_len_bounds self offset count h e = grind arith

  -- A round that does not panic takes one update at least, and none behind the last.
  batch_round-progress :
      (self self' : ObliviousHistogram V F R) (offset offset' count : ℕ)
      (update_at : ℕ → ℕ × V × List ℕ × ℕ)
      → offset < count
      → batch_round f r c self offset count update_at ≡ some (self', offset')
      → (offset < offset') × (offset' ≤ count)
  unfolding batch_round
  batch_round-progress self self' offset offset' count update_at h eq =
      ground (arith, chunk_len_bounds self offset count h)

  batch_loop-suc :
      (n : ℕ) (self : ObliviousHistogram V F R) (offset count : ℕ)
      (update_at : ℕ → ℕ × V × List ℕ × ℕ)
      → batch_loop f r c (suc n) self offset count update_at ≡ (
          if ltb offset count
          then (batch_round f r c self offset count update_at >>= λ next.
              batch_loop f r c n next.0 next.1 count update_at)
          else some self)
  unfolding batch_loop
  batch_loop-suc n self offset count update_at = ground arith

  -- With as much fuel as updates are left the loop has ended.
  batch_loop-fuel :
      (m n : ℕ) (self : ObliviousHistogram V F R) (offset count : ℕ)
      (update_at : ℕ → ℕ × V × List ℕ × ℕ)
      → count - offset ≤ m
      → count - offset ≤ n
      → batch_loop f r c m self offset count update_at
        ≡ batch_loop f r c n self offset count update_at
  unfolding batch_loop
  batch_loop-fuel zero zero self offset count update_at h k = refl
  batch_loop-fuel zero (suc n) self offset count update_at h k = ground arith
  batch_loop-fuel (suc m) zero self offset count update_at h k = ground arith
  batch_loop-fuel (suc m) (suc n) self offset count update_at h k =
      rw
        (batch_loop-suc m self offset count update_at, batch_loop-suc n self offset count update_at)
        (elim (Bool-cases (ltb offset count)) [
          | inr done ↦ rw done
          | inl more ↦
              rw more (elim (Option-cases (batch_round f r c self offset count update_at)) [
                | inl panic ↦ rw panic
                | inr ((self', offset'), eq) ↦
                    let made =
                      batch_round-progress self self' offset offset' count update_at
                        (ltb→lt _ _ more) eq in
                    rw eq (
                      batch_loop-fuel m n self' offset' count update_at (omega (arith, made))
                        (omega (arith, made)))
              ])
        ])

  -- The loop over a batch of updates has as many rounds as there are updates at most: more fuel than
  -- the number of updates gives the same result, a panic or a tree.
  pub append_prepared_masked_batch-fuel :
      (self : ObliviousHistogram V F R) (count more : ℕ) (update_at : ℕ → ℕ × V × List ℕ × ℕ)
      → batch_loop f r c (count + more) self 0 count update_at
        ≡ append_prepared_masked_batch f r c self count update_at
  unfolding append_prepared_masked_batch
  append_prepared_masked_batch-fuel self count more update_at =
      batch_loop-fuel (count + more) count self 0 count update_at (omega arith) (omega arith)
