-- ===== src/Stash/Prepared.antt =====
-- The pieces of `insert_batch`: the prepared updates, and the blocks behind the real ones, which are
-- cleared.
use roga.Base.{
  ℕ, zero, suc, ◌+◌, ◌^◌, ◌<◌, ◌≤◌, ◌≡◌, refl, ap, arith, Bool, true, false, not, List, [], ◌∷◌,
  ◌++◌, length, take, drop, bit_and, ◌==◌, if◌then◌else◌, to_bit, ltb, Bool-cases, inl, inr, map,
}
use roga.External.{ScalarCmov, OramValue}
use roga.Ct.Compare.{ct_lt_lem, ct_not_lem}
use roga.Block.{OramBlock, dummy, conditional_dummy, block_cmov_lem, oram_block_cmov}
use roga.Block.Laws.{is_live}
use roga.Reduction.Runs.{dummied}
use roga.Compaction.Real.{kept}
use roga.Stash.{prepared, clear_from}

-- A tag, an epoch, a value, a key, and whether the update is real.
abbrev pub Update : Type 0 → Type 0
Update V = ℕ × ℕ × V × List ℕ × ℕ

module _ {V : Type 0} where
  abbrev pub update_block : Update V → OramBlock V
  update_block u = record { tag = u.0; epoch = u.1; value = u.2; payload = u.3 }

  -- The blocks of the real updates.
  unfoldable pub requested : ℕ → ℕ → (ℕ → Update V) → List (OramBlock V)
  requested zero i update_at = []
  requested (suc count) i update_at =
      let later = requested count (i + 1) update_at in
      if bit_and (update_at i).4 1 == 0
      then later
      else if is_live (update_block (update_at i))
      then update_block (update_at i) ∷ later
      else later

  -- The real blocks of a list of two parts.
  pub real-append :
      (xs ys : List (OramBlock V)) → kept is_live (xs ++ ys) ≡ kept is_live xs ++ kept is_live ys
  real-append [] ys = refl
  real-append (x ∷ xs) ys = elim (Bool-cases (is_live x)) [
    | inl e ↦ rw e (ap (λ l. x ∷ l) (real-append xs ys))
    | inr e ↦ rw e (real-append xs ys)
  ]

  pub real-real : (xs : List (OramBlock V)) → kept is_live (kept is_live xs) ≡ kept is_live xs
  real-real [] = refl
  real-real (x ∷ xs) = elim (Bool-cases (is_live x)) [
    | inl e ↦ rw (e, e, real-real xs)
    | inr e ↦ rw e (real-real xs)
  ]

  abbrev pub all_dummied : List (OramBlock V) → List (OramBlock V)
  all_dummied bs = map dummied bs

  pub real-dummied : (n : ℕ) (xs : List (OramBlock V)) → kept is_live (take n (all_dummied xs)) ≡ []
  real-dummied zero xs = refl
  real-dummied (suc n) [] = refl
  real-dummied (suc n) (x ∷ xs) = real-dummied n xs

module _ (V : Type 0) ⦃v : OramValue V⦄ where
  dummy_dead : (k : ℕ) → is_live (dummy {V = V} ⦃v = v⦄ k) ≡ false
  unfolding dummy
  dummy_dead k = refl

module _ {V : Type 0} ⦃w : ScalarCmov ℕ⦄ ⦃p : ScalarCmov (List ℕ)⦄ ⦃v : OramValue V⦄ where
  conditional_dummy_lem :
      (b : OramBlock V) (c : Bool) → conditional_dummy b (to_bit c) ≡ (if c then dummied b else b)
  unfolding conditional_dummy
  conditional_dummy_lem b true = rw (w.cmovnz_lem b.tag 0 1)
  conditional_dummy_lem b false = rw (w.cmovnz_lem b.tag 0 0)

  clear_step :
      (m i : ℕ) (b : OramBlock V) (bs : List (OramBlock V))
      → m < 2 ^ 64
      → i < 2 ^ 64
      → clear_from m i (b ∷ bs) ≡ (if ltb i m then b else dummied b) ∷ clear_from m (i + 1) bs
  unfolding clear_from
  clear_step m i b bs hm hi =
      rw (ct_lt_lem i m hi hm, ct_not_lem (ltb i m), conditional_dummy_lem b (not (ltb i m)))
        (elim (Bool-cases (ltb i m)) [ inl e ↦ rw e | inr e ↦ rw e ])

  clear_end : (m i : ℕ) → clear_from {V = V} m i [] ≡ []
  unfolding clear_from
  clear_end m i = refl

  clear_all :
      (m i : ℕ) (bs : List (OramBlock V))
      → m < 2 ^ 64
      → i + length bs < 2 ^ 64
      → m ≤ i
      → clear_from m i bs ≡ all_dummied bs
  clear_all m i [] hm hi h = clear_end m i
  clear_all m i (b ∷ bs) hm hi h =
      let past : ltb i m ≡ false = ground arith in
      rw (
        clear_step m i b bs hm (omega arith),
        past,
        clear_all m (i + 1) bs hm (omega arith) (omega arith),
      )

  -- The first `n` of the blocks that are left keep their tags.
  pub clear_from_lem :
      (n m i : ℕ) (bs : List (OramBlock V))
      → m < 2 ^ 64
      → i + length bs < 2 ^ 64
      → i + n ≡ m
      → clear_from m i bs ≡ take n bs ++ all_dummied (drop n bs)
  clear_from_lem zero m i bs hm hi e = clear_all m i bs hm hi (omega arith)
  clear_from_lem (suc n) m i [] hm hi e = clear_end m i
  clear_from_lem (suc n) m i (b ∷ bs) hm hi e =
      let before : ltb i m ≡ true = ground arith in
      rw (
        clear_step m i b bs hm (omega arith),
        before,
        clear_from_lem n m (i + 1) bs hm (omega arith) (omega arith),
      )

  prepared_step :
      (k count i : ℕ) (update_at : ℕ → Update V)
      → prepared k (suc count) i update_at
        ≡ (if bit_and (update_at i).4 1 == 0 then dummy k else update_block (update_at i))
          ∷ prepared k count (i + 1) update_at
  unfolding prepared
  prepared_step k count i update_at =
      let u = update_at i in
      rw (block_cmov_lem (dummy k) (update_block u) (not (bit_and u.4 1 == 0)))
        (elim (Bool-cases (bit_and u.4 1 == 0)) [ inl e ↦ rw e | inr e ↦ rw e ])

  pub real-prepared :
      (k count i : ℕ) (update_at : ℕ → Update V)
      → kept is_live (prepared k count i update_at) ≡ requested count i update_at
  unfolding requested
  real-prepared k zero i update_at = unfold prepared in refl
  real-prepared k (suc count) i update_at =
      let u = update_at i in
      rw (prepared_step k count i update_at) (elim (Bool-cases (bit_and u.4 1 == 0)) [
        | inl e ↦ rw (e, dummy_dead V k, real-prepared k count (i + 1) update_at)
        | inr e ↦ rw e (elim (Bool-cases (is_live (update_block u))) [
          | inl f ↦ rw (f, real-prepared k count (i + 1) update_at)
          | inr f ↦ rw (f, real-prepared k count (i + 1) update_at)
        ])
      ])

  pub length-prepared :
      (k count i : ℕ) (update_at : ℕ → Update V) → length (prepared k count i update_at) ≡ count
  length-prepared k zero i update_at = unfold prepared in refl
  length-prepared k (suc count) i update_at =
      rw (prepared_step k count i update_at) (ap suc (length-prepared k count (i + 1) update_at))
