-- ===== src/Reduction/Counts.antt =====
-- The number of real blocks of a key after the reduction of reduction.rs.
use roga.Base.{
  ℕ, ◌+◌, ◌≡◌, refl, sym, ap, ◌∙◌, arith, Bool, true, false, not, ◌&&◌, List, [], ◌∷◌, to_bit,
  Bool-cases, inl, inr,
}
use roga.External.{ScalarCmov, OramValue}
use roga.Block.{OramBlock}
use roga.Block.Laws.{AreBlocks, is_live}
use roga.Ct.Bytes.{bytes_eq, bytes_eq_self, bytes_eq→eq}
use roga.Reduction.{block_reducible, reduce_equal_runs_with_accumulator}
use roga.Reduction.Runs.{
  same_run, dummied, joined, merge_from, merge_runs, reduce_equal_runs_with_accumulator_lem,
}
use roga.Reduction.Totals.{holds, dead_dummied, holds_same}

true-ne-false : true ≡ false → ⊥
true-ne-false h = cc

both : (a b : Bool) → (a && b) ≡ true → (a ≡ true) × (b ≡ true)
both true true h = (refl, refl)
both true false h = cc
both false b h = cc

and_not_self : (b : Bool) → (b && not b) ≡ false
and_not_self true = refl
and_not_self false = refl

module _ {V : Type 0} where
  -- The real blocks of a key.
  unfoldable pub count_live : List ℕ → List (OramBlock V) → ℕ
  count_live key [] = 0
  count_live key (b ∷ bs) = to_bit (holds key b) + count_live key bs

  -- The runs of a key: its real blocks that no real block of the key follows at once.
  unfoldable pub count_runs : List ℕ → List (OramBlock V) → ℕ
  count_runs key [] = 0
  count_runs key (b ∷ []) = to_bit (holds key b)
  count_runs key (b ∷ c ∷ bs) = to_bit (holds key b && not (holds key c)) + count_runs key (c ∷ bs)

  count_step :
      (key : List ℕ) (b : OramBlock V) (bs : List (OramBlock V))
      → count_live key (b ∷ bs) ≡ to_bit (holds key b) + count_live key bs
  unfolding count_live
  count_step key b bs = refl

  runs_step :
      (key : List ℕ) (b c : OramBlock V) (bs : List (OramBlock V))
      → count_runs key (b ∷ c ∷ bs)
        ≡ to_bit (holds key b && not (holds key c)) + count_runs key (c ∷ bs)
  unfolding count_runs
  runs_step key b c bs = refl

  -- The first block's key and tag are all that counts.
  runs_head :
      (key : List ℕ) (a b : OramBlock V) (bs : List (OramBlock V))
      → holds key a ≡ holds key b
      → count_runs key (a ∷ bs) ≡ count_runs key (b ∷ bs)
  unfolding count_runs
  runs_head key a b [] h = ap to_bit h
  runs_head key a b (c ∷ bs) h =
      ap (λ t. to_bit (t && not (holds key c)) + count_runs key (c ∷ bs)) h

  -- Two blocks of the key side by side are of one run.
  apart_holds :
      (key : List ℕ) (a b : OramBlock V)
      → same_run a b ≡ false
      → (holds key a && not (holds key b)) ≡ holds key a
  apart_holds key a b h = elim (Bool-cases (holds key a)) [
    | inr e ↦ rw e
    | inl e ↦ elim (Bool-cases (holds key b)) [
      | inr f ↦ rw (e, f)
      | inl f ↦
          let (ka, la) = both (bytes_eq a.payload key) (is_live a) e in
          let (kb, lb) = both (bytes_eq b.payload key) (is_live b) f in
          let one_key : b.payload ≡ a.payload =
            bytes_eq→eq b.payload key kb ∙ sym (bytes_eq→eq a.payload key ka) in
          let equal : bytes_eq b.payload a.payload ≡ true = rw one_key (bytes_eq_self a.payload) in
          let run : same_run a b ≡ true = rw (equal, la, lb) in absurd (true-ne-false (sym run ∙ h))
    ]
  ]

  count-merge_from :
      (combine : V → V → V) (key : List ℕ) (prev : OramBlock V) (rest : List (OramBlock V))
      → count_live key (merge_from combine prev rest) ≡ count_runs key (prev ∷ rest)
  unfolding merge_from
  count-merge_from combine key prev [] = unfold count_live count_runs in omega arith
  count-merge_from combine key prev (cur ∷ rest) = elim (Bool-cases (same_run prev cur)) [
    | inl e ↦
        let next = joined combine prev cur in
        let same : holds key prev ≡ holds key cur = holds_same key prev cur e in
        rw (
          e,
          count_step key (dummied prev) (merge_from combine next rest),
          dead_dummied key prev,
          runs_step key prev cur rest,
          same,
          and_not_self (holds key cur),
          count-merge_from combine key next rest,
          runs_head key next cur rest refl,
        )
    | inr e ↦ rw (
      e,
      count_step key prev (merge_from combine cur rest),
      count-merge_from combine key cur rest,
      runs_step key prev cur rest,
      apart_holds key prev cur e,
    )
  ]

  count-merge_runs :
      (combine : V → V → V) (key : List ℕ) (blocks : List (OramBlock V))
      → count_live key (merge_runs combine blocks) ≡ count_runs key blocks
  unfolding merge_runs
  count-merge_runs combine key [] = unfold count_live count_runs in refl
  count-merge_runs combine key (first ∷ rest) = count-merge_from combine key first rest

module _ {V : Type 0} ⦃w : ScalarCmov ℕ⦄ ⦃v : OramValue V⦄ where
  -- For each key the reduction leaves as many real blocks as the key had runs, so one where the real
  -- blocks of the key stood side by side, if the fields of the blocks fit their types.
  pub reduce_equal_runs-count :
      (k : ℕ) (combine : V → V → V) (key : List ℕ) (blocks : List (OramBlock V))
      → AreBlocks k blocks
      → count_live key (reduce_equal_runs_with_accumulator (block_reducible k) combine blocks)
        ≡ count_runs key blocks
  reduce_equal_runs-count k combine key blocks h =
      rw (reduce_equal_runs_with_accumulator_lem k combine blocks h)
        (count-merge_runs combine key blocks)
