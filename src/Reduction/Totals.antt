-- ===== src/Reduction/Totals.antt =====
-- The totals and epochs of each key before and after the reduction of reduction.rs.
use roga.Base.{
  ℕ, ◌≡◌, refl, ap, ◌∙◌, arith, Bool, true, false, ◌&&◌, List, [], ◌∷◌, Bool-cases, inl, inr, min,
  Option, none, some,
}
use roga.External.{ScalarCmov, OramValue}
use roga.Ct.Bytes.{bytes_eq, bytes_eq→eq}
use roga.Block.{OramBlock}
use roga.Block.Laws.{AreBlocks, is_live}
use roga.Reduction.{block_reducible, reduce_equal_runs_with_accumulator}
use roga.Reduction.Runs.{
  same_run, dummied, joined, merge_from, merge_runs, reduce_equal_runs_with_accumulator_lem,
}

parts : (a b c : Bool) → (a && b && c) ≡ true → (a ≡ true) × (b ≡ true) × (c ≡ true)
parts true true true h = (refl, refl, refl)
parts true true false h = cc
parts true false c h = cc
parts false b c h = cc

-- A measure put before those that follow, if it counts.
abbrev pub included : {A : Type 0} → (A → A → A) → Bool → A → Option A → Option A
included op false m later = later
included op true m none = some m
included op true m (some n) = some (op m n)

module _ {V : Type 0} where
  -- A real block of the key.
  abbrev pub holds : List ℕ → OramBlock V → Bool
  holds key b = bytes_eq b.payload key && is_live b

  -- The measures of the blocks of a key, combined in their order; `none` if there is no such block.
  unfoldable pub gathered :
      {A : Type 0} → (OramBlock V → A) → (A → A → A) → List ℕ → List (OramBlock V) → Option A
  gathered measure op key [] = none
  gathered measure op key (b ∷ bs) =
      included op (holds key b) (measure b) (gathered measure op key bs)

  pub dead_dummied : (key : List ℕ) (b : OramBlock V) → holds key (dummied b) ≡ false
  dead_dummied key b = elim (Bool-cases (bytes_eq b.payload key)) [ inl e ↦ rw e | inr e ↦ rw e ]

  same_run_lem :
      (prev cur : OramBlock V)
      → same_run prev cur ≡ true
      → (cur.payload ≡ prev.payload) × (is_live cur ≡ true) × (is_live prev ≡ true)
  same_run_lem prev cur h =
      let (e, f, g) = parts (bytes_eq cur.payload prev.payload) (is_live cur) (is_live prev) h in
      (bytes_eq→eq cur.payload prev.payload e, f, g)

  pub holds_same :
      (key : List ℕ) (prev cur : OramBlock V)
      → same_run prev cur ≡ true
      → holds key prev ≡ holds key cur
  holds_same key prev cur h = let (e, f, g) = same_run_lem prev cur h in rw (e, f, g)

  module _ {A : Type 0} (combine : V → V → V) (measure : OramBlock V → A) (op : A → A → A)
      (assoc : (a b c : A) → op (op a b) c ≡ op a (op b c))
      (homo : (a b : OramBlock V) → measure (joined combine a b) ≡ op (measure a) (measure b)) where
    included-join :
        (c : Bool) (a b : A) (o : Option A)
        → included op c (op a b) o ≡ included op c a (included op c b o)
    included-join false a b o = refl
    included-join true a b none = refl
    included-join true a b (some n) = ap some (assoc a b n)

    gathered_step :
        (key : List ℕ) (b : OramBlock V) (bs : List (OramBlock V))
        → gathered measure op key (b ∷ bs)
          ≡ included op (holds key b) (measure b) (gathered measure op key bs)
    unfolding gathered
    gathered_step key b bs = refl

    gathered-merge_from :
        (key : List ℕ) (prev : OramBlock V) (rest : List (OramBlock V))
        → gathered measure op key (merge_from combine prev rest)
          ≡ gathered measure op key (prev ∷ rest)
    unfolding merge_from
    gathered-merge_from key prev [] = refl
    gathered-merge_from key prev (cur ∷ rest) = elim (Bool-cases (same_run prev cur)) [
      | inl e ↦
          let next = joined combine prev cur in
          let same : holds key prev ≡ holds key cur = holds_same key prev cur e in
          rw
            (
              e,
              gathered_step key (dummied prev) (merge_from combine next rest),
              dead_dummied key prev,
              gathered_step key prev (cur ∷ rest),
              gathered_step key cur rest,
              same,
            )
            (gathered-merge_from key next rest
              ∙ gathered_step key next rest
              ∙ ap (λ m. included op (holds key cur) m (gathered measure op key rest))
                  (homo prev cur)
              ∙ included-join (holds key cur) (measure prev) (measure cur)
                  (gathered measure op key rest))
      | inr e ↦ rw (
        e,
        gathered_step key prev (merge_from combine cur rest),
        gathered-merge_from key cur rest,
        gathered_step key prev (cur ∷ rest),
      )
    ]

    pub gathered-merge_runs :
        (key : List ℕ) (blocks : List (OramBlock V))
        → gathered measure op key (merge_runs combine blocks) ≡ gathered measure op key blocks
    unfolding merge_runs
    gathered-merge_runs key [] = refl
    gathered-merge_runs key (first ∷ rest) = gathered-merge_from key first rest

module _ {V : Type 0} ⦃w : ScalarCmov ℕ⦄ ⦃v : OramValue V⦄ where
  -- For each key the reduction keeps the combination of the values of the key's real blocks, in
  -- their order, and the least of their epochs, if the way to combine values is associative and the
  -- fields of the blocks fit their types. No order of the blocks is assumed.
  pub reduce_equal_runs-totals :
      (k : ℕ) (combine : V → V → V) (key : List ℕ) (blocks : List (OramBlock V))
      → ((a b c : V) → combine (combine a b) c ≡ combine a (combine b c))
      → AreBlocks k blocks
      → let after = reduce_equal_runs_with_accumulator (block_reducible k) combine blocks in
        (gathered (λ b. b.value) combine key after ≡ gathered (λ b. b.value) combine key blocks)
        × (gathered (λ b. b.epoch) min key after ≡ gathered (λ b. b.epoch) min key blocks)
  reduce_equal_runs-totals k combine key blocks assoc h =
      rw (reduce_equal_runs_with_accumulator_lem k combine blocks h) (
        gathered-merge_runs combine (λ b. b.value) combine assoc (λ a b. refl) key blocks,
        gathered-merge_runs combine (λ b. b.epoch) min (λ a b c. omega arith) (λ a b. refl) key
            blocks,
      )
