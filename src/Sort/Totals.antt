-- ===== src/Sort/Totals.antt =====
-- `sort_reduce` of compaction.rs and `merge_accumulate_for_path` of stash.rs keep what each key adds up to.
use mathlib.Core.List.Permᴰ
use mathlib.Core.List.Permᴰ.{Permᴰ}
use roga.Base.{
  ℕ, suc, ◌≡◌, refl, sym, ap, subst, ◌∙◌, arith, List, [], ◌∷◌, some, map, length, length-map,
  Bool-cases, inl, inr,
}
use roga.External.{ScalarCmov, OramValue}
use roga.Ct.{word_cmov}
use roga.Block.{OramBlock, oram_block_cmov}
use roga.Block.Laws.{IsBlock, AreBlocks}
use roga.Block.Arrays.{AreBlocks-Permᴰ}
use roga.Reduction.{block_reducible, reduce_equal_runs}
use roga.Reduction.Runs.{
  same_run, joined, dummied, merge_from, merge_runs, joined-IsBlock,
  reduce_equal_runs_with_accumulator_lem,
}
use roga.Reduction.Totals.{gathered, reduce_equal_runs-totals}
use roga.Reduction.Order.{gathered-Permᴰ}
use roga.Routing.{ct_depth, path_rank_key}
use roga.Stash.{ObliviousStash}
use roga.Sort.Pairs.{zip, sort_with_payload-Permᴰ}
use roga.Sort.Reduce.{sort_reduce, merge_accumulate_for_path}

zip_second :
    {A B : Type 0} (xs : List A) (ys : List B)
    → length xs ≡ length ys
    → map (λ p. p.1) (zip xs ys) ≡ ys
zip_second [] [] e = refl
zip_second [] (y ∷ ys) e = absurd (omega arith)
zip_second (x ∷ xs) [] e = absurd (omega arith)
zip_second (x ∷ xs) (y ∷ ys) e = ap (◌∷◌ y) (zip_second xs ys (omega arith))

-- Where pairs are rearranged, so are their second entries.
second-Permᴰ :
    {A B : Type 0} (xs xs' : List A) (ys ys' : List B)
    → length xs ≡ length ys
    → length xs' ≡ length ys'
    → Permᴰ (zip xs' ys') (zip xs ys)
    → Permᴰ ys' ys
second-Permᴰ {B = B} xs xs' ys ys' e e' perm =
    subst (λ zs. Permᴰ zs ys) (zip_second xs' ys' e')
      (subst (λ zs. Permᴰ (map (λ p. p.1) (zip xs' ys')) zs) (zip_second xs ys e)
        (Permᴰ.map (λ p. p.1) perm))

module _ {V : Type 0} (combine : V → V → V) (k : ℕ) where
  merge_from-AreBlocks :
      (prev : OramBlock V) (rest : List (OramBlock V))
      → IsBlock k prev
      → AreBlocks k rest
      → AreBlocks k (merge_from combine prev rest)
        × (length (merge_from combine prev rest) ≡ suc (length rest))
  unfolding merge_from
  merge_from-AreBlocks prev [] p h = ((p, tt), refl)
  merge_from-AreBlocks prev (cur ∷ rest) p (q, qs) = elim (Bool-cases (same_run prev cur)) [
    | inl e ↦
        let (blocks, size) =
          merge_from-AreBlocks (joined combine prev cur) rest
            (joined-IsBlock combine k prev cur p q) qs in
        rw e ((dummied-IsBlock prev p, blocks), ap suc size)
    | inr e ↦
        let (blocks, size) = merge_from-AreBlocks cur rest q qs in rw e ((p, blocks), ap suc size)
  ]
    where
      dummied-IsBlock : (b : OramBlock V) → IsBlock k b → IsBlock k (dummied b)
      dummied-IsBlock b h = record {
        tag_fits = omega arith;
        epoch_fits = h.epoch_fits;
        bytes = h.bytes;
        key_length = h.key_length;
      }

  pub merge_runs-AreBlocks :
      (blocks : List (OramBlock V))
      → AreBlocks k blocks
      → AreBlocks k (merge_runs combine blocks)
        × (length (merge_runs combine blocks) ≡ length blocks)
  unfolding merge_runs
  merge_runs-AreBlocks [] h = (tt, refl)
  merge_runs-AreBlocks (first ∷ rest) (p, ps) = merge_from-AreBlocks first rest p ps

module _ {V : Type 0} ⦃w : ScalarCmov ℕ⦄ ⦃p : ScalarCmov (List ℕ)⦄ ⦃v : OramValue V⦄ (k : ℕ)
    (comm : (a b : V) → v.add a b ≡ v.add b a)
    (assoc : (a b c : V) → v.add (v.add a b) c ≡ v.add a (v.add b c)) where
  -- The blocks of a result have the same totals as those of an array, and are as many.
  abbrev pub Keeps : List (OramBlock V) → List (OramBlock V) → Type 0
  Keeps blocks blocks' =
      AreBlocks k blocks'
      × (length blocks' ≡ length blocks)
      × ((key : List ℕ)
          → gathered (λ b. b.value) v.add key blocks' ≡ gathered (λ b. b.value) v.add key blocks)

  sort_reduce-Keeps :
      (blocks : List (OramBlock V)) (key_of : OramBlock V → ℕ)
      → AreBlocks k blocks
      → (blocks' : List (OramBlock V)) × (keys : List ℕ) × (sort_reduce
            (block_reducible k)
            blocks
            key_of
          ≡ some (blocks', keys))
        × Keeps blocks blocks'
  unfolding sort_reduce reduce_equal_runs
  sort_reduce-Keeps blocks key_of h =
      let (keys', sorted, eq, keys_length, sorted_length, perm) =
        sort_with_payload-Permᴰ (map key_of blocks) blocks (length-map blocks key_of) in
      let rearranged : Permᴰ sorted blocks =
        second-Permᴰ (map key_of blocks) keys' blocks sorted (length-map blocks key_of)
          (keys_length ∙ (length-map blocks key_of ∙ sym sorted_length)) perm in
      let fit = AreBlocks-Permᴰ k (Permᴰ.symm rearranged) h in
      let merged = merge_runs-AreBlocks v.add k sorted fit in
      let reduced = reduce_equal_runs_with_accumulator_lem k v.add sorted fit in
      (
        _,
        keys',
        rw (eq, sort_reduce) refl,
        (
          rw reduced merged.0,
          rw reduced (merged.1 ∙ sorted_length),
          λ key.
              (reduce_equal_runs-totals k v.add key sorted assoc fit).0
              ∙ gathered-Permᴰ (λ b. b.value) v.add comm assoc key rearranged,
        ),
      )

  pub merge_accumulate_for_path-Keeps :
      (self : ObliviousStash V) (position : ℕ)
      → AreBlocks k self.blocks
      → (blocks' : List (OramBlock V)) × (keys : List ℕ) × (merge_accumulate_for_path k self
            position
          ≡ some (record {
            blocks = blocks';
            path_size = self.path_size;
            sort_keys = keys;
            insert_scratch = self.insert_scratch;
            compact_marks_buf = self.compact_marks_buf;
            distribute_marks = self.distribute_marks;
          }))
        × Keeps self.blocks blocks'
  unfolding merge_accumulate_for_path
  merge_accumulate_for_path-Keeps self position h =
      let (blocks', keys, eq, kept) =
        sort_reduce-Keeps self.blocks (λ b. path_rank_key b.tag position (ct_depth position)) h in
      (blocks', keys, rw (eq, merge_accumulate_for_path) refl, kept)
