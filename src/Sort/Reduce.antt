-- ===== src/Sort/Reduce.antt =====
-- `sort_reduce` and `sort_reduce_compact` of compaction.rs, and `merge_accumulate_for_path` of stash.rs: the
-- passes that sort by a key first. `none` is the panic of the sort on arrays of different lengths.
use roga.Base.{ℕ, ◌+◌, Option, none, some, List, [], ◌∷◌, map, length}
use roga.External.{ScalarCmov, OramValue}
use roga.Ct.{Cmov, ct_lt, ct_not}
use roga.Reduction.{Reducible, block_reducible, reduce_equal_runs}
use roga.Compaction.{mark, compact_marks, compact_payload}
use roga.Routing.{ct_depth, path_rank_key}
use roga.Block.{oram_block_cmov}
use roga.Ct.{word_cmov}
use roga.Sort.{sort_with_payload}
use roga.Stash.{ObliviousStash}

module _ {V T : Type 0} ⦃w : ScalarCmov ℕ⦄ ⦃v : OramValue V⦄ ⦃m : Cmov T⦄ (r : Reducible V T) where
  -- The blocks and the sort keys.
  unfoldable pub sort_reduce : List T → (T → ℕ) → Option (List T × List ℕ)
  unfolding sort_with_payload reduce_equal_runs
  sort_reduce blocks key_of = elim (sort_with_payload (map key_of blocks) blocks) [
    | none ↦ none
    | some sorted ↦ some (reduce_equal_runs r sorted.1, sorted.0)
  ]

  -- The loop that marks the excess slots, from the index `i` on.
  unfoldable pub mark_excess : ℕ → ℕ → List T → List T
  unfolding ct_lt ct_not
  mark_excess reduced_len i [] = []
  mark_excess reduced_len i (block ∷ blocks) =
      r.conditional_dummy block (ct_not (ct_lt i reduced_len))
      ∷ mark_excess reduced_len (i + 1) blocks

  -- `reduced_len`, the blocks, the sort keys and the marks.
  unfoldable pub sort_reduce_compact :
      List T → List ℕ → (T → ℕ) → Option (ℕ × List T × List ℕ × List ℕ)
  unfolding sort_reduce mark_excess compact_marks compact_payload
  sort_reduce_compact blocks compact_marks_buf key_of = elim (sort_reduce blocks key_of) [
    | none ↦ none
    | some result ↦
        let marks = compact_marks r result.0 compact_marks_buf in
        let reduced_len = mark marks (length blocks) in
        some
          (reduced_len, mark_excess reduced_len 0 (compact_payload result.0 marks), result.1, marks)
  ]

unfoldable pub merge_accumulate_for_path :
    {V : Type 0} ⦃w : ScalarCmov ℕ⦄ ⦃p : ScalarCmov (List ℕ)⦄ ⦃v : OramValue V⦄
    → ℕ
    → ObliviousStash V
    → ℕ
    → Option (ObliviousStash V)
unfolding sort_reduce ct_depth path_rank_key block_reducible
merge_accumulate_for_path k self position =
    let height = ct_depth position in
    elim (sort_reduce (block_reducible k) self.blocks (λ b. path_rank_key b.tag position height)) [
      | none ↦ none
      | some result ↦ some (record {
        blocks = result.0;
        path_size = self.path_size;
        sort_keys = result.1;
        insert_scratch = self.insert_scratch;
        compact_marks_buf = self.compact_marks_buf;
        distribute_marks = self.distribute_marks;
      })
    ]
