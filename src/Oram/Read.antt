-- ===== src/Oram/Read.antt =====
-- `read_prepared_total` of ops.rs keeps the totals of the keys that it does not read.
use roga.Base.{
  ℕ, ◌≡◌, refl, ap, ◌∙◌, arith, false, ◌⊎◌, inl, inr, List, ◌>>=◌, Option, none, some, length,
}
use roga.External.{ScalarCmov, CmovEq, OramValue, Float, Rng}
use roga.Ct.Bytes.{AreBytes, bytes_eq}
use roga.Block.{OramBlock}
use roga.Routing.{to_leaf}
use roga.Routing.Leaves.{address_to_leaf_bounds}
use roga.Sort.Reduce.{merge_accumulate_for_path}
use roga.Sort.Totals.{merge_accumulate_for_path-Keeps}
use roga.Stash.{ObliviousStash, read_from_path, read_and_remove, with_blocks}
use roga.Stash.Remove.{read_and_remove-gathered, read_and_remove-AreBlocks}
use roga.Stash.Eviction.{write_to_path}
use roga.Stash.Exchange.{write_to_path_lem}
use roga.Oram.{Params, ObliviousHistogram, update_peak_overflow}
use roga.Oram.Ops.{read_prepared_total}
use roga.Oram.Round.{IsTree, total, round-IsTree, round-total}
use roga.Oram.Totals.{IsOverfull, all_blocks, loaded-AreBlocks, length-loaded, read_lem}
use roga.Oram.Eviction.{peak_lem}

module _ {V F R : Type 0} ⦃w : ScalarCmov ℕ⦄ ⦃p : ScalarCmov (List ℕ)⦄ ⦃v : OramValue V⦄
    ⦃e : CmovEq ℕ⦄ (f : Float F) (r : Rng R) (c : Params) (comm : (a b : V) → v.add a b ≡ v.add b a)
    (assoc : (a b c : V) → v.add (v.add a b) c ≡ v.add a (v.add b c))
    (self : ObliviousHistogram V F R) (tag : ℕ) (payload : List ℕ) where
  -- The value that is read out of a stash, and the stash without the key.
  abbrev taken : ObliviousStash V → V × List ℕ × ObliviousStash V
  taken worked = read_and_remove c.k worked payload

  abbrev leaf : ℕ
  leaf = to_leaf tag self.height

  read_steps :
      (stash worked : ObliviousStash V)
      → read_from_path c.z self.stash self.physical_memory leaf ≡ some stash
      → merge_accumulate_for_path c.k stash leaf ≡ some worked
      → read_prepared_total f r c self tag payload ≡ (
          write_to_path c.z c.k (taken worked).2 self.physical_memory leaf >>= λ out. some (
            (taken worked).0,
            update_peak_overflow (record self { stash = out.0; physical_memory = out.1 }),
          ))
  unfolding read_prepared_total
  read_steps stash worked read merged = rw read (rw merged refl)

  -- The merged stash that the value is read out of.
  abbrev pub IsMerged : ObliviousStash V → Type 0
  IsMerged worked =
      (stash : ObliviousStash V) × (read_from_path c.z self.stash self.physical_memory leaf
        ≡ some stash)
      × (merge_accumulate_for_path c.k stash leaf ≡ some worked)

  -- A panic, since the stash is overfull without the key, or the value and a tree in which any other
  -- key has what it had.
  abbrev pub IsRead : Option (V × ObliviousHistogram V F R) → Type 0
  IsRead result =
      (worked : ObliviousStash V) × IsMerged worked
      × ((IsOverfull f r c comm assoc self (taken worked).2 leaf × (result ≡ none))
          ⊎ ((self' : ObliviousHistogram V F R) × (result ≡ some ((taken worked).0, self'))
              × IsTree c self'
              × ((other : List ℕ)
                  → bytes_eq other payload ≡ false
                  → total other self' ≡ total other self)))

  -- A read on a well-formed tree, of any tag and of a key of `k` bytes, returns what
  -- `read_and_remove` takes out of the merged stash, and a well-formed tree in which the real blocks
  -- of each other key add up to what they did before; or it panics if the merged stash without the
  -- key has as many real blocks without a place on the path as overflow slots or more. The addition
  -- of values is associative and commutative.
  pub read_prepared_total-total :
      IsTree c self
      → AreBytes payload
      → length payload ≡ c.k
      → IsRead (read_prepared_total f r c self tag payload)
  unfolding with_blocks to_leaf
  read_prepared_total-total tree kb kl =
      let (from, to) = address_to_leaf_bounds tag self.height tree.height_fits in
      let all = all_blocks f r c comm assoc self tree leaf from to in
      let stash = with_blocks self.stash all in
      let (blocks, keys, merged, (fits, size, kept)) =
        merge_accumulate_for_path-Keeps c.k comm assoc stash leaf
          (loaded-AreBlocks f r c comm assoc self tree leaf from to) in
      let worked : ObliviousStash V = record {
        blocks = blocks;
        path_size = self.stash.path_size;
        sort_keys = keys;
        insert_scratch = self.stash.insert_scratch;
        compact_marks_buf = self.stash.compact_marks_buf;
        distribute_marks = self.stash.distribute_marks;
      } in
      let (fits', size', path) = read_and_remove-AreBlocks c.k payload worked kb kl fits in
      let same : length (taken worked).2.blocks ≡ length self.stash.blocks =
        size' ∙ (size ∙ length-loaded f r c comm assoc self tree leaf from to) in
      let room = tree.room in
      let read = read_lem f r c comm assoc self tree leaf from to in
      let steps = read_steps stash worked read merged in
      let finished : Option (ObliviousStash V × List (OramBlock V))
          → Option (V × ObliviousHistogram V F R) =
        λ o. o >>= λ out. some (
          (taken worked).0,
          update_peak_overflow (record self { stash = out.0; physical_memory = out.1 }),
        ) in
      (
        worked,
        (stash, read, merged),
        elim (write_to_path_lem c.z c.k leaf self.height tree.bucket_size tree.height_fits from to
            self.physical_memory tree.memory_length (taken worked).2 (path ∙ tree.path_length)
            (omega arith)) [
              | inl (over, panic) ↦ inl (over, steps ∙ ap finished panic)
              | inr (stash', memory', eq, written) ↦
                  let done : ObliviousHistogram V F R = record self {
                    stash = stash';
                    physical_memory = memory';
                  } in
                  let peak = peak_lem c done in
                  inr (
                    update_peak_overflow done,
                    steps ∙ ap finished eq,
                    peak.0 (
                        round-IsTree comm assoc c self tree leaf from to (taken worked).2 stash'
                          memory' path same written fits'),
                    λ other ne.
                        peak.1 other
                        ∙ round-total comm assoc c self tree leaf from to (taken worked).2 stash'
                            memory' path same written other
                            ((read_and_remove-gathered (λ b. b.value) v.add c.k payload other worked
                                kb kl fits ne).1
                              ∙ kept other),
                  )
            ],
      )
