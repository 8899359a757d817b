-- ===== src/Oram/Eviction.antt =====
-- `evict_after_insert` of ops.rs on a tree that does not resize itself keeps the totals of all keys.
use roga.Base.{
  ℕ, ◌+◌, ◌-◌, ◌*◌, ◌^◌, ◌<◌, ◌≤◌, ◌≡◌, refl, sym, ap, ◌∙◌, arith, Bool, true, false, Bool-cases,
  inl, inr, List, ◌++◌, ◌>>=◌, Option, none, some, length, take, drop, replicate, resize, leb, ltb,
  if◌then◌else◌, bit_xor, two_pow-add, length-append, length-take, length-replicate,
}
use native.Mathlib.Nat.{one-le-pow}
use roga.External.{ScalarCmov, CmovEq, OramValue, Float, Rng}
use roga.Ct.Bytes.{bit_xor-lt}
use roga.Block.{OramBlock, dummy}
use roga.Histogram
use roga.Histogram.Evictions.{next_evict_leaf-distinct}
use roga.Sort.Reduce.{merge_accumulate_for_path}
use roga.Stash.Eviction.{write_to_path}
use roga.Stash.{occupancy, read_from_path, ObliviousStash, read_sibling_bucket, with_blocks}
use roga.Stash.Buckets.{copy_slice-some}
use roga.Stash.Paths.{bucket_before}
use roga.Oram.{
  Params, ObliviousHistogram, accumulate_resize_accounting, check_and_maybe_resize_post_eviction,
  update_peak_overflow,
}
use roga.Oram.Ops.{evict_after_insert, next_evict_leaf}
use roga.Oram.Round.{IsTree, total}
use roga.Oram.Totals.{IsKept, visit, read_lem, all_blocks}

-- The other leaf below the same node.
sibling-lt : (leaf n : ℕ) → leaf < 2 ^ (n + 1) → bit_xor leaf 1 < 2 ^ (n + 1)
sibling-lt leaf n h =
    let positive : 0 < 2 ^ n = one-le-pow n 2 (omega arith) in
    bit_xor-lt (n + 1) leaf 1 h (omega (arith, two_pow-add n 1))

module _ {V : Type 0} ⦃w : ScalarCmov ℕ⦄ ⦃p : ScalarCmov (List ℕ)⦄ ⦃v : OramValue V⦄ (z k : ℕ)
    (stash : ObliviousStash V) (memory : List (OramBlock V)) (leaf height : ℕ)
    (memory_length : length memory ≡ 2 ^ (height + 1) * z) (to : leaf < 2 ^ (height + 1)) where
  -- The sweep reads a sibling to a buffer that the blocks are not in.
  abbrev scratch : List (OramBlock V)
  scratch =
      if ltb (length stash.insert_scratch) z
      then resize z (dummy k) stash.insert_scratch
      else stash.insert_scratch

  length-scratch : z ≤ length scratch
  unfolding resize
  length-scratch = elim (Bool-cases (ltb (length stash.insert_scratch) z)) [
    | inl short ↦ rw short (
        omega (
          arith,
          length-append (take z stash.insert_scratch)
              (replicate (z - length stash.insert_scratch) (dummy k)),
          length-take z stash.insert_scratch,
          length-replicate (z - length stash.insert_scratch) (dummy {V = V} k),
        ))
    | inr enough ↦ rw enough (ge enough)
  ]
    where
      ge : ltb (length stash.insert_scratch) z ≡ false → z ≤ length stash.insert_scratch
      ge e = ground arith

  sweep_lem :
      (sweeping : Bool)
      → (stash' : ObliviousStash V) × ((if sweeping
            then read_sibling_bucket z k stash memory (bit_xor leaf 1)
            else some stash)
          ≡ some stash')
        × (stash'.blocks ≡ stash.blocks)
        × (stash'.path_size ≡ stash.path_size)
  unfolding read_sibling_bucket
  sweep_lem false = (stash, refl, refl, refl)
  sweep_lem true =
      let fits = bucket_before z (bit_xor leaf 1) (2 ^ (height + 1)) (sibling-lt leaf height to) in
      (
        record {
          blocks = stash.blocks;
          path_size = stash.path_size;
          sort_keys = stash.sort_keys;
          insert_scratch =
              take 0 scratch ++ (take z (drop (bit_xor leaf 1 * z) memory) ++ drop (0 + z) scratch);
          compact_marks_buf = stash.compact_marks_buf;
          distribute_marks = stash.distribute_marks;
        },
        rw
            (
              copy_slice-some scratch memory 0 (bit_xor leaf 1 * z) z
                  (omega (arith, length-scratch)) (omega arith),
              read_sibling_bucket,
            )
            refl,
        refl,
        refl,
      )

module _ {V F R : Type 0} ⦃v : OramValue V⦄ (c : Params) (self : ObliviousHistogram V F R) where
  -- The same tree, by its blocks and its resize state.
  abbrev IsSame : ObliviousHistogram V F R → Type 0
  IsSame self' =
      (IsTree c self → IsTree c self')
      × ((key : List ℕ) → total key self' ≡ total key self)
      × (self'.auto_resize ≡ self.auto_resize)

  with_peak :
      (higher : Bool) (peak : ℕ)
      → IsSame (if higher then record self { peak_overflow = peak } else self)
  with_peak true peak = (λ t. t, λ key. refl, refl)
  with_peak false peak = (λ t. t, λ key. refl, refl)

  -- The peak of the stash has no influence.
  pub peak_lem : IsSame (update_peak_overflow self)
  unfolding update_peak_overflow
  peak_lem = with_peak (ltb self.peak_overflow (occupancy self.stash)) (occupancy self.stash)

module _ {V F R : Type 0} ⦃w : ScalarCmov ℕ⦄ ⦃p : ScalarCmov (List ℕ)⦄ ⦃v : OramValue V⦄
    ⦃e : CmovEq ℕ⦄ (f : Float F) (r : Rng R) (c : Params) (comm : (a b : V) → v.add a b ≡ v.add b a)
    (assoc : (a b c : V) → v.add (v.add a b) c ≡ v.add a (v.add b c)) where
  check_quiet :
      (self : ObliviousHistogram V F R)
      → self.auto_resize ≡ none
      → check_and_maybe_resize_post_eviction f r c self ≡ some self
  unfolding check_and_maybe_resize_post_eviction
  check_quiet self quiet = rw quiet refl

  count_quiet :
      (self : ObliviousHistogram V F R) (leaf : ℕ)
      → self.auto_resize ≡ none
      → accumulate_resize_accounting f r c self leaf ≡ self
  unfolding accumulate_resize_accounting
  count_quiet self leaf quiet = rw quiet refl

  module _ (self : ObliviousHistogram V F R) (quiet : self.auto_resize ≡ none) where
    abbrev evict_leaf : ℕ
    evict_leaf = (Histogram.next_evict_leaf self.evict_ctr self.height).0

    abbrev raised_ctr : ℕ
    raised_ctr = (Histogram.next_evict_leaf self.evict_ctr self.height).1

    abbrev finish : ObliviousStash V → List (OramBlock V) → ObliviousHistogram V F R
    finish stash memory =
        update_peak_overflow
          (record self { evict_ctr = raised_ctr; stash = stash; physical_memory = memory })

    finish_checked :
        (stash : ObliviousStash V) (memory : List (OramBlock V))
        → check_and_maybe_resize_post_eviction f r c (finish stash memory)
          ≡ some (finish stash memory)
    finish_checked stash memory = check_quiet (finish stash memory) (
        (peak_lem c
          (record self { evict_ctr = raised_ctr; stash = stash; physical_memory = memory })).2
        ∙ quiet)

    evict_steps :
        (loaded stash worked : ObliviousStash V)
        → read_from_path c.z self.stash self.physical_memory evict_leaf ≡ some loaded
        → (if leb raised_ctr self.sweep_end
            then read_sibling_bucket c.z c.k loaded self.physical_memory (bit_xor evict_leaf 1)
            else some loaded)
          ≡ some stash
        → merge_accumulate_for_path c.k stash evict_leaf ≡ some worked
        → evict_after_insert f r c self ≡ (
            write_to_path c.z c.k worked self.physical_memory evict_leaf >>= λ out.
            check_and_maybe_resize_post_eviction f r c (finish out.0 out.1))
    unfolding evict_after_insert next_evict_leaf
    evict_steps loaded stash worked read swept merged =
        let written : ObliviousHistogram V F R → Option (ObliviousHistogram V F R) = λ counted.
          write_to_path c.z c.k counted.stash counted.physical_memory evict_leaf >>= λ out.
          check_and_maybe_resize_post_eviction f r c
            (update_peak_overflow (record counted { stash = out.0; physical_memory = out.1 })) in
        rw read (
          rw swept (
            rw merged (
              ap written (
                count_quiet (record self { evict_ctr = raised_ctr; stash = worked }) evict_leaf
                  quiet))))

  -- An eviction of a well-formed tree that does not resize itself, during a sweep or not, gives a
  -- well-formed tree in which the real blocks of each key add up to what they did before, or panics
  -- if the merged stash has as many real blocks without a place on the path as overflow slots or
  -- more. The addition of values is associative and commutative.
  pub evict_after_insert-total :
      (self : ObliviousHistogram V F R)
      → IsTree c self
      → self.auto_resize ≡ none
      → IsKept f r c comm assoc self (next_evict_leaf f r c self).0 (evict_after_insert f r c self)
  unfolding evict_after_insert next_evict_leaf with_blocks
  evict_after_insert-total self tree quiet =
      let leaf = (Histogram.next_evict_leaf self.evict_ctr self.height).0 in
      let ctr = (Histogram.next_evict_leaf self.evict_ctr self.height).1 in
      let (from, to, _) = next_evict_leaf-distinct self.evict_ctr 0 self.height tree.height_fits in
      let raised : ObliviousHistogram V F R = record self { evict_ctr = ctr } in
      let all = all_blocks f r c comm assoc raised tree leaf from to in
      let read = read_lem f r c comm assoc raised tree leaf from to in
      let (stash, swept, blocks_eq, path_eq) =
        sweep_lem c.z c.k (with_blocks self.stash all) self.physical_memory leaf self.height
          tree.memory_length to (leb ctr self.sweep_end) in
      let (worked, merged, out) =
        visit f r c comm assoc raised tree leaf from to stash blocks_eq path_eq in
      let steps =
        evict_steps self quiet (with_blocks self.stash all) stash worked read swept merged in
      let checked : Option (ObliviousStash V × List (OramBlock V))
          → Option (ObliviousHistogram V F R) =
        λ o.
          o >>= λ out. check_and_maybe_resize_post_eviction f r c (finish self quiet out.0 out.1) in
      elim out [
        | inl (over, panic) ↦ inl (
          (
            stash,
            worked,
            read ∙ ap (λ bs. some (with_blocks self.stash bs)) (sym blocks_eq),
            path_eq,
            merged,
            over,
          ),
          steps ∙ ap checked panic,
        )
        | inr (stash', memory', eq, laid_out, kept) ↦
            let done : ObliviousHistogram V F R = record raised {
              stash = stash';
              physical_memory = memory';
            } in
            let peak = peak_lem c done in
            inr (
              update_peak_overflow done,
              steps ∙ (ap checked eq ∙ finish_checked self quiet stash' memory'),
              peak.0 laid_out,
              λ key. peak.1 key ∙ kept key,
              peak.2,
            )
      ]
