-- ===== src/Oram/Totals.antt =====
-- What the operations of ops.rs do to the totals of the keys: a visit of a path, which evicts and merges,
-- keeps them, and a read takes out those of one key.
use roga.Base.{
  ℕ, ◌+◌, ◌-◌, ◌^◌, ◌<◌, ◌≤◌, ◌≡◌, refl, sym, ap, subst, ◌∙◌, arith, ◌⊎◌, inl, inr, List, Option,
  none, some, length, drop, length-append, length-drop,
}
use roga.External.{ScalarCmov, CmovEq, OramValue, Float, Rng}
use roga.Block.{OramBlock}
use roga.Block.Laws.{AreBlocks}
use roga.Block.Arrays.{append-AreBlocks, AreBlocks-drop}
use roga.Reduction.Totals.{gathered}
use roga.Sort.Reduce.{merge_accumulate_for_path}
use roga.Sort.Totals.{merge_accumulate_for_path-Keeps}
use roga.Stash.{ObliviousStash, read_from_path, with_blocks}
use roga.Stash.Eviction.{write_to_path}
use roga.Stash.Exchange.{
  overflow_of, read_from_path_lem, write_to_path_lem, length-path_blocks, path_blocks-AreBlocks,
}
use roga.Oram.{Params, ObliviousHistogram, access_path}
use roga.Oram.Round.{AreLaidOut, IsTree, total, loaded, round-IsTree, round-total}

module _ {V F R : Type 0} ⦃w : ScalarCmov ℕ⦄ ⦃p : ScalarCmov (List ℕ)⦄ ⦃v : OramValue V⦄
    ⦃e : CmovEq ℕ⦄ (f : Float F) (r : Rng R) (c : Params) (comm : (a b : V) → v.add a b ≡ v.add b a)
    (assoc : (a b c : V) → v.add (v.add a b) c ≡ v.add a (v.add b c)) where
  -- Too many real blocks of a stash find no place on the path.
  abbrev pub IsOverfull : ObliviousHistogram V F R → ObliviousStash V → ℕ → Type 0
  IsOverfull self worked leaf =
      length worked.blocks - worked.path_size ≤ overflow_of c.z c.k leaf self.height worked

  -- The stash that the path is read to, other buffers than the blocks aside, is overfull once it is
  -- merged.
  abbrev pub IsRefused : ObliviousHistogram V F R → ℕ → Type 0
  IsRefused self leaf =
      (stash : ObliviousStash V) × (worked : ObliviousStash V) × (read_from_path c.z self.stash
          self.physical_memory leaf
        ≡ some (with_blocks self.stash stash.blocks))
      × (stash.path_size ≡ self.stash.path_size)
      × (merge_accumulate_for_path c.k stash leaf ≡ some worked)
      × IsOverfull self worked leaf

  -- A panic, since the stash is overfull, or a tree in which each key has what it had.
  abbrev pub IsKept : ObliviousHistogram V F R → ℕ → Option (ObliviousHistogram V F R) → Type 0
  IsKept self leaf result =
      (IsRefused self leaf × (result ≡ none))
      ⊎ ((self' : ObliviousHistogram V F R) × (result ≡ some self')
          × IsTree c self'
          × ((key : List ℕ) → total key self' ≡ total key self)
          × (self'.auto_resize ≡ self.auto_resize))

  module _ (self : ObliviousHistogram V F R) (tree : IsTree c self) (leaf : ℕ)
      (from : 2 ^ self.height ≤ leaf) (to : leaf < 2 ^ (self.height + 1)) where
    abbrev pub all_blocks : List (OramBlock V)
    all_blocks = loaded comm assoc c self tree leaf from to

    pub length-loaded : length all_blocks ≡ length self.stash.blocks
    length-loaded =
        let size = tree.path_length in
        let room = tree.room in
        let path =
          length-path_blocks c.z c.k leaf self.height tree.bucket_size tree.height_fits from to
            self.physical_memory tree.memory_length in
        length-append _ (drop self.stash.path_size self.stash.blocks)
        ∙ omega (arith, length-drop self.stash.path_size self.stash.blocks, path)

    pub loaded-AreBlocks : AreBlocks c.k all_blocks
    loaded-AreBlocks =
        append-AreBlocks c.k _ (drop self.stash.path_size self.stash.blocks)
          (path_blocks-AreBlocks c.z c.k leaf self.height tree.bucket_size tree.height_fits from to
            self.physical_memory tree.memory_length tree.memory_fits)
          (AreBlocks-drop c.k self.stash.path_size self.stash.blocks tree.stash_fits)

    pub read_lem :
        read_from_path c.z self.stash self.physical_memory leaf
        ≡ some (with_blocks self.stash all_blocks)
    read_lem =
        read_from_path_lem c.z c.k leaf self.height tree.bucket_size tree.height_fits from to
          self.physical_memory tree.memory_length self.stash tree.path_length tree.room

    -- A stash with the path in it is merged, and written back unless it is overfull.
    abbrev pub Visited : ObliviousStash V → Type 0
    Visited stash =
        (worked : ObliviousStash V) × (merge_accumulate_for_path c.k stash leaf ≡ some worked)
        × ((IsOverfull self worked leaf
              × (write_to_path c.z c.k worked self.physical_memory leaf ≡ none))
            ⊎ ((stash' : ObliviousStash V) × (memory' : List (OramBlock V)) × (write_to_path c.z c.k
                    worked self.physical_memory leaf
                  ≡ some (stash', memory'))
                × AreLaidOut c self.height memory' stash'
                × ((key : List ℕ)
                    → total key (record self { stash = stash'; physical_memory = memory' })
                      ≡ total key self)))

    pub visit :
        (stash : ObliviousStash V)
        → stash.blocks ≡ all_blocks
        → stash.path_size ≡ self.stash.path_size
        → Visited stash
    visit stash blocks_eq path_eq =
        let (blocks, keys, merged, (fits, size, kept)) =
          merge_accumulate_for_path-Keeps c.k comm assoc stash leaf
            (subst (AreBlocks c.k) (sym blocks_eq) loaded-AreBlocks) in
        let worked : ObliviousStash V = record {
          blocks = blocks;
          path_size = stash.path_size;
          sort_keys = keys;
          insert_scratch = stash.insert_scratch;
          compact_marks_buf = stash.compact_marks_buf;
          distribute_marks = stash.distribute_marks;
        } in
        let same = size ∙ (ap length blocks_eq ∙ length-loaded) in
        let room = tree.room in
        let same_total : (key : List ℕ)
            → gathered (λ b. b.value) v.add key blocks
              ≡ gathered (λ b. b.value) v.add key all_blocks =
          λ key. kept key ∙ ap (gathered (λ b. b.value) v.add key) blocks_eq in
        (
          worked,
          merged,
          elim (write_to_path_lem c.z c.k leaf self.height tree.bucket_size tree.height_fits from to
              self.physical_memory tree.memory_length worked (path_eq ∙ tree.path_length)
              (omega arith)) [
                | inl (over, panic) ↦ inl (over, panic)
                | inr (stash', memory', eq, written) ↦ inr (
                  stash',
                  memory',
                  eq,
                  round-IsTree comm assoc c self tree leaf from to worked stash' memory' path_eq
                      same written fits,
                  λ key.
                      round-total comm assoc c self tree leaf from to worked stash' memory' path_eq
                        same written key (same_total key),
                )
              ],
        )

    -- To read the path to any leaf of a well-formed tree, merge the stash and write the path back
    -- gives a well-formed tree in which the real blocks of each key add up to what they did before,
    -- or is a panic if the merged stash has as many real blocks without a place on the path as
    -- overflow slots or more. The addition of values is associative and commutative.
    pub access_path-total : IsKept self leaf (access_path f r c self leaf)
    unfolding with_blocks access_path
    access_path-total =
        let stash = with_blocks self.stash all_blocks in
        let (worked, merged, out) = visit stash refl refl in
        elim out [
          | inl (over, panic) ↦ inl (
            (stash, worked, read_lem, refl, merged, over),
            rw read_lem (rw merged (rw panic refl)),
          )
          | inr (stash', memory', eq, laid_out, kept) ↦ inr (
            record self { stash = stash'; physical_memory = memory' },
            rw read_lem (rw merged (rw eq refl)),
            laid_out,
            kept,
            refl,
          )
        ]
