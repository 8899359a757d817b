-- ===== src/Stash/Exchange.antt =====
-- `read_from_path` and `write_to_path` of stash.rs on a tree with a bucket for each node: the blocks of
-- the path move to the stash and back, and no other block of the tree moves.
use mathlib.Core.List.Permᴰ
use mathlib.Core.List.Permᴰ.{Permᴰ}
use native.Mathlib.Nat.{mul-div_cancel}
use roga.Base.{
  ℕ, zero, suc, ◌+◌, ◌-◌, ◌*◌, ◌/◌, ◌^◌, ◌<◌, ◌≤◌, ◌≡◌, refl, sym, ap, subst, ◌∙◌, arith, List, [],
  ◌++◌, none, some, length, take, drop, replicate, leb, true, false, Bool-cases, inl, inr, ◌⊎◌,
  ◌==◌, ==-ne, take-append-drop, length-drop, length-take, length-append,
}
use roga.External.{ScalarCmov, OramValue}
use roga.Block.{OramBlock, dummy, oram_block_cmov}
use roga.Block.Laws.{AreBlocks}
use roga.Block.Arrays.{append-AreBlocks, AreBlocks-take, AreBlocks-drop}
use roga.Reduction.{block_reducible}
use roga.Compaction.{compact_marks, compact_payload, distribute_payload}
use roga.Compaction.Permutes.{compact_payload-Permᴰ, distribute_payload-Permᴰ}
use roga.Compaction.RoundTrip.{length-compact_payload, length-distribute_payload}
use roga.Routing.{ct_depth}
use roga.Stash.{ObliviousStash, read_from_path, with_blocks}
use roga.Stash.Eviction.{assign_loop, build_leaf_to_root_layout_marks, copy_back, write_to_path}
use roga.Stash.Buckets.{append_assoc, buckets}
use roga.Stash.Copies.{path_node, slots, slots-Permᴰ, read_loop_lem}
use roga.Stash.WriteBack.{Fits, copy_back-Exchanged}
use roga.Stash.Paths.{Fits-path, ct_depth_leaf}

pub swap_tail : {A : Type 0} (xs ys zs : List A) → Permᴰ ((xs ++ ys) ++ zs) ((xs ++ zs) ++ ys)
swap_tail xs ys zs =
    rw (append_assoc xs ys zs, append_assoc xs zs ys)
      (Permᴰ.append_left xs (Permᴰ.append_comm ys zs))

leb→le : (a b : ℕ) → leb a b ≡ true → a ≤ b
leb→le a b e = ground arith

-- The slots of the path buffer go to the tree, and the other blocks stay.
swapped :
    {A : Type 0} (n : ℕ) (moved blocks path frozen memory : List A)
    → Permᴰ path (take n moved)
    → Permᴰ moved blocks
    → Permᴰ memory (path ++ frozen)
    → Permᴰ (memory ++ drop n moved) (blocks ++ frozen)
swapped n moved blocks path frozen memory front perm new =
    Permᴰ.trans (Permᴰ.append_right (drop n moved) new) (
      Permᴰ.trans (swap_tail path frozen (drop n moved)) (
        Permᴰ.append_right frozen (
          Permᴰ.trans (Permᴰ.append_right (drop n moved) front)
            (subst (λ xs. Permᴰ xs blocks) (sym (take-append-drop n moved)) perm))))

-- The parts of `write_to_path`, at a height.
module _ {V : Type 0} ⦃w : ScalarCmov ℕ⦄ ⦃p : ScalarCmov (List ℕ)⦄ ⦃v : OramValue V⦄
    (z k position height : ℕ) where
  -- The number of real blocks that find no place on the path.
  abbrev pub overflow_of : ObliviousStash V → ℕ
  overflow_of self = (assign_loop z position height self.blocks (replicate 32 0) 0).1

  abbrev layout_of : ObliviousStash V → List ℕ
  layout_of self =
      let counts = assign_loop z position height self.blocks (replicate 32 0) 0 in
      build_leaf_to_root_layout_marks z self.distribute_marks (take (height + 1) counts.0) counts.1
        self.path_size (length self.blocks)

  -- The blocks after the compaction and the distribution.
  abbrev moved_of : ObliviousStash V → List (OramBlock V)
  moved_of self =
      let marks = compact_marks (block_reducible k) self.blocks self.compact_marks_buf in
      distribute_payload (compact_payload self.blocks marks) (layout_of self)

  moved_of-Permᴰ : (self : ObliviousStash V) → Permᴰ (moved_of self) self.blocks
  moved_of-Permᴰ self =
      Permᴰ.trans (distribute_payload-Permᴰ _ (layout_of self))
        (compact_payload-Permᴰ self.blocks _)

  length-moved_of : (self : ObliviousStash V) → length (moved_of self) ≡ length self.blocks
  length-moved_of self =
      length-distribute_payload _ (layout_of self) ∙ length-compact_payload self.blocks _

  abbrev written_of : ObliviousStash V → ObliviousStash V
  written_of self = record {
    blocks = replicate self.path_size (dummy k) ++ drop self.path_size (moved_of self);
    path_size = self.path_size;
    sort_keys = self.sort_keys;
    insert_scratch = self.insert_scratch;
    compact_marks_buf = compact_marks (block_reducible k) self.blocks self.compact_marks_buf;
    distribute_marks = layout_of self;
  }

module _ {V : Type 0} ⦃w : ScalarCmov ℕ⦄ ⦃p : ScalarCmov (List ℕ)⦄ ⦃v : OramValue V⦄
    (z k position : ℕ) (self : ObliviousStash V) (memory memory' : List (OramBlock V)) where
  Copies : ℕ → Type 0
  Copies height =
      leb (length self.blocks - self.path_size) (overflow_of z k position height self) ≡ false
      → copy_back z position height (height + 1) 0 (moved_of z k position height self) memory
        ≡ some memory'
      → write_to_path z k self memory position ≡ some (written_of z k position height self, memory')

  Copies-ct_depth : Copies (ct_depth position)
  unfolding write_to_path Copies
  Copies-ct_depth free copied = rw (free, copied) refl

  write_to_path-copied : (height : ℕ) → ct_depth position ≡ height → Copies height
  write_to_path-copied height depth = subst Copies depth Copies-ct_depth

module _ {V : Type 0} ⦃w : ScalarCmov ℕ⦄ ⦃p : ScalarCmov (List ℕ)⦄ ⦃v : OramValue V⦄
    (z k position height : ℕ) (bucket_size : 0 < z) (height_fits : height ≤ 31)
    (leaf_from : 2 ^ height ≤ position) (leaf_to : position < 2 ^ (height + 1))
    (memory : List (OramBlock V)) (memory_length : length memory ≡ 2 ^ (height + 1) * z) where
  -- The blocks of the path.
  abbrev pub path_blocks : List (OramBlock V)
  path_blocks = buckets z (path_node position height) (height + 1) 0 0 memory

  pub length-path_blocks : length path_blocks ≡ (height + 1) * z
  length-path_blocks =
      length-buckets (height + 1) 0 (λ d q r. fits.to d (omega arith) (omega arith))
    where
      fits : Fits z position height (height + 1) 0 0 (length memory) ((height + 1) * z)
      fits =
          subst (λ n. Fits z position height (height + 1) 0 0 n ((height + 1) * z))
            (sym memory_length)
            (Fits-path z position height leaf_from leaf_to ((height + 1) * z) (omega arith))

      length-buckets :
          (n depth : ℕ)
          → ((d : ℕ)
              → depth ≤ d
              → d < depth + n
              → path_node position height d * z + z ≤ 0 + length memory)
          → length (buckets z (path_node position height) n depth 0 memory) ≡ n * z
      length-buckets zero depth h = omega arith
      length-buckets (suc n) depth h =
          let start = path_node position height depth * z - 0 in
          let here = h depth (omega arith) (omega arith) in
          let rest = length-buckets n (depth + 1) (λ d q r. h d (omega arith) (omega arith)) in
          let one : length (take z (drop start memory)) ≡ z =
            omega (arith, length-take z (drop start memory), length-drop start memory) in
          length-append (take z (drop start memory)) _ ∙ grind arith

  pub path_blocks-AreBlocks : AreBlocks k memory → AreBlocks k path_blocks
  path_blocks-AreBlocks h = fit (height + 1) 0
    where
      fit : (n depth : ℕ) → AreBlocks k (buckets z (path_node position height) n depth 0 memory)
      fit zero depth = tt
      fit (suc n) depth =
          append-AreBlocks k _ _ (AreBlocks-take k z _ (AreBlocks-drop k _ memory h))
            (fit n (depth + 1))

  pub read_from_path_lem :
      (self : ObliviousStash V)
      → self.path_size ≡ (height + 1) * z
      → self.path_size ≤ length self.blocks
      → read_from_path z self memory position
        ≡ some (with_blocks self (path_blocks ++ drop self.path_size self.blocks))
  unfolding read_from_path
  read_from_path_lem self size room =
      let positive : (z == 0) ≡ false = ==-ne z 0 (λ e. omega arith) in
      let depth = ct_depth_leaf z position height leaf_from leaf_to height_fits in
      let fits = Fits-path z position height leaf_from leaf_to (length self.blocks) (omega arith) in
      let levels : self.path_size / z ≡ height + 1 =
        ap (λ n. n / z) size ∙ mul-div_cancel (height + 1) bucket_size in
      rw
        (
          positive,
          depth,
          levels,
          read_loop_lem z position height (height + 1) memory self.blocks (omega arith)
              (λ d q. omega (arith, fits.to d (omega arith) (omega arith))),
        )
        (ap (λ n. some (with_blocks self (path_blocks ++ drop n self.blocks))) (sym size))

  -- What `write_to_path` returns.
  pub record Written (self self' : ObliviousStash V) (memory' : List (OramBlock V)) : Type 0 where
    pub overflow : List (OramBlock V)
    pub frozen : List (OramBlock V)
    pub blocks : self'.blocks ≡ replicate self.path_size (dummy k) ++ overflow
    pub path_size : self'.path_size ≡ self.path_size
    pub same_size : length memory' ≡ length memory
    pub overflow_length : length overflow ≡ length self.blocks - self.path_size
    pub old : Permᴰ memory (path_blocks ++ frozen)
    pub new : Permᴰ (memory' ++ overflow) (self.blocks ++ frozen)

  pub write_to_path_lem :
      (self : ObliviousStash V)
      → self.path_size ≡ (height + 1) * z
      → self.path_size ≤ length self.blocks
      → ((length self.blocks - self.path_size ≤ overflow_of z k position height self)
          × (write_to_path z k self memory position ≡ none))
        ⊎ ((self' : ObliviousStash V) × (memory' : List (OramBlock V)) × (write_to_path z k self
                memory position
              ≡ some (self', memory'))
            × Written self self' memory')
  unfolding write_to_path
  write_to_path_lem self size room =
      let depth = ct_depth_leaf z position height leaf_from leaf_to height_fits in
      elim (Bool-cases
        (leb (length self.blocks - self.path_size) (overflow_of z k position height self))) [
          | inl full ↦ inl (leb→le _ _ full, rw (depth, full))
          | inr free ↦
              let moved = moved_of z k position height self in
              let fits : Fits z position height (height + 1) 0 0 (length memory) (length moved) =
                subst (λ n. Fits z position height (height + 1) 0 0 n (length moved))
                  (sym memory_length)
                  (Fits-path z position height leaf_from leaf_to (length moved)
                    (omega (arith, length-moved_of z k position height self))) in
              let (memory', frozen, copied, same, old, new) =
                copy_back-Exchanged z position height (height + 1) 0 moved [] memory fits in
              inr (
                written_of z k position height self,
                memory',
                unfold Copies in
                    write_to_path-copied z k position self memory memory' height depth free copied,
                record {
                  overflow = drop self.path_size moved;
                  frozen = frozen;
                  blocks = refl;
                  path_size = refl;
                  same_size = same;
                  overflow_length = omega (
                    arith,
                    length-drop self.path_size moved,
                    length-moved_of z k position height self,
                  );
                  old = old;
                  new =
                      swapped self.path_size moved self.blocks
                        (slots z position height (height + 1) 0 moved) frozen memory'
                        (subst
                          (λ n. Permᴰ (slots z position height (height + 1) 0 moved) (take n moved))
                          (sym size)
                          (slots-Permᴰ z position height (height + 1) 0 moved (omega arith)))
                        (moved_of-Permᴰ z k position height self) new;
                },
              )
        ]
