-- ===== src/Oram/Round.antt =====
-- A round of ops.rs on a tree: a path is read into the stash, the stash is worked on, and the path is
-- written back. What the keys add up to changes by the work on the stash alone.
use mathlib.Core.List.Permᴰ
use mathlib.Core.List.Permᴰ.{Permᴰ}
use roga.Base.{
  ℕ, ◌+◌, ◌*◌, ◌^◌, ◌<◌, ◌≤◌, ◌≡◌, refl, sym, ap, ap₂, subst, ◌∙◌, arith, Bool-cases, false, List,
  [], ◌∷◌, ◌++◌, inl, inr, Option, none, length, take, drop, replicate, take-append,
  take-append-drop, length-append, length-replicate,
}
use roga.External.{ScalarCmov, OramValue}
use roga.Ct.Bytes.{bytes_eq}
use roga.Block.{OramBlock, dummy}
use roga.Block.Laws.{AreBlocks, is_live}
use roga.Block.Arrays.{
  AreDead, append-AreBlocks, AreBlocks-parts, AreBlocks-Permᴰ, dummies-AreBlocks, dummies-AreDead,
}
use roga.Reduction.Totals.{gathered, holds}
use roga.Reduction.Order.{combined, gathered-Permᴰ, gathered-append}
use roga.Stash.{ObliviousStash}
use roga.Stash.Exchange.{Written, path_blocks, swap_tail}
use roga.Oram.{ObliviousHistogram, Params}

pub holds-dead :
    {V : Type 0} (key : List ℕ) (b : OramBlock V) → is_live b ≡ false → holds key b ≡ false
holds-dead key b d = elim (Bool-cases (bytes_eq b.payload key)) [ inl e ↦ rw (e, d) | inr e ↦ rw e ]

module _ {V A : Type 0} (measure : OramBlock V → A) (op : A → A → A) where
  pub gathered-dead :
      (key : List ℕ) (xs : List (OramBlock V)) → AreDead xs → gathered measure op key xs ≡ none
  unfolding gathered
  gathered-dead key [] h = refl
  gathered-dead key (x ∷ xs) (d, ds) = rw (holds-dead key x d) (gathered-dead key xs ds)

module _ {V A : Type 0} (measure : OramBlock V → A) (op : A → A → A)
    (comm : (a b : A) → op a b ≡ op b a) (assoc : (a b c : A) → op (op a b) c ≡ op a (op b c)) where
  -- Dummies in an array add nothing.
  pub gathered-dead_between :
      (key : List ℕ) (xs ds ys : List (OramBlock V))
      → AreDead ds
      → gathered measure op key (xs ++ (ds ++ ys)) ≡ gathered measure op key (xs ++ ys)
  gathered-dead_between key xs ds ys h = rw (
    gathered-append measure op assoc key xs (ds ++ ys),
    gathered-append measure op assoc key ds ys,
    gathered-append measure op assoc key xs ys,
    gathered-dead measure op key ds h,
  )

  -- A tree and the rest of a stash, where a path has been taken out of the tree.
  pub gathered-path :
      (key : List ℕ) (memory path rest frozen : List (OramBlock V))
      → Permᴰ memory (path ++ frozen)
      → gathered measure op key (memory ++ rest)
        ≡ combined op (gathered measure op key (path ++ rest)) (gathered measure op key frozen)
  gathered-path key memory path rest frozen perm =
      gathered-Permᴰ measure op comm assoc key
        (Permᴰ.trans (Permᴰ.append_right rest perm) (swap_tail path frozen rest))
      ∙ gathered-append measure op assoc key (path ++ rest) frozen

-- A tree of the crate: there are as many blocks as the buckets hold, the path buffer lies inside the
-- stash and holds dummies, and all fields fit their types.
pub record AreLaidOut {V : Type 0} (c : Params) (height : ℕ) (memory : List (OramBlock V))
    (stash : ObliviousStash V) : Type 0 where
  pub bucket_size : 0 < c.z
  pub height_fits : height ≤ 31
  pub memory_length : length memory ≡ 2 ^ (height + 1) * c.z
  pub path_length : stash.path_size ≡ (height + 1) * c.z
  pub room : stash.path_size ≤ length stash.blocks
  pub memory_fits : AreBlocks c.k memory
  pub stash_fits : AreBlocks c.k stash.blocks
  pub buffer_empty : AreDead (take stash.path_size stash.blocks)

abbrev pub IsTree : {V F R : Type 0} → Params → ObliviousHistogram V F R → Type 0
IsTree c self = AreLaidOut c self.height self.physical_memory self.stash

-- What the real blocks of a key add up to, in the tree and in the stash.
abbrev pub total : {V F R : Type 0} ⦃v : OramValue V⦄ → List ℕ → ObliviousHistogram V F R → Option V
total ⦃v⦄ key self = gathered (λ b. b.value) v.add key (self.physical_memory ++ self.stash.blocks)

module _ {V F R : Type 0} ⦃w : ScalarCmov ℕ⦄ ⦃p : ScalarCmov (List ℕ)⦄ ⦃v : OramValue V⦄
    (comm : (a b : V) → v.add a b ≡ v.add b a)
    (assoc : (a b c : V) → v.add (v.add a b) c ≡ v.add a (v.add b c)) (c : Params)
    (self : ObliviousHistogram V F R) (tree : IsTree c self) (leaf : ℕ)
    (from : 2 ^ self.height ≤ leaf) (to : leaf < 2 ^ (self.height + 1)) where
  -- The stash with the path in it.
  abbrev pub loaded : List (OramBlock V)
  loaded =
      path_blocks c.z c.k leaf self.height tree.bucket_size tree.height_fits from to
        self.physical_memory tree.memory_length
      ++ drop self.stash.path_size self.stash.blocks

  abbrev pub IsWritten : ObliviousStash V → ObliviousStash V → List (OramBlock V) → Type 0
  IsWritten =
      Written c.z c.k leaf self.height tree.bucket_size tree.height_fits from to
        self.physical_memory tree.memory_length

  abbrev pub with_path : ObliviousStash V → List (OramBlock V) → ObliviousHistogram V F R
  with_path stash memory = record self { stash = stash; physical_memory = memory }

  module _ (worked stash : ObliviousStash V) (memory : List (OramBlock V))
      (same_path : worked.path_size ≡ self.stash.path_size)
      (same_length : length worked.blocks ≡ length self.stash.blocks)
      (written : IsWritten worked stash memory) where
    pub round-IsTree : AreBlocks c.k worked.blocks → IsTree c (with_path stash memory)
    round-IsTree fits =
        let dummies = replicate worked.path_size (dummy {V = V} c.k) in
        let frozen_fits =
          (AreBlocks-parts c.k _ written.frozen
            (AreBlocks-Permᴰ c.k written.old tree.memory_fits)).1 in
        let both = AreBlocks-parts c.k memory written.overflow (
          AreBlocks-Permᴰ c.k (Permᴰ.symm written.new)
            (append-AreBlocks c.k worked.blocks written.frozen fits frozen_fits)) in
        record {
          bucket_size = tree.bucket_size;
          height_fits = tree.height_fits;
          memory_length = written.same_size ∙ tree.memory_length;
          path_length = written.path_size ∙ (same_path ∙ tree.path_length);
          room =
              rw (written.blocks, written.path_size)
                (omega (
                  arith,
                  length-append dummies written.overflow,
                  length-replicate worked.path_size (dummy {V = V} c.k),
                ));
          memory_fits = both.0;
          stash_fits = subst (AreBlocks c.k) (sym written.blocks) (
              append-AreBlocks c.k dummies written.overflow
                (dummies-AreBlocks V c.k worked.path_size) both.1);
          buffer_empty =
              subst AreDead
                (sym (
                  ap₂ take written.path_size written.blocks
                  ∙ take-append worked.path_size dummies written.overflow
                      (length-replicate worked.path_size (dummy {V = V} c.k))))
                (dummies-AreDead V c.k worked.path_size);
        }

    pub round-total :
        (key : List ℕ)
        → gathered (λ b. b.value) v.add key worked.blocks ≡ gathered (λ b. b.value) v.add key loaded
        → total key (with_path stash memory) ≡ total key self
    round-total key kept =
        let value : OramBlock V → V = λ b. b.value in
        let split = take-append-drop self.stash.path_size self.stash.blocks in
        let after : total key (with_path stash memory)
            ≡ combined v.add (gathered value v.add key worked.blocks)
                (gathered value v.add key written.frozen) =
          rw written.blocks (
            gathered-dead_between value v.add comm assoc key memory
              (replicate worked.path_size (dummy c.k)) written.overflow
              (dummies-AreDead V c.k worked.path_size)
            ∙ (gathered-Permᴰ value v.add comm assoc key written.new
                ∙ gathered-append value v.add assoc key worked.blocks written.frozen)) in
        let before : total key self
            ≡ combined v.add (gathered value v.add key loaded)
                (gathered value v.add key written.frozen) =
          ap (λ bs. gathered value v.add key (self.physical_memory ++ bs)) (sym split)
          ∙ (gathered-dead_between value v.add comm assoc key self.physical_memory _
                (drop self.stash.path_size self.stash.blocks) tree.buffer_empty
              ∙ gathered-path value v.add comm assoc key self.physical_memory _
                  (drop self.stash.path_size self.stash.blocks) written.frozen written.old) in
        after
        ∙ (ap (λ t. combined v.add t (gathered value v.add key written.frozen)) kept ∙ sym before)
