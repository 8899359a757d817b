-- ===== src/Oram/Fresh.antt =====
-- A new tree of mod.rs is well-formed and empty, and `grow_physical_storage` of resize.rs keeps a tree
-- well-formed and its totals.
use roga.Base.{
  ℕ, ◌+◌, ◌*◌, ◌^◌, ◌<◌, ◌≤◌, ◌≡◌, refl, sym, ap, subst, ◌∙◌, arith, List, ◌++◌, none, some, length,
  take, drop, replicate, length-replicate, length-append, length-take, min, two_pow-add, ltb, true,
  take-append, take-append-drop, ◌<<<◌,
}
use roga.External.{ScalarCmov, CmovEq, OramValue, BlockCipher, Float, Rng}
use roga.Block.{OramBlock, dummy}
use roga.Block.Arrays.{
  AreDead, AreDead-take, append-AreDead, append-AreBlocks, AreBlocks-take, AreBlocks-drop,
  dummies-AreBlocks, dummies-AreDead,
}
use roga.Reduction.Totals.{gathered}
use roga.Stash.Buckets.{append_assoc}
use roga.Routing.{leaf_count, tree_height_for_capacity}
use roga.Stash
use roga.Stash.Paths.{two_pow-le}
use roga.Oram.{Params, ObliviousHistogram, new, grow_physical_storage}
use roga.Oram.Round.{IsTree, total, gathered-dead, gathered-dead_between}

shifted : (height : ℕ) → height ≤ 31 → 1 <<< (height + 1) ≡ 2 ^ (height + 1)
shifted height h = omega (arith, two_pow-le (height + 1) 32 (omega arith))

twice : (x y m z : ℕ) → y ≡ x * 2 → m ≡ x * z → m + m ≡ y * z
twice x y m z e h = rw (e, h) (grind arith)

module _ {V F R G : Type 0} ⦃v : OramValue V⦄ (g : Rng G) (aes128 : List ℕ → BlockCipher)
    (c : Params) where
  -- If the capacity and the bucket size give a height of at most 31 and a bucket has a slot, a new
  -- tree is made, well-formed, of this height, without automatic resizing, and without a real block
  -- of any key.
  pub new-IsTree :
      (block_capacity height : ℕ) (rng : G)
      → 0 < c.z
      → tree_height_for_capacity block_capacity c.z ≡ some height
      → height ≤ 31
      → (self : ObliviousHistogram V F R) × (rng' : G) × (new g aes128 c block_capacity rng
          ≡ some (self, rng'))
        × IsTree c self
        × (self.height ≡ height)
        × (self.auto_resize ≡ none)
        × ((key : List ℕ) → total key self ≡ none)
  unfolding new Stash.new
  new-IsTree block_capacity height rng z_pos fits small = (
    record {
      physical_memory = replicate ((1 <<< (height + 1)) * c.z) (dummy c.k);
      stash = Stash.new c.k c.s (c.z * (height + 1));
      height = height;
      epoch = 0;
      prf = aes128 (g.fill_bytes 16 rng).0;
      append_ctr = 0;
      evict_ctr = 0;
      sweep_end = 0;
      auto_resize = none;
      filler_ctr = 0;
      peak_overflow = 0;
    },
    (g.fill_bytes 16 rng).1,
    rw (fits, new) refl,
    record {
      bucket_size = z_pos;
      height_fits = small;
      memory_length =
          length-replicate ((1 <<< (height + 1)) * c.z) (dummy {V = V} c.k)
          ∙ ap (λ n. n * c.z) (shifted height small);
      path_length = grind arith;
      room = omega (arith, length-replicate (c.z * (height + 1) + c.s) (dummy {V = V} c.k));
      memory_fits = dummies-AreBlocks V c.k ((1 <<< (height + 1)) * c.z);
      stash_fits = dummies-AreBlocks V c.k (c.z * (height + 1) + c.s);
      buffer_empty =
          AreDead-take (c.z * (height + 1)) _ (dummies-AreDead V c.k (c.z * (height + 1) + c.s));
    },
    refl,
    refl,
    λ key.
        gathered-dead (λ b. b.value) v.add key _
          (append-AreDead _ _ (dummies-AreDead V c.k ((1 <<< (height + 1)) * c.z))
            (dummies-AreDead V c.k (c.z * (height + 1) + c.s))),
  )

module _ {V F R : Type 0} ⦃w : ScalarCmov ℕ⦄ ⦃p : ScalarCmov (List ℕ)⦄ ⦃v : OramValue V⦄
    ⦃e : CmovEq ℕ⦄ (f : Float F) (r : Rng R) (c : Params) (comm : (a b : V) → v.add a b ≡ v.add b a)
    (assoc : (a b c : V) → v.add (v.add a b) c ≡ v.add a (v.add b c)) where
  -- A well-formed tree of a height below 31 grows, without a panic, to a well-formed tree of one
  -- more level in which the real blocks of each key add up to what they did before, if the addition
  -- of values is associative and commutative.
  pub grow_physical_storage-total :
      (self : ObliviousHistogram V F R)
      → IsTree c self
      → self.height < 31
      → (self' : ObliviousHistogram V F R) × (grow_physical_storage f r c self ≡ some self')
        × IsTree c self'
        × (self'.height ≡ self.height + 1)
        × ((key : List ℕ) → total key self' ≡ total key self)
  unfolding grow_physical_storage Stash.grow_extend_path_buffer
  grow_physical_storage-total self tree low =
      let allowed : ltb self.height 31 ≡ true = ground arith in
      let size = length self.physical_memory in
      let more = replicate size (dummy {V = V} c.k) in
      let front = take self.stash.path_size self.stash.blocks in
      let bucket = replicate c.z (dummy {V = V} c.k) in
      let rest = drop self.stash.path_size self.stash.blocks in
      let room = tree.room in
      let front_length : length front ≡ self.stash.path_size =
        omega (arith, length-take self.stash.path_size self.stash.blocks) in
      let bucket_length : length bucket ≡ c.z = length-replicate c.z (dummy {V = V} c.k) in
      let doubled : size + size ≡ 2 ^ (self.height + 1 + 1) * c.z =
        twice (2 ^ (self.height + 1)) (2 ^ (self.height + 1 + 1)) size c.z
          (two_pow-add (self.height + 1) 1) tree.memory_length in
      (
        record self {
          physical_memory = self.physical_memory ++ more;
          height = self.height + 1;
          epoch = min (self.epoch + 1) 255;
          sweep_end = self.evict_ctr + leaf_count self.height;
          stash = Stash.grow_extend_path_buffer c.z c.k self.stash;
        },
        rw (allowed, grow_physical_storage) refl,
        record {
          bucket_size = tree.bucket_size;
          height_fits = omega arith;
          memory_length =
              length-append self.physical_memory more
              ∙ (ap (λ n. size + n) (length-replicate size (dummy {V = V} c.k)) ∙ doubled);
          path_length = ap (λ n. n + c.z) tree.path_length ∙ grind arith;
          room = omega (
            arith,
            length-append front (bucket ++ rest),
            length-append bucket rest,
            front_length,
            bucket_length,
          );
          memory_fits =
              append-AreBlocks c.k self.physical_memory more tree.memory_fits
                (dummies-AreBlocks V c.k size);
          stash_fits =
              append-AreBlocks c.k front (bucket ++ rest)
                (AreBlocks-take c.k self.stash.path_size self.stash.blocks tree.stash_fits)
                (append-AreBlocks c.k bucket rest (dummies-AreBlocks V c.k c.z)
                  (AreBlocks-drop c.k self.stash.path_size self.stash.blocks tree.stash_fits));
          buffer_empty =
              subst AreDead
                (sym (
                  ap (take (self.stash.path_size + c.z)) (sym (append_assoc front bucket rest))
                  ∙ take-append (self.stash.path_size + c.z) (front ++ bucket) rest
                      (omega (arith, length-append front bucket, front_length, bucket_length))))
                (append-AreDead front bucket tree.buffer_empty (dummies-AreDead V c.k c.z));
        },
        refl,
        λ key.
            let value : OramBlock V → V = λ b. b.value in
            ap (gathered value v.add key)
              (append_assoc self.physical_memory more (front ++ (bucket ++ rest)))
            ∙ (gathered-dead_between value v.add comm assoc key self.physical_memory more _
                  (dummies-AreDead V c.k size)
                ∙ (gathered-dead_between value v.add comm assoc key self.physical_memory front _
                      tree.buffer_empty
                    ∙ (gathered-dead_between value v.add comm assoc key self.physical_memory bucket
                          rest (dummies-AreDead V c.k c.z)
                        ∙ (sym (
                              gathered-dead_between value v.add comm assoc key self.physical_memory
                                front rest tree.buffer_empty)
                            ∙ ap (λ bs. gathered value v.add key (self.physical_memory ++ bs))
                                (take-append-drop self.stash.path_size self.stash.blocks))))),
      )
