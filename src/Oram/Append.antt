-- ===== src/Oram/Append.antt =====
-- `append` of ops.rs on a tree that does not resize itself adds the value to the total of the key, and
-- leaves those of the other keys.
use roga.Base.{
  ℕ, suc, ◌+◌, ◌≡◌, refl, sym, ap, subst, ◌∙◌, arith, Bool, true, false, Bool-cases, ◌⊎◌, inl, inr,
  List, [], ◌∷◌, ◌++◌, Option, none, some, length, take, drop, take-append, length-append,
  length-take, take-append-drop,
}
use roga.External.{ScalarCmov, CmovEq, OramValue, Float, Rng}
use roga.Crypto.{prf_tag, copy_prefix}
use roga.Block.{OramBlock}
use roga.Block.Laws.{IsBlock, AreBlocks, is_live}
use roga.Block.Arrays.{AreDead, append-AreBlocks, AreBlocks-drop, AreBlocks-take}
use roga.Reduction.Totals.{gathered, holds, included}
use roga.Reduction.Order.{combined, gathered-append, included_comm}
use roga.Stash.{ObliviousStash, insert, with_blocks}
use roga.Stash.Insert.{put_first, new_block, insert_lem}
use roga.Oram.{Params, ObliviousHistogram, is_multiple_of}
use roga.Oram.Ops.{
  append, add_prepared_inner, finish_append_after_insert, evict_after_insert, next_evict_leaf,
  current_evict_interval,
}
use roga.Oram.Round.{IsTree, total, gathered-dead_between, holds-dead}
use roga.Oram.Totals.{IsRefused}
use roga.Oram.Eviction.{evict_after_insert-total}

module _ {V : Type 0} where
  abbrev pub AreLive : List (OramBlock V) → Type 0
  AreLive [] = Unit
  AreLive (b ∷ bs) = (is_live b ≡ true) × AreLive bs

module _ {V : Type 0} (op : V → V → V) (comm : (a b : V) → op a b ≡ op b a)
    (assoc : (a b c : V) → op (op a b) c ≡ op a (op b c)) (k : ℕ) (new : OramBlock V)
    (fits : IsBlock k new) where
  -- The new block is put to the first free slot, if there is one.
  IsPlaced : List (OramBlock V) → Type 0
  IsPlaced bs =
      (AreLive bs × (put_first new bs ≡ none))
      ⊎ ((after : List (OramBlock V)) × (put_first new bs ≡ some after)
          × AreBlocks k after
          × (length after ≡ length bs)
          × ((key : List ℕ)
              → gathered (λ b. b.value) op key after
                ≡ included op (holds key new) new.value (gathered (λ b. b.value) op key bs)))

  put_first-IsPlaced : (bs : List (OramBlock V)) → AreBlocks k bs → IsPlaced bs
  unfolding IsPlaced put_first gathered
  put_first-IsPlaced [] h = inl (tt, refl)
  put_first-IsPlaced (b ∷ bs) (h, hs) = elim (Bool-cases (is_live b)) [
    | inr e ↦ inr (
      new ∷ bs,
      rw e refl,
      (fits, hs),
      refl,
      λ key.
          ap
            (λ h.
              included op (holds key new) new.value
                (included op h b.value (gathered (λ x. x.value) op key bs)))
            (sym (holds-dead key b e)),
    )
    | inl e ↦ elim (put_first-IsPlaced bs hs) [
      | inl (live, full) ↦ inl ((e, live), rw (e, full) refl)
      | inr (after, placed, valid, sized, kept) ↦ inr (
        b ∷ after,
        rw (e, placed) refl,
        (h, valid),
        ap suc sized,
        λ key.
            ap (included op (holds key b) b.value) (kept key)
            ∙ included_comm (λ x. x.value) op comm assoc (holds key b) (holds key new) b.value
                new.value (gathered (λ x. x.value) op key bs),
      )
    ]
  ]

  combined-included :
      (h : Bool) (m o : Option V)
      → combined op m (included op h new.value o) ≡ included op h new.value (combined op m o)
  combined-included false m o = refl
  combined-included true none o = refl
  combined-included true (some m) none = ap some (comm m new.value)
  combined-included true (some m) (some o) =
      ap some
        (sym (assoc m new.value o) ∙ ap (λ x. op x o) (comm m new.value) ∙ assoc new.value m o)

module _ {V F R : Type 0} ⦃w : ScalarCmov ℕ⦄ ⦃p : ScalarCmov (List ℕ)⦄ ⦃v : OramValue V⦄
    ⦃e : CmovEq ℕ⦄ (f : Float F) (r : Rng R) (c : Params) (comm : (a b : V) → v.add a b ≡ v.add b a)
    (assoc : (a b c : V) → v.add (v.add a b) c ≡ v.add a (v.add b c)) where
  -- The tree with a block put to the stash and counted.
  abbrev pub counted : ObliviousHistogram V F R → ObliviousStash V → ObliviousHistogram V F R
  counted self stash = record self { stash = stash; append_ctr = self.append_ctr + 1 }

  -- A panic, since the stash has no free slot, or is overfull at the eviction; or a tree with the new
  -- block in it.
  abbrev pub IsAppended :
      ObliviousHistogram V F R → OramBlock V → Option (ObliviousHistogram V F R) → Type 0
  IsAppended self new result =
      ((AreLive (drop self.stash.path_size self.stash.blocks)
          ⊎ ((stash : ObliviousStash V) × (insert self.stash new.tag new.epoch new.value new.payload
                ≡ some stash)
              × IsRefused f r c comm assoc (counted self stash)
                  (next_evict_leaf f r c (counted self stash)).0))
        × (result ≡ none))
      ⊎ ((self' : ObliviousHistogram V F R) × (result ≡ some self')
          × IsTree c self'
          × (self'.auto_resize ≡ self.auto_resize)
          × ((key : List ℕ)
              → total key self' ≡ included v.add (holds key new) new.value (total key self)))

  module _ (self : ObliviousHistogram V F R) (tree : IsTree c self)
      (quiet : self.auto_resize ≡ none) (new : OramBlock V) (fits : IsBlock c.k new) where
    abbrev with_overflow : List (OramBlock V) → ObliviousStash V
    with_overflow after =
        with_blocks self.stash (take self.stash.path_size self.stash.blocks ++ after)

    module _ (after : List (OramBlock V)) (valid : AreBlocks c.k after)
        (sized : length after ≡ length (drop self.stash.path_size self.stash.blocks)) where
      front_length : length (take self.stash.path_size self.stash.blocks) ≡ self.stash.path_size
      front_length =
          let room = tree.room in omega (arith, length-take self.stash.path_size self.stash.blocks)

      counted-IsTree : IsTree c (counted self (with_overflow after))
      unfolding with_blocks
      counted-IsTree =
          let front = take self.stash.path_size self.stash.blocks in
          record {
            bucket_size = tree.bucket_size;
            height_fits = tree.height_fits;
            memory_length = tree.memory_length;
            path_length = tree.path_length;
            room = omega (arith, length-append front after, front_length);
            memory_fits = tree.memory_fits;
            stash_fits =
                append-AreBlocks c.k front after
                  (AreBlocks-take c.k self.stash.path_size self.stash.blocks tree.stash_fits) valid;
            buffer_empty =
                subst AreDead (sym (take-append self.stash.path_size front after front_length))
                  tree.buffer_empty;
          }

      counted-total :
          (key : List ℕ)
          → gathered (λ b. b.value) v.add key after
            ≡ included v.add
                (holds key new)
                new.value
                (gathered (λ b. b.value) v.add key (drop self.stash.path_size self.stash.blocks))
          → total key (counted self (with_overflow after))
            ≡ included v.add (holds key new) new.value (total key self)
      unfolding with_blocks
      counted-total key put =
          let value : OramBlock V → V = λ b. b.value in
          let rest = drop self.stash.path_size self.stash.blocks in
          let split = take-append-drop self.stash.path_size self.stash.blocks in
          let memory = gathered value v.add key self.physical_memory in
          let before : total key self ≡ combined v.add memory (gathered value v.add key rest) =
            ap (λ bs. gathered value v.add key (self.physical_memory ++ bs)) (sym split)
            ∙ (gathered-dead_between value v.add comm assoc key self.physical_memory _ rest
                  tree.buffer_empty
                ∙ gathered-append value v.add assoc key self.physical_memory rest) in
          gathered-dead_between value v.add comm assoc key self.physical_memory _ after
            tree.buffer_empty
          ∙ (gathered-append value v.add assoc key self.physical_memory after
              ∙ (ap (combined v.add memory) put
                  ∙ (combined-included v.add comm assoc c.k new fits (holds key new) memory
                        (gathered value v.add key rest)
                      ∙ ap (included v.add (holds key new) new.value) (sym before))))

  -- The tree after the block is in the stash: an eviction, if it is time for one.
  finish_cases :
      (self : ObliviousHistogram V F R) (stash : ObliviousStash V)
      → let t = counted self stash in
        (finish_append_after_insert f r c (record self { stash = stash }) ≡ some t)
        ⊎ (finish_append_after_insert f r c (record self { stash = stash })
            ≡ evict_after_insert f r c t)
  unfolding finish_append_after_insert
  finish_cases self stash =
      elim (Bool-cases (
        is_multiple_of (self.append_ctr + 1) (current_evict_interval f r c (counted self stash)))) [
          | inl time ↦ inr (rw time refl)
          | inr early ↦ inl (rw early refl)
        ]

  add_prepared_inner-total :
      (self : ObliviousHistogram V F R) (tag : ℕ) (value : V) (payload : List ℕ)
      → IsTree c self
      → self.auto_resize ≡ none
      → IsBlock c.k (new_block tag self.epoch value payload)
      → IsAppended self
          (new_block tag self.epoch value payload)
          (add_prepared_inner f r c self tag value payload)
  unfolding IsPlaced add_prepared_inner
  add_prepared_inner-total self tag value payload tree quiet fits =
      let new = new_block tag self.epoch value payload in
      let rest = drop self.stash.path_size self.stash.blocks in
      let rest_fits = AreBlocks-drop c.k self.stash.path_size self.stash.blocks tree.stash_fits in
      let inserted = insert_lem tag self.epoch value payload c.k self.stash rest_fits in
      elim (put_first-IsPlaced v.add comm assoc c.k new fits rest rest_fits) [
        | inl (live, full) ↦ inl (inl live, rw inserted (rw full refl))
        | inr (after, placed, valid, sized, put) ↦
            let stash = with_overflow self tree quiet new fits after in
            let t = counted self stash in
            let put_in : insert self.stash tag self.epoch value payload ≡ some stash =
              rw inserted (rw placed refl) in
            let laid_out = counted-IsTree self tree quiet new fits after valid sized in
            let added : (key : List ℕ)
                → total key t ≡ included v.add (holds key new) value (total key self) =
              λ key. counted-total self tree quiet new fits after valid sized key (put key) in
            elim (finish_cases self stash) [
              | inl early ↦ inr (t, rw put_in early, laid_out, refl, added)
              | inr time ↦ elim (evict_after_insert-total f r c comm assoc t laid_out quiet) [
                | inl (refused, panic) ↦
                    inl (inr (stash, put_in, refused), rw put_in (time ∙ panic))
                | inr (self', eq, laid_out', kept, same) ↦
                    inr (self', rw put_in (time ∙ eq), laid_out', same, λ key. kept key ∙ added key)
              ]
            ]
      ]

  -- `append` on a well-formed tree that does not resize itself adds the value to what the real
  -- blocks of its key add up to, in the tree and in the stash together, and leaves the sums of all
  -- other keys; the tree is well-formed again. Or it panics: if there is no free slot in the stash,
  -- or if at the eviction the stash has as many real blocks without a place on the path as overflow
  -- slots or more. The addition of values is associative and commutative, and the fields of the new
  -- block fit their types; a block whose tag is zero counts for no key.
  pub append-total :
      (self : ObliviousHistogram V F R) (key : List ℕ) (value : V)
      → let new = new_block (prf_tag self.prf key) self.epoch value (copy_prefix c.k key) in
        IsTree c self
        → self.auto_resize ≡ none
        → IsBlock c.k new
        → IsAppended self new (append f r c self key value)
  unfolding append
  append-total self key value tree quiet fits =
      add_prepared_inner-total self (prf_tag self.prf key) value (copy_prefix c.k key) tree quiet
        fits
