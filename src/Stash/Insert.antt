-- ===== src/Stash/Insert.antt =====
-- `insert` against its plain description: the first free overflow slot takes the block.
use roga.Base.{
  ℕ, suc, ◌+◌, ◌<◌, ◌≤◌, ◌≡◌, refl, sym, ap, ◌∙◌, arith, Bool, true, false, List, [], ◌∷◌, ◌++◌,
  length, take, drop, Option, none, some, if◌then◌else◌, to_bit, Bool-cases, inl, inr, Option-cases,
  take-append, drop-append, length-take, length-drop,
}
use roga.External.{ScalarCmov, OramValue}
use roga.Ct.{ct_not}
use roga.Block.{OramBlock}
use roga.Block.Laws.{IsBlock, AreBlocks, is_live, is_real_lem}
use roga.Stash.{ObliviousStash, insert, insert_loop, occupancy, sum_real, with_blocks}

module _ {V : Type 0} where
  -- The first dummy is replaced; `none` if there is none.
  unfoldable pub put_first : OramBlock V → List (OramBlock V) → Option (List (OramBlock V))
  put_first new [] = none
  put_first new (b ∷ bs) =
      let later = put_first new bs in
      if is_live b then elim later [ none ↦ none | some bs' ↦ some (b ∷ bs') ] else some (new ∷ bs)

  count_real : List (OramBlock V) → ℕ
  count_real [] = 0
  count_real (b ∷ bs) = to_bit (is_live b) + count_real bs

module _ {V : Type 0} ⦃w : ScalarCmov ℕ⦄ ⦃p : ScalarCmov (List ℕ)⦄ ⦃v : OramValue V⦄ (tag epoch : ℕ)
    (value : V) (payload : List ℕ) where
  abbrev pub new_block : OramBlock V
  new_block = record { tag = tag; epoch = epoch; value = value; payload = payload }

  -- A slot of the loop.
  slot :
      (k : ℕ) (b : OramBlock V) (bs : List (OramBlock V)) (placed : Bool)
      → IsBlock k b
      → insert_loop tag epoch value payload (to_bit placed) (b ∷ bs) ≡ (
          let rest =
            insert_loop tag epoch value payload (to_bit (if is_live b then placed else true)) bs in
          ((if is_live b then b else if placed then b else new_block) ∷ rest.0, rest.1))
  unfolding insert_loop ct_not
  slot k b bs true h = rw (is_real_lem k b h) (elim (Bool-cases (is_live b)) [
    | inl e ↦ rw (
      e,
      w.cmovnz_lem b.tag tag 0,
      w.cmovnz_lem b.epoch epoch 0,
      v.scalar.cmovnz_lem b.value value 0,
      p.cmovnz_lem b.payload payload 0,
    )
    | inr e ↦ rw (
      e,
      w.cmovnz_lem b.tag tag 0,
      w.cmovnz_lem b.epoch epoch 0,
      v.scalar.cmovnz_lem b.value value 0,
      p.cmovnz_lem b.payload payload 0,
    )
  ])
  slot k b bs false h = rw (is_real_lem k b h) (elim (Bool-cases (is_live b)) [
    | inl e ↦ rw (
      e,
      w.cmovnz_lem b.tag tag 0,
      w.cmovnz_lem b.epoch epoch 0,
      v.scalar.cmovnz_lem b.value value 0,
      p.cmovnz_lem b.payload payload 0,
    )
    | inr e ↦ rw (
      e,
      w.cmovnz_lem b.tag tag 1,
      w.cmovnz_lem b.epoch epoch 1,
      v.scalar.cmovnz_lem b.value value 1,
      p.cmovnz_lem b.payload payload 1,
    )
  ])

  loop_end : (placed : ℕ) → insert_loop tag epoch value payload placed [] ≡ ([], placed)
  unfolding insert_loop
  loop_end placed = refl

  -- Once the block is placed the loop changes nothing.
  loop_placed :
      (k : ℕ) (bs : List (OramBlock V))
      → AreBlocks k bs
      → insert_loop tag epoch value payload 1 bs ≡ (bs, 1)
  loop_placed k [] h = loop_end 1
  loop_placed k (b ∷ bs) (h, hs) = slot k b bs true h ∙ elim (Bool-cases (is_live b)) [
    | inl e ↦ rw (e, loop_placed k bs hs)
    | inr e ↦ rw (e, loop_placed k bs hs)
  ]

  -- Otherwise it puts the block into the first dummy, and the flag says whether there was one.
  loop_free :
      (k : ℕ) (bs : List (OramBlock V))
      → AreBlocks k bs
      → insert_loop tag epoch value payload 0 bs
        ≡ (elim (put_first new_block bs) [ none ↦ (bs, 0) | some bs' ↦ (bs', 1) ])
  unfolding put_first
  loop_free k [] h = loop_end 0
  loop_free k (b ∷ bs) (h, hs) = slot k b bs false h ∙ elim (Bool-cases (is_live b)) [
    | inl e ↦
        rw (e, loop_free k bs hs)
          (elim (Option-cases (put_first new_block bs)) [ inl f ↦ rw f | inr (c, f) ↦ rw f ])
    | inr e ↦ rw (e, loop_placed k bs hs)
  ]

  pub insert_lem :
      (k : ℕ) (self : ObliviousStash V)
      → AreBlocks k (drop self.path_size self.blocks)
      → insert self tag epoch value payload
        ≡ (elim (put_first new_block (drop self.path_size self.blocks)) [
          | none ↦ none
          | some overflow ↦ some (with_blocks self (take self.path_size self.blocks ++ overflow))
        ])
  unfolding insert
  insert_lem k self h =
      let free = drop self.path_size self.blocks in
      rw (loop_free k free h)
        (elim (Option-cases (put_first new_block free)) [ inl f ↦ rw f | inr (c, f) ↦ rw f ])

-- The number of real blocks, through `put_first`.
module _ {V : Type 0} where
  sum_real_lem : (k : ℕ) (bs : List (OramBlock V)) → AreBlocks k bs → sum_real bs ≡ count_real bs
  unfolding sum_real count_real
  sum_real_lem k [] h = refl
  sum_real_lem k (b ∷ bs) (h, hs) = rw (is_real_lem k b h, sum_real_lem k bs hs)

  count_step :
      (b : OramBlock V) (bs : List (OramBlock V))
      → count_real (b ∷ bs) ≡ to_bit (is_live b) + count_real bs
  unfolding count_real
  count_step b bs = refl

  count_bound : (bs : List (OramBlock V)) → count_real bs ≤ length bs
  unfolding count_real
  count_bound [] = omega arith
  count_bound (b ∷ bs) =
      let ih = count_bound bs in
      elim (Bool-cases (is_live b)) [ inl e ↦ rw e (omega arith) | inr e ↦ rw e (omega arith) ]

  put_first-full :
      (new : OramBlock V) (bs : List (OramBlock V))
      → count_real bs ≡ length bs
      → put_first new bs ≡ none
  unfolding put_first
  put_first-full new [] h = refl
  put_first-full new (b ∷ bs) h = elim (Bool-cases (is_live b)) [
    | inl e ↦
        let fewer : 1 + count_real bs ≡ suc (length bs) = rw (count_step b bs, e) at h in
        rw (e, put_first-full new bs (omega arith))
    | inr e ↦
        let fewer : 0 + count_real bs ≡ suc (length bs) = rw (count_step b bs, e) at h in
        absurd (omega (arith, count_bound bs))
  ]

  record Placed (k : ℕ) (new : OramBlock V) (bs : List (OramBlock V)) : Type 0 where
    after : List (OramBlock V)
    placed : put_first new bs ≡ some after
    counted : count_real after ≡ count_real bs + to_bit (is_live new)
    valid : AreBlocks k after
    sized : length after ≡ length bs

  behind :
      (k : ℕ) (new b : OramBlock V) (bs : List (OramBlock V))
      → IsBlock k b
      → is_live b ≡ true
      → Placed k new bs
      → Placed k new (b ∷ bs)
  unfolding put_first
  behind k new b bs h e rest = record {
    after = b ∷ rest.after;
    placed = rw (e, rest.placed);
    counted = omega (arith, count_step b rest.after, count_step b bs, rest.counted);
    valid = (h, rest.valid);
    sized = ap suc rest.sized;
  }

  put_first-Placed :
      (k : ℕ) (new : OramBlock V) (bs : List (OramBlock V))
      → IsBlock k new
      → AreBlocks k bs
      → count_real bs < length bs
      → Placed k new bs
  unfolding put_first
  put_first-Placed k new [] g h lt = absurd (omega arith)
  put_first-Placed k new (b ∷ bs) g (h, hs) lt = elim (Bool-cases (is_live b)) [
    | inl e ↦
        let fewer : 1 + count_real bs < suc (length bs) = rw (count_step b bs, e) at lt in
        behind k new b bs h e (put_first-Placed k new bs g hs (omega arith))
    | inr e ↦ record {
      after = new ∷ bs;
      placed = rw e;
      counted = rw (count_step new bs, count_step b bs, e) (omega arith);
      valid = (g, hs);
      sized = refl;
    }
  ]

  -- What an insertion that had room has done: one more real block, if the new one is real, and the
  -- same path buffer.
  pub record Inserted (self : ObliviousStash V) (new : OramBlock V)
      (result : Option (ObliviousStash V)) : Type 0 where
    pub after : ObliviousStash V
    pub returned : result ≡ some after
    pub counted : occupancy after ≡ occupancy self + to_bit (is_live new)
    pub path_kept : take self.path_size after.blocks ≡ take self.path_size self.blocks
    pub length_kept :
        length (drop self.path_size after.blocks) ≡ length (drop self.path_size self.blocks)

  occupancy_lem :
      (k : ℕ) (self : ObliviousStash V)
      → AreBlocks k (drop self.path_size self.blocks)
      → occupancy self ≡ count_real (drop self.path_size self.blocks)
  unfolding occupancy
  occupancy_lem k self h = sum_real_lem k (drop self.path_size self.blocks) h

module _ {V : Type 0} ⦃w : ScalarCmov ℕ⦄ ⦃p : ScalarCmov (List ℕ)⦄ ⦃v : OramValue V⦄ where
  -- If every overflow slot holds a real block, `insert` panics, if the fields of the blocks fit
  -- their types.
  pub insert-full :
      (k tag epoch : ℕ) (value : V) (payload : List ℕ) (self : ObliviousStash V)
      → AreBlocks k (drop self.path_size self.blocks)
      → occupancy self ≡ length (drop self.path_size self.blocks)
      → insert self tag epoch value payload ≡ none
  insert-full k tag epoch value payload self h full = rw (
    insert_lem tag epoch value payload k self h,
    put_first-full (new_block tag epoch value payload) (drop self.path_size self.blocks)
        (sym (occupancy_lem k self h) ∙ full),
  )

  -- With a free overflow slot `insert` returns a stash that has one more real block in the overflow
  -- slots, if the new tag is not zero, and the same path buffer and number of slots, if the fields
  -- of the blocks fit their types.
  pub insert-Inserted :
      (k tag epoch : ℕ) (value : V) (payload : List ℕ) (self : ObliviousStash V)
      → IsBlock k (new_block tag epoch value payload)
      → AreBlocks k (drop self.path_size self.blocks)
      → occupancy self < length (drop self.path_size self.blocks)
      → Inserted self (new_block tag epoch value payload) (insert self tag epoch value payload)
  insert-Inserted k tag epoch value payload self g h room = record {
    after = with_blocks self (path ++ o.after);
    returned = rw (insert_lem tag epoch value payload k self h, o.placed);
    counted =
        unfold occupancy with_blocks in
        rw (
          drop-append self.path_size path o.after fit,
          sum_real_lem k o.after o.valid,
          o.counted,
          sum_real_lem k free h,
        );
    path_kept = unfold with_blocks in take-append self.path_size path o.after fit;
    length_kept =
        unfold with_blocks in ap length (drop-append self.path_size path o.after fit) ∙ o.sized;
  }
    where
      free : List (OramBlock V)
      free = drop self.path_size self.blocks

      path : List (OramBlock V)
      path = take self.path_size self.blocks

      fit : length path ≡ self.path_size
      fit = omega (
        arith,
        length-take self.path_size self.blocks,
        length-drop self.path_size self.blocks,
        room,
      )

      o : Placed k (new_block tag epoch value payload) free
      o =
          put_first-Placed k (new_block tag epoch value payload) free g h
            (omega (arith, occupancy_lem k self h, room))
