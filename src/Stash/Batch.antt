-- ===== src/Stash/Batch.antt =====
-- `insert_batch` against its plain description: the real blocks of the overflow slots and the real
-- updates, in their order.
use roga.Base.{
  ℕ, zero, suc, ◌+◌, ◌-◌, ◌^◌, ◌<◌, ◌≤◌, ◌≡◌, refl, sym, ap, ◌∙◌, arith, true, false, List, [], ◌∷◌,
  ◌++◌, length, take, drop, Option, none, some, if◌then◌else◌, ltb, length-append, length-drop,
  length-take, take-append, drop-append, length-map,
}
use roga.External.{ScalarCmov, OramValue}
use roga.Block.{OramBlock, oram_block_cmov}
use roga.Block.Laws.{AreBlocks, is_live}
use roga.Block.Arrays.{append-AreBlocks}
use roga.Reduction.{block_reducible}
use roga.Reduction.Runs.{dummied}
use roga.Compaction.{mark, compact_marks, compact_payload}
use roga.Compaction.Real.{length-kept, real_blocks, compact_payload-compact_marks}
use roga.Compaction.RoundTrip.{length-compact_payload}
use roga.Stash.{ObliviousStash, insert_batch, prepared, clear_from}
use roga.Stash.Prepared.{
  Update, requested, all_dummied, real-append, real-real, real-dummied, clear_from_lem,
  real-prepared, length-prepared,
}

-- What a batch that had room has done: the overflow slots hold their old real blocks and the real
-- updates, in this order, and no other; the path buffer and the number of slots are the same.
pub record Batched {V : Type 0} (self : ObliviousStash V) (new : List (OramBlock V))
    (result : Option (ObliviousStash V)) : Type 0 where
  pub after : ObliviousStash V
  pub returned : result ≡ some after
  pub held :
      real_blocks (drop self.path_size after.blocks)
      ≡ real_blocks (drop self.path_size self.blocks) ++ new
  pub path_kept : take self.path_size after.blocks ≡ take self.path_size self.blocks
  pub length_kept : length after.blocks ≡ length self.blocks

module _ {V : Type 0} ⦃w : ScalarCmov ℕ⦄ ⦃p : ScalarCmov (List ℕ)⦄ ⦃v : OramValue V⦄ (k : ℕ)
    (self : ObliviousStash V) (count : ℕ) (update_at : ℕ → Update V)
    (valid : AreBlocks k (drop self.path_size self.blocks))
    (valid_updates : AreBlocks k (prepared k count 0 update_at))
    (big : length self.blocks + count < 2 ^ 62) (inside : self.path_size ≤ length self.blocks) where
  overflow : List (OramBlock V)
  overflow = drop self.path_size self.blocks

  room : ℕ
  room = length self.blocks - self.path_size

  scratch : List (OramBlock V)
  scratch = overflow ++ prepared k count 0 update_at

  new : List (OramBlock V)
  new = requested count 0 update_at

  marks : List ℕ
  marks = compact_marks (block_reducible k) scratch self.compact_marks_buf

  length-scratch : length scratch ≡ room + count
  unfolding scratch overflow room
  length-scratch = omega (
    arith,
    length-append (drop self.path_size self.blocks) (prepared k count 0 update_at),
    length-prepared k count 0 update_at,
    length-drop self.path_size self.blocks,
  )

  scratch_real : real_blocks scratch ≡ real_blocks overflow ++ new
  unfolding scratch new
  scratch_real =
      real-append overflow (prepared k count 0 update_at)
      ∙ ap (λ l. real_blocks overflow ++ l) (real-prepared k count 0 update_at)

  compacted :
      (mark marks (length scratch) ≡ length (real_blocks scratch))
      × (take (length (real_blocks scratch)) (compact_payload scratch marks) ≡ real_blocks scratch)
  unfolding scratch marks overflow
  compacted =
      compact_payload-compact_marks k scratch self.compact_marks_buf
        (append-AreBlocks k overflow (prepared k count 0 update_at) valid valid_updates)
        (unfold room in omega (arith, length-scratch))

  live : List (OramBlock V)
  live = real_blocks overflow ++ new

  spare : List (OramBlock V)
  spare = all_dummied (drop (length live) (compact_payload scratch marks))

  live_real : real_blocks live ≡ live
  unfolding live
  live_real = ap real_blocks (sym scratch_real) ∙ real-real scratch ∙ scratch_real

  live_short : length live ≤ length scratch
  unfolding live
  live_short = rw (← scratch_real) (length-kept is_live scratch)

  cleared : clear_from (length live) 0 (compact_payload scratch marks) ≡ live ++ spare
  unfolding live spare
  cleared =
      let sized : length (compact_payload scratch marks) ≡ length scratch =
        length-compact_payload scratch marks in
      let front : take (length live) (compact_payload scratch marks) ≡ live =
        rw (← scratch_real) compacted.1 in
      clear_from_lem (length live) (length live) 0 (compact_payload scratch marks)
        (unfold room in omega (arith, live_short, length-scratch))
        (unfold room in omega (arith, sized, length-scratch)) (omega arith)
      ∙ ap (λ l. l ++ spare) front

  counted : mark marks (room + count) ≡ length live
  unfolding live
  counted = ap (mark marks) (sym length-scratch) ∙ compacted.0 ∙ ap length scratch_real

  after_batch : ObliviousStash V
  after_batch = record {
    blocks = take self.path_size self.blocks ++ take room (live ++ spare);
    path_size = self.path_size;
    sort_keys = self.sort_keys;
    insert_scratch = live ++ spare;
    compact_marks_buf = marks;
    distribute_marks = self.distribute_marks;
  }

  insert_batch_lem :
      insert_batch k self count update_at
      ≡ (if ltb room (length live) then none else some after_batch)
  unfolding insert_batch after_batch marks scratch room overflow
  insert_batch_lem = rw (counted, cleared)

  real-live : (n : ℕ) → length live ≤ n → real_blocks (take n (live ++ spare)) ≡ live
  unfolding spare
  real-live n h =
      let dead = all_dummied (drop (length live) (compact_payload scratch marks)) in
      ap real_blocks (take_past n live dead h)
      ∙ real-append live (take (n - length live) dead)
      ∙ ap (λ l. real_blocks live ++ l)
          (real-dummied (n - length live) (drop (length live) (compact_payload scratch marks)))
      ∙ append_empty (real_blocks live)
      ∙ live_real
    where
      take_past :
          {A : Type 0} (n : ℕ) (xs ys : List A)
          → length xs ≤ n
          → take n (xs ++ ys) ≡ xs ++ take (n - length xs) ys
      take_past n [] ys h = let same : n - 0 ≡ n = omega arith in rw same
      take_past zero (x ∷ xs) ys h = absurd (omega arith)
      take_past (suc n) (x ∷ xs) ys h =
          let same : suc n - suc (length xs) ≡ n - length xs = omega arith in
          rw same (ap (λ l. x ∷ l) (take_past n xs ys (omega arith)))

      append_empty : {A : Type 0} (xs : List A) → xs ++ [] ≡ xs
      append_empty [] = refl
      append_empty (x ∷ xs) = ap (λ l. x ∷ l) (append_empty xs)

  slots_length : length (take room (live ++ spare)) ≡ room
  unfolding spare room
  slots_length =
      let c = compact_payload scratch marks in
      omega (
        arith,
        length-take room (live ++ spare),
        length-append live (all_dummied (drop (length live) c)),
        length-map (drop (length live) c) dummied,
        length-drop (length live) c,
        length-compact_payload scratch marks,
        length-scratch,
        live_short,
      )

  path : List (OramBlock V)
  path = take self.path_size self.blocks

  length-path : length path ≡ self.path_size
  unfolding path
  length-path = omega (arith, length-take self.path_size self.blocks)

  after_held : length live ≤ room → real_blocks (drop self.path_size after_batch.blocks) ≡ live
  unfolding after_batch path
  after_held h =
      ap real_blocks (drop-append self.path_size path (take room (live ++ spare)) length-path)
      ∙ real-live room h

  after_path : take self.path_size after_batch.blocks ≡ path
  unfolding after_batch path
  after_path = take-append self.path_size path (take room (live ++ spare)) length-path

  after_length : length after_batch.blocks ≡ length self.blocks
  unfolding after_batch path room
  after_length =
      omega (arith, length-append path (take room (live ++ spare)), length-path, slots_length)

-- A batch that does not fit, with the old real blocks, into the overflow slots is a panic. The
-- fields of the blocks and updates fit their types, the path buffer lies inside the stash, and there
-- are less than 2 ^ 62 blocks and updates.
pub insert_batch-full :
    {V : Type 0} ⦃w : ScalarCmov ℕ⦄ ⦃p : ScalarCmov (List ℕ)⦄ ⦃v : OramValue V⦄ (k : ℕ)
    (self : ObliviousStash V) (count : ℕ) (update_at : ℕ → Update V)
    → AreBlocks k (drop self.path_size self.blocks)
    → AreBlocks k (prepared k count 0 update_at)
    → length self.blocks + count < 2 ^ 62
    → self.path_size ≤ length self.blocks
    → length self.blocks - self.path_size
      < length (real_blocks (drop self.path_size self.blocks) ++ requested count 0 update_at)
    → insert_batch k self count update_at ≡ none
unfolding live overflow new room
insert_batch-full k self count update_at valid valid_updates big inside full =
    let no_room : ltb (length self.blocks - self.path_size)
          (length (real_blocks (drop self.path_size self.blocks) ++ requested count 0 update_at))
        ≡ true =
      ground arith in
    rw (insert_batch_lem k self count update_at valid valid_updates big inside, no_room)

-- A batch of updates that fits, with the old real blocks, into the overflow slots is inserted: the
-- slots then hold the old real blocks and behind them the real updates, in their order, and no other
-- real block, and the path buffer and the number of slots are the same. The fields of the blocks and
-- updates fit their types, the path buffer lies inside the stash, and there are less than 2 ^ 62
-- blocks and updates.
pub insert_batch-Batched :
    {V : Type 0} ⦃w : ScalarCmov ℕ⦄ ⦃p : ScalarCmov (List ℕ)⦄ ⦃v : OramValue V⦄ (k : ℕ)
    (self : ObliviousStash V) (count : ℕ) (update_at : ℕ → Update V)
    → AreBlocks k (drop self.path_size self.blocks)
    → AreBlocks k (prepared k count 0 update_at)
    → length self.blocks + count < 2 ^ 62
    → self.path_size ≤ length self.blocks
    → length (real_blocks (drop self.path_size self.blocks) ++ requested count 0 update_at)
      ≤ length self.blocks - self.path_size
    → Batched self (requested count 0 update_at) (insert_batch k self count update_at)
unfolding live overflow new room after_batch
insert_batch-Batched k self count update_at valid valid_updates big inside fits = record {
  after = after_batch k self count update_at valid valid_updates big inside;
  returned =
      let has_room : ltb (length self.blocks - self.path_size)
            (length (real_blocks (drop self.path_size self.blocks) ++ requested count 0 update_at))
          ≡ false =
        ground arith in
      rw (insert_batch_lem k self count update_at valid valid_updates big inside, has_room) refl;
  held = after_held k self count update_at valid valid_updates big inside fits;
  path_kept = unfold path in after_path k self count update_at valid valid_updates big inside;
  length_kept = after_length k self count update_at valid valid_updates big inside;
}
