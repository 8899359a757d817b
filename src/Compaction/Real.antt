-- ===== src/Compaction/Real.antt =====
-- `compact_marks` of compaction.rs with `compact_payload`: the places of the real blocks.
use native.Mathlib.Decide.{dec_lt}
use roga.Base.{
  ℕ, zero, suc, ◌+◌, ◌-◌, ◌^◌, ◌<◌, ◌≤◌, ◌≡◌, ◌⊎◌, inl, inr, refl, ap, ◌∙◌, arith, Bool, true,
  false, ◌==◌, if◌then◌else◌, to_bit, List, [], ◌∷◌, length, set, resize, take, get_or, get_elem?,
  Bool-cases, length-set, length-take, length-append, length-replicate, replicate, list_ext,
  get_elem?-take, get_elem?-out, ltb, ==_iff,
}
use roga.External.{ScalarCmov, OramValue}
use roga.Ct.{Cmov}
use roga.Block.{OramBlock, is_real, oram_block_cmov}
use roga.Block.Laws.{AreBlocks, is_live, is_real_lem}
use roga.Reduction.{Reducible, block_reducible}
use roga.Compaction.{mark, compact_payload, compact_marks, compact_marks_loop}
use roga.Compaction.Marks.{IsMarks, rank}
use roga.Compaction.Stable.{get_elem?-compact_payload}

-- The prefix sums of `f` from `sum` on, without the first.
unfoldable pub sums : {T : Type 0} → (T → ℕ) → ℕ → List T → List ℕ
sums f sum [] = []
sums f sum (x ∷ xs) = (sum + f x) ∷ sums f (sum + f x) xs

set_next : {A : Type 0} (a v : A) (m : List A) (i : ℕ) → set (a ∷ m) (i + 1) v ≡ a ∷ set m i v
set_next a v m i = let e : i + 1 ≡ suc i = omega arith in rw e refl

pub first_set : (m : List ℕ) → 0 < length m → get_or (set m 0 0) 0 0 ≡ 0
first_set [] h = absurd (omega arith)
first_set (x ∷ m) h = refl

pub length-resize : {A : Type 0} (n : ℕ) (a : A) (xs : List A) → length (resize n a xs) ≡ n
unfolding resize
length-resize n a xs = omega (
  arith,
  length-append (take n xs) (replicate (n - length xs) a),
  length-take n xs,
  length-replicate (n - length xs) a,
)

module _ {V T : Type 0} (r : Reducible V T) where
  loop_shift :
      (a : ℕ) (records : List T) (i sum : ℕ) (m : List ℕ)
      → compact_marks_loop r records (i + 1) sum (a ∷ m) ≡ a ∷ compact_marks_loop r records i sum m
  unfolding compact_marks_loop
  loop_shift a [] i sum m = refl
  loop_shift a (x ∷ xs) i sum m =
      let s = sum + r.ct_is_real x in
      rw (set_next a s m (i + 1)) (loop_shift a xs (i + 1) s (set m (i + 1) s))

  loop_sums :
      (records : List T) (sum a : ℕ) (m : List ℕ)
      → length m ≡ length records
      → compact_marks_loop r records 0 sum (a ∷ m) ≡ a ∷ sums r.ct_is_real sum records
  unfolding compact_marks_loop sums
  loop_sums [] sum a [] h = refl
  loop_sums [] sum a (y ∷ m) h = absurd (omega arith)
  loop_sums (x ∷ xs) sum a [] h = absurd (omega arith)
  loop_sums (x ∷ xs) sum a (y ∷ m) h =
      let s = sum + r.ct_is_real x in
      rw (loop_shift a xs 0 s (s ∷ m), loop_sums xs s s m (omega arith))

  -- Whatever the buffer held, the marks are 0 and the prefix sums.
  compact_marks_lem :
      (records : List T) (marks : List ℕ)
      → compact_marks r records marks ≡ 0 ∷ sums r.ct_is_real 0 records
  unfolding compact_marks
  compact_marks_lem records marks =
      go (set fitted 0 0)
        (first_set fitted (omega (arith, fits)), omega (arith, length-set fitted 0 0, fits))
    where
      fitted : List ℕ
      fitted =
          if length marks == length records + 1 then marks else resize (length records + 1) 0 marks

      fits : length fitted ≡ length records + 1
      fits = elim (Bool-cases (length marks == length records + 1)) [
        | inl e ↦ rw e ((==_iff (length marks) (length records + 1)).0 e)
        | inr e ↦ rw e (length-resize (length records + 1) 0 marks)
      ]

      go :
          (m : List ℕ)
          → (get_or m 0 0 ≡ 0) × (length m ≡ length records + 1)
          → compact_marks_loop r records 0 0 m ≡ 0 ∷ sums r.ct_is_real 0 records
      go [] (e, h) = absurd (omega arith)
      go (x ∷ m) (e, h) =
          loop_sums records 0 x m (omega arith) ∙ ap (λ y. y ∷ sums r.ct_is_real 0 records) e

-- The entries that a test accepts, and the marks that say so.
module _ {T : Type 0} (live : T → Bool) where
  abbrev pub kept : List T → List T
  kept [] = []
  kept (x ∷ xs) = if live x then x ∷ kept xs else kept xs

  unfoldable pub flags : ℕ → List T → List ℕ
  flags sum xs = sum ∷ sums (λ x. to_bit (live x)) sum xs

  flags_next :
      (sum : ℕ) (x : T) (xs : List T) (i : ℕ)
      → mark (flags sum (x ∷ xs)) (i + 1) ≡ mark (flags (sum + to_bit (live x)) xs) i
  unfolding flags sums
  flags_next sum x xs i = let e : i + 1 ≡ suc i = omega arith in rw e refl

  flags_first : (sum : ℕ) (xs : List T) → mark (flags sum xs) 0 ≡ sum
  unfolding flags
  flags_first sum xs = refl

  flags_shift :
      (sum : ℕ) (x : T) (xs : List T) (i : ℕ)
      → mark (flags sum (x ∷ xs)) (suc i) ≡ mark (flags (sum + to_bit (live x)) xs) i
  unfolding flags sums
  flags_shift sum x xs i = refl

  bit_bound : (b : Bool) → to_bit b ≤ 1
  bit_bound true = omega arith
  bit_bound false = omega arith

  flags_step :
      (sum : ℕ) (xs : List T) (i : ℕ)
      → i < length xs
      → (mark (flags sum xs) (i + 1) ≡ mark (flags sum xs) i)
        ⊎ (mark (flags sum xs) (i + 1) ≡ mark (flags sum xs) i + 1)
  flags_step sum [] i h = absurd (omega arith)
  flags_step sum (x ∷ xs) zero h =
      rw (flags_next sum x xs 0, flags_first (sum + to_bit (live x)) xs, flags_first sum (x ∷ xs))
        (elim (Bool-cases (live x)) [ inl e ↦ rw e (inr refl) | inr e ↦ rw e (inl (omega arith)) ])
  flags_step sum (x ∷ xs) (suc i) h =
      let e : suc i ≡ i + 1 = omega arith in
      rw (flags_next sum x xs (suc i), flags_shift sum x xs i, e)
        (flags_step (sum + to_bit (live x)) xs i (omega arith))

  flags_total : (sum : ℕ) (xs : List T) → mark (flags sum xs) (length xs) ≡ sum + length (kept xs)
  flags_total sum [] = rw (flags_first sum []) (omega arith)
  flags_total sum (x ∷ xs) =
      rw (flags_shift sum x xs (length xs), flags_total (sum + to_bit (live x)) xs)
        (elim (Bool-cases (live x)) [ inl e ↦ rw e (omega arith) | inr e ↦ rw e (omega arith) ])

  pub length-kept : (xs : List T) → length (kept xs) ≤ length xs
  length-kept [] = omega arith
  length-kept (x ∷ xs) =
      let ih = length-kept xs in
      elim (Bool-cases (live x)) [ inl e ↦ rw e (omega arith) | inr e ↦ rw e (omega arith) ]

  pub flags-IsMarks : (xs : List T) → length xs < 2 ^ 64 → IsMarks (length xs) (flags 0 xs)
  flags-IsMarks xs h = record {
    step = λ i k. flags_step 0 xs i k;
    bounded = omega (arith, flags_total 0 xs, length-kept xs);
  }

  -- Where a kept entry comes from.
  record Origin (sum : ℕ) (xs : List T) (j : ℕ) : Type 0 where
    index : ℕ
    inside : index < length xs
    marked : mark (flags sum xs) (index + 1) ≡ mark (flags sum xs) index + 1
    place : mark (flags sum xs) index ≡ sum + j
    entry : get_elem? (kept xs) j ≡ get_elem? xs index

  later :
      (sum : ℕ) (x : T) (xs : List T) (j j' : ℕ)
      → sum + to_bit (live x) + j ≡ sum + j'
      → get_elem? (kept (x ∷ xs)) j' ≡ get_elem? (kept xs) j
      → Origin (sum + to_bit (live x)) xs j
      → Origin sum (x ∷ xs) j'
  later sum x xs j j' e f o = record {
    index = o.index + 1;
    inside = let h = o.inside in omega arith;
    marked = rw (flags_next sum x xs (o.index + 1), flags_next sum x xs o.index) o.marked;
    place = rw (flags_next sum x xs o.index) (o.place ∙ e);
    entry = let s : o.index + 1 ≡ suc o.index = omega arith in rw s (f ∙ o.entry);
  }

  first : (sum : ℕ) (x : T) (xs : List T) → live x ≡ true → Origin sum (x ∷ xs) 0
  first sum x xs e = record {
    index = 0;
    inside = omega arith;
    marked =
        rw
          (
            flags_next sum x xs 0,
            flags_first (sum + to_bit (live x)) xs,
            flags_first sum (x ∷ xs),
            e,
          )
          refl;
    place = rw (flags_first sum (x ∷ xs)) (omega arith);
    entry = rw e refl;
  }

  origin : (sum : ℕ) (xs : List T) (j : ℕ) → j < length (kept xs) → Origin sum xs j
  origin sum [] j h = absurd (omega arith)
  origin sum (x ∷ xs) zero h = elim (Bool-cases (live x)) [
    | inl e ↦ first sum x xs e
    | inr e ↦
        later sum x xs 0 0 (rw e (omega arith)) (rw e refl)
          (origin (sum + to_bit (live x)) xs 0 (rw e at h))
  ]
  origin sum (x ∷ xs) (suc j) h = elim (Bool-cases (live x)) [
    | inl e ↦
        let fewer : suc j < suc (length (kept xs)) = (rw e at h) in
        later sum x xs j (suc j) (rw e (omega arith)) (rw e refl)
          (origin (sum + to_bit (live x)) xs j (omega arith))
    | inr e ↦
        later sum x xs (suc j) (suc j) (rw e (omega arith)) (rw e refl)
          (origin (sum + to_bit (live x)) xs (suc j) (rw e at h))
  ]

  kept-compact_payload :
      ⦃m : Cmov T⦄ (xs : List T)
      → length xs < 2 ^ 62
      → take (length (kept xs)) (compact_payload xs (flags 0 xs)) ≡ kept xs
  kept-compact_payload xs big = list_ext _ _ (λ j. elim (dec_lt j (length (kept xs))) [
    | no n ↦
        let out : ltb j (length (kept xs)) ≡ false = ground arith in
        rw
          (
            get_elem?-take (length (kept xs)) (compact_payload xs (flags 0 xs)) j,
            out,
            get_elem?-out (kept xs) j (omega arith),
          )
          refl
    | yes y ↦
        let in_range : ltb j (length (kept xs)) ≡ true = ground arith in
        let o = origin 0 xs j y in
        let placed : rank (flags 0 xs) o.index ≡ j = omega (arith, o.place, flags_first 0 xs) in
        rw
          (
            get_elem?-take (length (kept xs)) (compact_payload xs (flags 0 xs)) j,
            in_range,
            o.entry,
            ← placed,
          )
          (get_elem?-compact_payload xs (flags 0 xs) o.index big (flags-IsMarks xs (omega arith))
            o.inside o.marked)
  ])

-- The real blocks.
abbrev pub real_blocks : {V : Type 0} → List (OramBlock V) → List (OramBlock V)
real_blocks blocks = kept is_live blocks

module _ {V : Type 0} ⦃w : ScalarCmov ℕ⦄ (k : ℕ) where
  sums-flags :
      (sum : ℕ) (blocks : List (OramBlock V))
      → AreBlocks k blocks
      → (sum ∷ sums is_real sum blocks) ≡ flags is_live sum blocks
  unfolding flags sums
  sums-flags sum [] h = refl
  sums-flags sum (b ∷ bs) (p, ps) =
      rw (is_real_lem k b p) (ap (λ l. sum ∷ l) (sums-flags (sum + to_bit (is_live b)) bs ps))

  compact_marks-flags :
      (blocks : List (OramBlock V)) (marks : List ℕ)
      → AreBlocks k blocks
      → compact_marks (block_reducible k) blocks marks ≡ flags is_live 0 blocks
  compact_marks-flags blocks marks h =
      compact_marks_lem (block_reducible k) blocks marks
      ∙ unfold block_reducible in sums-flags 0 blocks h

  -- Marked by `compact_marks` and compacted by `compact_payload`, an array of blocks starts with its
  -- real blocks, in their order, and the last mark is their number, whatever the buffer of marks
  -- held before, if the fields of the blocks fit their types and there are less than 2 ^ 62 blocks.
  pub compact_payload-compact_marks :
      ⦃p : ScalarCmov (List ℕ)⦄ ⦃v : OramValue V⦄ (blocks : List (OramBlock V)) (marks : List ℕ)
      → AreBlocks k blocks
      → length blocks < 2 ^ 62
      → let marks' = compact_marks (block_reducible k) blocks marks in
        (mark marks' (length blocks) ≡ length (real_blocks blocks))
        × (take (length (real_blocks blocks)) (compact_payload blocks marks') ≡ real_blocks blocks)
  compact_payload-compact_marks blocks marks h big =
      rw (compact_marks-flags blocks marks h)
        (flags_total is_live 0 blocks ∙ omega arith, kept-compact_payload is_live blocks big)
