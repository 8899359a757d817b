-- ===== src/Stash/Eviction/Layout.antt =====
-- The marks of the layout that `write_to_path` and the shard router spread blocks by: of each group of
-- slots the first ones, as many as the group's count.
use roga.Base.{
  ℕ, zero, suc, ◌+◌, ◌-◌, ◌*◌, ◌^◌, ◌<◌, ◌≤◌, ◌≡◌, refl, sym, ap, ◌∙◌, arith, Bool, List, [], ◌∷◌,
  ◌++◌, ltb, ◌==◌, ==_iff, if◌then◌else◌, to_bit, Bool-cases, inl, inr, length, set, get_or, resize,
  length-set, length-append,
}
use roga.Ct.Compare.{ct_lt_lem}
use roga.Compaction.Marks.{IsMarks}
use roga.Compaction.Real.{sums, flags, flags-IsMarks, length-resize, first_set}
use roga.Stash.Eviction.{slot_loop, layout_loop, build_leaf_to_root_layout_marks}
use roga.Stash.Eviction.Levels.{AreAtMost}

-- The slots from `slot` on that a count of blocks takes.
unfoldable pub slot_bits : ℕ → ℕ → ℕ → List Bool
slot_bits zero slot count = []
slot_bits (suc n) slot count = ltb slot count ∷ slot_bits n (slot + 1) count

-- The slots of the levels below the second argument, the deepest first.
unfoldable pub level_bits : ℕ → ℕ → List ℕ → List Bool
level_bits z zero counts = []
level_bits z (suc level) counts = slot_bits z 0 (get_or counts level 0) ++ level_bits z level counts

-- The marks of some bits, written from an index on.
pub written : List Bool → ℕ × ℕ × List ℕ → ℕ × ℕ × List ℕ
written [] state = state
written (b ∷ bits) (i, s, m) = written bits (i + 1, s + to_bit b, set m i (s + to_bit b))

pub written_none : (state : ℕ × ℕ × List ℕ) → written [] state ≡ state
unfolding written
written_none state = refl

pub written-append :
    (xs ys : List Bool) (state : ℕ × ℕ × List ℕ)
    → written (xs ++ ys) state ≡ written ys (written xs state)
unfolding written
written-append [] ys state = refl
written-append (x ∷ xs) ys (i, s, m) =
    written-append xs ys (i + 1, s + to_bit x, set m i (s + to_bit x))

pub slot_loop-written :
    (n slot count : ℕ) (state : ℕ × ℕ × List ℕ)
    → slot + n < 2 ^ 64
    → count < 2 ^ 64
    → slot_loop n slot count state ≡ written (slot_bits n slot count) state
unfolding slot_loop written slot_bits
slot_loop-written zero slot count (i, s, m) h c = refl
slot_loop-written (suc n) slot count (i, s, m) h c = rw (ct_lt_lem slot count (omega arith) c) (
    slot_loop-written n (slot + 1) count
      (i + 1, s + to_bit (ltb slot count), set m i (s + to_bit (ltb slot count))) (omega arith) c)

pub count_fits :
    (z : ℕ) (counts : List ℕ) (i : ℕ) → z < 2 ^ 64 → AreAtMost z counts → get_or counts i 0 < 2 ^ 64
count_fits z [] i h a = omega arith
count_fits z (c ∷ cs) zero h (a, rest) = omega arith
count_fits z (c ∷ cs) (suc i) h (a, rest) = count_fits z cs i h rest

layout_loop-written :
    (z level : ℕ) (counts : List ℕ) (state : ℕ × ℕ × List ℕ)
    → z < 2 ^ 64
    → AreAtMost z counts
    → layout_loop z level counts state ≡ written (level_bits z level counts) state
unfolding layout_loop level_bits
layout_loop-written z zero counts state h a = unfold written in refl
layout_loop-written z (suc level) counts state h a =
    let bits = slot_bits z 0 (get_or counts level 0) in
    ap (layout_loop z level counts) (
      slot_loop-written z 0 (get_or counts level 0) state (omega arith)
        (count_fits z counts level h a))
    ∙ layout_loop-written z level counts (written bits state) h a
    ∙ sym (written-append bits (level_bits z level counts) state)

set_next : (a v : ℕ) (m : List ℕ) (i : ℕ) → set (a ∷ m) (i + 1) v ≡ a ∷ set m i v
set_next a v m i = let e : i + 1 ≡ suc i = omega arith in rw e refl

written_step :
    (b : Bool) (bits : List Bool) (i s : ℕ) (m : List ℕ)
    → written (b ∷ bits) (i, s, m) ≡ written bits (i + 1, s + to_bit b, set m i (s + to_bit b))
unfolding written
written_step b bits i s m = refl

written-shift :
    (bits : List Bool) (i s a : ℕ) (m : List ℕ)
    → (written bits (i + 1, s, a ∷ m)).2 ≡ a ∷ (written bits (i, s, m)).2
written-shift [] i s a m = unfold written in refl
written-shift (b ∷ bits) i s a m =
    rw
      (
        written_step b bits (i + 1) s (a ∷ m),
        written_step b bits i s m,
        set_next a (s + to_bit b) m i,
      )
      (written-shift bits (i + 1) (s + to_bit b) a (set m i (s + to_bit b)))

written-flags :
    (bits : List Bool) (s a : ℕ) (m : List ℕ)
    → length m ≡ length bits
    → (written bits (0 + 1, s, a ∷ m)).2 ≡ a ∷ sums to_bit s bits
unfolding sums
written-flags [] s a [] h = unfold written in refl
written-flags [] s a (y ∷ m) h = absurd (omega arith)
written-flags (b ∷ bits) s a [] h = absurd (omega arith)
written-flags (b ∷ bits) s a (y ∷ m) h =
    let t = s + to_bit b in
    rw (written_step b bits (0 + 1) s (a ∷ y ∷ m), set_next a t (y ∷ m) 0)
      (written-shift bits (0 + 1) t a (t ∷ m)
        ∙ ap (λ l. a ∷ l) (written-flags bits t t m (omega arith)))

pub length-slot_bits : (n slot count : ℕ) → length (slot_bits n slot count) ≡ n
unfolding slot_bits
length-slot_bits zero slot count = refl
length-slot_bits (suc n) slot count = ap suc (length-slot_bits n (slot + 1) count)

length-level_bits : (z level : ℕ) (counts : List ℕ) → length (level_bits z level counts) ≡ level * z
unfolding level_bits
length-level_bits z zero counts = omega arith
length-level_bits z (suc level) counts =
    let bits = slot_bits z 0 (get_or counts level 0) in
    grind (
      arith,
      length-append bits (level_bits z level counts),
      length-slot_bits z 0 (get_or counts level 0),
      length-level_bits z level counts,
    )

-- The slots of a path and of the overflow behind it.
unfoldable pub layout_bits : ℕ → List ℕ → ℕ → ℕ → List Bool
unfolding level_bits slot_bits
layout_bits z counts overflow_count room =
    level_bits z (length counts) counts ++ slot_bits room 0 overflow_count

-- Any buffer whose first mark is zero and that has the right length.
pub from_first :
    (bits : List Bool) (m : List ℕ)
    → get_or m 0 0 ≡ 0
    → length m ≡ length bits + 1
    → (written bits (1, 0, m)).2 ≡ flags (λ b. b) 0 bits
from_first bits [] e h = absurd (omega arith)
from_first bits (x ∷ m) e h =
    let one : 1 ≡ 0 + 1 = omega arith in
    unfold flags in (written-flags bits 0 x m (omega arith) ∙ ap (λ y. y ∷ sums to_bit 0 bits) e)

-- The buffer that the functions start from.
module _ (marks : List ℕ) (n : ℕ) where
  unfoldable pub buffer : List ℕ
  buffer = if length marks == n + 1 then marks else resize (n + 1) 0 marks

  pub length-buffer : length buffer ≡ n + 1
  unfolding buffer
  length-buffer = elim (Bool-cases (length marks == n + 1)) [
    | inl e ↦ rw e ((==_iff (length marks) (n + 1)).0 e)
    | inr e ↦ rw e (length-resize (n + 1) 0 marks)
  ]

-- Whatever the buffer held, the layout marks are 0 and the prefix sums of the slots of the levels,
-- the deepest first, and of the overflow behind them, of which each group's first slots are taken,
-- as many as its count; so they are marks that a distribution accepts. No level has more than `z`
-- blocks, the path buffer has `z` slots for each level and lies inside the stash, and the numbers
-- are words.
pub build_leaf_to_root_layout_marks_lem :
    (z : ℕ) (marks counts : List ℕ) (overflow_count path_size len : ℕ)
    → z < 2 ^ 64
    → AreAtMost z counts
    → overflow_count < 2 ^ 64
    → len < 2 ^ 64
    → path_size ≤ len
    → length counts * z ≡ path_size
    → let layout = build_leaf_to_root_layout_marks z marks counts overflow_count path_size len in
      (layout ≡ flags (λ b. b) 0 (layout_bits z counts overflow_count (len - path_size)))
      × IsMarks len layout
unfolding build_leaf_to_root_layout_marks layout_bits buffer
build_leaf_to_root_layout_marks_lem z marks counts overflow_count path_size len hz ha ho hl inside
      sized =
    (equal, rw equal is_marks)
  where
    levels : List Bool
    levels = level_bits z (length counts) counts

    room : List Bool
    room = slot_bits (len - path_size) 0 overflow_count

    all : length (levels ++ room) ≡ len
    all = omega (
      arith,
      length-append levels room,
      length-level_bits z (length counts) counts,
      length-slot_bits (len - path_size) 0 overflow_count,
    )

    start : ℕ × ℕ × List ℕ
    start = (1, 0, set (buffer marks len) 0 0)

    equal :
        (slot_loop
          (len - path_size)
          0
          overflow_count
          (layout_loop z (length counts) counts start)).2
        ≡ flags (λ b. b) 0 (levels ++ room)
    equal =
        ap (λ s. (slot_loop (len - path_size) 0 overflow_count s).2)
          (layout_loop-written z (length counts) counts start hz ha)
        ∙ ap (λ s. s.2)
            (slot_loop-written (len - path_size) 0 overflow_count (written levels start)
              (omega arith) ho)
        ∙ ap (λ s. s.2) (sym (written-append levels room start))
        ∙ from_first (levels ++ room) (set (buffer marks len) 0 0)
            (first_set (buffer marks len) (omega (arith, length-buffer marks len)))
            (omega (arith, length-set (buffer marks len) 0 0, length-buffer marks len, all))

    is_marks : IsMarks len (flags (λ b. b) 0 (levels ++ room))
    is_marks = rw all at (flags-IsMarks (λ b. b) (levels ++ room) (omega (arith, all)))
