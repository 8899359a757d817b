-- ===== src/Router/Marks.antt =====
-- The marks by which a batch is spread over the slots of the shards.
use roga.Base.{
  ℕ, ◌*◌, ◌^◌, ◌<◌, ◌≡◌, sym, ap, ◌∙◌, arith, Bool, List, [], ◌∷◌, ◌++◌, length, set, length-set,
  length-append,
}
use roga.Compaction.Marks.{IsMarks}
use roga.Compaction.Real.{flags, flags-IsMarks, first_set}
use roga.Stash.Eviction.Levels.{AreAtMost}
use roga.Stash.Eviction.Layout.{
  slot_bits, written, written_none, written-append, slot_loop-written, from_first, buffer,
  length-buffer, length-slot_bits,
}
use roga.Router.{quota_loop, build_distribute_marks_router}

-- Of the slots of each shard the first ones, as many as its count.
unfoldable pub shard_bits : ℕ → List ℕ → List Bool
unfolding slot_bits
shard_bits quota [] = []
shard_bits quota (count ∷ counts) = slot_bits quota 0 count ++ shard_bits quota counts

length-shard_bits :
    (quota : ℕ) (counts : List ℕ) → length (shard_bits quota counts) ≡ length counts * quota
unfolding shard_bits
length-shard_bits quota [] = omega arith
length-shard_bits quota (c ∷ cs) = grind (
  arith,
  length-append (slot_bits quota 0 c) (shard_bits quota cs),
  length-slot_bits quota 0 c,
  length-shard_bits quota cs,
)

quota_loop-written :
    (quota : ℕ) (counts : List ℕ) (state : ℕ × ℕ × List ℕ)
    → quota < 2 ^ 64
    → AreAtMost quota counts
    → quota_loop quota counts state ≡ written (shard_bits quota counts) state
unfolding quota_loop shard_bits
quota_loop-written quota [] state h a = sym (written_none state)
quota_loop-written quota (c ∷ cs) state h (a, rest) =
    let bits = slot_bits quota 0 c in
    ap (quota_loop quota cs) (slot_loop-written quota 0 c state (omega arith) (omega arith))
    ∙ quota_loop-written quota cs (written bits state) h rest
    ∙ sym (written-append bits (shard_bits quota cs) state)

-- Whatever the buffer held, the marks of the router are 0 and the prefix sums of the slots of the
-- shards, of which each shard's first are taken, as many as its count; so they are marks that a
-- distribution accepts. No shard has more blocks than its quota, there are as many slots as shards
-- times the quota, and the numbers are words.
pub build_distribute_marks_router_lem :
    (marks counts : List ℕ) (quota len : ℕ)
    → quota < 2 ^ 64
    → AreAtMost quota counts
    → len < 2 ^ 64
    → length counts * quota ≡ len
    → let marks' = build_distribute_marks_router marks counts quota len in
      (marks' ≡ flags (λ b. b) 0 (shard_bits quota counts)) × IsMarks len marks'
unfolding build_distribute_marks_router buffer
build_distribute_marks_router_lem marks counts quota len hq ha hl sized = (equal, rw equal is_marks)
  where
    bits : List Bool
    bits = shard_bits quota counts

    all : length bits ≡ len
    all = length-shard_bits quota counts ∙ sized

    start : ℕ × ℕ × List ℕ
    start = (1, 0, set (buffer marks len) 0 0)

    equal : (quota_loop quota counts start).2 ≡ flags (λ b. b) 0 bits
    equal =
        ap (λ s. s.2) (quota_loop-written quota counts start hq ha)
        ∙ from_first bits (set (buffer marks len) 0 0)
            (first_set (buffer marks len) (omega (arith, length-buffer marks len)))
            (omega (arith, length-set (buffer marks len) 0 0, length-buffer marks len, all))

    is_marks : IsMarks len (flags (λ b. b) 0 bits)
    is_marks = rw all at (flags-IsMarks (λ b. b) bits (omega (arith, all)))
