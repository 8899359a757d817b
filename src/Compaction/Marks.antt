-- ===== src/Compaction/Marks.antt =====
-- Marks: the prefix sums that say which entries of an array are marked.
use roga.Base.{
  ℕ, zero, suc, ◌+◌, ◌-◌, ◌^◌, ◌<◌, ◌≤◌, ◌≡◌, ◌⊎◌, arith, List, take, drop, get_or-take,
  get_or-drop,
}
use roga.Compaction.{mark}

-- The marks of `n` entries go up by at most one at each entry, and fit a word.
pub record IsMarks (n : ℕ) (p : List ℕ) : Type 0 where
  pub step : (i : ℕ) → i < n → (mark p (i + 1) ≡ mark p i) ⊎ (mark p (i + 1) ≡ mark p i + 1)
  pub bounded : mark p n < 2 ^ 64

-- The entry `i` is marked.
abbrev pub IsMarked : List ℕ → ℕ → Type 0
IsMarked p i = mark p (i + 1) ≡ mark p i + 1

-- How many marked entries stand before the entry `i`.
abbrev pub rank : List ℕ → ℕ → ℕ
rank p i = mark p i - mark p 0

module _ {n : ℕ} {p : List ℕ} (v : IsMarks n p) where
  between_steps :
      (k i j : ℕ) → i + k ≡ j → j ≤ n → (mark p i ≤ mark p j) × (mark p j ≤ mark p i + k)
  between_steps zero i j e h = let same : i ≡ j = omega arith in rw same (omega arith)
  between_steps (suc k) i j e h =
      let last : i + k + 1 ≡ j = omega arith in
      let ih = between_steps k i (i + k) (omega arith) (omega arith) in
      let s = v.step (i + k) (omega arith) in rw (← last) (ground (arith, ih, s))

  -- Between two entries the marks grow, and by no more than their distance.
  pub mark_between :
      (i j : ℕ) → i ≤ j → j ≤ n → (mark p i ≤ mark p j) × (mark p j ≤ mark p i + (j - i))
  mark_between i j a b = between_steps (j - i) i j (omega arith) b

  pub mark-lt : (i : ℕ) → i ≤ n → mark p i < 2 ^ 64
  mark-lt i h = omega (arith, mark_between i n h (omega arith), v.bounded)

  pub take-IsMarks : (k : ℕ) → k ≤ n → IsMarks k (take (k + 1) p)
  take-IsMarks k h = record {
    step = λ i q.
        rw (get_or-take (k + 1) p (i + 1) 0 (omega arith), get_or-take (k + 1) p i 0 (omega arith))
          (v.step i (omega arith));
    bounded = rw (get_or-take (k + 1) p k 0 (omega arith)) (mark-lt k h);
  }

  pub drop-IsMarks : (k l : ℕ) → k + l ≡ n → IsMarks l (drop k p)
  drop-IsMarks k l e = record {
    step =
        λ i q. rw (get_or-drop k p (i + 1) 0, get_or-drop k p i 0) (ground (arith, v.step (k + i)));
    bounded = rw (get_or-drop k p l 0, e) v.bounded;
  }

-- Ranks and marked entries in the parts of the marks that the two halves get.
pub rank-take : (k : ℕ) (p : List ℕ) (i : ℕ) → i ≤ k → rank (take (k + 1) p) i ≡ rank p i
rank-take k p i h =
    rw (get_or-take (k + 1) p i 0 (omega arith), get_or-take (k + 1) p 0 0 (omega arith))

pub take-IsMarked :
    (k : ℕ) (p : List ℕ) (i : ℕ) → i < k → IsMarked p i → IsMarked (take (k + 1) p) i
take-IsMarked k p i h e =
    rw (get_or-take (k + 1) p (i + 1) 0 (omega arith), get_or-take (k + 1) p i 0 (omega arith)) e

pub rank-drop : (k : ℕ) (p : List ℕ) (i : ℕ) → rank (drop k p) i ≡ mark p (k + i) - mark p k
rank-drop k p i =
    let first : k + 0 ≡ k = omega arith in rw (get_or-drop k p i 0, get_or-drop k p 0 0, first)

pub drop-IsMarked : (k : ℕ) (p : List ℕ) (i : ℕ) → IsMarked p (k + i) → IsMarked (drop k p) i
drop-IsMarked k p i e =
    let next : k + (i + 1) ≡ k + i + 1 = omega arith in
    rw (get_or-drop k p (i + 1) 0, get_or-drop k p i 0, next) e
