-- ===== src/Stash/Copies.antt =====
-- The loops of `read_from_path` and `write_to_path` of stash.rs that copy a path: the path buffer gets
-- the buckets of the path, and the tree gets the path buffer's, and nothing else of the tree changes.
use mathlib.Core.List.Permᴰ
use mathlib.Core.List.Permᴰ.{Permᴰ}
use roga.Base.{
  ℕ, zero, suc, ◌+◌, ◌-◌, ◌*◌, ◌<◌, ◌≤◌, ◌≡◌, refl, sym, ap, ap₂, ◌∙◌, arith, List, [], ◌∷◌, ◌++◌,
  some, length, take, drop, take-append-drop, drop-append, length-append, length-take,
}
use roga.Routing.{ct_node_on_path}
use roga.Block.{OramBlock}
use roga.Stash.{read_loop}
use roga.Stash.Eviction.{copy_back}
use roga.Stash.Buckets.{drop-drop, take-add, append_assoc, copy_slice-some, buckets, buckets_last}

abbrev pub path_node : ℕ → ℕ → ℕ → ℕ
path_node position height d = ct_node_on_path position d height

module _ {A : Type 0} where
  take-past :
      (n : ℕ) (xs ys : List A) → length xs ≤ n → take n (xs ++ ys) ≡ xs ++ take (n - length xs) ys
  take-past n [] ys h = ap (λ k. take k ys) (omega arith)
  take-past zero (x ∷ xs) ys h = absurd (omega arith)
  take-past (suc n) (x ∷ xs) ys h =
      let e : suc n - suc (length xs) ≡ n - length xs = omega arith in
      rw e (ap (◌∷◌ x) (take-past n xs ys (omega arith)))

  drop-past : (n : ℕ) (xs ys : List A) → length xs ≤ n → drop n (xs ++ ys) ≡ drop (n - length xs) ys
  drop-past n [] ys h = ap (λ k. drop k ys) (omega arith)
  drop-past zero (x ∷ xs) ys h = absurd (omega arith)
  drop-past (suc n) (x ∷ xs) ys h =
      let e : suc n - suc (length xs) ≡ n - length xs = omega arith in
      rw e (drop-past n xs ys (omega arith))

module _ {V : Type 0} (z position height : ℕ) where
  -- The slots of the path buffer that hold the buckets of the depths `depth` to `depth + n - 1`.
  abbrev pub slots : ℕ → ℕ → List (OramBlock V) → List (OramBlock V)
  slots zero depth blocks = []
  slots (suc n) depth blocks =
      take z (drop ((height - depth) * z) blocks) ++ slots n (depth + 1) blocks

  pub slots-Permᴰ :
      (n depth : ℕ) (blocks : List (OramBlock V))
      → depth + n ≡ height + 1
      → Permᴰ (slots n depth blocks) (take (n * z) blocks)
  slots-Permᴰ zero depth blocks e =
      let none_left : 0 * z ≡ 0 = omega arith in rw none_left (Permᴰ.refl [])
  slots-Permᴰ (suc n) depth blocks e =
      let left : height - depth ≡ n = omega arith in
      let all : suc n * z ≡ n * z + z = grind arith in
      rw (left, all, take-add (n * z) z blocks)
        (Permᴰ.trans
          (Permᴰ.append_left (take z (drop (n * z) blocks))
            (slots-Permᴰ n (depth + 1) blocks (omega arith)))
          (Permᴰ.append_comm (take z (drop (n * z) blocks)) (take (n * z) blocks)))

  read_step :
      (n : ℕ) (memory blocks : List (OramBlock V))
      → n * z + z ≤ length blocks
      → path_node position height n * z + z ≤ length memory
      → read_loop z (suc n) memory position height blocks
        ≡ read_loop z n memory position height (
            take (n * z) blocks
            ++ (take z (drop (path_node position height n * z) memory) ++ drop (n * z + z) blocks))
  unfolding read_loop
  read_step n memory blocks h k =
      rw (copy_slice-some blocks memory (n * z) (path_node position height n * z) z h k, read_loop)

  pub read_loop_lem :
      (n : ℕ) (memory blocks : List (OramBlock V))
      → n * z ≤ length blocks
      → ((d : ℕ) → d < n → path_node position height d * z + z ≤ length memory)
      → read_loop z n memory position height blocks
        ≡ some (buckets z (path_node position height) n 0 0 memory ++ drop (n * z) blocks)
  read_loop_lem zero memory blocks h k =
      let e : 0 * z ≡ 0 = omega arith in rw e (unfold read_loop in refl)
  read_loop_lem (suc n) memory blocks h k =
      let fit : n * z + z ≤ length blocks = grind arith in
      let bucket = take z (drop (path_node position height n * z) memory) in
      let front = take (n * z) blocks in
      let rest = drop (n * z + z) blocks in
      let front_length : length front ≡ n * z = omega (arith, length-take (n * z) blocks) in
      let all : suc n * z ≡ n * z + z = grind arith in
      let e : path_node position height (0 + n) * z - 0 ≡ path_node position height n * z =
        let f : 0 + n ≡ n = omega arith in
        ap (λ d. path_node position height d * z - 0) f ∙ omega arith in
      let last_bucket : buckets z (path_node position height) n 0 0 memory ++ bucket
          ≡ buckets z (path_node position height) (suc n) 0 0 memory =
        ap (λ i. buckets z (path_node position height) n 0 0 memory ++ take z (drop i memory))
          (sym e)
        ∙ sym (buckets_last z (path_node position height) n 0 0 memory) in
      read_step n memory blocks fit (k n (omega arith))
      ∙ read_loop_lem n memory (front ++ (bucket ++ rest))
          (omega (arith, length-append front (bucket ++ rest))) (λ d p. k d (omega arith))
      ∙ ap some (
          ap (◌++◌ (buckets z (path_node position height) n 0 0 memory))
            (drop-append (n * z) front _ front_length)
          ∙ sym (append_assoc (buckets z (path_node position height) n 0 0 memory) bucket rest)
          ∙ ap₂ ◌++◌ last_bucket (ap (λ i. drop i blocks) (sym all)))

  -- Where a list of blocks is cut at a bucket, and the bucket is replaced.
  pub cut_bucket :
      (k : ℕ) (memory : List (OramBlock V))
      → take k memory ++ (take z (drop k memory) ++ drop (k + z) memory) ≡ memory
  cut_bucket k memory =
      ap (λ rest. take k memory ++ (take z (drop k memory) ++ rest)) (sym (drop-drop z k memory))
      ∙ (ap (◌++◌ (take k memory)) (take-append-drop z (drop k memory)) ∙ take-append-drop k memory)

  pub copy_step :
      (n depth : ℕ) (blocks before memory : List (OramBlock V))
      → length before ≤ path_node position height depth * z
      → path_node position height depth * z + z ≤ length before + length memory
      → (height - depth) * z + z ≤ length blocks
      → let k = path_node position height depth * z - length before in
        copy_back z position height (suc n) depth blocks (before ++ memory)
        ≡ copy_back z position height n (depth + 1) blocks (
            ((before ++ take k memory) ++ take z (drop ((height - depth) * z) blocks))
            ++ drop (k + z) memory)
  unfolding copy_back
  copy_step n depth blocks before memory h fit room =
      let at = path_node position height depth * z in
      let k = at - length before in
      let slot = take z (drop ((height - depth) * z) blocks) in
      let cut : take at (before ++ memory) ++ (slot ++ drop (at + z) (before ++ memory))
          ≡ ((before ++ take k memory) ++ slot) ++ drop (k + z) memory =
        ap₂ (λ xs ys. xs ++ (slot ++ ys)) (take-past at before memory h)
          (drop-past (at + z) before memory (omega arith)
            ∙ ap (λ i. drop i memory) (let e : at + z - length before ≡ k + z = omega arith in e))
        ∙ sym (append_assoc (before ++ take k memory) slot (drop (k + z) memory)) in
      rw
        (
          copy_slice-some (before ++ memory) blocks at ((height - depth) * z) z
              (omega (arith, length-append before memory)) room,
          copy_back,
        )
        (ap (copy_back z position height n (depth + 1) blocks) cut)
