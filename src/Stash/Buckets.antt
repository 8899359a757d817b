-- ===== src/Stash/Buckets.antt =====
-- The copies of stash.rs between the path buffer and the tree: what the loops of `read_from_path` and
-- `write_to_path` move, as lists of buckets.
use roga.Base.{
  ℕ, zero, suc, ◌+◌, ◌-◌, ◌*◌, ◌<◌, ◌≤◌, ◌≡◌, refl, sym, ap, ap₂, ◌∙◌, arith, List, [], ◌∷◌, ◌++◌,
  some, length, take, drop,
}
use roga.Stash.{copy_slice}

module _ {A : Type 0} where
  pub drop-drop : (m n : ℕ) (xs : List A) → drop m (drop n xs) ≡ drop (n + m) xs
  drop-drop m zero xs = ap (λ k. drop k xs) (omega arith)
  drop-drop m (suc n) [] = drop_nil m ∙ sym (drop_nil (suc n + m))
    where
      drop_nil : (k : ℕ) → drop {A = A} k [] ≡ []
      drop_nil zero = refl
      drop_nil (suc k) = refl
  drop-drop m (suc n) (x ∷ xs) =
      let e : suc n + m ≡ suc (n + m) = omega arith in rw e (drop-drop m n xs)

  pub take-add : (m n : ℕ) (xs : List A) → take (m + n) xs ≡ take m xs ++ take n (drop m xs)
  take-add zero n xs = ap (λ k. take k xs) (omega arith)
  take-add (suc m) n [] = take_nil (suc m + n) ∙ sym (take_nil n)
    where
      take_nil : (k : ℕ) → take {A = A} k [] ≡ []
      take_nil zero = refl
      take_nil (suc k) = refl
  take-add (suc m) n (x ∷ xs) =
      let e : suc m + n ≡ suc (m + n) = omega arith in rw e (ap (◌∷◌ x) (take-add m n xs))

  pub append_assoc : (xs ys zs : List A) → (xs ++ ys) ++ zs ≡ xs ++ (ys ++ zs)
  append_assoc [] ys zs = refl
  append_assoc (x ∷ xs) ys zs = ap (◌∷◌ x) (append_assoc xs ys zs)

  pub copy_slice-some :
      (dst src : List A) (i j n : ℕ)
      → i + n ≤ length dst
      → j + n ≤ length src
      → copy_slice dst i src j n ≡ some (take i dst ++ (take n (drop j src) ++ drop (i + n) dst))
  unfolding copy_slice
  copy_slice-some dst src i j n h k = ground arith

  module _ (z : ℕ) (node : ℕ → ℕ) where
    -- The buckets at the nodes of the depths `depth` to `depth + n - 1`, where the list starts at the
    -- entry `start` of the tree.
    abbrev pub buckets : ℕ → ℕ → ℕ → List A → List A
    buckets zero depth start memory = []
    buckets (suc n) depth start memory =
        take z (drop (node depth * z - start) memory) ++ buckets n (depth + 1) start memory

    pub buckets_last :
        (n depth start : ℕ) (memory : List A)
        → buckets (suc n) depth start memory
          ≡ buckets n depth start memory ++ take z (drop (node (depth + n) * z - start) memory)
    buckets_last zero depth start memory =
        let e : depth + 0 ≡ depth = omega arith in rw e (append_nil _)
      where
        append_nil : (xs : List A) → xs ++ [] ≡ xs
        append_nil [] = refl
        append_nil (x ∷ xs) = ap (◌∷◌ x) (append_nil xs)
    buckets_last (suc n) depth start memory =
        let e : depth + suc n ≡ depth + 1 + n = omega arith in
        rw e (
          ap (◌++◌ (take z (drop (node depth * z - start) memory)))
            (buckets_last n (depth + 1) start memory)
          ∙ sym (append_assoc (take z (drop (node depth * z - start) memory)) _ _))

    -- The buckets of a later part of the tree.
    pub buckets-drop :
        (n depth start next : ℕ) (memory : List A)
        → start ≤ next
        → ((d : ℕ) → depth ≤ d → d < depth + n → next ≤ node d * z)
        → buckets n depth next (drop (next - start) memory) ≡ buckets n depth start memory
    buckets-drop zero depth start next memory h le = refl
    buckets-drop (suc n) depth start next memory h le =
        let here : next ≤ node depth * z = le depth (omega arith) (omega arith) in
        let e : next - start + (node depth * z - next) ≡ node depth * z - start = omega arith in
        ap₂ (λ xs ys. take z xs ++ ys)
          (drop-drop (node depth * z - next) (next - start) memory ∙ ap (λ k. drop k memory) e)
          (buckets-drop n (depth + 1) start next memory h
            (λ d p q. le d (omega arith) (omega arith)))
