-- ===== src/Compaction/Loop.antt =====
-- The exchange loop and the two-element case of compaction.rs, read entry by entry.
use roga.Base.{
  ℕ, zero, suc, ◌+◌, ◌-◌, ◌≤◌, ◌≡◌, refl, ap, ◌∙◌, arith, Bool, List, ◌&&◌, if◌then◌else◌, length,
  get_elem?, ltb, leb, list_ext, for_range,
}
use roga.Ct.{Cmov, cswap_fast}
use roga.Ct.Swap.{swap_index, get_elem?-cswap_fast, length-cswap_fast}
use roga.Compaction.{swap_loop}

-- Where the entry `t` comes from after the rounds `i` to `i + n - 1`.
abbrev pub loop_index : ℕ → ℕ → ℕ → (ℕ → Bool) → ℕ → ℕ
loop_index n i d choice t =
    if leb i t && ltb t (i + n)
    then (if choice t then d + t else t)
    else if leb (d + i) t && ltb t (d + i + n)
    then (if choice (t - d) then t - d else t)
    else t

loop_index_step :
    (n i d : ℕ) (choice : ℕ → Bool) (t : ℕ)
    → i + suc n ≤ d
    → swap_index i (d + i) (choice i) (loop_index n (i + 1) d choice t)
      ≡ loop_index (suc n) i d choice t
loop_index_step n i d choice t h = ground arith

loop_index_twice :
    (n d : ℕ) (choice : ℕ → Bool) (t : ℕ)
    → n ≤ d
    → loop_index n 0 d choice (loop_index n 0 d choice t) ≡ t
loop_index_twice n d choice t h = ground arith

module _ {ℓ} {T : Type ℓ} ⦃m : Cmov T⦄ where
  abbrev rounds : ℕ → ℕ → ℕ → (ℕ → Bool) → List T → List T
  rounds n i d choice = for_range n i (λ i s. cswap_fast s i (d + i) (choice i))

  length-rounds :
      (n i d : ℕ) (choice : ℕ → Bool) (arr : List T) → length (rounds n i d choice arr) ≡ length arr
  unfolding for_range
  length-rounds zero i d choice arr = refl
  length-rounds (suc n) i d choice arr =
      length-rounds n (i + 1) d choice _ ∙ length-cswap_fast arr i (d + i) (choice i)

  get_elem?-rounds :
      (n i d : ℕ) (choice : ℕ → Bool) (arr : List T) (t : ℕ)
      → i + n ≤ d
      → d + i + n ≤ length arr
      → get_elem? (rounds n i d choice arr) t ≡ get_elem? arr (loop_index n i d choice t)
  unfolding for_range
  get_elem?-rounds zero i d choice arr t h k = ap (get_elem? arr) (ground arith)
  get_elem?-rounds (suc n) i d choice arr t h k =
      get_elem?-rounds n (i + 1) d choice _ t (omega arith)
        (omega (arith, length-cswap_fast arr i (d + i) (choice i)))
      ∙ get_elem?-cswap_fast arr i (d + i) (loop_index n (i + 1) d choice t) (choice i)
          (omega arith) (omega arith) (omega arith)
      ∙ ap (get_elem? arr) (loop_index_step n i d choice t h)

  pub length-swap_loop :
      (n d : ℕ) (choice : ℕ → Bool) (arr : List T) → length (swap_loop n d choice arr) ≡ length arr
  unfolding swap_loop
  length-swap_loop n d choice arr = length-rounds n 0 d choice arr

  pub get_elem?-swap_loop :
      (n d : ℕ) (choice : ℕ → Bool) (arr : List T) (t : ℕ)
      → n ≤ d
      → d + n ≤ length arr
      → get_elem? (swap_loop n d choice arr) t ≡ get_elem? arr (loop_index n 0 d choice t)
  unfolding swap_loop
  get_elem?-swap_loop n d choice arr t h k =
      get_elem?-rounds n 0 d choice arr t (omega arith) (omega arith)

  pub swap_loop_twice :
      (n d : ℕ) (choice : ℕ → Bool) (arr : List T)
      → n ≤ d
      → d + n ≤ length arr
      → swap_loop n d choice (swap_loop n d choice arr) ≡ arr
  swap_loop_twice n d choice arr h k = list_ext _ _ λ t.
      get_elem?-swap_loop n d choice _ t h (rw (length-swap_loop n d choice arr) k)
      ∙ get_elem?-swap_loop n d choice arr (loop_index n 0 d choice t) h k
      ∙ ap (get_elem? arr) (loop_index_twice n d choice t h)
