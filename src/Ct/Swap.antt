-- ===== src/Ct/Swap.antt =====
-- The conditional exchanges of ct.rs, read entry by entry.
use roga.Base.{
  ℕ, zero, suc, ◌<◌, ◌≡◌, ◌≢◌, refl, ap, sym, ◌∙◌, arith, Bool, true, false, List, [], ◌∷◌, none,
  some, ◌==◌, if◌then◌else◌, length, set, get_elem?, length-set, get_elem?-set, Bool-cases,
  Option-cases, ==-ne, ==_iff, inl, inr,
}
use roga.Ct.{Cmov, cxchg, ct_swap, cswap_fast, cmov_array}

-- Where the entry `t` comes from when the entries `i` and `j` are exchanged.
abbrev pub swap_index : ℕ → ℕ → Bool → ℕ → ℕ
swap_index i j choice t = if choice then (if i == t then j else if j == t then i else t) else t

module _ {ℓ} {T : Type ℓ} where
  in_range : (arr : List T) (i : ℕ) → i < length arr → get_elem? arr i ≡ none → ⊥
  in_range [] i h e = omega arith
  in_range (x ∷ xs) zero h e = cc
  in_range (x ∷ xs) (suc i) h e = in_range xs i (omega arith) e

  exchanged :
      (arr : List T) (i j t : ℕ) (a b : T)
      → i < length arr
      → j < length arr
      → i ≢ j
      → get_elem? arr i ≡ some a
      → get_elem? arr j ≡ some b
      → (c : Bool)
      → get_elem? (if c then set (set arr i b) j a else set (set arr i a) j b) t
        ≡ get_elem? arr (swap_index i j c t)
  exchanged arr i j t a b hi hj ne p q true =
      let inner = get_elem?-set (set arr i b) j t a (rw (length-set arr i b) hj) in
      rw (inner, get_elem?-set arr i t b hi)
        (elim (Bool-cases (i == t)) [
          | inl e ↦ rw (e, ==-ne j t (λ f. ne ((==_iff i t).0 e ∙ sym f))) (sym q)
          | inr e ↦ rw e (elim (Bool-cases (j == t)) [ inl f ↦ rw f (sym p) | inr f ↦ rw f ])
        ])
  exchanged arr i j t a b hi hj ne p q false =
      let inner = get_elem?-set (set arr i a) j t b (rw (length-set arr i a) hj) in
      rw (inner, get_elem?-set arr i t a hi)
        (elim (Bool-cases (j == t)) [
          | inl e ↦ rw e (sym (ap (get_elem? arr) (sym ((==_iff j t).0 e)) ∙ q))
          | inr e ↦ rw e (elim (Bool-cases (i == t)) [
            | inl f ↦ rw f (sym (ap (get_elem? arr) (sym ((==_iff i t).0 f)) ∙ p))
            | inr f ↦ rw f
          ])
        ])

module _ {ℓ} {T : Type ℓ} ⦃m : Cmov T⦄ where
  pub cxchg_lem : (a b : T) (choice : Bool) → cxchg a b choice ≡ (if choice then (b, a) else (a, b))
  unfolding cxchg
  cxchg_lem a b true = ground (arith, m.cmov_lem a b true, m.cmov_lem b a true)
  cxchg_lem a b false = ground (arith, m.cmov_lem a b false, m.cmov_lem b a false)

  -- `ct_swap` exchanges its two arguments unless the condition is zero.
  pub ct_swap_lem : (a b : T) (cond : ℕ) → ct_swap a b cond ≡ (if cond == 0 then (a, b) else (b, a))
  unfolding ct_swap
  ct_swap_lem a b zero = ground (arith, m.cmov_lem a b false, m.cmov_lem b a false)
  ct_swap_lem a b (suc c) = ground (arith, m.cmov_lem a b true, m.cmov_lem b a true)

  -- `cmov_array` on two arrays of the same length gives the second if the choice is true and the
  -- first if not.
  pub cmov_array_lem :
      (a b : List T) (choice : Bool)
      → length a ≡ length b
      → cmov_array a b choice ≡ (if choice then b else a)
  unfolding cmov_array
  cmov_array_lem [] [] true h = refl
  cmov_array_lem [] [] false h = refl
  cmov_array_lem [] (y ∷ b) choice h = absurd (omega arith)
  cmov_array_lem (x ∷ a) [] choice h = absurd (omega arith)
  cmov_array_lem (x ∷ a) (y ∷ b) true h =
      cc (m.cmov_lem x y true, cmov_array_lem a b true (omega arith))
  cmov_array_lem (x ∷ a) (y ∷ b) false h =
      cc (m.cmov_lem x y false, cmov_array_lem a b false (omega arith))

  cswap_fast-in_range :
      (arr : List T) (i j : ℕ) (a b : T) (choice : Bool)
      → get_elem? arr i ≡ some a
      → get_elem? arr j ≡ some b
      → cswap_fast arr i j choice
        ≡ (if choice then set (set arr i b) j a else set (set arr i a) j b)
  unfolding cswap_fast cxchg
  cswap_fast-in_range arr i j a b true p q =
      rw (p, cswap_fast) (rw (q, cswap_fast) (rw (m.cmov_lem a b true, m.cmov_lem b a true)))
  cswap_fast-in_range arr i j a b false p q =
      rw (p, cswap_fast) (rw (q, cswap_fast) (rw (m.cmov_lem a b false, m.cmov_lem b a false)))

  pub length-cswap_fast :
      (arr : List T) (i j : ℕ) (choice : Bool) → length (cswap_fast arr i j choice) ≡ length arr
  unfolding cswap_fast
  length-cswap_fast arr i j choice = elim (Option-cases (get_elem? arr i)) [
    | inl p ↦ rw (p, cswap_fast)
    | inr (a, p) ↦ elim (Option-cases (get_elem? arr j)) [
      | inl q ↦ rw (p, cswap_fast) (rw (q, cswap_fast))
      | inr (b, q) ↦ rw (p, cswap_fast) (rw (q, cswap_fast) (simp length-set))
    ]
  ]

  -- `cswap_fast` at two different indices of the array leaves, seen at any index, the array with
  -- these two entries exchanged if the choice is true, and the same array if not.
  pub get_elem?-cswap_fast :
      (arr : List T) (i j t : ℕ) (choice : Bool)
      → i < length arr
      → j < length arr
      → i ≢ j
      → get_elem? (cswap_fast arr i j choice) t ≡ get_elem? arr (swap_index i j choice t)
  get_elem?-cswap_fast arr i j t choice hi hj ne = elim (Option-cases (get_elem? arr i)) [
    | inl p ↦ absurd (in_range arr i hi p)
    | inr (a, p) ↦ elim (Option-cases (get_elem? arr j)) [
      | inl q ↦ absurd (in_range arr j hj q)
      | inr (b, q) ↦
          rw (cswap_fast-in_range arr i j a b choice p q)
            (exchanged arr i j t a b hi hj ne p q choice)
    ]
  ]
