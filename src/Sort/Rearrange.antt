-- ===== src/Sort/Rearrange.antt =====
-- Exchanges and held entries rearrange an array: what the two steps of the network in djbsort.rs do to it.
use mathlib.Core.List.Permᴰ
use mathlib.Core.List.Permᴰ.{Permᴰ}
use roga.Base.{
  ℕ, zero, suc, ◌<◌, ◌≡◌, refl, ap, arith, Bool, true, false, List, [], ◌∷◌, some, length,
  get_elem?, set, if◌then◌else◌, ◌==◌, get_elem?-set, ==-ne, ==_refl,
}
use roga.Ct.{Cmov, cswap_fast}
use roga.Ct.Swap.{cxchg_lem}

module _ {A : Type 0} where
  pub set_self : (xs : List A) (i : ℕ) (a : A) → get_elem? xs i ≡ some a → set xs i a ≡ xs
  set_self [] i a e = refl
  set_self (x ∷ xs) zero a e = ground arith
  set_self (x ∷ xs) (suc i) a e = ap (◌∷◌ x) (set_self xs i a e)

  pub set-set : (xs : List A) (i : ℕ) (a b : A) → set (set xs i a) i b ≡ set xs i b
  set-set [] i a b = refl
  set-set (x ∷ xs) zero a b = refl
  set-set (x ∷ xs) (suc i) a b = ap (◌∷◌ x) (set-set xs i a b)

  pub set_comm :
      (xs : List A) (i j : ℕ) (a b : A) → i < j → set (set xs i a) j b ≡ set (set xs j b) i a
  set_comm [] i j a b h = refl
  set_comm (x ∷ xs) zero zero a b h = absurd (omega arith)
  set_comm (x ∷ xs) zero (suc j) a b h = refl
  set_comm (x ∷ xs) (suc i) zero a b h = absurd (omega arith)
  set_comm (x ∷ xs) (suc i) (suc j) a b h = ap (◌∷◌ x) (set_comm xs i j a b (omega arith))

  -- What is written to an array takes the place of what was there.
  set-Permᴰ :
      (xs : List A) (i : ℕ) (a b : A) → get_elem? xs i ≡ some a → Permᴰ (a ∷ set xs i b) (b ∷ xs)
  set-Permᴰ [] i a b e = absurd (cc e)
  set-Permᴰ (x ∷ xs) zero a b e = Permᴰ.swap (cc e) refl
  set-Permᴰ (x ∷ xs) (suc i) a b e =
      Permᴰ.trans (Permᴰ.swap refl refl)
        (Permᴰ.trans (Permᴰ.cons refl (set-Permᴰ xs i a b e)) (Permᴰ.swap refl refl))

  pub exchange-Permᴰ :
      (xs : List A) (i j : ℕ) (a b : A)
      → i < j
      → get_elem? xs i ≡ some a
      → get_elem? xs j ≡ some b
      → Permᴰ (set (set xs i b) j a) xs
  exchange-Permᴰ [] i j a b h e g = absurd (cc e)
  exchange-Permᴰ (x ∷ xs) zero zero a b h e g = absurd (omega arith)
  exchange-Permᴰ (x ∷ xs) zero (suc j) a b h e g =
      Permᴰ.trans (set-Permᴰ xs j b a g) (Permᴰ.cons (cc e) (Permᴰ.refl xs))
  exchange-Permᴰ (x ∷ xs) (suc i) zero a b h e g = absurd (omega arith)
  exchange-Permᴰ (x ∷ xs) (suc i) (suc j) a b h e g =
      Permᴰ.cons refl (exchange-Permᴰ xs i j a b (omega arith) e g)

  get_elem?-lt : (xs : List A) (i : ℕ) (a : A) → get_elem? xs i ≡ some a → i < length xs
  get_elem?-lt [] i a e = absurd (cc e)
  get_elem?-lt (x ∷ xs) zero a e = omega arith
  get_elem?-lt (x ∷ xs) (suc i) a e = omega (arith, get_elem?-lt xs i a e)

  -- An entry that is held for the place `h`, exchanged with the one at `i`.
  pub held-Permᴰ :
      (xs : List A) (h i : ℕ) (a b : A)
      → h < i
      → get_elem? xs i ≡ some b
      → Permᴰ (set (set xs i a) h b) (set xs h a)
  held-Permᴰ xs h i a b lt e =
      let i_lt = get_elem?-lt xs i b e in
      let ne : (h == i) ≡ false = ==-ne h i (λ q. omega arith) in
      let at_h : get_elem? (set xs h a) h ≡ some a =
        rw (get_elem?-set xs h h a (omega arith), ==_refl h) in
      let at_i : get_elem? (set xs h a) i ≡ some b =
        rw (get_elem?-set xs h i a (omega arith), ne) e in
      let same : set (set (set xs h a) h b) i a ≡ set (set xs i a) h b =
        rw (set-set xs h a b) (set_comm xs h i b a lt) in
      rw (← same) (exchange-Permᴰ (set xs h a) h i a b lt at_h at_i)

module _ {A : Type 0} ⦃m : Cmov A⦄ where
  pub cswap_fast_lem :
      (xs : List A) (i j : ℕ) (a b : A) (choice : Bool)
      → i < j
      → get_elem? xs i ≡ some a
      → get_elem? xs j ≡ some b
      → cswap_fast xs i j choice ≡ (if choice then set (set xs i b) j a else xs)
  unfolding cswap_fast
  cswap_fast_lem xs i j a b true h e g = ground (arith, cxchg_lem a b true)
  cswap_fast_lem xs i j a b false h e g =
      ground (arith, cxchg_lem a b false, set_self xs i a, set_self xs j b)
