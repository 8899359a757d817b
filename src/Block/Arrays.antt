-- ===== src/Block/Arrays.antt =====
-- Arrays of blocks of block.rs whose fields fit their types, and arrays without a real block.
use mathlib.Core.List.Permᴰ.{Permᴰ}
use roga.Base.{
  ℕ, zero, suc, ◌≡◌, refl, arith, subst, false, List, [], ◌∷◌, ◌++◌, take, drop, replicate,
  length-replicate,
}
use roga.External.{OramValue}
use roga.Ct.Bytes.{AreBytes}
use roga.Block.{OramBlock, dummy}
use roga.Block.Laws.{IsBlock, AreBlocks, is_live}

zeros-AreBytes : (n : ℕ) → AreBytes (replicate n 0)
zeros-AreBytes zero = tt
zeros-AreBytes (suc n) = (omega arith, zeros-AreBytes n)

module _ {V : Type 0} where
  abbrev pub AreDead : List (OramBlock V) → Type 0
  AreDead [] = Unit
  AreDead (b ∷ bs) = (is_live b ≡ false) × AreDead bs

  pub AreDead-take : (n : ℕ) (xs : List (OramBlock V)) → AreDead xs → AreDead (take n xs)
  AreDead-take zero xs h = tt
  AreDead-take (suc n) [] h = tt
  AreDead-take (suc n) (x ∷ xs) (d, ds) = (d, AreDead-take n xs ds)

  pub append-AreDead : (xs ys : List (OramBlock V)) → AreDead xs → AreDead ys → AreDead (xs ++ ys)
  append-AreDead [] ys h g = g
  append-AreDead (x ∷ xs) ys (d, ds) g = (d, append-AreDead xs ys ds g)

module _ {V : Type 0} (k : ℕ) where
  pub append-AreBlocks :
      (xs ys : List (OramBlock V)) → AreBlocks k xs → AreBlocks k ys → AreBlocks k (xs ++ ys)
  append-AreBlocks [] ys p q = q
  append-AreBlocks (x ∷ xs) ys (p, ps) q = (p, append-AreBlocks xs ys ps q)

  pub AreBlocks-parts :
      (xs ys : List (OramBlock V)) → AreBlocks k (xs ++ ys) → AreBlocks k xs × AreBlocks k ys
  AreBlocks-parts [] ys p = (tt, p)
  AreBlocks-parts (x ∷ xs) ys (p, ps) = let (q, r) = AreBlocks-parts xs ys ps in ((p, q), r)

  pub AreBlocks-drop : (n : ℕ) (xs : List (OramBlock V)) → AreBlocks k xs → AreBlocks k (drop n xs)
  AreBlocks-drop zero xs p = p
  AreBlocks-drop (suc n) [] p = tt
  AreBlocks-drop (suc n) (x ∷ xs) (p, ps) = AreBlocks-drop n xs ps

  pub AreBlocks-take : (n : ℕ) (xs : List (OramBlock V)) → AreBlocks k xs → AreBlocks k (take n xs)
  AreBlocks-take zero xs p = tt
  AreBlocks-take (suc n) [] p = tt
  AreBlocks-take (suc n) (x ∷ xs) (p, ps) = (p, AreBlocks-take n xs ps)

  pub AreBlocks-Permᴰ : {xs ys : List (OramBlock V)} → Permᴰ xs ys → AreBlocks k xs → AreBlocks k ys
  AreBlocks-Permᴰ Permᴰ.nil h = tt
  AreBlocks-Permᴰ (Permᴰ.cons e d) (p, ps) = (subst (IsBlock k) e p, AreBlocks-Permᴰ d ps)
  AreBlocks-Permᴰ (Permᴰ.swap e₁ e₂) (p, (q, rest)) =
      (subst (IsBlock k) e₂ q, (subst (IsBlock k) e₁ p, rest))
  AreBlocks-Permᴰ (Permᴰ.trans d₁ d₂) h = AreBlocks-Permᴰ d₂ (AreBlocks-Permᴰ d₁ h)

module _ (V : Type 0) ⦃v : OramValue V⦄ (k : ℕ) where
  pub dummies-AreBlocks : (n : ℕ) → AreBlocks {V = V} k (replicate n (dummy k))
  unfolding dummy
  dummies-AreBlocks zero = tt
  dummies-AreBlocks (suc n) = (
    record {
      tag_fits = omega arith;
      epoch_fits = omega arith;
      bytes = zeros-AreBytes k;
      key_length = length-replicate k 0;
    },
    dummies-AreBlocks n,
  )

  pub dummies-AreDead : (n : ℕ) → AreDead {V = V} (replicate n (dummy k))
  unfolding dummy
  dummies-AreDead zero = tt
  dummies-AreDead (suc n) = (refl, dummies-AreDead n)
