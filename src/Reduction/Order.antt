-- ===== src/Reduction/Order.antt =====
-- The totals of a key do not depend on the order of the blocks, if the way to combine is commutative.
use mathlib.Core.List.Permᴰ.{Permᴰ}
use roga.Base.{
  ◌≡◌, refl, sym, ap, ap₂, ◌∙◌, Bool, true, false, ℕ, List, [], ◌∷◌, ◌++◌, Option, none, some,
}
use roga.Block.{OramBlock}
use roga.Reduction.Totals.{holds, included, gathered}

module _ {V A : Type 0} (measure : OramBlock V → A) (op : A → A → A)
    (comm : (a b : A) → op a b ≡ op b a) (assoc : (a b c : A) → op (op a b) c ≡ op a (op b c)) where
  swap_ops : (a b c : A) → op a (op b c) ≡ op b (op a c)
  swap_ops a b c = sym (assoc a b c) ∙ ap (λ x. op x c) (comm a b) ∙ assoc b a c

  pub included_comm :
      (c d : Bool) (a b : A) (o : Option A)
      → included op c a (included op d b o) ≡ included op d b (included op c a o)
  included_comm false d a b o = refl
  included_comm true false a b o = refl
  included_comm true true a b none = ap some (comm a b)
  included_comm true true a b (some x) = ap some (swap_ops a b x)

  pub gathered-Permᴰ :
      (key : List ℕ) {xs ys : List (OramBlock V)}
      → Permᴰ xs ys
      → gathered measure op key xs ≡ gathered measure op key ys
  unfolding gathered
  gathered-Permᴰ key Permᴰ.nil = refl
  gathered-Permᴰ key (Permᴰ.cons {a = a} {b = b} e d) =
      ap₂ (λ x rest. included op (holds key x) (measure x) rest) e (gathered-Permᴰ key d)
  gathered-Permᴰ key (Permᴰ.swap {a = a} {b = b} {l = l} e₁ e₂) =
      included_comm (holds key a) (holds key b) (measure a) (measure b) (gathered measure op key l)
      ∙ ap₂
          (λ x y.
            included op (holds key x) (measure x)
              (included op (holds key y) (measure y) (gathered measure op key l)))
          e₂ e₁
  gathered-Permᴰ key (Permᴰ.trans d₁ d₂) = gathered-Permᴰ key d₁ ∙ gathered-Permᴰ key d₂

-- Two totals put together.
abbrev pub combined : {A : Type 0} → (A → A → A) → Option A → Option A → Option A
combined op none later = later
combined op (some m) later = included op true m later

module _ {V A : Type 0} (measure : OramBlock V → A) (op : A → A → A)
    (assoc : (a b c : A) → op (op a b) c ≡ op a (op b c)) where
  included-combined :
      (c : Bool) (a : A) (o o' : Option A)
      → included op c a (combined op o o') ≡ combined op (included op c a o) o'
  included-combined false a o o' = refl
  included-combined true a none o' = refl
  included-combined true a (some x) none = refl
  included-combined true a (some x) (some y) = ap some (sym (assoc a x y))

  pub gathered-append :
      (key : List ℕ) (xs ys : List (OramBlock V))
      → gathered measure op key (xs ++ ys)
        ≡ combined op (gathered measure op key xs) (gathered measure op key ys)
  unfolding gathered
  gathered-append key [] ys = refl
  gathered-append key (x ∷ xs) ys =
      ap (included op (holds key x) (measure x)) (gathered-append key xs ys)
      ∙ included-combined (holds key x) (measure x) (gathered measure op key xs)
          (gathered measure op key ys)
