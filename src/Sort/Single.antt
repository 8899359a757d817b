-- ===== src/Sort/Single.antt =====
-- `sort_by` of djbsort.rs rearranges its array, whatever the comparator answers.
use mathlib.Core.List.Permᴰ
use mathlib.Core.List.Permᴰ.{Permᴰ}
use roga.Base.{
  ℕ, ◌+◌, ◌/◌, ◌<◌, ◌≡◌, refl, ◌∙◌, arith, Bool, true, false, not, List, length, get_elem?, set,
  some, if◌then◌else◌, zero, suc, ltb, ◌==◌, length-set, Bool-elim, Option-elim, ltb→lt,
}
use roga.Ct.{Cmov, cxchg}
use roga.Ct.Swap.{cxchg_lem}
use roga.Sort.{minmax_by_raw, cascade_loop, cascade_by_raw, sort_by}
use roga.Sort.Network.{network_inv}
use roga.Sort.Rearrange.{set_self, exchange-Permᴰ, held-Permᴰ, cswap_fast_lem}

module _ {P : Type 0} ⦃m : Cmov P⦄ (greater : P → P → ℕ) (n : ℕ) (zs : List P) where
  -- An array of length `n` with the given entries, in any order.
  abbrev Entries : List P → Type 0
  Entries payloads = (length payloads ≡ n) × Permᴰ payloads zs

  swap-Entries :
      (i j : ℕ) (a b : P) (choice : Bool) (payloads : List P)
      → i < j
      → get_elem? payloads i ≡ some a
      → get_elem? payloads j ≡ some b
      → Entries payloads
      → Entries (if choice then set (set payloads i b) j a else payloads)
  swap-Entries i j a b true payloads lt e g (l, perm) = (
    length-set (set payloads i b) j a ∙ (length-set payloads i b ∙ l),
    Permᴰ.trans (exchange-Permᴰ payloads i j a b lt e g) perm,
  )
  swap-Entries i j a b false payloads lt e g entries = entries

  minmax-Entries :
      (i j : ℕ) (payloads : List P)
      → i < j
      → j < n
      → Entries payloads
      → Entries (minmax_by_raw greater i j payloads)
  unfolding minmax_by_raw
  minmax-Entries i j payloads lt h entries =
      Option-elim Entries (get_elem? payloads i) (λ e. entries)
        (λ a e.
          Option-elim Entries (get_elem? payloads j) (λ g. entries)
            (λ b g.
              rw (cswap_fast_lem payloads i j a b (not (greater a b == 0)) lt e g)
                (swap-Entries i j a b (not (greater a b == 0)) payloads lt e g entries)))

  -- An array, and an entry that is held for the place `h`.
  abbrev Held : ℕ → P × List P → Type 0
  Held h (a, payloads) = (length payloads ≡ n) × Permᴰ (set payloads h a) zs

  exchange-Held :
      (h i : ℕ) (a b : P) (payloads : List P) (choice : Bool)
      → h < i
      → get_elem? payloads i ≡ some b
      → Held h (a, payloads)
      → let p = cxchg a b choice in Held h (p.0, set payloads i p.1)
  exchange-Held h i a b payloads true lt e (l, perm) =
      rw (cxchg_lem a b true)
        (length-set payloads i a ∙ l, Permᴰ.trans (held-Permᴰ payloads h i a b lt e) perm)
  exchange-Held h i a b payloads false lt e held =
      rw (cxchg_lem a b false, set_self payloads i b e) held

  loop-Held :
      (fuel j p r : ℕ) (a : P) (payloads : List P)
      → Held (j + p) (a, payloads)
      → Held (j + p) (cascade_loop greater fuel j p r a payloads)
  unfolding cascade_loop
  loop-Held zero j p r a payloads held = held
  loop-Held (suc fuel) j p r a payloads held =
      Bool-elim (Held (j + p)) (ltb p r)
        (λ more.
          Option-elim (Held (j + p)) (get_elem? payloads (j + r)) (λ e. held)
            (λ b e. loop-Held fuel j p (r / 2) _ _ (
              exchange-Held (j + p) (j + r) a b payloads _ (omega (arith, ltb→lt p r more)) e
                held)))
        (λ done. held)

  cascade-Entries :
      (j p q : ℕ) (payloads : List P)
      → Entries payloads
      → Entries (cascade_by_raw greater j p q payloads)
  unfolding cascade_by_raw
  cascade-Entries j p q payloads (l, perm) =
      Option-elim Entries (get_elem? payloads (j + p)) (λ e. (l, perm))
        (λ a e.
          let t = loop-Held q j p q a payloads (l, rw (set_self payloads (j + p) a e) perm) in
          (length-set _ (j + p) _ ∙ t.0, t.1))

module _ {P : Type 0} ⦃m : Cmov P⦄ where
  -- `sort_by` returns a rearrangement of its input, of the same length, for any comparison, even one
  -- that is not an order.
  pub sort_by-Permᴰ :
      (payloads : List P) (greater : P → P → ℕ)
      → (length (sort_by payloads greater) ≡ length payloads)
        × Permᴰ (sort_by payloads greater) payloads
  unfolding sort_by
  sort_by-Permᴰ payloads greater =
      network_inv (minmax_by_raw greater) (cascade_by_raw greater) (length payloads)
        (Entries greater (length payloads) payloads)
        (λ i j s. minmax-Entries greater (length payloads) payloads i j s)
        (λ j p q s a b c. cascade-Entries greater (length payloads) payloads j p q s) payloads
        (refl, Permᴰ.refl payloads)
