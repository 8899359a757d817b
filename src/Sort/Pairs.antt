-- ===== src/Sort/Pairs.antt =====
-- `sort_with_payload` of djbsort.rs rearranges pairs of a key and a payload.
use mathlib.Core.List.Permᴰ
use mathlib.Core.List.Permᴰ.{Permᴰ}
use roga.Base.{
  ℕ, zero, suc, ◌+◌, ◌/◌, ◌<◌, ◌≡◌, refl, sym, ap, ◌∙◌, arith, Bool, true, false, List, [], ◌∷◌,
  some, length, get_elem?, get_or, set, if◌then◌else◌, ltb, ◌==◌, length-set, get_elem?-eq-get_or,
  Bool-elim, Option-elim, Bool-cases, ltb→lt, inl, inr, ==_iff,
}
use roga.Ct.{Cmov, cswap_fast, cxchg}
use roga.Ct.Swap.{cxchg_lem}
use roga.Sort.{
  minmax_with_payload_raw, cascade_payload_loop, cascade_with_payload_raw, sort_with_payload,
}
use roga.Sort.Network.{network_inv}
use roga.Sort.Rearrange.{set_self, exchange-Permᴰ, held-Permᴰ, cswap_fast_lem}

module _ {A B : Type 0} where
  abbrev pub zip : List A → List B → List (A × B)
  zip [] ys = []
  zip (x ∷ xs) [] = []
  zip (x ∷ xs) (y ∷ ys) = (x, y) ∷ zip xs ys

  zip-set :
      (xs : List A) (ys : List B) (i : ℕ) (a : A) (b : B)
      → zip (set xs i a) (set ys i b) ≡ set (zip xs ys) i (a, b)
  zip-set [] ys i a b = refl
  zip-set (x ∷ xs) [] zero a b = refl
  zip-set (x ∷ xs) [] (suc i) a b = refl
  zip-set (x ∷ xs) (y ∷ ys) zero a b = refl
  zip-set (x ∷ xs) (y ∷ ys) (suc i) a b = ap (◌∷◌ (x, y)) (zip-set xs ys i a b)

  get_elem?-zip :
      (xs : List A) (ys : List B) (i : ℕ) (a : A) (b : B)
      → get_elem? xs i ≡ some a
      → get_elem? ys i ≡ some b
      → get_elem? (zip xs ys) i ≡ some (a, b)
  get_elem?-zip [] ys i a b e g = absurd (cc e)
  get_elem?-zip (x ∷ xs) [] i a b e g = absurd (cc g)
  get_elem?-zip (x ∷ xs) (y ∷ ys) zero a b e g = ground arith
  get_elem?-zip (x ∷ xs) (y ∷ ys) (suc i) a b e g = get_elem?-zip xs ys i a b e g

module _ {B : Type 0} where
  pub get_elem?-some : (ys : List B) (i : ℕ) → i < length ys → (b : B) × (get_elem? ys i ≡ some b)
  get_elem?-some [] i h = absurd (omega arith)
  get_elem?-some (y ∷ ys) zero h = (y, refl)
  get_elem?-some (y ∷ ys) (suc i) h = get_elem?-some ys i (omega arith)

module _ {P : Type 0} ⦃c : Cmov ℕ⦄ ⦃m : Cmov P⦄ (n : ℕ) where
  -- Two arrays of length `n` whose pairs are the given ones, in any order.
  abbrev Pairs : List (ℕ × P) → List ℕ × List P → Type 0
  Pairs zs (keys, payloads) =
      (length keys ≡ n) × (length payloads ≡ n) × Permᴰ (zip keys payloads) zs

  swap-Pairs :
      (zs : List (ℕ × P)) (i j : ℕ) (choice : Bool) (keys : List ℕ) (payloads : List P)
      → i < j
      → j < n
      → Pairs zs (keys, payloads)
      → Pairs zs (cswap_fast keys i j choice, cswap_fast payloads i j choice)
  swap-Pairs zs i j choice keys payloads lt h (kl, pl, perm) =
      let ki = get_elem?-eq-get_or keys i 0 (omega arith) in
      let kj = get_elem?-eq-get_or keys j 0 (omega arith) in
      let (b, pi) = get_elem?-some payloads i (omega arith) in
      let (d, pj) = get_elem?-some payloads j (omega arith) in
      rw
        (
          cswap_fast_lem keys i j _ _ choice lt ki kj,
          cswap_fast_lem payloads i j b d choice lt pi pj,
        )
        (cases b d (get_or keys i 0) (get_or keys j 0) ki kj pi pj choice)
    where
      cases :
          (b d : P) (a e : ℕ)
          → get_elem? keys i ≡ some a
          → get_elem? keys j ≡ some e
          → get_elem? payloads i ≡ some b
          → get_elem? payloads j ≡ some d
          → (t : Bool)
          → Pairs zs (
            if t then set (set keys i e) j a else keys,
            if t then set (set payloads i d) j b else payloads,
          )
      cases b d a e ki kj pi pj true = (
        length-set (set keys i e) j a ∙ (length-set keys i e ∙ kl),
        length-set (set payloads i d) j b ∙ (length-set payloads i d ∙ pl),
        rw (zip-set (set keys i e) (set payloads i d) j a b, zip-set keys payloads i e d)
            (Permᴰ.trans
              (exchange-Permᴰ (zip keys payloads) i j (a, b) (e, d) lt
                (get_elem?-zip keys payloads i a b ki pi) (get_elem?-zip keys payloads j e d kj pj))
              perm),
      )
      cases b d a e ki kj pi pj false = (kl, pl, perm)

  minmax-Pairs :
      (zs : List (ℕ × P)) (i j : ℕ) (s : List ℕ × List P)
      → i < j
      → j < n
      → Pairs zs s
      → Pairs zs (minmax_with_payload_raw i j s)
  unfolding minmax_with_payload_raw
  minmax-Pairs zs i j (keys, payloads) lt h pairs = swap-Pairs zs i j _ keys payloads lt h pairs

  -- Two arrays, and a pair that is held for the place `h`.
  abbrev Held : List (ℕ × P) → ℕ → ℕ × P × List ℕ × List P → Type 0
  Held zs h (a_key, a_pay, keys, payloads) =
      (length keys ≡ n)
      × (length payloads ≡ n)
      × Permᴰ (set (zip keys payloads) h (a_key, a_pay)) zs

  exchange-Held :
      (zs : List (ℕ × P)) (h i a_key : ℕ) (a_pay b_pay : P) (keys : List ℕ) (payloads : List P)
      (choice : Bool)
      → h < i
      → i < n
      → get_elem? payloads i ≡ some b_pay
      → Held zs h (a_key, a_pay, keys, payloads)
      → let k = cxchg a_key (get_or keys i 0) choice in
        let p = cxchg a_pay b_pay choice in Held zs h (k.0, p.0, set keys i k.1, set payloads i p.1)
  exchange-Held zs h i a_key a_pay b_pay keys payloads true lt le e (kl, pl, perm) =
      rw (cxchg_lem a_key (get_or keys i 0) true, cxchg_lem a_pay b_pay true)
        (
          length-set keys i a_key ∙ kl,
          length-set payloads i a_pay ∙ pl,
          rw (zip-set keys payloads i a_key a_pay) (
              Permᴰ.trans
                (held-Permᴰ (zip keys payloads) h i (a_key, a_pay) (get_or keys i 0, b_pay) lt
                  (get_elem?-zip keys payloads i _ _ (get_elem?-eq-get_or keys i 0 (omega arith))
                    e))
                perm),
        )
  exchange-Held zs h i a_key a_pay b_pay keys payloads false lt le e held =
      rw
        (
          cxchg_lem a_key (get_or keys i 0) false,
          cxchg_lem a_pay b_pay false,
          set_self keys i _ (get_elem?-eq-get_or keys i 0 (omega (arith, held.0))),
          set_self payloads i b_pay e,
        )
        held

  loop-Held :
      (fuel j p r a_key : ℕ) (a_pay : P) (keys : List ℕ) (payloads : List P) (zs : List (ℕ × P))
      → j + r < n
      → Held zs (j + p) (a_key, a_pay, keys, payloads)
      → Held zs (j + p) (cascade_payload_loop fuel j p r a_key a_pay keys payloads)
  unfolding cascade_payload_loop
  loop-Held zero j p r a_key a_pay keys payloads zs h held = held
  loop-Held (suc fuel) j p r a_key a_pay keys payloads zs h held =
      Bool-elim (Held zs (j + p)) (ltb p r)
        (λ more.
          Option-elim (Held zs (j + p)) (get_elem? payloads (j + r)) (λ e. held)
            (λ b_pay e. loop-Held fuel j p (r / 2) _ _ _ _ zs (omega arith) (
              exchange-Held zs (j + p) (j + r) a_key a_pay b_pay keys payloads _
                (omega (arith, ltb→lt p r more)) h e held)))
        (λ done. held)

  cascade-Pairs :
      (zs : List (ℕ × P)) (j p q : ℕ) (s : List ℕ × List P)
      → 0 < p
      → j + p < n
      → j + q < n
      → Pairs zs s
      → Pairs zs (cascade_with_payload_raw j p q s)
  unfolding cascade_with_payload_raw
  cascade-Pairs zs j p q (keys, payloads) pos a b (kl, pl, perm) =
      Option-elim (Pairs zs) (get_elem? payloads (j + p)) (λ e. (kl, pl, perm))
        (λ a_pay e.
          let start : Held zs (j + p) (get_or keys (j + p) 0, a_pay, keys, payloads) = (
            kl,
            pl,
            rw
                (set_self (zip keys payloads) (j + p) (get_or keys (j + p) 0, a_pay)
                  (get_elem?-zip keys payloads (j + p) _ _
                    (get_elem?-eq-get_or keys (j + p) 0 (omega arith)) e))
                perm,
          ) in
          let t = loop-Held q j p q (get_or keys (j + p) 0) a_pay keys payloads zs b start in
          (
            length-set _ (j + p) _ ∙ t.0,
            length-set _ (j + p) _ ∙ t.1,
            rw (zip-set _ _ (j + p) _ _) t.2,
          ))

module _ {P : Type 0} ⦃c : Cmov ℕ⦄ ⦃m : Cmov P⦄ where
  -- On as many payloads as keys `sort_with_payload` returns, with as many keys and payloads as
  -- before, and the pairs of a key and the payload at its index are a rearrangement of those before,
  -- so that each key moves with its payload.
  pub sort_with_payload-Permᴰ :
      (keys : List ℕ) (payloads : List P)
      → length keys ≡ length payloads
      → (keys' : List ℕ) × (payloads' : List P) × (sort_with_payload keys payloads
          ≡ some (keys', payloads'))
        × (length keys' ≡ length keys)
        × (length payloads' ≡ length payloads)
        × Permᴰ (zip keys' payloads') (zip keys payloads)
  unfolding sort_with_payload
  sort_with_payload-Permᴰ keys payloads e = elim (Bool-cases (ltb (length keys) 2)) [
    | inl small ↦ (keys, payloads, rw small, refl, refl, Permᴰ.refl _)
    | inr large ↦
        let same : (length keys == length payloads) ≡ true = (==_iff _ _).1 e in
        let sorted =
          network_inv minmax_with_payload_raw cascade_with_payload_raw (length keys)
            (Pairs (length keys) (zip keys payloads))
            (λ i j s. minmax-Pairs (length keys) (zip keys payloads) i j s)
            (λ j p q s. cascade-Pairs (length keys) (zip keys payloads) j p q s) (keys, payloads)
            (refl, sym e, Permᴰ.refl _) in
        (_, _, rw (large, same), sorted.0, sorted.1 ∙ e, sorted.2)
  ]
