-- ===== src/Sort/Network.antt =====
-- The sequence of comparisons in the network of djbsort.rs: what each loop leaves of its indices, and that
-- no index is out of range.
use roga.Base.{
  ℕ, zero, suc, ◌+◌, ◌-◌, ◌*◌, ◌/◌, ◌^◌, ◌≤◌, ◌<◌, ◌≡◌, ◌⊎◌, inl, inr, refl, arith, Bool, true,
  false, ◌&&◌, not, ltb, leb, ◌==◌, if◌then◌else◌, for_range, Bool-elim, Bool-cases, ltb→lt, ==_iff,
  List, [], ◌∷◌,
}
use native.Mathlib.Nat.{one-le-pow, pow-succ', mul_left_comm, mul-le-mul_left}
use roga.Sort.{
  top_loop, pairs_loop, tail_loop, resume_loop, blocks_loop, rest_loop, q_loop, p_loop, network,
}

for_range_inv {κ} :
    {S : Type 0} (P : S → Type κ) (rounds k : ℕ) (body : ℕ → S → S) (s : S)
    → ((i : ℕ) (t : S) → k ≤ i → i < k + rounds → P t → P (body i t))
    → P s
    → P (for_range rounds k body s)
unfolding for_range
for_range_inv P zero k body s keep h = h
for_range_inv P (suc rounds) k body s keep h =
    for_range_inv P rounds (k + 1) body (body k s) (λ i t p q. keep i t (omega arith) (omega arith))
      (keep k s (omega arith) (omega arith) h)

shuffle : (x y : ℕ) → 2 * x * y ≡ x * (2 * y)
shuffle x y = grind arith

module _ {κ} {S : Type 0} (minmax : ℕ → ℕ → S → S) (cascade : ℕ → ℕ → ℕ → S → S) (n : ℕ)
    (P : S → Type κ) (minmax_keeps : (i j : ℕ) (s : S) → i < j → j < n → P s → P (minmax i j s))
    (cascade_keeps : (j p q : ℕ) (s : S)
      → 0 < p
      → j + p < n
      → j + q < n
      → P s
      → P (cascade j p q s)) where
  module _ (p : ℕ) (pos : 0 < p) where
    pairs_loop_inv : (fuel i : ℕ) (s : S) → P s → P (pairs_loop minmax cascade fuel n p i s).1
    unfolding pairs_loop
    pairs_loop_inv zero i s h = h
    pairs_loop_inv (suc fuel) i s h =
        Bool-elim (λ (t : ℕ × S). P t.1) (leb (i + 2 * p) n)
          (λ e. pairs_loop_inv fuel (i + 2 * p) _ (
            for_range_inv P p 0 (λ k. minmax (i + k) (i + k + p)) s
              (λ k t a b q. minmax_keeps (i + k) (i + k + p) t (omega arith) (ground arith) q) h))
          (λ e. h)

    tail_loop_inv : (fuel j : ℕ) (s : S) → P s → P (tail_loop minmax cascade fuel n p j s)
    unfolding tail_loop
    tail_loop_inv zero j s h = h
    tail_loop_inv (suc fuel) j s h =
        Bool-elim P (ltb (j + p) n)
          (λ e.
            tail_loop_inv fuel (j + 1) _ (minmax_keeps j (j + p) s (omega arith) (ground arith) h))
          (λ e. h)

    -- `q` is a multiple of `p` by a power of two, or has come down to `p`.
    abbrev Halved : ℕ → Type 0
    Halved q = (q ≤ p) ⊎ ((m : ℕ) × (q ≡ p * 2 ^ suc m))

    twice : (m : ℕ) → p * 2 ^ suc m ≡ 2 * (p * 2 ^ m)
    twice m = rw (pow-succ' 2 m, mul_left_comm p 2 (2 ^ m))

    Halved-two : (q : ℕ) → Halved q → p < q → 2 * p ≤ q
    Halved-two q (inl h) a = absurd (omega arith)
    Halved-two q (inr (m, h)) a =
        let le : p * 1 ≤ p * 2 ^ m = mul-le-mul_left p (one-le-pow m 2 (omega arith)) in
        omega (arith, h, twice m, le)

    half-Halved : (q : ℕ) → Halved q → Halved (q / 2)
    half-Halved q (inl h) = inl (omega arith)
    half-Halved q (inr (zero, h)) = inl (omega arith)
    half-Halved q (inr (suc m, h)) = inr (m, omega (arith, h, twice (suc m)))

    -- What `resume_loop` leaves of `q`, and that it is in range, from the state that the rounds before leave.
    resume_loop_inv :
        (fuel i j q : ℕ) (s : S)
        → Halved q
        → j + q ≤ n
        → j < i + p
        → i + 2 * p ≤ n
        → P s
        → Halved (resume_loop minmax cascade fuel n p i j q s).2
          × P (resume_loop minmax cascade fuel n p i j q s).3
    unfolding resume_loop
    resume_loop_inv zero i j q s d a b c h = (d, h)
    resume_loop_inv (suc fuel) i j q s d a b c h =
        Bool-elim (λ (t : ℕ × ℕ × ℕ × S). Halved t.2 × P t.3) (j + q == n)
          (λ e. resume_loop_inv fuel i j (q / 2) s (half-Halved q d) (omega arith) b c h)
          (λ e.
            let in_range : j + q < n = ground arith in
            let h' : P (cascade j p q s) = cascade_keeps j p q s pos (omega arith) in_range h in
            Bool-elim (λ (t : ℕ × ℕ × ℕ × S). Halved t.2 × P t.3) (j + 1 == i + p) (λ e'. (d, h'))
              (λ e'. resume_loop_inv fuel i (j + 1) q _ d (omega arith) (ground arith) c h'))

    blocks_loop_inv :
        (fuel q i : ℕ) (s : S)
        → p < q
        → P s
        → n ≤ i + fuel
        → P (blocks_loop minmax cascade fuel n p q i s).1
          × (n < (blocks_loop minmax cascade fuel n p q i s).0 + p + q)
    unfolding blocks_loop
    blocks_loop_inv zero q i s a h b = (h, omega arith)
    blocks_loop_inv (suc fuel) q i s a h b =
        Bool-elim (λ (t : ℕ × S). P t.1 × (n < t.0 + p + q)) (leb (i + p + q) n)
          (λ e.
            blocks_loop_inv fuel q (i + 2 * p) _ a
              (for_range_inv P p 0 (λ k. cascade (i + k) p q) s
                (λ k t b c d. cascade_keeps (i + k) p q t pos (ground arith) (ground arith) d) h)
              (omega arith))
          (λ e. (h, ground arith))

    rest_loop_inv :
        (fuel q j : ℕ) (s : S)
        → p < q
        → P s
        → n ≤ j + fuel
        → let r = rest_loop minmax cascade fuel n p q j s in
          P r.1 × (n ≤ r.0 + q) × ((r.0 ≡ j) ⊎ ((j < r.0) × (r.0 + q ≡ n)))
    unfolding rest_loop
    rest_loop_inv zero q j s a h b = (h, omega arith, inl refl)
    rest_loop_inv (suc fuel) q j s a h b =
        Bool-elim (λ (t : ℕ × S). P t.1 × (n ≤ t.0 + q) × ((t.0 ≡ j) ⊎ ((j < t.0) × (t.0 + q ≡ n))))
          (ltb (j + q) n)
          (λ e.
            let in_range : j + q < n = ground arith in
            let later =
              rest_loop_inv fuel q (j + 1) (cascade j p q s) a
                (cascade_keeps j p q s pos (omega arith) in_range h) (omega arith) in
            (later.0, later.1, inr (omega (arith, later.1, later.2))))
          (λ e. (h, ground arith, inl refl))

    -- The state of a round of the loop over `q`: it starts afresh, or where the round before ended.
    abbrev Resumes : ℕ → ℕ → ℕ → Type 0
    Resumes i j q = (j < i + p) × (i + 2 * p ≤ n) × (j + q ≤ n)

    next_Resumes :
        (i r q : ℕ)
        → Halved q
        → p < q
        → n < i + p + q
        → (r ≡ i) ⊎ ((i < r) × (r + q ≡ n))
        → (r == i) ≡ false
        → Resumes i r (q / 2)
    next_Resumes i r q d a b (inl e) f = ground (arith, ==_iff r i)
    next_Resumes i r q d a b (inr e) f = omega (arith, Halved-two q d a, e)

    entry_inv :
        (b : Bool) (i j q : ℕ) (s : S)
        → p < q
        → Halved q
        → (b ≡ false → Resumes i j q)
        → P s
        → let t = if b then (i, j, q, s) else resume_loop minmax cascade (n + q) n p i j q s in
          Halved t.2 × P t.3 × ((not b && leb t.2 p) ≡ false → p < t.2)
    entry_inv true i j q s a d c h = (d, h, λ e. a)
    entry_inv false i j q s a d c h =
        let r = resume_loop_inv (n + q) i j q s d (c refl).2 (c refl).0 (c refl).1 h in
        (r.0, r.1, λ e. ground arith)

    q_loop_inv :
        (fuel i j q : ℕ) (s : S)
        → Halved q
        → ((j == i) ≡ false → Resumes i j q)
        → P s
        → P (q_loop minmax cascade fuel n p i j q s)
    unfolding q_loop
    q_loop_inv zero i j q s d c h = h
    q_loop_inv (suc fuel) i j q s d c h =
        Bool-elim P (ltb p q)
          (λ more.
            let start = entry_inv (j == i) i j q s (ltb→lt p q more) d c h in
            Bool-elim P _ (λ e. start.1)
              (λ e.
                let a = start.2 e in
                let b = blocks_loop_inv n _ _ _ a start.1 (omega arith) in
                let t = rest_loop_inv n _ _ _ a b.0 (omega arith) in
                q_loop_inv fuel _ _ _ _ (half-Halved _ start.0)
                  (next_Resumes _ _ _ start.0 a b.1 t.2) t.0))
          (λ e. h)

  -- The strides are powers of two, `p` by a power of two below `top`.
  abbrev Divides : ℕ → ℕ → Type 0
  Divides top p = (p ≡ 0) ⊎ ((a : ℕ) × (b : ℕ) × (p ≡ 2 ^ a) × (top ≡ p * 2 ^ b))

  half-Divides : (top p : ℕ) → Divides top p → Divides top (p / 2)
  half-Divides top p (inl e) = inl (omega arith)
  half-Divides top p (inr (zero, b, e, g)) = inl (omega (arith, e))
  half-Divides top p (inr (suc a, b, e, g)) =
      let half : p / 2 ≡ 2 ^ a = omega (arith, e, pow-succ' 2 a) in
      inr (a, suc b, half, rw (half, g, e, pow-succ' 2 a, pow-succ' 2 b) (shuffle (2 ^ a) (2 ^ b)))

  Divides-Halved : (top p : ℕ) (pos : 0 < p) → Divides top p → Halved p pos top
  Divides-Halved top p pos (inl e) = absurd (omega arith)
  Divides-Halved top p pos (inr (a, zero, e, g)) = inl (omega (arith, g))
  Divides-Halved top p pos (inr (a, suc b, e, g)) = inr (b, g)

  p_loop_inv :
      (fuel top p : ℕ) (s : S) → Divides top p → P s → P (p_loop minmax cascade fuel n top p s)
  unfolding p_loop
  p_loop_inv zero top p s d h = h
  p_loop_inv (suc fuel) top p s d h =
      Bool-elim P (leb 1 p)
        (λ e.
          let pos : 0 < p = ground arith in
          p_loop_inv fuel top (p / 2) _ (half-Divides top p d) (
            q_loop_inv p pos n 0 0 top _ (Divides-Halved top p pos d) (λ e. absurd (ground arith))
              (tail_loop_inv p pos n _ _ (pairs_loop_inv p pos n 0 s h))))
        (λ e. h)

  top_loop_pow : (fuel top : ℕ) → (a : ℕ) × (top ≡ 2 ^ a) → (a : ℕ) × (top_loop fuel n top ≡ 2 ^ a)
  unfolding top_loop
  top_loop_pow zero top h = h
  top_loop_pow (suc fuel) top (a, h) =
      Bool-elim (λ t. (a : ℕ) × (t ≡ 2 ^ a)) (ltb top (n - top))
        (λ e. top_loop_pow fuel (top + top) (suc a, omega (arith, h, pow-succ' 2 a))) (λ e. (a, h))

  -- An invariant that comparisons with indices in range keep is kept by the network.
  pub network_inv : (s : S) → P s → P (network minmax cascade n s)
  unfolding network
  network_inv s h =
      let t = top_loop_pow n 1 (0, refl) in
      elim (Bool-cases (ltb n 2)) [
        | inl small ↦ rw small h
        | inr large ↦ rw large (p_loop_inv n _ _ s (inr (t.0, 0, t.1, omega arith)) h)
      ]

-- The indices that a network compares, with those of a cascade's two ends.
unfoldable pub trace : ℕ → List (ℕ × ℕ)
unfolding network
trace n = network (λ i j s. (i, j) ∷ s) (λ j p q s. (j + p, j + q) ∷ s) n []

abbrev pub AllWithin : ℕ → List (ℕ × ℕ) → Type 0
AllWithin n [] = Unit
AllWithin n ((i, j) ∷ s) = (i < n) × (j < n) × AllWithin n s

-- All indices that the network reads and writes on an array of `n` entries, those of the comparisons
-- and of both ends of the cascades, are below `n`, so that its unchecked accesses stay inside the
-- array.
pub trace-AllWithin : (n : ℕ) → AllWithin n (trace n)
unfolding trace
trace-AllWithin n =
    network_inv (λ i j s. (i, j) ∷ s) (λ j p q s. (j + p, j + q) ∷ s) n (AllWithin n)
      (λ i j s a b h. (omega arith, b, h)) (λ j p q s a b c h. (b, c, h)) [] tt
