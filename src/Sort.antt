-- ===== src/Sort.antt =====
-- crates/oram/src/oblivious/djbsort.rs: the sorting network on payloads with a comparator, the same
-- network on keys that take payloads with them, and the merge of two sorted runs. The two sorts are one
-- network, generic in its two steps. Every loop has fuel: each round of the outer loops halves p or q,
-- each round of the inner ones raises i or j, which stay at most n, or halves q.
pub mod Merge
pub mod Network
pub mod Rearrange
pub mod Pairs
pub mod Single
pub mod Reduce
pub mod Totals
use roga.Base.{
  ℕ, zero, suc, ◌+◌, ◌-◌, ◌*◌, ◌/◌, ◌^◌, Bool, true, false, ◌&&◌, ◌||◌, not, Option, none, some,
  List, ltb, leb, ◌==◌, if◌then◌else◌, length, get_elem?, get_or, set, for_range, min,
}
use roga.Ct.{Cmov, cxchg, cswap_fast}

-- `while top < n - top { top += top }`
unfoldable pub top_loop : ℕ → ℕ → ℕ → ℕ
top_loop zero n top = top
top_loop (suc fuel) n top = elim (ltb top (n - top)) [
  | true ↦ top_loop fuel n (top + top)
  | false ↦ top
]

module _ {S : Type 0} (minmax : ℕ → ℕ → S → S) (cascade : ℕ → ℕ → ℕ → S → S) where
  -- `while i + 2 * p <= n`, with `i` and the array.
  unfoldable pub pairs_loop : ℕ → ℕ → ℕ → ℕ → S → ℕ × S
  pairs_loop zero n p i s = (i, s)
  pairs_loop (suc fuel) n p i s = elim (leb (i + 2 * p) n) [
    | true ↦ pairs_loop fuel n p (i + 2 * p) (for_range p 0 (λ k. minmax (i + k) (i + k + p)) s)
    | false ↦ (i, s)
  ]

  -- `while j + p < n`
  unfoldable pub tail_loop : ℕ → ℕ → ℕ → ℕ → S → S
  tail_loop zero n p j s = s
  tail_loop (suc fuel) n p j s = elim (ltb (j + p) n) [
    | true ↦ tail_loop fuel n p (j + 1) (minmax j (j + p) s)
    | false ↦ s
  ]

  -- The `loop`, with `i`, `j`, `q` and the array.
  unfoldable pub resume_loop : ℕ → ℕ → ℕ → ℕ → ℕ → ℕ → S → ℕ × ℕ × ℕ × S
  resume_loop zero n p i j q s = (i, j, q, s)
  resume_loop (suc fuel) n p i j q s = elim (j + q == n) [
    | true ↦ resume_loop fuel n p i j (q / 2) s
    | false ↦ elim (j + 1 == i + p) [
      | true ↦ (i + 2 * p, j + 1, q, cascade j p q s)
      | false ↦ resume_loop fuel n p i (j + 1) q (cascade j p q s)
    ]
  ]

  -- `while i + p + q <= n`
  unfoldable pub blocks_loop : ℕ → ℕ → ℕ → ℕ → ℕ → S → ℕ × S
  blocks_loop zero n p q i s = (i, s)
  blocks_loop (suc fuel) n p q i s = elim (leb (i + p + q) n) [
    | true ↦ blocks_loop fuel n p q (i + 2 * p) (for_range p 0 (λ k. cascade (i + k) p q) s)
    | false ↦ (i, s)
  ]

  -- `while j + q < n`, with `j` and the array.
  unfoldable pub rest_loop : ℕ → ℕ → ℕ → ℕ → ℕ → S → ℕ × S
  rest_loop zero n p q j s = (j, s)
  rest_loop (suc fuel) n p q j s = elim (ltb (j + q) n) [
    | true ↦ rest_loop fuel n p q (j + 1) (cascade j p q s)
    | false ↦ (j, s)
  ]

  -- `while q > p`
  unfoldable pub q_loop : ℕ → ℕ → ℕ → ℕ → ℕ → ℕ → S → S
  unfolding resume_loop blocks_loop rest_loop
  q_loop zero n p i j q s = s
  q_loop (suc fuel) n p i j q s = elim (ltb p q) [
    | false ↦ s
    | true ↦
        let (i', j', q', s') = if j == i then (i, j, q, s) else resume_loop (n + q) n p i j q s in
        elim (not (j == i) && leb q' p) [
          | true ↦ s'
          | false ↦
              let (i'', s'') = blocks_loop n n p q' i' s' in
              let (j'', s''') = rest_loop n n p q' i'' s'' in q_loop fuel n p i'' j'' (q' / 2) s'''
        ]
  ]

  -- `while p >= 1`
  unfoldable pub p_loop : ℕ → ℕ → ℕ → ℕ → S → S
  unfolding pairs_loop tail_loop q_loop
  p_loop zero n top p s = s
  p_loop (suc fuel) n top p s = elim (leb 1 p) [
    | false ↦ s
    | true ↦
        let (i, s') = pairs_loop n n p 0 s in
        p_loop fuel n top (p / 2) (q_loop n n p 0 0 top (tail_loop n n p i s'))
  ]

  unfoldable pub network : ℕ → S → S
  unfolding p_loop top_loop
  network n s = if ltb n 2 then s else (let top = top_loop n n 1 in p_loop n n top top s)

module _ {P : Type 0} ⦃m : Cmov P⦄ where
  unfoldable pub minmax_by_raw : (P → P → ℕ) → ℕ → ℕ → List P → List P
  unfolding cswap_fast
  minmax_by_raw greater i j payloads = elim (get_elem? payloads i) [
    | none ↦ payloads
    | some a ↦ elim (get_elem? payloads j) [
      | none ↦ payloads
      | some b ↦ cswap_fast payloads i j (not (greater a b == 0))
    ]
  ]

  -- `while r > p`, with `a` and the array.
  unfoldable pub cascade_loop : (P → P → ℕ) → ℕ → ℕ → ℕ → ℕ → P → List P → P × List P
  unfolding cxchg
  cascade_loop greater zero j p r a payloads = (a, payloads)
  cascade_loop greater (suc fuel) j p r a payloads = elim (ltb p r) [
    | false ↦ (a, payloads)
    | true ↦ elim (get_elem? payloads (j + r)) [
      | none ↦ (a, payloads)
      | some b ↦
          let (a', b') = cxchg a b (not (greater a b == 0)) in
          cascade_loop greater fuel j p (r / 2) a' (set payloads (j + r) b')
    ]
  ]

  unfoldable pub cascade_by_raw : (P → P → ℕ) → ℕ → ℕ → ℕ → List P → List P
  unfolding cascade_loop
  cascade_by_raw greater j p q payloads = elim (get_elem? payloads (j + p)) [
    | none ↦ payloads
    | some a ↦
        let (a', payloads') = cascade_loop greater q j p q a payloads in set payloads' (j + p) a'
  ]

  unfoldable pub sort_by : List P → (P → P → ℕ) → List P
  unfolding network minmax_by_raw cascade_by_raw
  sort_by payloads greater =
      network (minmax_by_raw greater) (cascade_by_raw greater) (length payloads) payloads

module _ {P : Type 0} ⦃c : Cmov ℕ⦄ ⦃m : Cmov P⦄ where
  unfoldable pub minmax_with_payload_raw : ℕ → ℕ → List ℕ × List P → List ℕ × List P
  unfolding cswap_fast
  minmax_with_payload_raw i j (keys, payloads) =
      let should_swap = ltb (get_or keys j 0) (get_or keys i 0) in
      (cswap_fast keys i j should_swap, cswap_fast payloads i j should_swap)

  -- `while r > p`, with `a_key`, `a_pay` and the arrays.
  unfoldable pub cascade_payload_loop :
      ℕ → ℕ → ℕ → ℕ → ℕ → P → List ℕ → List P → ℕ × P × List ℕ × List P
  unfolding cxchg
  cascade_payload_loop zero j p r a_key a_pay keys payloads = (a_key, a_pay, keys, payloads)
  cascade_payload_loop (suc fuel) j p r a_key a_pay keys payloads = elim (ltb p r) [
    | false ↦ (a_key, a_pay, keys, payloads)
    | true ↦ elim (get_elem? payloads (j + r)) [
      | none ↦ (a_key, a_pay, keys, payloads)
      | some b_pay ↦
          let b_key = get_or keys (j + r) 0 in
          let should_swap = ltb b_key a_key in
          let (a_key', b_key') = cxchg a_key b_key should_swap in
          let (a_pay', b_pay') = cxchg a_pay b_pay should_swap in
          cascade_payload_loop fuel j p (r / 2) a_key' a_pay' (set keys (j + r) b_key')
            (set payloads (j + r) b_pay')
    ]
  ]

  unfoldable pub cascade_with_payload_raw : ℕ → ℕ → ℕ → List ℕ × List P → List ℕ × List P
  unfolding cascade_payload_loop
  cascade_with_payload_raw j p q (keys, payloads) = elim (get_elem? payloads (j + p)) [
    | none ↦ (keys, payloads)
    | some a_pay ↦
        let (a_key', a_pay', keys', payloads') =
          cascade_payload_loop q j p q (get_or keys (j + p) 0) a_pay keys payloads in
        (set keys' (j + p) a_key', set payloads' (j + p) a_pay')
  ]

  -- `none` is the failed assertion that there are as many payloads as keys.
  unfoldable pub sort_with_payload : List ℕ → List P → Option (List ℕ × List P)
  unfolding network minmax_with_payload_raw cascade_with_payload_raw
  sort_with_payload keys payloads =
      let n = length keys in
      if ltb n 2
      then some (keys, payloads)
      else if n == length payloads
      then some (network minmax_with_payload_raw cascade_with_payload_raw n (keys, payloads))
      else none
