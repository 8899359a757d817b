-- ===== src/Reduction/Runs.antt =====
-- The reduction against its plain description: a block is added into the next one if both are real
-- and have one key, and then becomes a dummy.
use roga.Base.{
  ℕ, ◌^◌, ◌<◌, ◌≡◌, refl, sym, ◌∙◌, arith, Bool, true, false, ◌&&◌, List, [], ◌∷◌, bit_and, ap,
  if◌then◌else◌, to_bit, Bool-cases, inl, inr, min,
}
use roga.External.{ScalarCmov, OramValue}
use roga.Ct.{ct_min_u8}
use roga.Ct.Compare.{ct_min_u8_lem}
use roga.Ct.Bytes.{bytes_eq}
use roga.Block.{OramBlock, conditional_dummy}
use roga.Block.Laws.{IsBlock, AreBlocks, is_live, is_real_lem, ct_identity_eq_lem}
use roga.Reduction.{block_reducible, reduce_loop, reduce_equal_runs_with_accumulator}

module _ {V : Type 0} where
  -- The two blocks belong to one run.
  abbrev pub same_run : OramBlock V → OramBlock V → Bool
  same_run prev cur = bytes_eq cur.payload prev.payload && is_live cur && is_live prev

  abbrev pub dummied : OramBlock V → OramBlock V
  dummied b = record { tag = 0; epoch = b.epoch; value = b.value; payload = b.payload }

  abbrev pub joined : (V → V → V) → OramBlock V → OramBlock V → OramBlock V
  joined combine prev cur = record {
    tag = cur.tag;
    epoch = min prev.epoch cur.epoch;
    value = combine prev.value cur.value;
    payload = cur.payload;
  }

  unfoldable pub merge_from : (V → V → V) → OramBlock V → List (OramBlock V) → List (OramBlock V)
  merge_from combine prev [] = prev ∷ []
  merge_from combine prev (cur ∷ rest) =
      let merged = merge_from combine (joined combine prev cur) rest in
      let apart = merge_from combine cur rest in
      if same_run prev cur then dummied prev ∷ merged else prev ∷ apart

  -- The reduction as its comment describes it.
  unfoldable pub merge_runs : (V → V → V) → List (OramBlock V) → List (OramBlock V)
  unfolding merge_from
  merge_runs combine [] = []
  merge_runs combine (first ∷ rest) = merge_from combine first rest

flags_and :
    (a b c : Bool) → bit_and (bit_and (to_bit a) (to_bit b)) (to_bit c) ≡ to_bit (a && b && c)
flags_and true true true = refl
flags_and true true false = refl
flags_and true false true = refl
flags_and true false false = refl
flags_and false true true = refl
flags_and false true false = refl
flags_and false false true = refl
flags_and false false false = refl

pub joined-IsBlock :
    {V : Type 0} (combine : V → V → V) (k : ℕ) (a b : OramBlock V)
    → IsBlock k a
    → IsBlock k b
    → IsBlock k (joined combine a b)
joined-IsBlock combine k a b p q = record {
  tag_fits = q.tag_fits;
  epoch_fits = let x = p.epoch_fits in let y = q.epoch_fits in omega arith;
  bytes = q.bytes;
  key_length = q.key_length;
}

module _ {V : Type 0} ⦃w : ScalarCmov ℕ⦄ ⦃v : OramValue V⦄ (k : ℕ) (combine : V → V → V) where
  loop : V → ℕ → OramBlock V → List (OramBlock V) → List (OramBlock V)
  loop = reduce_loop (block_reducible k) combine

  -- One turn of the loop, once for each way that the flags can fall.
  module _ (acc : V) (ep : ℕ) (prev cur : OramBlock V) (rest : List (OramBlock V))
      (p : IsBlock k prev) (q : IsBlock k cur) (small : ep < 2 ^ 8) where
    joins :
        is_live cur ≡ true
        → same_run prev cur ≡ true
        → loop acc ep prev (cur ∷ rest)
          ≡ dummied prev
            ∷ loop
                (combine acc cur.value)
                (min ep cur.epoch)
                (record {
                  tag = cur.tag;
                  epoch = min ep cur.epoch;
                  value = combine acc cur.value;
                  payload = cur.payload;
                })
                rest
    unfolding loop reduce_loop block_reducible conditional_dummy
    joins el es =
        rw
          (
            is_real_lem k cur q,
            is_real_lem k prev p,
            ct_identity_eq_lem k cur prev q p,
            flags_and (bytes_eq cur.payload prev.payload) (is_live cur) (is_live prev),
            es,
            el,
          )
          (rw (
            w.cmovnz_lem prev.tag 0 1,
            v.scalar.cmovnz_lem acc (combine acc cur.value) 1,
            v.scalar.cmovnz_lem (combine acc cur.value) cur.value 0,
            ct_min_u8_lem ep cur.epoch small q.epoch_fits,
            w.cmovnz_lem ep (min ep cur.epoch) 1,
            w.cmovnz_lem (min ep cur.epoch) cur.epoch 0,
            v.scalar.cmovnz_lem cur.value (combine acc cur.value) 1,
            w.cmovnz_lem cur.epoch (min ep cur.epoch) 1,
          ))

    starts :
        is_live cur ≡ true
        → same_run prev cur ≡ false
        → loop acc ep prev (cur ∷ rest) ≡ prev ∷ loop cur.value cur.epoch cur rest
    unfolding loop reduce_loop block_reducible conditional_dummy
    starts el es =
        rw
          (
            is_real_lem k cur q,
            is_real_lem k prev p,
            ct_identity_eq_lem k cur prev q p,
            flags_and (bytes_eq cur.payload prev.payload) (is_live cur) (is_live prev),
            es,
            el,
          )
          (rw (
            w.cmovnz_lem prev.tag 0 0,
            v.scalar.cmovnz_lem acc (combine acc cur.value) 0,
            w.cmovnz_lem ep (ct_min_u8 ep cur.epoch) 0,
            v.scalar.cmovnz_lem acc cur.value 1,
            w.cmovnz_lem ep cur.epoch 1,
            v.scalar.cmovnz_lem cur.value cur.value 1,
            w.cmovnz_lem cur.epoch cur.epoch 1,
          ))

    passes :
        is_live cur ≡ false
        → same_run prev cur ≡ false
        → loop acc ep prev (cur ∷ rest) ≡ prev ∷ loop acc ep cur rest
    unfolding loop reduce_loop block_reducible conditional_dummy
    passes el es =
        rw
          (
            is_real_lem k cur q,
            is_real_lem k prev p,
            ct_identity_eq_lem k cur prev q p,
            flags_and (bytes_eq cur.payload prev.payload) (is_live cur) (is_live prev),
            es,
            el,
          )
          (rw (
            w.cmovnz_lem prev.tag 0 0,
            v.scalar.cmovnz_lem acc (combine acc cur.value) 0,
            w.cmovnz_lem ep (ct_min_u8 ep cur.epoch) 0,
            v.scalar.cmovnz_lem acc cur.value 0,
            w.cmovnz_lem ep cur.epoch 0,
            v.scalar.cmovnz_lem cur.value acc 0,
            w.cmovnz_lem cur.epoch ep 0,
          ))

  true-ne-false : true ≡ false → ⊥
  true-ne-false h = cc

  loop_last : (acc : V) (ep : ℕ) (prev : OramBlock V) → loop acc ep prev [] ≡ prev ∷ []
  unfolding loop reduce_loop
  loop_last acc ep prev = refl

  live_of_same : (a b c : Bool) → (a && b && c) ≡ true → (b ≡ true) × (c ≡ true)
  live_of_same true true true h = (refl, refl)
  live_of_same true true false h = cc
  live_of_same true false c h = cc
  live_of_same false b c h = cc

  -- In the loop the accumulator holds the value and the epoch of the block before, if that is real.
  loop_lem :
      (acc : V) (ep : ℕ) (prev : OramBlock V) (rest : List (OramBlock V))
      → IsBlock k prev
      → AreBlocks k rest
      → ep < 2 ^ 8
      → (is_live prev ≡ true → (acc ≡ prev.value) × (ep ≡ prev.epoch))
      → loop acc ep prev rest ≡ merge_from combine prev rest
  unfolding merge_from
  loop_lem acc ep prev [] p ps small h = loop_last acc ep prev
  loop_lem acc ep prev (cur ∷ rest) p (q, ps) small h = elim (Bool-cases (same_run prev cur)) [
    | inl es ↦
        let lives =
          live_of_same (bytes_eq cur.payload prev.payload) (is_live cur) (is_live prev) es in
        let (ea, ee) = h lives.1 in
        let turn = joins acc ep prev cur rest p q small lives.0 es in
        let fits : min prev.epoch cur.epoch < 2 ^ 8 = let x = p.epoch_fits in omega arith in
        rw (turn, es, ea, ee)
          (ap (λ l. dummied prev ∷ l)
            (loop_lem (combine prev.value cur.value) (min prev.epoch cur.epoch)
              (joined combine prev cur) rest (joined-IsBlock combine k prev cur p q) ps fits
              (λ e. (refl, refl))))
    | inr es ↦ elim (Bool-cases (is_live cur)) [
      | inl el ↦
          rw (starts acc ep prev cur rest p q small el es, es)
            (ap (λ l. prev ∷ l)
              (loop_lem cur.value cur.epoch cur rest q ps q.epoch_fits (λ e. (refl, refl))))
      | inr el ↦
          rw (passes acc ep prev cur rest p q small el es, es)
            (ap (λ l. prev ∷ l)
              (loop_lem acc ep cur rest q ps small (λ e. absurd (true-ne-false (sym e ∙ el)))))
    ]
  ]

  -- On blocks whose fields fit their types the branch-free pass does what `merge_runs` describes: a
  -- real block that a real block of the same key follows is added into that one, with the least
  -- epoch, and becomes a dummy. The way to combine values is arbitrary.
  pub reduce_equal_runs_with_accumulator_lem :
      (blocks : List (OramBlock V))
      → AreBlocks k blocks
      → reduce_equal_runs_with_accumulator (block_reducible k) combine blocks
        ≡ merge_runs combine blocks
  unfolding reduce_equal_runs_with_accumulator merge_runs block_reducible
  reduce_equal_runs_with_accumulator_lem [] h = refl
  reduce_equal_runs_with_accumulator_lem (first ∷ rest) (p, ps) =
      elim (Bool-cases (is_live first)) [
        | inl el ↦
            rw
              (
                is_real_lem k first p,
                el,
                v.scalar.cmovnz_lem v.default first.value 1,
                w.cmovnz_lem 0 first.epoch 1,
                v.scalar.cmovnz_lem first.value first.value 1,
                w.cmovnz_lem first.epoch first.epoch 1,
              )
              (unfold loop in
                loop_lem first.value first.epoch first rest p ps p.epoch_fits (λ e. (refl, refl)))
        | inr el ↦
            rw
              (
                is_real_lem k first p,
                el,
                v.scalar.cmovnz_lem v.default first.value 0,
                w.cmovnz_lem 0 first.epoch 0,
                v.scalar.cmovnz_lem first.value v.default 0,
                w.cmovnz_lem first.epoch 0 0,
              )
              (unfold loop in
                loop_lem v.default 0 first rest p ps (omega arith)
                  (λ e. absurd (true-ne-false (sym e ∙ el))))
      ]
