-- ===== src/Oram/Order/Lex.antt =====
-- The branch-free comparisons of blocks against the order of byte arrays.
use roga.Base.{
  ℕ, zero, suc, ◌+◌, ◌^◌, ◌<◌, ◌≡◌, refl, ap, ap₂, ◌∙◌, arith, Bool, true, false, ◌&&◌, ◌||◌, not,
  List, [], ◌∷◌, bit_and, bit_or, bit_xor, length, ltb, to_bit, if◌then◌else◌,
}
use roga.Ct.{ct_lt, ct_not, ct_lt_u8}
use roga.Ct.Compare.{ct_lt_lem, ct_lt_u8_lem}
use roga.Ct.Bytes.{AreBytes, bit_or-lt}
use roga.Block.{OramBlock, is_real}
use roga.Block.Laws.{IsBlock, is_live, is_real_lem}
use roga.Oram.Order.{compare_loop, dummies_last, payload_gt, readout_order, tree_readout_gt, lex_lt}

compare_loop-cons :
    (x y : ℕ) (a b : List ℕ) (n i greater less : ℕ)
    → compare_loop (x ∷ a) (y ∷ b) n (suc i) greater less ≡ compare_loop a b n i greater less
unfolding compare_loop
compare_loop-cons x y a b zero i greater less = refl
compare_loop-cons x y a b (suc n) i greater less =
    let e : suc i + 1 ≡ suc (i + 1) = omega arith in rw e (compare_loop-cons x y a b n (i + 1) _ _)

-- One round of the loop, whose flags exclude one another.
round_flags : Bool → Bool → ℕ → ℕ → ℕ × ℕ
round_flags greater less x y =
    let undecided = ct_not (bit_or (to_bit greater) (to_bit less)) in
    (
      bit_or (to_bit greater) (bit_and undecided (ct_lt_u8 y x)),
      bit_or (to_bit less) (bit_and undecided (ct_lt_u8 x y)),
    )

round_flags_lem :
    (greater less : Bool) (x y : ℕ)
    → x < 256
    → y < 256
    → round_flags greater less x y
      ≡ (to_bit (greater || (not less && ltb y x)), to_bit (less || (not greater && ltb x y)))
unfolding round_flags ct_not
round_flags_lem greater less x y p q =
    rw (ct_lt_u8_lem y x q p, ct_lt_u8_lem x y p q) (cases greater less (ltb y x) (ltb x y))
  where
    cases :
        (g l above below : Bool)
        → ◌≡◌ {A = ℕ × ℕ}
            (
              bit_or (to_bit g) (bit_and (bit_xor (bit_or (to_bit g) (to_bit l)) 1) (to_bit above)),
              bit_or (to_bit l) (bit_and (bit_xor (bit_or (to_bit g) (to_bit l)) 1) (to_bit below)),
            )
            (to_bit (g || (not l && above)), to_bit (l || (not g && below)))
    cases true true true true = refl
    cases g l above below = ground arith

-- The flags after a round, and the rest of the keys.
flag_step :
    (greater less above below rest : Bool)
    → ((greater || (not less && above)) || (not (less || (not greater && below)) && rest))
      ≡ (greater || (not less && (if above then true else if below then false else rest)))
flag_step greater less above below rest = ground arith

compare_loop_lem :
    (n : ℕ) (a b : List ℕ) (greater less : Bool)
    → AreBytes a
    → AreBytes b
    → length a ≡ n
    → length b ≡ n
    → compare_loop a b n 0 (to_bit greater) (to_bit less)
      ≡ (to_bit (greater || (not less && lex_lt b a)), to_bit (less || (not greater && lex_lt a b)))
unfolding compare_loop lex_lt round_flags
compare_loop_lem zero [] [] true true p q e h = refl
compare_loop_lem zero [] [] true false p q e h = refl
compare_loop_lem zero [] [] false true p q e h = refl
compare_loop_lem zero [] [] false false p q e h = refl
compare_loop_lem (suc n) (x ∷ a) (y ∷ b) greater less p q e h =
    compare_loop-cons x y a b n 0 _ _
    ∙ (ap (λ flags. compare_loop a b n 0 flags.0 flags.1) (round_flags_lem greater less x y p.0 q.0)
        ∙ (compare_loop_lem n a b (greater || (not less && ltb y x))
              (less || (not greater && ltb x y)) p.1 q.1 (omega arith) (omega arith)
            ∙ ap₂ (λ g l. (to_bit g, to_bit l))
                (flag_step greater less (ltb y x) (ltb x y) (lex_lt b a))
                (flag_step less greater (ltb x y) (ltb y x) (lex_lt a b))))
compare_loop_lem n a b greater less p q e h = absurd (omega arith)

-- Whether a block comes behind another: the real blocks, by their keys, before the dummies.
abbrev pub comes_after : Bool → Bool → Bool → Bool
comes_after a_live b_live above = b_live && (not a_live || above)

dummies_last_lem :
    (a_live b_live above : Bool)
    → dummies_last (to_bit a_live) (to_bit b_live) (to_bit above)
      ≡ to_bit (comes_after a_live b_live above)
unfolding dummies_last
dummies_last_lem true true true = refl
dummies_last_lem true true false = refl
dummies_last_lem true false true = refl
dummies_last_lem true false false = refl
dummies_last_lem false true true = refl
dummies_last_lem false true false = refl
dummies_last_lem false false true = refl
dummies_last_lem false false false = refl

module _ {V : Type 0} (k : ℕ) (a b : OramBlock V) where
  payload_gt-dummies_last :
      payload_gt k a b
      ≡ dummies_last (is_real a) (is_real b) (compare_loop a.payload b.payload k 0 0 0).0
  unfolding payload_gt is_real
  payload_gt-dummies_last = refl

  tree_readout_gt-dummies_last :
      tree_readout_gt k a b
      ≡ dummies_last
          (is_real a)
          (is_real b)
          (compare_loop a.payload b.payload k 0
            (ct_lt (readout_order b) (readout_order a))
            (ct_lt (readout_order a) (readout_order b))).0
  unfolding tree_readout_gt is_real
  tree_readout_gt-dummies_last = refl

  readout_order-lt : (t : OramBlock V) → t.tag < 2 ^ 64 → readout_order t < 2 ^ 64
  unfolding readout_order
  readout_order-lt t h = bit_or-lt 64 _ _ (omega arith) (omega arith)

  -- For blocks whose fields fit their types `payload_gt` is 1 exactly if the second block is real
  -- and the first is a dummy or has the greater key in the order of byte arrays, and is 0 otherwise.
  pub payload_gt_lem :
      IsBlock k a
      → IsBlock k b
      → payload_gt k a b ≡ to_bit (comes_after (is_live a) (is_live b) (lex_lt b.payload a.payload))
  payload_gt_lem p q =
      rw
        (
          payload_gt-dummies_last,
          is_real_lem k a p,
          is_real_lem k b q,
          compare_loop_lem k a.payload b.payload false false p.bytes q.bytes p.key_length
              q.key_length,
        )
        (dummies_last_lem (is_live a) (is_live b) (lex_lt b.payload a.payload))

  -- For blocks whose fields fit their types `tree_readout_gt` is 1 exactly if the second block is
  -- real and the first is a dummy or comes behind it by the number that joins the routing bits of
  -- its tag with the tag's bits from 32 on and then by the bytes of the key, and is 0 otherwise.
  pub tree_readout_gt_lem :
      IsBlock k a
      → IsBlock k b
      → tree_readout_gt k a b
        ≡ to_bit (
            comes_after (is_live a) (is_live b) (
              ltb (readout_order b) (readout_order a)
              || (not (ltb (readout_order a) (readout_order b)) && lex_lt b.payload a.payload)))
  tree_readout_gt_lem p q =
      rw
        (
          tree_readout_gt-dummies_last,
          is_real_lem k a p,
          is_real_lem k b q,
          ct_lt_lem (readout_order b) (readout_order a) (readout_order-lt b q.tag_fits)
              (readout_order-lt a p.tag_fits),
          ct_lt_lem (readout_order a) (readout_order b) (readout_order-lt a p.tag_fits)
              (readout_order-lt b q.tag_fits),
          compare_loop_lem k a.payload b.payload (ltb (readout_order b) (readout_order a))
              (ltb (readout_order a) (readout_order b)) p.bytes q.bytes p.key_length q.key_length,
        )
        (dummies_last_lem (is_live a) (is_live b) _)
