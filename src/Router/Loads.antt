-- ===== src/Router/Loads.antt =====
-- What the counters of the shards hold.
use native.Mathlib.Decide.{dec_lt}
use roga.Base.{
  ℕ, zero, suc, ◌+◌, ◌-◌, ◌^◌, ◌<◌, ◌≤◌, ◌≡◌, refl, sym, ap, ◌∙◌, arith, Bool, true, false, ◌&&◌,
  Bool-cases, inl, inr, List, [], ◌∷◌, bit_and, ltb, ◌==◌, ==_iff, to_bit, length, take, get_or,
  replicate, length-replicate,
}
use roga.External.{CmovEq}
use roga.Ct.{ct_eq}
use roga.Ct.Compare.{ct_lt_lem, ct_eq_lem}
use roga.Block.{OramBlock}
use roga.Block.Laws.{IsBlock, AreBlocks, is_live, is_real_lem}
use roga.Router.{shard_index_for_tag, tally, loads_loop, count_shard_loads_oblivious}

-- The real blocks whose tag goes to the shard.
unfoldable pub count_shard : {V : Type 0} → ℕ → ℕ → List (OramBlock V) → ℕ
count_shard shard_count shard [] = 0
count_shard shard_count shard (b ∷ bs) =
    to_bit (is_live b && shard_index_for_tag b.tag shard_count == shard)
    + count_shard shard_count shard bs

flags_and : (a b : Bool) → bit_and (to_bit a) (to_bit b) ≡ to_bit (a && b)
flags_and true true = refl
flags_and true false = refl
flags_and false true = refl
flags_and false false = refl

bit_bound : (b : Bool) → to_bit b ≤ 1
bit_bound true = omega arith
bit_bound false = omega arith

get_or-replicate : (n j : ℕ) → get_or {A = ℕ} (replicate n 0) j 0 ≡ 0
get_or-replicate zero j = refl
get_or-replicate (suc n) zero = refl
get_or-replicate (suc n) (suc j) = get_or-replicate n j

module _ ⦃e : CmovEq ℕ⦄ where
  ct_eq-bit : (a b : ℕ) → ct_eq a b ≡ to_bit (a == b)
  ct_eq-bit a b = elim (Bool-cases (a == b)) [
    | inl f ↦ rw f ((ct_eq_lem a b).0 ((==_iff a b).0 f))
    | inr f ↦ rw f ((ct_eq_lem a b).1 (λ g. true-ne-false (sym ((==_iff a b).1 g) ∙ f)))
  ]
    where
      true-ne-false : true ≡ false → ⊥
      true-ne-false h = cc

  tally-length :
      (active shard candidate : ℕ) (counts : List ℕ)
      → length (tally active shard candidate counts) ≡ length counts
  unfolding tally
  tally-length active shard candidate [] = refl
  tally-length active shard candidate (c ∷ cs) =
      ap suc (tally-length active shard (candidate + 1) cs)

  tally-get :
      (active : Bool) (shard candidate : ℕ) (counts : List ℕ) (j : ℕ)
      → j < length counts
      → get_or counts j 0 + 1 < 2 ^ 64
      → get_or (tally (to_bit active) shard candidate counts) j 0
        ≡ get_or counts j 0 + to_bit (active && shard == candidate + j)
  unfolding tally
  tally-get active shard candidate [] j h k = absurd (omega arith)
  tally-get active shard candidate (c ∷ cs) zero h k =
      let same : candidate + 0 ≡ candidate = omega arith in
      rw (ct_eq-bit shard candidate, flags_and active (shard == candidate), same)
        (elim (Bool-cases (active && shard == candidate)) [
          | inl f ↦ rw f (omega arith)
          | inr f ↦ rw f (omega arith)
        ])
  tally-get active shard candidate (c ∷ cs) (suc j) h k =
      let same : candidate + suc j ≡ candidate + 1 + j = omega arith in
      rw same (tally-get active shard (candidate + 1) cs j (omega arith) k)

  module _ {V : Type 0} (k : ℕ) where
    loop_turn :
        (n i : ℕ) (b : OramBlock V) (bs : List (OramBlock V)) (counts : List ℕ)
        → IsBlock k b
        → i < 2 ^ 64
        → n < 2 ^ 64
        → loads_loop n i (b ∷ bs) counts
          ≡ loads_loop n (i + 1) bs (
              tally
                (to_bit (ltb i n && is_live b))
                (shard_index_for_tag b.tag (length counts))
                0
                counts)
    unfolding loads_loop
    loop_turn n i b bs counts h hi hn =
        rw (ct_lt_lem i n hi hn, is_real_lem k b h, flags_and (ltb i n) (is_live b)) refl

    loop_end :
        (n i : ℕ) (bs : List (OramBlock V)) (counts : List ℕ)
        → bs ≡ []
        → loads_loop n i bs counts ≡ counts
    unfolding loads_loop
    loop_end n i bs counts f = rw f refl

    count_step :
        (m s : ℕ) (b : OramBlock V) (bs : List (OramBlock V))
        → count_shard m s (b ∷ bs)
          ≡ to_bit (is_live b && shard_index_for_tag b.tag m == s) + count_shard m s bs
    unfolding count_shard
    count_step m s b bs = refl

    loop_lem :
        (n i : ℕ) (bs : List (OramBlock V)) (counts : List ℕ) (s : ℕ)
        → AreBlocks k bs
        → s < length counts
        → n < 2 ^ 64
        → i + length bs < 2 ^ 64
        → get_or counts s 0 + length bs < 2 ^ 64
        → get_or (loads_loop n i bs counts) s 0
          ≡ get_or counts s 0 + count_shard (length counts) s (take (n - i) bs)
    loop_lem n i [] counts s h hs hn hi hc =
        rw (loop_end n i [] counts refl, take_none (n - i)) (unfold count_shard in omega arith)
      where
        take_none : (j : ℕ) → take {A = OramBlock V} j [] ≡ []
        take_none zero = refl
        take_none (suc j) = refl
    loop_lem n i (b ∷ bs) counts s (h, hb) hs hn hi hc =
        let m = length counts in
        let shard = shard_index_for_tag b.tag m in
        let active = ltb i n && is_live b in
        let counts' = tally (to_bit active) shard 0 counts in
        let same : length counts' ≡ m = tally-length (to_bit active) shard 0 counts in
        let first : 0 + s ≡ s = omega arith in
        let here : get_or counts' s 0 ≡ get_or counts s 0 + to_bit (active && shard == s) =
          rw first at (tally-get active shard 0 counts s hs (omega arith)) in
        let ih : get_or (loads_loop n (i + 1) bs counts') s 0
            ≡ get_or counts' s 0 + count_shard (length counts') s (take (n - (i + 1)) bs) =
          loop_lem n (i + 1) bs counts' s hb (omega arith) hn (omega arith)
            (omega (arith, bit_bound (active && shard == s))) in
        ap (λ l. get_or l s 0) (loop_turn n i b bs counts h (omega arith) hn)
        ∙ ih
        ∙ elim (dec_lt i n) [
          | yes q ↦
              let before : ltb i n ≡ true = ground arith in
              let left : n - i ≡ suc (n - (i + 1)) = omega arith in
              rw (same, here, before, left, count_step m s b (take (n - (i + 1)) bs)) (omega arith)
          | no q ↦
              let past : ltb i n ≡ false = ground arith in
              let left : n - i ≡ 0 = omega arith in
              let left' : n - (i + 1) ≡ 0 = omega arith in
              rw (same, here, past, left, left') (omega arith)
        ]

    -- After `count_shard_loads_oblivious` the counter of each shard is the number of real blocks
    -- among the first `reduced_len` whose tag goes to the shard, whatever the counters held before,
    -- if the fields of the blocks fit their types and the numbers are words.
    pub count_shard_loads_oblivious_lem :
        (counts : List ℕ) (blocks : List (OramBlock V)) (reduced_len shard : ℕ)
        → AreBlocks k blocks
        → shard < length counts
        → reduced_len < 2 ^ 64
        → length blocks < 2 ^ 64
        → get_or (count_shard_loads_oblivious counts blocks reduced_len) shard 0
          ≡ count_shard (length counts) shard (take reduced_len blocks)
    unfolding count_shard_loads_oblivious
    count_shard_loads_oblivious_lem counts blocks reduced_len shard h hs hn hl =
        let zeros = replicate (length counts) 0 in
        let size : length zeros ≡ length counts = length-replicate (length counts) 0 in
        let all : reduced_len - 0 ≡ reduced_len = omega arith in
        let none_yet : get_or zeros shard 0 ≡ 0 = get_or-replicate (length counts) shard in
        loop_lem reduced_len 0 blocks zeros shard h (omega arith) hn (omega arith) (omega arith)
        ∙ rw (none_yet, size, all) (omega arith)
