-- ===== src/Stash/Eviction/Levels.antt =====
-- The assignment of blocks to the levels of a path.
use mathlib.Core.Option.{none-ne-some, some-injective}
use roga.Base.{
  ℕ, zero, suc, ◌+◌, ◌^◌, ◌<◌, ◌≤◌, ◌≡◌, refl, ap, ◌∙◌, arith, Bool, true, false, not, ◌&&◌, ◌||◌,
  Option, none, some, List, [], ◌∷◌, bit_and, bit_or, leb, ltb, if◌then◌else◌, to_bit, length, set,
  get_or, Bool-cases, inl, inr, Option-cases, length-set, ltb→lt, leading_zeros-le, bit_xor,
}
use roga.Ct.{ct_not}
use roga.Ct.Compare.{ct_lt_lem, ct_not_lem}
use roga.Routing.{deepest_shared_level, to_leaf}
use roga.Block.{OramBlock}
use roga.Block.Laws.{IsBlock, AreBlocks, is_live, is_real_lem}
use roga.Stash.{sum_real}
use roga.Stash.Eviction.{level_loop, assign_loop}

flags_and :
    (a b c d : Bool)
    → bit_and (bit_and (bit_and (to_bit a) (to_bit b)) (to_bit c)) (to_bit d)
      ≡ to_bit (a && b && c && d)
flags_and true true true true = refl
flags_and true true true false = refl
flags_and true true false true = refl
flags_and true true false false = refl
flags_and true false true true = refl
flags_and true false true false = refl
flags_and true false false true = refl
flags_and true false false false = refl
flags_and false true true true = refl
flags_and false true true false = refl
flags_and false true false true = refl
flags_and false true false false = refl
flags_and false false true true = refl
flags_and false false true false = refl
flags_and false false false true = refl
flags_and false false false false = refl

flags_or : (a b : Bool) → bit_or (to_bit a) (to_bit b) ≡ to_bit (a || b)
flags_or true true = refl
flags_or true false = refl
flags_or false true = refl
flags_or false false = refl

put_false : (a b c d : Bool) → (c && d) ≡ false → (a && b && c && d) ≡ false
put_false true true c d h = h
put_false true false c d h = refl
put_false false b c d h = refl

or_false : (a : Bool) → (a || false) ≡ a
or_false true = refl
or_false false = refl

up_to : (a b : ℕ) → ltb a (b + 1) ≡ leb a b
up_to a b = ground arith

-- The deepest level below `n` that a block may descend to and that has room.
unfoldable pub deepest_free : ℕ → ℕ → ℕ → List ℕ → Option ℕ
deepest_free z block_level zero counts = none
deepest_free z block_level (suc level) counts =
    let higher = deepest_free z block_level level counts in
    if leb level block_level && ltb (get_or counts level 0) z then some level else higher

-- No bucket holds more than `z` blocks.
abbrev pub AreAtMost : ℕ → List ℕ → Type 0
AreAtMost z [] = Unit
AreAtMost z (c ∷ cs) = (c ≤ z) × AreAtMost z cs

AreAtMost-get : (z : ℕ) (cs : List ℕ) (i : ℕ) → AreAtMost z cs → get_or cs i 0 ≤ z
AreAtMost-get z [] i h = omega arith
AreAtMost-get z (c ∷ cs) zero (h, hs) = h
AreAtMost-get z (c ∷ cs) (suc i) (h, hs) = AreAtMost-get z cs i hs

AreAtMost-set : (z : ℕ) (cs : List ℕ) (i x : ℕ) → AreAtMost z cs → x ≤ z → AreAtMost z (set cs i x)
AreAtMost-set z [] i x h g = tt
AreAtMost-set z (c ∷ cs) zero x (h, hs) g = (g, hs)
AreAtMost-set z (c ∷ cs) (suc i) x (h, hs) g = (h, AreAtMost-set z cs i x hs g)

abbrev pub sum : List ℕ → ℕ
sum [] = 0
sum (c ∷ cs) = c + sum cs

sum-set : (cs : List ℕ) (i : ℕ) → i < length cs → sum (set cs i (get_or cs i 0 + 1)) ≡ sum cs + 1
sum-set [] i h = absurd (omega arith)
sum-set (c ∷ cs) zero h = omega arith
sum-set (c ∷ cs) (suc i) h = omega (arith, sum-set cs i (omega arith))

set_same : (cs : List ℕ) (i : ℕ) → set cs i (get_or cs i 0 + 0) ≡ cs
set_same [] i = refl
set_same (c ∷ cs) zero = ap (λ x. x ∷ cs) (omega arith)
set_same (c ∷ cs) (suc i) = ap (λ l. c ∷ l) (set_same cs i)

module _ (z block_level : ℕ) (hz : z < 2 ^ 64) (hb : block_level + 1 < 2 ^ 64) where
  turn :
      (real assigned : Bool) (level : ℕ) (counts : List ℕ)
      → level < 2 ^ 64
      → AreAtMost z counts
      → let put =
          ltb level (block_level + 1) && ltb (get_or counts level 0) z && not assigned && real in
        level_loop z (to_bit real) block_level (suc level) counts (to_bit assigned)
        ≡ level_loop z
            (to_bit real)
            block_level
            level
            (set counts level (get_or counts level 0 + to_bit put))
            (to_bit (assigned || put))
  unfolding level_loop
  turn real assigned level counts hl h =
      let c = get_or counts level 0 in
      let small : c < 2 ^ 64 = omega (arith, AreAtMost-get z counts level h) in
      let put = ltb level (block_level + 1) && ltb c z && not assigned && real in
      rw
        (
          ct_lt_lem level (block_level + 1) hl hb,
          ct_lt_lem c z small hz,
          ct_not_lem assigned,
          flags_and (ltb level (block_level + 1)) (ltb c z) (not assigned) real,
          flags_or assigned put,
        )
        refl

  loop_end : (r a : ℕ) (counts : List ℕ) → level_loop z r block_level 0 counts a ≡ (counts, a)
  unfolding level_loop
  loop_end r a counts = refl

  -- Nothing is put once the block is assigned, or if it is a dummy.
  idle :
      (real assigned : Bool) (level : ℕ) (counts : List ℕ)
      → level < 2 ^ 64
      → AreAtMost z counts
      → (not assigned && real) ≡ false
      → level_loop z (to_bit real) block_level level counts (to_bit assigned)
        ≡ (counts, to_bit assigned)
  idle real assigned zero counts hl h e = loop_end (to_bit real) (to_bit assigned) counts
  idle real assigned (suc level) counts hl h e =
      let none_put =
        put_false (ltb level (block_level + 1)) (ltb (get_or counts level 0) z) (not assigned) real
          e in
      turn real assigned level counts (omega arith) h
      ∙ rw (none_put, or_false assigned, set_same counts level)
          (idle real assigned level counts (omega arith) h e)

  -- For a real block the branch-free loop over the levels adds the block to the deepest level that
  -- it may descend to and that has room, and to none if there is no such level, if no level holds
  -- more than `z` blocks and the numbers are words.
  pub level_loop_lem :
      (n : ℕ) (counts : List ℕ)
      → n < 2 ^ 64
      → AreAtMost z counts
      → level_loop z 1 block_level n counts 0 ≡ (elim (deepest_free z block_level n counts) [
        | none ↦ (counts, 0)
        | some level ↦ (set counts level (get_or counts level 0 + 1), 1)
      ])
  unfolding deepest_free
  level_loop_lem zero counts hn h = loop_end 1 0 counts
  level_loop_lem (suc level) counts hn h =
      turn true false level counts (omega arith) h ∙ elim (Bool-cases (leb level block_level)) [
        | inr e ↦
            rw (up_to level block_level, e, set_same counts level)
              (level_loop_lem level counts (omega arith) h)
        | inl e ↦ elim (Bool-cases (ltb (get_or counts level 0) z)) [
          | inr f ↦
              rw (up_to level block_level, e, f, set_same counts level)
                (level_loop_lem level counts (omega arith) h)
          | inl f ↦
              let room : get_or counts level 0 < z = ltb→lt (get_or counts level 0) z f in
              rw (up_to level block_level, e, f)
                (idle true true level (set counts level (get_or counts level 0 + 1)) (omega arith)
                  (AreAtMost-set z counts level (get_or counts level 0 + 1) h (omega arith)) refl)
        ]
      ]

  deepest_free-lt :
      (n : ℕ) (counts : List ℕ) (level : ℕ)
      → deepest_free z block_level n counts ≡ some level
      → (level < n) × (level ≤ block_level) × (get_or counts level 0 < z)
  unfolding deepest_free
  deepest_free-lt zero counts level e = absurd (none-ne-some level e)
  deepest_free-lt (suc n) counts level e =
      elim (Bool-cases (leb n block_level && ltb (get_or counts n 0) z)) [
        | inl f ↦
            let same : n ≡ level = some-injective n level (rw f at e) in
            rw (← same) (omega arith, ground arith, ground arith)
        | inr f ↦
            let rest : deepest_free z block_level n counts ≡ some level = rw f at e in
            let (a, b, c) = deepest_free-lt n counts level rest in (omega arith, b, c)
      ]

-- What the assignment keeps: the counts of the levels stay at most `z`, and with the overflow they
-- count the real blocks.
pub record Assigned (z : ℕ) (blocks_real start : ℕ) (size : ℕ) (result : List ℕ × ℕ) : Type 0 where
  pub at_most : AreAtMost z result.0
  pub balance : sum result.0 + result.1 ≡ start + blocks_real
  pub size_kept : length result.0 ≡ size

carried :
    (z r r' s s' n n' : ℕ) (result : List ℕ × ℕ)
    → s + r ≡ s' + r'
    → n ≡ n'
    → Assigned z r s n result
    → Assigned z r' s' n' result
carried z r r' s s' n n' result e f a = record {
  at_most = a.at_most;
  balance = a.balance ∙ e;
  size_kept = a.size_kept ∙ f;
}

-- No level is deeper than the leaves.
deepest-small :
    (position tag height : ℕ)
    → height ≤ 31
    → position < 2 ^ 64
    → deepest_shared_level position tag height + 1 < 2 ^ 64
unfolding deepest_shared_level
deepest-small position tag height h p =
    let zeros = leading_zeros-le (bit_xor position (to_leaf tag height)) in omega arith

module _ {V : Type 0} (k z position height : ℕ) (hz : z < 2 ^ 64) (hh : height ≤ 31)
    (hp : position < 2 ^ 64) where
  block_turn :
      (b : OramBlock V) (bs : List (OramBlock V)) (counts : List ℕ) (overflow : ℕ)
      → IsBlock k b
      → assign_loop z position height (b ∷ bs) counts overflow ≡ (
          let r =
            level_loop z
              (to_bit (is_live b))
              (deepest_shared_level position b.tag height)
              (height + 1)
              counts
              0 in
          assign_loop z position height bs r.0
            (overflow + bit_and (to_bit (is_live b)) (ct_not r.1)))
  unfolding assign_loop
  block_turn b bs counts overflow h = rw (is_real_lem k b h) refl

  assign_end :
      (bs : List (OramBlock V)) (counts : List ℕ) (overflow : ℕ)
      → bs ≡ []
      → assign_loop z position height bs counts overflow ≡ (counts, overflow)
  unfolding assign_loop
  assign_end bs counts overflow e = rw e refl

  real_step :
      (b : OramBlock V) (bs : List (OramBlock V))
      → IsBlock k b
      → sum_real (b ∷ bs) ≡ to_bit (is_live b) + sum_real bs
  unfolding sum_real
  real_step b bs h = rw (is_real_lem k b h) refl

  -- The assignment of blocks to the levels of a path, in a tree of a height of at most 31, leaves no
  -- level with more than `z` blocks, and the blocks on the levels and in the overflow grow together
  -- by the number of the real blocks. The fields of the blocks fit their types, there is a count for
  -- every level, and no level had more than `z` blocks before.
  pub assign_loop_lem :
      (bs : List (OramBlock V)) (counts : List ℕ) (overflow : ℕ)
      → AreBlocks k bs
      → AreAtMost z counts
      → height < length counts
      → Assigned z
          (sum_real bs)
          (sum counts + overflow)
          (length counts)
          (assign_loop z position height bs counts overflow)
  unfolding ct_not
  assign_loop_lem [] counts overflow h g l =
      rw (assign_end [] counts overflow refl)
        (record { at_most = g; balance = unfold sum_real in omega arith; size_kept = refl })
  assign_loop_lem (b ∷ bs) counts overflow (h, hs) g l =
      let deepest = deepest_shared_level position b.tag height in
      let small : deepest + 1 < 2 ^ 64 = deepest-small position b.tag height hh hp in
      rw (block_turn b bs counts overflow h, real_step b bs h)
        (elim (Bool-cases (is_live b)) [
          | inr e ↦
              rw (e, idle z deepest hz small false false (height + 1) counts (omega arith) g refl)
                (carried z (sum_real bs) (0 + sum_real bs) (sum counts + (overflow + 0))
                  (sum counts + overflow) (length counts) (length counts) _ (omega arith) refl
                  (assign_loop_lem bs counts (overflow + 0) hs g l))
          | inl e ↦
              rw (e, level_loop_lem z deepest hz small (height + 1) counts (omega arith) g)
                (elim (Option-cases (deepest_free z deepest (height + 1) counts)) [
                  | inl f ↦ rw f (
                      carried z (sum_real bs) (1 + sum_real bs) (sum counts + (overflow + 1))
                        (sum counts + overflow) (length counts) (length counts) _ (omega arith) refl
                        (assign_loop_lem bs counts (overflow + 1) hs g l))
                  | inr (level, f) ↦
                      let (a, b, c) =
                        deepest_free-lt z deepest hz small (height + 1) counts level f in
                      let counts' = set counts level (get_or counts level 0 + 1) in
                      rw f (
                        carried z (sum_real bs) (1 + sum_real bs) (sum counts' + (overflow + 0))
                          (sum counts + overflow) (length counts') (length counts) _
                          (omega (arith, sum-set counts level (omega arith)))
                          (length-set counts level (get_or counts level 0 + 1))
                          (assign_loop_lem bs counts' (overflow + 0) hs
                            (AreAtMost-set z counts level (get_or counts level 0 + 1) g
                              (omega arith))
                            (omega (arith, length-set counts level (get_or counts level 0 + 1)))))
                ])
        ])
