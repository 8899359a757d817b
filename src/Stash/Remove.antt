-- ===== src/Stash/Remove.antt =====
-- `read_and_remove` against its plain description, and what it leaves of the keys.
use roga.Base.{
  ℕ, suc, ap, arith, ◌≡◌, refl, sym, ◌∙◌, Bool, true, false, ◌&&◌, List, [], ◌∷◌, length, Option,
  none, some, bit_and, if◌then◌else◌, to_bit, Bool-cases, inl, inr, Option-cases, replicate,
  length-replicate,
}
use roga.External.{ScalarCmov, OramValue}
use roga.Ct.{word_cmov}
use roga.Ct.Bytes.{AreBytes, bytes_eq, bytes_eq→eq, bytes_eq_self, ct_eq_bytes_lem}
use roga.Ct.Swap.{cmov_array_lem}
use roga.Block.{OramBlock, conditional_dummy}
use roga.Block.Laws.{IsBlock, AreBlocks, is_live, is_real_lem}
use roga.Reduction.Runs.{dummied}
use roga.Reduction.Totals.{holds, gathered, included, dead_dummied}
use roga.Stash.{ObliviousStash, identity_eq, remove_loop, read_and_remove, with_blocks}

flags_and : (a b : Bool) → bit_and (to_bit a) (to_bit b) ≡ to_bit (a && b)
flags_and true true = refl
flags_and true false = refl
flags_and false true = refl
flags_and false false = refl

first_flag : (x y : Bool) → (x && y) ≡ true → x ≡ true
first_flag true y h = refl
first_flag false y h = h

module _ {V : Type 0} where
  -- The blocks of the key become dummies.
  unfoldable pub removed : List ℕ → List (OramBlock V) → List (OramBlock V)
  removed key [] = []
  removed key (b ∷ bs) = (if holds key b then dummied b else b) ∷ removed key bs

  abbrev pub last_value : V → Option V → V
  last_value default found = elim found [ none ↦ default | some x ↦ x ]

  abbrev pub found_key : List ℕ → List ℕ → Option V → List ℕ
  found_key default key found = elim found [ none ↦ default | some x ↦ key ]

module _ {V : Type 0} ⦃w : ScalarCmov ℕ⦄ ⦃p : ScalarCmov (List ℕ)⦄ ⦃v : OramValue V⦄ (k : ℕ)
    (key : List ℕ) (kb : AreBytes key) (kl : length key ≡ k) where
  turn :
      (rv : V) (rp : List ℕ) (b : OramBlock V) (bs : List (OramBlock V))
      → IsBlock k b
      → length rp ≡ k
      → remove_loop k key rv rp (b ∷ bs) ≡ (
          let rest =
            remove_loop k key
              (if holds key b then b.value else rv)
              (if holds key b then b.payload else rp)
              bs in
          (rest.0, rest.1, (if holds key b then dummied b else b) ∷ rest.2))
  unfolding remove_loop identity_eq conditional_dummy
  turn rv rp b bs h l =
      rw
        (
          is_real_lem k b h,
          ct_eq_bytes_lem k b.payload key h.bytes kb h.key_length kl,
          flags_and (bytes_eq b.payload key) (is_live b),
        )
        (elim (Bool-cases (holds key b)) [
          | inl e ↦ rw (
            e,
            v.scalar.cmovnz_lem rv b.value 1,
            cmov_array_lem rp b.payload true (l ∙ sym h.key_length),
            w.cmovnz_lem b.tag 0 1,
          )
          | inr e ↦ rw (
            e,
            v.scalar.cmovnz_lem rv b.value 0,
            cmov_array_lem rp b.payload false (l ∙ sym h.key_length),
            w.cmovnz_lem b.tag 0 0,
          )
        ])

  loop_end : (rv : V) (rp : List ℕ) → remove_loop k key rv rp [] ≡ (rv, rp, [])
  unfolding remove_loop
  loop_end rv rp = refl

  held_key : (b : OramBlock V) → holds key b ≡ true → b.payload ≡ key
  held_key b e = bytes_eq→eq b.payload key (first_flag (bytes_eq b.payload key) (is_live b) e)

  values : List (OramBlock V) → Option V
  values bs = gathered (λ b. b.value) (λ x y. y) key bs

  values_step :
      (b : OramBlock V) (bs : List (OramBlock V))
      → values (b ∷ bs) ≡ included (λ x y. y) (holds key b) b.value (values bs)
  unfolding gathered values
  values_step b bs = refl

  loop_lem :
      (rv : V) (rp : List ℕ) (bs : List (OramBlock V))
      → AreBlocks k bs
      → length rp ≡ k
      → remove_loop k key rv rp bs
        ≡ (let last = values bs in (last_value rv last, found_key rp key last, removed key bs))
  unfolding removed
  loop_lem rv rp [] h l = unfold gathered values in loop_end rv rp
  loop_lem rv rp (b ∷ bs) (h, hs) l = turn rv rp b bs h l ∙ elim (Bool-cases (holds key b)) [
    | inl e ↦
        rw (e, loop_lem b.value b.payload bs hs h.key_length, values_step b bs, e, held_key b e)
          (elim (Option-cases (values bs)) [ inl f ↦ rw f | inr (x, f) ↦ rw f ])
    | inr e ↦ rw (e, loop_lem rv rp bs hs l, values_step b bs, e)
  ]

  -- `read_and_remove` returns the value of the last real block of the key, and the key, or the
  -- default value and zeros if there is none, and makes every real block of the key a dummy, if the
  -- key has `k` bytes and the fields of the blocks fit their types.
  pub read_and_remove_lem :
      (self : ObliviousStash V)
      → AreBlocks k self.blocks
      → read_and_remove k self key ≡ (
          let last = gathered (λ b. b.value) (λ x y. y) key self.blocks in
          (
            last_value v.default last,
            found_key (replicate k 0) key last,
            with_blocks self (removed key self.blocks),
          ))
  unfolding read_and_remove
  read_and_remove_lem self h =
      rw (loop_lem v.default (replicate k 0) self.blocks h (length-replicate k 0))
        (unfold values in refl)

module _ {V : Type 0} (k : ℕ) (key : List ℕ) where
  removed-AreBlocks :
      (bs : List (OramBlock V))
      → AreBlocks k bs
      → AreBlocks k (removed key bs) × (length (removed key bs) ≡ length bs)
  unfolding removed
  removed-AreBlocks [] h = (tt, refl)
  removed-AreBlocks (b ∷ bs) (h, hs) =
      let (fits, size) = removed-AreBlocks bs hs in
      elim (Bool-cases (holds key b)) [
        | inl e ↦ rw e (
          (
            record {
              tag_fits = omega arith;
              epoch_fits = h.epoch_fits;
              bytes = h.bytes;
              key_length = h.key_length;
            },
            fits,
          ),
          ap suc size,
        )
        | inr e ↦ rw e ((h, fits), ap suc size)
      ]

module _ {V : Type 0} ⦃w : ScalarCmov ℕ⦄ ⦃p : ScalarCmov (List ℕ)⦄ ⦃v : OramValue V⦄ where
  pub read_and_remove-AreBlocks :
      (k : ℕ) (key : List ℕ) (self : ObliviousStash V)
      → AreBytes key
      → length key ≡ k
      → AreBlocks k self.blocks
      → let after = (read_and_remove k self key).2 in
        AreBlocks k after.blocks
        × (length after.blocks ≡ length self.blocks)
        × (after.path_size ≡ self.path_size)
  read_and_remove-AreBlocks k key self kb kl h =
      let kept = removed-AreBlocks k key self.blocks h in
      rw (read_and_remove_lem k key kb kl self h) (unfold with_blocks in (kept.0, kept.1, refl))

-- What is left of the keys.
module _ {V A : Type 0} (measure : OramBlock V → A) (op : A → A → A) (key : List ℕ) where
  step :
      (other : List ℕ) (b : OramBlock V) (bs : List (OramBlock V))
      → gathered measure op other (b ∷ bs)
        ≡ included op (holds other b) (measure b) (gathered measure op other bs)
  unfolding gathered
  step other b bs = refl

  gathered-removed : (bs : List (OramBlock V)) → gathered measure op key (removed key bs) ≡ none
  unfolding removed
  gathered-removed [] = unfold gathered in refl
  gathered-removed (b ∷ bs) = elim (Bool-cases (holds key b)) [
    | inl e ↦ rw (e, step key (dummied b) (removed key bs), dead_dummied key b, gathered-removed bs)
    | inr e ↦ rw (e, step key b (removed key bs), e, gathered-removed bs)
  ]

  apart :
      (other : List ℕ) (b : OramBlock V)
      → bytes_eq other key ≡ false
      → holds key b ≡ true
      → holds other b ≡ false
  apart other b ne e = elim (Bool-cases (holds other b)) [
    | inr f ↦ f
    | inl f ↦
        let one : key ≡ other =
          sym (bytes_eq→eq b.payload key (first_flag _ _ e))
          ∙ bytes_eq→eq b.payload other (first_flag _ _ f) in
        let same : bytes_eq other key ≡ true = rw one (bytes_eq_self other) in cc
  ]

  gathered-removed_other :
      (other : List ℕ) (bs : List (OramBlock V))
      → bytes_eq other key ≡ false
      → gathered measure op other (removed key bs) ≡ gathered measure op other bs
  unfolding removed
  gathered-removed_other other [] ne = refl
  gathered-removed_other other (b ∷ bs) ne = elim (Bool-cases (holds key b)) [
    | inl e ↦ rw (
      e,
      step other (dummied b) (removed key bs),
      step other b bs,
      dead_dummied other b,
      apart other b ne e,
      gathered-removed_other other bs ne,
    )
    | inr e ↦
        rw (e, step other b (removed key bs), step other b bs, gathered-removed_other other bs ne)
  ]

module _ {V A : Type 0} ⦃w : ScalarCmov ℕ⦄ ⦃p : ScalarCmov (List ℕ)⦄ ⦃v : OramValue V⦄
    (measure : OramBlock V → A) (op : A → A → A) where
  -- After `read_and_remove` the stash has no real block of the key, and what any other key's real
  -- blocks add up to, by any measure and any way to combine, is the same, if the key has `k` bytes
  -- and the fields of the blocks fit their types.
  pub read_and_remove-gathered :
      (k : ℕ) (key other : List ℕ) (self : ObliviousStash V)
      → AreBytes key
      → length key ≡ k
      → AreBlocks k self.blocks
      → bytes_eq other key ≡ false
      → let after = (read_and_remove k self key).2 in
        (gathered measure op key after.blocks ≡ none)
        × (gathered measure op other after.blocks ≡ gathered measure op other self.blocks)
  read_and_remove-gathered k key other self kb kl h ne =
      rw (read_and_remove_lem k key kb kl self h) (
        unfold with_blocks in
        (
          gathered-removed measure op key self.blocks,
          gathered-removed_other measure op key other self.blocks ne,
        ))
