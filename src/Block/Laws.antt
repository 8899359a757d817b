-- ===== src/Block/Laws.antt =====
-- What blocks promise: which are real, whose keys agree, and the dummy that a condition makes.
use roga.Base.{
  ℕ, ◌^◌, ◌<◌, ◌≡◌, Bool, not, List, [], ◌∷◌, length, ◌==◌, to_bit, Bool-cases, inl, inr,
}
use roga.Ct.Bytes.{AreBytes, bytes_eq, ct_eq_bytes_lem}
use roga.Routing.Leaves.{ct_is_real_lem}
use roga.Block.{OramBlock, is_real, ct_identity_eq}

-- A block of the source: its fields fit their types.
pub record IsBlock {V : Type 0} (k : ℕ) (b : OramBlock V) : Type 0 where
  pub tag_fits : b.tag < 2 ^ 64
  pub epoch_fits : b.epoch < 2 ^ 8
  pub bytes : AreBytes b.payload
  pub key_length : length b.payload ≡ k

abbrev pub AreBlocks : {V : Type 0} → ℕ → List (OramBlock V) → Type 0
AreBlocks k [] = Unit
AreBlocks k (b ∷ bs) = IsBlock k b × AreBlocks k bs

module _ {V : Type 0} where
  abbrev pub is_live : OramBlock V → Bool
  is_live b = not (b.tag == 0)

  pub is_real_lem : (k : ℕ) (b : OramBlock V) → IsBlock k b → is_real b ≡ to_bit (is_live b)
  unfolding is_real
  is_real_lem k b h =
      rw (ct_is_real_lem b.tag h.tag_fits)
        (elim (Bool-cases (b.tag == 0)) [ inl e ↦ rw e | inr e ↦ rw e ])

  pub ct_identity_eq_lem :
      (k : ℕ) (a b : OramBlock V)
      → IsBlock k a
      → IsBlock k b
      → ct_identity_eq k a b ≡ to_bit (bytes_eq a.payload b.payload)
  unfolding ct_identity_eq
  ct_identity_eq_lem k a b p q =
      ct_eq_bytes_lem k a.payload b.payload p.bytes q.bytes p.key_length q.key_length
