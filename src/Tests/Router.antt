-- ===== src/Tests/Router.antt =====
-- Tests of the routing of keys to shards, with a cipher that changes nothing.
use roga.Base.{ℕ, ◌+◌, ◌*◌, ◌^◌, ◌≡◌, refl, arith, List, [], ◌∷◌, ◌++◌, get_or, replicate}
use roga.Tests.Fixtures.{plain_cmov, plain_eq, identity_cipher, key_a, key_b, block, tag_block}
use roga.Ct.{from_bytes}
use roga.Block.{OramBlock}
use roga.Block.Laws.{AreBlocks}
use roga.Crypto.{prf_tag, copy_prefix, absorb, xor_block}
use roga.Crypto.Padding.{prf_tag-zeros}
use roga.Router.{prepare_key, shard_index_for_tag, count_shard_loads_oblivious}
use roga.Router.Loads.{count_shard, count_shard_loads_oblivious_lem}

prepare_key-key : prepare_key identity_cipher (5 ∷ 0 ∷ 0 ∷ 0 ∷ 7 ∷ []) 4 ≡ (3, 5 + 7 * 2 ^ 32)
unfolding prepare_key shard_index_for_tag prf_tag absorb xor_block from_bytes
prepare_key-key = refl

prf_tag-zeros_example :
    let padded = key_a ++ replicate 14 0 in
    (prf_tag identity_cipher padded ≡ prf_tag identity_cipher key_a)
    × (copy_prefix 4 padded ≡ copy_prefix 4 key_a)
prf_tag-zeros_example = prf_tag-zeros identity_cipher 4 key_a (omega arith)

abbrev tagged : List (OramBlock ℕ)
tagged =
    block (2 * 2 ^ 32 + 1) 0 1 key_a
    ∷ block 1 0 1 key_a
    ∷ block (2 * 2 ^ 32 + 1) 0 1 key_b
    ∷ block (2 * 2 ^ 32 + 1) 0 1 key_b
    ∷ []

tagged-AreBlocks : AreBlocks 2 tagged
tagged-AreBlocks = (
  tag_block (2 * 2 ^ 32 + 1) 0 1 2 (omega arith) (omega arith) (omega arith),
  (
    tag_block 1 0 1 2 (omega arith) (omega arith) (omega arith),
    (
      tag_block (2 * 2 ^ 32 + 1) 0 1 3 (omega arith) (omega arith) (omega arith),
      (tag_block (2 * 2 ^ 32 + 1) 0 1 3 (omega arith) (omega arith) (omega arith), tt),
    ),
  ),
)

count_shard_loads_oblivious_lem_example :
    get_or (count_shard_loads_oblivious (99 ∷ 99 ∷ 99 ∷ 99 ∷ []) tagged 3) 2 0 ≡ 2
unfolding count_shard shard_index_for_tag
count_shard_loads_oblivious_lem_example =
    count_shard_loads_oblivious_lem 2 (99 ∷ 99 ∷ 99 ∷ 99 ∷ []) tagged 3 2 tagged-AreBlocks
      (omega arith) (omega arith) (omega arith)
