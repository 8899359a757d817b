-- ===== src/Tests/Shards.antt =====
-- Tests of the router of batches: two frontends, a batch of five updates, and shards that count.
use roga.Base.{ℕ, ◌+◌, ◌≡◌, refl, arith, List, [], ◌∷◌, some, length}
use roga.Tests.Fixtures.{plain_cmov, plain_eq, word_value, identity_cipher, key_a, key_b, block}
use roga.Block.{OramBlock}
use roga.Shards.{OramShard, RouterFrontend_new, ShardedBatchRouter, flush}
use roga.Shards.Flush.{flush-remainder}

-- A shard that counts the blocks of its chunks.
abbrev counting : OramShard ℕ ℕ
counting = record { process_batch_chunk = λ shard chunk. some (shard + length chunk) }

abbrev two_frontends : List (OramBlock ℕ) → ShardedBatchRouter ℕ ℕ
two_frontends pending = record {
  shards = 0 ∷ 0 ∷ [];
  prf = identity_cipher;
  shard_count = 2;
  batch_capacity = 5;
  per_shard_quota = 4;
  frontend_count = 2;
  pending = pending;
  frontends = RouterFrontend_new 2 2 2 2 ∷ RouterFrontend_new 2 2 2 2 ∷ [];
}

abbrev four : List (OramBlock ℕ)
four = block 7 0 1 key_a ∷ block 7 0 1 key_b ∷ block 7 0 1 key_a ∷ block 7 0 1 key_b ∷ []

-- The fifth update of a batch, here either of two, is in no shard afterwards.
flush-remainder_example :
    flush counting 2 (
      two_frontends (
        block 7 0 1 key_a
        ∷ block 7 0 1 key_b
        ∷ block 7 0 1 key_a
        ∷ block 7 0 1 key_b
        ∷ block 9 0 5 key_a
        ∷ []))
    ≡ flush counting 2 (
        two_frontends (
          block 7 0 1 key_a
          ∷ block 7 0 1 key_b
          ∷ block 7 0 1 key_a
          ∷ block 7 0 1 key_b
          ∷ block 0 0 0 key_a
          ∷ []))
flush-remainder_example =
    flush-remainder counting 2 (two_frontends []) four (block 9 0 5 key_a ∷ [])
      (block 0 0 0 key_a ∷ []) [] (omega arith) (omega arith) refl refl refl
