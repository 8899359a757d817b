-- ===== src/Shards/Flush.antt =====
-- What a flush of ShardedBatchRouter hands to its frontends: chunks of equal length, one to each, which do
-- not cover a batch whose length is no multiple of the number of frontends.
use roga.Base.{
  ℕ, ◌+◌, ◌*◌, ◌/◌, ◌≤◌, ◌<◌, ◌≡◌, refl, arith, false, Option, none, some, List, [], ◌∷◌, ◌++◌,
  ◌>>=◌, ltb, ◌==◌, length, take, drop, length-append, take-append-le, drop-append-le, length-drop,
  le→ltb, ==-ne, take-append, drop-append,
}
use native.Mathlib.Nat.{div-le_self}
use roga.External.{ScalarCmov, CmovEq, OramValue}
use roga.Block.{OramBlock}
use roga.Shards.{
  OramShard, RouterFrontend, ShardedBatchRouter, zip_chunks, process_sub_batch, flush, shards_loop,
}

module _ {V : Type 0} where
  -- A round of `zip_chunks`, whose later rounds are given.
  abbrev zip_round :
      Option (RouterFrontend V)
      → Option (List (RouterFrontend V))
      → Option (List (RouterFrontend V))
  zip_round none later = none
  zip_round (some frontend) none = none
  zip_round (some frontend) (some frontends) = some (frontend ∷ frontends)

  module _ (process : RouterFrontend V → List (OramBlock V) → Option (RouterFrontend V))
      (n : ℕ) where
    zip_chunks-cons :
        (frontend : RouterFrontend V) (frontends : List (RouterFrontend V))
        (batch : List (OramBlock V))
        → 0 < length batch
        → zip_chunks process n (frontend ∷ frontends) batch
          ≡ zip_round
              (process frontend (take n batch))
              (zip_chunks process n frontends (drop n batch))
    unfolding zip_chunks
    zip_chunks-cons frontend frontends [] h = absurd (omega arith)
    zip_chunks-cons frontend frontends (block ∷ batch) h = ground arith

    -- The frontends do not see a batch behind their chunks.
    zip_chunks-append :
        (frontends : List (RouterFrontend V)) (batch rest rest' : List (OramBlock V))
        → length batch ≡ length frontends * n
        → 0 < n
        → zip_chunks process n frontends (batch ++ rest)
          ≡ zip_chunks process n frontends (batch ++ rest')
    zip_chunks-append [] batch rest rest' h p = unfold zip_chunks in refl
    zip_chunks-append (frontend ∷ frontends) batch rest rest' h p =
        let le : n ≤ length batch = grind arith in
        rw (
          zip_chunks-cons frontend frontends (batch ++ rest)
              (omega (arith, length-append batch rest)),
          zip_chunks-cons frontend frontends (batch ++ rest')
              (omega (arith, length-append batch rest')),
          take-append-le n batch rest le,
          take-append-le n batch rest' le,
          drop-append-le n batch rest le,
          drop-append-le n batch rest' le,
          zip_chunks-append frontends (drop n batch) rest rest'
              (rw (length-drop n batch) (grind arith)) p,
        )

module _ {S V : Type 0} (o : OramShard S V) ⦃w : ScalarCmov ℕ⦄ ⦃p : ScalarCmov (List ℕ)⦄
    ⦃v : OramValue V⦄ ⦃e : CmovEq ℕ⦄ (k : ℕ) where
  -- A flush with a full batch and enough updates for each frontend.
  flush-full :
      (self : ShardedBatchRouter S V) (batch later : List (OramBlock V))
      → 0 < length self.frontends
      → 0 < self.batch_capacity / length self.frontends
      → length batch ≡ self.batch_capacity
      → flush o k (record self { pending = batch ++ later }) ≡ (
          zip_chunks
            (λ frontend sub_batch.
              process_sub_batch k frontend sub_batch self.shard_count
                (self.per_shard_quota / length self.frontends))
            (self.batch_capacity / length self.frontends)
            self.frontends
            batch
          >>= λ frontends.
              shards_loop o (self.per_shard_quota / length self.frontends) frontends 0 self.shards
              >>= λ shards.
                  some (record self { frontends = frontends; shards = shards; pending = later }))
  unfolding flush
  flush-full self batch later f n l =
      let cap : 0 < self.batch_capacity =
        omega (arith, div-le_self self.batch_capacity (length self.frontends)) in
      let long : ltb (length (batch ++ later)) self.batch_capacity ≡ false =
        le→ltb _ _ (omega (arith, length-append batch later)) in
      let filled : (length (batch ++ later) == 0) ≡ false =
        ==-ne _ _ (λ h. omega (arith, length-append batch later)) in
      let some_frontends : (length self.frontends == 0) ≡ false = ==-ne _ _ (λ h. omega arith) in
      let some_updates : (self.batch_capacity / length self.frontends == 0) ≡ false =
        ==-ne _ _ (λ h. omega arith) in
      rw (
        filled,
        long,
        some_frontends,
        some_updates,
        take-append self.batch_capacity batch later l,
        drop-append self.batch_capacity batch later l,
      )

  -- In a full batch only the first updates, as many as the number of frontends times the rounded
  -- quotient of the capacity by that number, have an influence on the router after `flush`: any
  -- others in the places behind them, up to the capacity, give the same shards, frontends and
  -- pending updates. There is a frontend, and at least one update for each.
  pub flush-remainder :
      (self : ShardedBatchRouter S V) (routed lost lost' later : List (OramBlock V))
      → 0 < length self.frontends
      → 0 < self.batch_capacity / length self.frontends
      → length routed ≡ length self.frontends * (self.batch_capacity / length self.frontends)
      → length routed + length lost ≡ self.batch_capacity
      → length lost' ≡ length lost
      → flush o k (record self { pending = (routed ++ lost) ++ later })
        ≡ flush o k (record self { pending = (routed ++ lost') ++ later })
  flush-remainder self routed lost lost' later f q h n l = rw (
    flush-full self (routed ++ lost) later f q (omega (arith, length-append routed lost)),
    flush-full self (routed ++ lost') later f q (omega (arith, length-append routed lost')),
    zip_chunks-append
        (λ frontend sub_batch.
          process_sub_batch k frontend sub_batch self.shard_count
            (self.per_shard_quota / length self.frontends))
        (self.batch_capacity / length self.frontends) self.frontends routed lost lost' h q,
  )
