-- ===== src/Lib.antt =====
-- The core of the crate `oram` (crates/oram/src): a histogram that is kept in an oblivious tree. Tags
-- derived from keys route blocks to leaves; a stash collects the blocks of a path, sorts them, adds up
-- those of one key (reduction), and spreads them over the path again (compaction and distribution).
-- All of it runs on moves and swaps whose memory trace does not depend on the data.
--
-- Base holds the shared names: Boolean tests, lists as arrays, bit operations, machine words, loops.
-- External holds what third-party crates offer, as records of operations with their documented
-- laws: the conditional moves and comparisons of the crate `cmov`, and the value types of the trait
-- `OramValue`; the block cipher, random generators and the arithmetic of `f64`. The model takes them as
-- arguments.
-- Ct is crates/oram/src/oblivious/ct.rs: `ct_lt` and its kin with the borrow written out, and the
-- crate's own trait `Cmov` as the record that compaction is generic in.
-- Compaction is crates/oram/src/oblivious/compaction.rs. The recursive functions take fuel, and the
-- length of the array is given as fuel: each call is on at most half of the array or, in
-- `compact_fuel`, on what is left after the largest power of two, so that a call of one or two entries
-- is reached first; the theorems on places hold of the result with this fuel.
-- Reduction is crates/oram/src/oblivious/reduction.rs, with the trait `Reducible` as a record.
-- Block is crates/oram/src/block.rs: OramBlock and FlowRecord.
-- Routing is crates/oram/src/oblivious_histogram/routing.rs and tree.rs, and the level
-- computation of stash.rs.
-- Stash is crates/oram/src/oblivious_histogram/stash.rs: the record ObliviousStash and its operations,
-- Stash.Eviction the write of a path. Its theorems use those of Compaction, Reduction and Routing.
-- Crypto is crates/oram/src/oblivious/crypto.rs and copy_prefix of crates/oram/src/oblivious/mod.rs,
-- with the block cipher as the parameter BlockCipher.
-- Router is crates/oram/src/sharded_oblivious_histogram/router.rs.
-- Histogram is the eviction schedule of crates/oram/src/oblivious_histogram/ops.rs.
-- Binomial is crates/oram/src/oblivious/binomial_solver.rs, over any floating-point arithmetic.
-- Resize is the deciding part of crates/oram/src/oblivious_histogram/resize.rs: the noise, the counters
-- of an epoch and the signal to grow.
-- Oram is the tree of one shard, crates/oram/src/oblivious_histogram/mod.rs, with the configuration and
-- growth of resize.rs; Oram.Ops is ops.rs and the migration of blocks, Oram.Readout, Oram.Subtree and
-- Oram.Order are the readouts of mod.rs with their comparisons. Oram.Round says what a well-formed tree
-- is and what a key adds up to; it rests on Stash.Exchange, a path that is read and written back.
-- Shards is crates/oram/src/sharded_oblivious_histogram/mod.rs: the router and its frontends, generic in
-- the shard as in the source; Shards.Histogram and Shards.Access are the histogram over trees.
-- Sort is crates/oram/src/oblivious/djbsort.rs, the networks on a comparator and on keys with payloads
-- and the merge of two runs; Sort.Reduce has the passes of compaction.rs and stash.rs that sort first.
-- The loops have fuel: a round halves a stride or raises an index that is at most the length. That
-- the result of a network is in order is not proved, only tested.
-- Tests runs the model on small inputs.
--
-- `none` is a panic. Debug assertions are left out, as in a release build. The batch loop of ops.rs has
-- the number of updates as fuel, since a round takes one at least; a bisection has the length of its
-- interval. Counters of operations that would take centuries to overflow are plain numbers. The
-- parallel loops over frontends and shards run one after the other, since their bodies share nothing.
--
-- A slice is a list, and a function that changes a slice returns the new one. A flag is a number, 0 or
-- 1, as in the source; words are numbers with the wrap-around written out. Key lengths and other
-- constant generics are arguments. That the machine code has a constant trace is not a statement
-- about values and is not modelled, nor are timings, metrics and the vector code of `cswap_fast_ptr`.
pub mod Base
pub mod External
pub mod Ct
pub mod Compaction
pub mod Routing
pub mod Block
pub mod Reduction
pub mod Stash
pub mod Crypto
pub mod Router
pub mod Histogram
pub mod Sort
pub mod Binomial
pub mod Resize
pub mod Oram
pub mod Shards
mod Tests
