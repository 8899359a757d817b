-- ===== src/Tests/Totals.antt =====
-- The totals of a tree of height 1, with blocks of two keys in the tree and in the stash.
use roga.Base.{
  ℕ, ◌≡◌, refl, arith, [], ◌∷◌, List, none, some, replicate, wrapping_add, leading_zeros,
}
use roga.Tests.Fixtures.{
  plain_cmov, plain_eq, word_value, identity_cipher, key_a, block, tag_block, wrapping_add_assoc,
}
use roga.Tests.Numbers.{whole, counter}
use roga.Tests.Oram.{small, empty_tree}
use roga.Crypto.{prf_tag, copy_prefix, absorb, xor_block, copy_loop}
use roga.Ct.{from_bytes}
use roga.Ct.Bytes.{bytes_eq}
use roga.Block.{OramBlock}
use roga.Block.Laws.{IsBlock}
use roga.Reduction.Totals.{gathered}
use roga.Routing.{tree_height_for_capacity, ilog2}
use roga.Stash.Insert.{new_block}
use roga.Oram.{ObliviousHistogram, new, access_path, grow_physical_storage}
use roga.Oram.Ops.{append, evict_after_insert, next_evict_leaf, read_prepared_total}
use roga.Oram.Round.{IsTree, total}
use roga.Oram.Totals.{IsKept, access_path-total}
use roga.Oram.Eviction.{evict_after_insert-total}
use roga.Oram.Append.{IsAppended, append-total}
use roga.Oram.Read.{IsRead, read_prepared_total-total}
use roga.Oram.Fresh.{new-IsTree, grow_physical_storage-total}

add_comm : (a b : ℕ) → wrapping_add a b ≡ wrapping_add b a
add_comm a b = omega arith

abbrev no_block : OramBlock ℕ
no_block = block 0 0 0 (0 ∷ 0 ∷ [])

abbrev used_tree : ObliviousHistogram ℕ ℕ ℕ
used_tree = record empty_tree {
  physical_memory =
      no_block
      ∷ no_block
      ∷ block 7 0 3 (1 ∷ 2 ∷ [])
      ∷ no_block
      ∷ no_block
      ∷ block 9 0 5 (1 ∷ 3 ∷ [])
      ∷ no_block
      ∷ no_block
      ∷ [];
  stash = record {
    blocks =
        no_block
        ∷ no_block
        ∷ no_block
        ∷ no_block
        ∷ block 7 0 4 (1 ∷ 2 ∷ [])
        ∷ no_block
        ∷ no_block
        ∷ no_block
        ∷ [];
    path_size = 4;
    sort_keys = replicate 8 0;
    insert_scratch = [];
    compact_marks_buf = [];
    distribute_marks = [];
  };
  append_ctr = 1;
}

used_tree-total : total key_a used_tree ≡ some 7
unfolding gathered bytes_eq
used_tree-total = refl

no_block-IsBlock : IsBlock 2 no_block
no_block-IsBlock = record {
  tag_fits = omega arith;
  epoch_fits = omega arith;
  bytes = (omega arith, (omega arith, tt));
  key_length = refl;
}

new_fits : IsBlock {V = ℕ} 2 (new_block (prf_tag identity_cipher key_a) 0 6 (copy_prefix 2 key_a))
unfolding prf_tag absorb xor_block from_bytes copy_prefix copy_loop
new_fits = tag_block 513 0 6 2 (omega arith) (omega arith) (omega arith)

height_one : tree_height_for_capacity 4 2 ≡ some 1
unfolding tree_height_for_capacity ilog2 leading_zeros
height_one = refl

used_tree-IsTree : IsTree small used_tree
used_tree-IsTree =
    let d = no_block-IsBlock in
    record {
      bucket_size = omega arith;
      height_fits = omega arith;
      memory_length = refl;
      path_length = refl;
      room = omega arith;
      memory_fits = (
        d,
        (
          d,
          (
            tag_block 7 0 3 2 (omega arith) (omega arith) (omega arith),
            (d, (d, (tag_block 9 0 5 3 (omega arith) (omega arith) (omega arith), (d, (d, tt))))),
          ),
        ),
      );
      stash_fits = (
        d,
        (
          d,
          (
            d,
            (d, (tag_block 7 0 4 2 (omega arith) (omega arith) (omega arith), (d, (d, (d, tt))))),
          ),
        ),
      );
      buffer_empty = (refl, (refl, (refl, (refl, tt))));
    }

access_path-total_example :
    IsKept whole counter small add_comm wrapping_add_assoc used_tree 3
      (access_path whole counter small used_tree 3)
access_path-total_example =
    access_path-total whole counter small add_comm wrapping_add_assoc used_tree used_tree-IsTree 3
      (omega arith) (omega arith)

evict_after_insert-total_example :
    IsKept whole counter small add_comm wrapping_add_assoc used_tree
      (next_evict_leaf whole counter small used_tree).0
      (evict_after_insert whole counter small used_tree)
evict_after_insert-total_example =
    evict_after_insert-total whole counter small add_comm wrapping_add_assoc used_tree
      used_tree-IsTree refl

append-total_example :
    IsAppended whole counter small add_comm wrapping_add_assoc used_tree
      (new_block (prf_tag identity_cipher key_a) 0 6 (copy_prefix 2 key_a))
      (append whole counter small used_tree key_a 6)
append-total_example =
    append-total whole counter small add_comm wrapping_add_assoc used_tree key_a 6 used_tree-IsTree
      refl new_fits

new-IsTree_example :
    (self : ObliviousHistogram ℕ ℕ ℕ) × (rng' : ℕ) × (new counter (λ key. identity_cipher) small 4 7
      ≡ some (self, rng'))
    × IsTree small self
    × (self.height ≡ 1)
    × (self.auto_resize ≡ none)
    × ((key : List ℕ) → total key self ≡ none)
new-IsTree_example =
    new-IsTree counter (λ key. identity_cipher) small 4 1 7 (omega arith) height_one (omega arith)

grow_physical_storage-total_example :
    (self' : ObliviousHistogram ℕ ℕ ℕ) × (grow_physical_storage whole counter small used_tree
      ≡ some self')
    × IsTree small self'
    × (self'.height ≡ 2)
    × ((key : List ℕ) → total key self' ≡ total key used_tree)
grow_physical_storage-total_example =
    grow_physical_storage-total whole counter small add_comm wrapping_add_assoc used_tree
      used_tree-IsTree (omega arith)

read_prepared_total-total_example :
    IsRead whole counter small add_comm wrapping_add_assoc used_tree 7 key_a
      (read_prepared_total whole counter small used_tree 7 key_a)
read_prepared_total-total_example =
    read_prepared_total-total whole counter small add_comm wrapping_add_assoc used_tree 7 key_a
      used_tree-IsTree (omega arith, (omega arith, tt)) refl
