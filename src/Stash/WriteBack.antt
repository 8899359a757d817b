-- ===== src/Stash/WriteBack.antt =====
-- The loop of `write_to_path` of stash.rs that copies the path buffer to the tree, as a rearrangement: the
-- buckets of the path change places with the slots of the buffer.
use mathlib.Core.List.Permᴰ
use mathlib.Core.List.Permᴰ.{Permᴰ}
use roga.Base.{
  ℕ, zero, suc, ◌+◌, ◌-◌, ◌*◌, ◌<◌, ◌≤◌, ◌≡◌, refl, ap, ◌∙◌, arith, List, ◌++◌, some, length, take,
  drop, length-append, length-take, length-drop,
}
use roga.Block.{OramBlock}
use roga.Stash.Eviction.{copy_back}
use roga.Stash.Buckets.{append_assoc, buckets, buckets-drop}
use roga.Stash.Copies.{path_node, slots, cut_bucket, copy_step}

-- Entries before a bucket, the bucket, and what comes behind it.
front-Permᴰ :
    {A : Type 0} (t b behind bs rest : List A)
    → Permᴰ behind (bs ++ rest)
    → Permᴰ (t ++ (b ++ behind)) ((b ++ bs) ++ (t ++ rest))
front-Permᴰ t b behind bs rest p = rw (← append_assoc (b ++ bs) t rest) (
    Permᴰ.trans (Permᴰ.append_left t (Permᴰ.append_left b p)) (
      rw (← append_assoc b bs rest, ← append_assoc t (b ++ bs) rest)
        (Permᴰ.append_right rest (Permᴰ.append_comm t (b ++ bs)))))

module _ (z position height : ℕ) where
  -- The buckets of the depths `depth` to `depth + n - 1` stand in order in the entries `start` to
  -- `start + size - 1` of the tree, and their slots in the buffer.
  pub record Fits (n depth start size room : ℕ) : Type 0 where
    pub from : (d : ℕ) → depth ≤ d → d < depth + n → start ≤ path_node position height d * z
    pub to :
        (d : ℕ) → depth ≤ d → d < depth + n → path_node position height d * z + z ≤ start + size
    pub apart :
        (d d' : ℕ)
        → depth ≤ d
        → d < d'
        → d' < depth + n
        → path_node position height d * z + z ≤ path_node position height d' * z
    pub slot : (d : ℕ) → depth ≤ d → d < depth + n → (height - d) * z + z ≤ room

module _ {V : Type 0} (z position height : ℕ) where
  abbrev pub Exchanged :
      ℕ → ℕ → List (OramBlock V) → List (OramBlock V) → List (OramBlock V) → Type 0
  Exchanged n depth blocks before memory =
      (memory' frozen : List (OramBlock V)) × (copy_back z position height n depth blocks
          (before ++ memory)
        ≡ some (before ++ memory'))
      × (length memory' ≡ length memory)
      × Permᴰ memory
          (buckets z (path_node position height) n depth (length before) memory ++ frozen)
      × Permᴰ memory' (slots z position height n depth blocks ++ frozen)

  pub copy_back-Exchanged :
      (n depth : ℕ) (blocks before memory : List (OramBlock V))
      → Fits z position height n depth (length before) (length memory) (length blocks)
      → Exchanged n depth blocks before memory
  copy_back-Exchanged zero depth blocks before memory f =
      (memory, memory, unfold copy_back in refl, refl, Permᴰ.refl memory, Permᴰ.refl memory)
  copy_back-Exchanged (suc n) depth blocks before memory f =
      let at = path_node position height depth * z in
      let k = at - length before in
      let slot = take z (drop ((height - depth) * z) blocks) in
      let before' = (before ++ take k memory) ++ slot in
      let behind = drop (k + z) memory in
      let first = f.from depth (omega arith) (omega arith) in
      let last = f.to depth (omega arith) (omega arith) in
      let room = f.slot depth (omega arith) (omega arith) in
      let slot_length : length slot ≡ z = omega (
        arith,
        length-take z (drop ((height - depth) * z) blocks),
        length-drop ((height - depth) * z) blocks,
      ) in
      let taken : length (take k memory) ≡ k = omega (arith, length-take k memory) in
      let start' : length before' ≡ at + z = omega (
        arith,
        length-append (before ++ take k memory) slot,
        length-append before (take k memory),
      ) in
      let left : length behind ≡ length memory - (k + z) = length-drop (k + z) memory in
      let fits' : Fits z position height n (depth + 1) (length before') (length behind)
          (length blocks) =
        record {
          from = λ d p q. omega (arith, f.apart depth d (omega arith) (omega arith) (omega arith));
          to = λ d p q. omega (arith, f.to d (omega arith) (omega arith));
          apart = λ d d' p q r. f.apart d d' (omega arith) q (omega arith);
          slot = λ d p q. f.slot d (omega arith) (omega arith);
        } in
      let (behind', frozen, copied, same, old, new) =
        copy_back-Exchanged n (depth + 1) blocks before' behind fits' in
      let later = buckets z (path_node position height) n (depth + 1) (length before') behind in
      let later_same : later
          ≡ buckets z (path_node position height) n (depth + 1) (length before) memory =
        ap
          (λ i.
            buckets z (path_node position height) n (depth + 1) (length before') (drop i memory))
          (let e : k + z ≡ length before' - length before = omega arith in e)
        ∙ buckets-drop z (path_node position height) n (depth + 1) (length before) (length before')
            memory (omega arith) (λ d p q. fits'.from d p q) in
      (
        take k memory ++ (slot ++ behind'),
        take k memory ++ frozen,
        copy_step z position height n depth blocks before memory first last room
            ∙ (copied
                ∙ ap some (
                    append_assoc (before ++ take k memory) slot behind'
                    ∙ append_assoc before (take k memory) (slot ++ behind'))),
        omega (arith, length-append (take k memory) (slot ++ behind'), length-append slot behind'),
        rw (← later_same) (
            Permᴰ.trans (rw (cut_bucket z position height k memory) (Permᴰ.refl memory))
              (front-Permᴰ (take k memory) (take z (drop k memory)) behind later frozen old)),
        front-Permᴰ (take k memory) slot behind' (slots z position height n (depth + 1) blocks)
            frozen new,
      )
