-- ===== src/Crypto.antt =====
-- crates/oram/src/oblivious/crypto.rs and copy_prefix of crates/oram/src/oblivious/mod.rs: the routing
-- tag and the stored bytes of a key. The block cipher is a parameter.
pub mod Padding
use roga.Base.{
  ℕ, zero, suc, ◌+◌, ◌-◌, List, [], ◌∷◌, ◌++◌, bit_xor, leb, ◌==◌, if◌then◌else◌, length, take,
  drop, replicate,
}
use roga.External.{BlockCipher}
use roga.Ct.{from_bytes}

-- `state[j] ^= block[j]`
unfoldable pub xor_block : List ℕ → List ℕ → List ℕ
xor_block (x ∷ state) (y ∷ block) = bit_xor x y ∷ xor_block state block
xor_block state block = state

-- The loop over the chunks of 16 bytes, and the remainder; the key's length is enough fuel.
unfoldable pub absorb : BlockCipher → ℕ → List ℕ → List ℕ → List ℕ
unfolding xor_block
absorb prf zero state key = state
absorb prf (suc fuel) state key =
    let later = absorb prf fuel (prf.encrypt_block (xor_block state (take 16 key))) (drop 16 key) in
    let last_block = key ++ replicate (16 - length key) 0 in
    if leb 16 (length key)
    then later
    else if length key == 0
    then state
    else prf.encrypt_block (xor_block state last_block)

unfoldable pub prf_tag : BlockCipher → List ℕ → ℕ
unfolding absorb xor_block from_bytes
prf_tag prf key =
    let zeros = replicate 16 0 in
    let state =
      if length key == 0
      then prf.encrypt_block (xor_block zeros (replicate 16 0))
      else absorb prf (length key) zeros key in
    from_bytes (take 8 state)

-- The loop over `out`, zipped with `src`.
unfoldable pub copy_loop : List ℕ → List ℕ → List ℕ
copy_loop (dst ∷ out) (s ∷ src) = s ∷ copy_loop out src
copy_loop out src = out

unfoldable pub copy_prefix : ℕ → List ℕ → List ℕ
unfolding copy_loop
copy_prefix n src = copy_loop (replicate n 0) src
