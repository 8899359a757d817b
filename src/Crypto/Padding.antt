-- ===== src/Crypto/Padding.antt =====
-- The zero-padding of tags in `prf_tag` of crypto.rs and of stored keys in `copy_prefix`.
use roga.Base.{
  ℕ, zero, suc, ◌+◌, ◌-◌, ◌%◌, ◌<◌, ◌≤◌, ◌≡◌, refl, sym, ap, ◌∙◌, arith, Bool-cases, inl, inr, true,
  false, List, [], ◌∷◌, ◌++◌, leb, ◌==◌, if◌then◌else◌, length, take, drop, replicate,
  length-append, length-replicate, length-drop,
}
use roga.External.{BlockCipher}
use roga.Ct.{from_bytes}
use roga.Crypto.{absorb, prf_tag, copy_loop, copy_prefix, xor_block}

take-replicate : (n m a : ℕ) → n ≤ m → take n (replicate m a) ≡ replicate n a
take-replicate zero m a h = refl
take-replicate (suc n) zero a h = absurd (omega arith)
take-replicate (suc n) (suc m) a h = ap (λ l. a ∷ l) (take-replicate n m a (omega arith))

replicate-add : (n m a : ℕ) → replicate n a ++ replicate m a ≡ replicate (n + m) a
replicate-add zero m a = let e : 0 + m ≡ m = omega arith in rw e
replicate-add (suc n) m a =
    let e : suc n + m ≡ suc (n + m) = omega arith in rw e (ap (λ l. a ∷ l) (replicate-add n m a))

copy_loop_lem :
    (n m : ℕ) (src : List ℕ) → n ≤ m → copy_loop (replicate n 0) src ≡ take n (src ++ replicate m 0)
unfolding copy_loop
copy_loop_lem zero m src h = refl
copy_loop_lem (suc n) m [] h = sym (take-replicate (suc n) m 0 h)
copy_loop_lem (suc n) m (s ∷ src) h = ap (λ l. s ∷ l) (copy_loop_lem n m src (omega arith))

append_assoc : (xs ys zs : List ℕ) → (xs ++ ys) ++ zs ≡ xs ++ (ys ++ zs)
append_assoc [] ys zs = refl
append_assoc (x ∷ xs) ys zs = ap (λ l. x ∷ l) (append_assoc xs ys zs)

-- `copy_prefix` gives the first `n` bytes of the key, with zeros behind the key where it is shorter.
pub copy_prefix_lem : (n : ℕ) (src : List ℕ) → copy_prefix n src ≡ take n (src ++ replicate n 0)
unfolding copy_prefix
copy_prefix_lem n src = copy_loop_lem n n src (omega arith)

copy_prefix-zeros :
    (n j : ℕ) (src : List ℕ) → copy_prefix n (src ++ replicate j 0) ≡ copy_prefix n src
unfolding copy_prefix
copy_prefix-zeros n j src =
    copy_prefix_lem n (src ++ replicate j 0)
    ∙ ap (take n) (
        append_assoc src (replicate j 0) (replicate n 0) ∙ ap (λ l. src ++ l) (replicate-add j n 0))
    ∙ sym (copy_loop_lem n (j + n) src (omega arith))

take-short : (n : ℕ) (xs ys : List ℕ) → n ≤ length xs → take n (xs ++ ys) ≡ take n xs
take-short zero xs ys h = refl
take-short (suc n) [] ys h = absurd (omega arith)
take-short (suc n) (x ∷ xs) ys h = ap (λ l. x ∷ l) (take-short n xs ys (omega arith))

drop-short : (n : ℕ) (xs ys : List ℕ) → n ≤ length xs → drop n (xs ++ ys) ≡ drop n xs ++ ys
drop-short zero xs ys h = refl
drop-short (suc n) [] ys h = absurd (omega arith)
drop-short (suc n) (x ∷ xs) ys h = drop-short n xs ys (omega arith)

take-all : (n : ℕ) (xs : List ℕ) → length xs ≤ n → take n xs ≡ xs
take-all zero [] h = refl
take-all zero (x ∷ xs) h = absurd (omega arith)
take-all (suc n) [] h = refl
take-all (suc n) (x ∷ xs) h = ap (λ l. x ∷ l) (take-all n xs (omega arith))

drop-all : (n : ℕ) (xs : List ℕ) → length xs ≤ n → drop n xs ≡ []
drop-all zero [] h = refl
drop-all zero (x ∷ xs) h = absurd (omega arith)
drop-all (suc n) [] h = refl
drop-all (suc n) (x ∷ xs) h = drop-all n xs (omega arith)

module _ (prf : BlockCipher) where
  absorb_step :
      (fuel : ℕ) (state key : List ℕ)
      → absorb prf (suc fuel) state key ≡ (
          if leb 16 (length key)
          then absorb prf fuel (prf.encrypt_block (xor_block state (take 16 key))) (drop 16 key)
          else if length key == 0
          then state
          else prf.encrypt_block (xor_block state (key ++ replicate (16 - length key) 0)))
  unfolding absorb
  absorb_step fuel state key = refl

  absorb_end : (fuel : ℕ) (state : List ℕ) → absorb prf fuel state [] ≡ state
  unfolding absorb
  absorb_end zero state = refl
  absorb_end (suc fuel) state = refl

  absorb-zeros :
      (fuel fuel' : ℕ) (state key : List ℕ)
      → 0 < length key % 16
      → length key ≤ fuel
      → fuel < fuel'
      → absorb prf fuel state key
        ≡ absorb prf fuel' state (key ++ replicate (16 - length key % 16) 0)
  absorb-zeros zero fuel' state key h l l' = absurd (omega arith)
  absorb-zeros (suc fuel) zero state key h l l' = absurd (omega arith)
  absorb-zeros (suc fuel) (suc fuel') state key h l l' =
      let padded = key ++ replicate (16 - length key % 16) 0 in
      let size : length padded ≡ length key + (16 - length key % 16) = omega (
        arith,
        length-append key (replicate (16 - length key % 16) 0),
        length-replicate {A = ℕ} (16 - length key % 16) 0,
      ) in
      let long : leb 16 (length padded) ≡ true = ground arith in
      elim (Bool-cases (leb 16 (length key))) [
        | inl e ↦
            let enough : 16 ≤ length key = ground arith in
            let rest : length (drop 16 key) ≡ length key - 16 = length-drop 16 key in
            let same : length (drop 16 key) % 16 ≡ length key % 16 = omega arith in
            let next = prf.encrypt_block (xor_block state (take 16 key)) in
            let ih =
              absorb-zeros fuel fuel' next (drop 16 key) (omega arith) (omega arith)
                (omega arith) in
            rw
              (
                absorb_step fuel state key,
                e,
                absorb_step fuel' state padded,
                long,
                take-short 16 key (replicate (16 - length key % 16) 0) enough,
                drop-short 16 key (replicate (16 - length key % 16) 0) enough,
              )
              (rw same at ih)
        | inr e ↦
            let few : length key < 16 = ground arith in
            let some_left : (length key == 0) ≡ false = ground arith in
            let same : length key % 16 ≡ length key = omega arith in
            rw (
              absorb_step fuel state key,
              e,
              some_left,
              absorb_step fuel' state padded,
              long,
              take-all 16 padded (omega arith),
              drop-all 16 padded (omega arith),
              absorb_end fuel' (prf.encrypt_block (xor_block state padded)),
              same,
            )
      ]

  -- A key whose length is no multiple of 16 and the same key with zeros up to the next multiple have
  -- the same tag and the same stored bytes, so that the histogram takes them for one key, for any
  -- block cipher.
  pub prf_tag-zeros :
      (n : ℕ) (key : List ℕ)
      → 0 < length key % 16
      → let padded = key ++ replicate (16 - length key % 16) 0 in
        (prf_tag prf padded ≡ prf_tag prf key) × (copy_prefix n padded ≡ copy_prefix n key)
  unfolding prf_tag
  prf_tag-zeros n key h = (
    rw (filled, some_left)
        (ap (λ s. from_bytes (take 8 s))
          (sym (
            absorb-zeros (length key) (length padded) (replicate 16 0) key h (omega arith)
              (omega (arith, size))))),
    copy_prefix-zeros n (16 - length key % 16) key,
  )
    where
      padded : List ℕ
      padded = key ++ replicate (16 - length key % 16) 0

      size : length padded ≡ length key + (16 - length key % 16)
      size = omega (
        arith,
        length-append key (replicate (16 - length key % 16) 0),
        length-replicate {A = ℕ} (16 - length key % 16) 0,
      )

      some_left : (length key == 0) ≡ false
      some_left = ground arith

      filled : (length padded == 0) ≡ false
      filled = ground (arith, size)
