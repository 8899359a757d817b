-- ===== src/Compaction/Targets.antt =====
-- The arithmetic of compaction.rs: the places to which the exchange of two halves takes an entry.
use native.Mathlib.Decide.{dec_lt}
use native.Mathlib.Nat.{mod-eq_of_lt, mod-eq-sub-mod, mod-lt}
use roga.Base.{
  ℕ, ◌+◌, ◌-◌, ◌*◌, ◌%◌, ◌<◌, ◌≤◌, ◌≡◌, ◌⊎◌, inl, inr, arith, Bool, xor, if◌then◌else◌, ltb, leb,
}
use roga.Compaction.Loop.{loop_index}

-- One or two subtractions bring a sum below the modulus.
pub mod_once : (h x : ℕ) → x < 2 * h → ((x < h) × (x % h ≡ x)) ⊎ ((h ≤ x) × (x % h + h ≡ x))
mod_once h x p = elim (dec_lt x h) [
  | yes q ↦ inl (q, mod-eq_of_lt q)
  | no q ↦
      let down : x % h ≡ (x - h) % h = mod-eq-sub-mod (omega arith) in
      let last : (x - h) % h ≡ x - h = mod-eq_of_lt (omega arith) in inr (omega arith, omega arith)
]

mod_twice :
    (h x : ℕ)
    → x < 3 * h
    → ((x < h) × (x % h ≡ x))
      ⊎ ((h ≤ x) × (x < 2 * h) × (x % h + h ≡ x))
      ⊎ ((2 * h ≤ x) × (x % h + 2 * h ≡ x))
mod_twice h x p = elim (dec_lt x h) [
  | yes q ↦ inl (q, mod-eq_of_lt q)
  | no q ↦
      let down : x % h ≡ (x - h) % h = mod-eq-sub-mod (omega arith) in
      ground (arith, mod_once h (x - h), down)
]

abbrev pub choice : ℕ → ℕ → ℕ → ℕ → Bool
choice h z m i = xor (xor (leb h (z % h + m)) (leb h z)) (leb ((z + m) % h) i)

-- The exchange of two whole halves, below their common length.
pub loop_index-halves :
    (h : ℕ) (ch : ℕ → Bool) (t : ℕ)
    → t < 2 * h
    → loop_index h 0 h ch t
      ≡ (if ltb t h then (if ch t then h + t else t) else if ch (t - h) then t - h else t)
loop_index-halves h ch t p = ground arith

pub left_target :
    (h z m r : ℕ)
    → z < 2 * h
    → m ≤ h
    → r < m
    → loop_index h 0 h (choice h z m) ((z + r) % (2 * h)) ≡ (z % h + r) % h
left_target h z m r p q k =
    rw (loop_index-halves h (choice h z m) ((z + r) % (2 * h)) (mod-lt (z + r) (omega arith))) (
      ground (
        arith,
        mod_once h z,
        mod_twice h (z + m),
        mod_once (2 * h) (z + r),
        mod_once h (z % h + r),
      ))

pub right_target :
    (h z m r : ℕ)
    → z < 2 * h
    → m ≤ h
    → r < h
    → loop_index h 0 h (choice h z m) ((z + (m + r)) % (2 * h)) ≡ h + ((z + m) % h + r) % h
right_target h z m r p q k =
    rw
      (loop_index-halves h (choice h z m) ((z + (m + r)) % (2 * h))
        (mod-lt (z + (m + r)) (omega arith)))
      (ground (
        arith,
        mod_once h z,
        mod_twice h (z + m),
        mod_once (2 * h) (z + (m + r)),
        mod_once h ((z + m) % h + r),
      ))
