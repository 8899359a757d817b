-- ===== src/Block/Flow.antt =====
-- The addition of flow records: the laws that a value of the histogram has to have.
use native.Mathlib.Nat.{mod-add-mod, add-mod-mod}
use roga.Base.{
  ℕ, zero, suc, ◌+◌, ◌-◌, ◌/◌, ◌%◌, ◌^◌, ◌<◌, ◌≤◌, ◌≡◌, refl, sym, ap, ◌∙◌, arith, min, max, bit_or,
  bit_or_low, zero-bit_or,
}
use roga.External.{ScalarCmov}
use roga.Ct.Compare.{ct_min_max_u32_lem}
use roga.Ct.Bytes.{bit_or-lt}
use roga.Block.{FlowRecord, FlowRecord_default, FlowRecord_add}

bit_or_assoc_at :
    (n a b c : ℕ) → a ≤ n → b ≤ n → c ≤ n → bit_or (bit_or a b) c ≡ bit_or a (bit_or b c)
bit_or_assoc_at zero a b c p q r =
    let za : a ≡ 0 = omega arith in
    let zb : b ≡ 0 = omega arith in let zc : c ≡ 0 = omega arith in rw (za, zb, zc) refl
bit_or_assoc_at (suc n) a b c p q r =
    let ih = bit_or_assoc_at n (a / 2) (b / 2) (c / 2) (omega arith) (omega arith) (omega arith) in
    let ab = halves a b in
    let bc = halves b c in
    omega (
      arith,
      bit_or_low (bit_or a b) c,
      bit_or_low a (bit_or b c),
      bit_or_low a b,
      bit_or_low b c,
      ap (λ x. bit_or x (c / 2)) ab.0,
      ap (λ x. bit_or (a / 2) x) bc.0,
      ab.1,
      bc.1,
      ih,
    )
  where
    halves :
        (x y : ℕ)
        → (bit_or x y / 2 ≡ bit_or (x / 2) (y / 2)) × (bit_or x y % 2 ≡ max (x % 2) (y % 2))
    halves x y = (omega (arith, bit_or_low x y), omega (arith, bit_or_low x y))

bit_or_comm_at : (n a b : ℕ) → a ≤ n → b ≤ n → bit_or a b ≡ bit_or b a
bit_or_comm_at zero a b p q =
    let za : a ≡ 0 = omega arith in let zb : b ≡ 0 = omega arith in rw (za, zb) refl
bit_or_comm_at (suc n) a b p q = omega (
  arith,
  bit_or_low a b,
  bit_or_low b a,
  bit_or_comm_at n (a / 2) (b / 2) (omega arith) (omega arith),
)

pub bit_or_assoc : (a b c : ℕ) → bit_or (bit_or a b) c ≡ bit_or a (bit_or b c)
bit_or_assoc a b c = bit_or_assoc_at (a + b + c) a b c (omega arith) (omega arith) (omega arith)

pub bit_or_comm : (a b : ℕ) → bit_or a b ≡ bit_or b a
bit_or_comm a b = bit_or_comm_at (a + b) a b (omega arith) (omega arith)

-- The fields fit their types.
pub record IsFlowRecord (r : FlowRecord) : Type 0 where
  pub packets_fit : r.packet_count < 2 ^ 64
  pub bytes_fit : r.byte_sum < 2 ^ 64
  pub first_fits : r.first_seen < 2 ^ 32
  pub last_fits : r.last_seen < 2 ^ 32
  pub count_fits : r.record_count < 2 ^ 32
  pub flags_fit : r.tcp_flags < 2 ^ 16
  pub padding_fits : r.padding < 2 ^ 16

module _ ⦃w : ScalarCmov ℕ⦄ where
  -- The addition without conditional moves.
  plain_add : FlowRecord → FlowRecord → FlowRecord
  plain_add a b = record {
    packet_count = (a.packet_count + b.packet_count) % 2 ^ 64;
    byte_sum = (a.byte_sum + b.byte_sum) % 2 ^ 64;
    first_seen = min a.first_seen b.first_seen;
    last_seen = max a.last_seen b.last_seen;
    record_count = (a.record_count + b.record_count) % 2 ^ 32;
    tcp_flags = bit_or a.tcp_flags b.tcp_flags;
    padding = 0;
  }

  plain : (a b : FlowRecord) → IsFlowRecord a → IsFlowRecord b → FlowRecord_add a b ≡ plain_add a b
  unfolding FlowRecord_add plain_add
  plain a b p q =
      let t = ct_min_max_u32_lem a.first_seen b.first_seen p.first_fits q.first_fits in
      let s = ct_min_max_u32_lem a.last_seen b.last_seen p.last_fits q.last_fits in rw (t.0, s.1)

  IsFlowRecord-plain :
      (a b : FlowRecord) → IsFlowRecord a → IsFlowRecord b → IsFlowRecord (plain_add a b)
  unfolding plain_add
  IsFlowRecord-plain a b p q =
      let x = p.first_fits in
      let y = p.last_fits in
      let z = q.last_fits in
      record {
        packets_fit = omega arith;
        bytes_fit = omega arith;
        first_fits = omega arith;
        last_fits = omega arith;
        count_fits = omega arith;
        flags_fit = bit_or-lt 16 a.tcp_flags b.tcp_flags p.flags_fit q.flags_fit;
        padding_fits = omega arith;
      }

  plain_assoc : (a b c : FlowRecord) → plain_add (plain_add a b) c ≡ plain_add a (plain_add b c)
  unfolding plain_add
  plain_assoc a b c =
      rw
        (
          mod_add 64 a.packet_count b.packet_count c.packet_count,
          mod_add 64 a.byte_sum b.byte_sum c.byte_sum,
          mod_add 32 a.record_count b.record_count c.record_count,
          bit_or_assoc a.tcp_flags b.tcp_flags c.tcp_flags,
          min_assoc a.first_seen b.first_seen c.first_seen,
          max_assoc a.last_seen b.last_seen c.last_seen,
        )
        refl
    where
      mod_add : (w a b c : ℕ) → ((a + b) % 2 ^ w + c) % 2 ^ w ≡ (a + (b + c) % 2 ^ w) % 2 ^ w
      mod_add w a b c =
          mod-add-mod (a + b) (2 ^ w) c
          ∙ ap (λ n. n % 2 ^ w) (omega arith)
          ∙ sym (add-mod-mod a (b + c) (2 ^ w))

      min_assoc : (a b c : ℕ) → min (min a b) c ≡ min a (min b c)
      min_assoc a b c = omega arith

      max_assoc : (a b c : ℕ) → max (max a b) c ≡ max a (max b c)
      max_assoc a b c = omega arith

  plain_comm : (a b : FlowRecord) → plain_add a b ≡ plain_add b a
  unfolding plain_add
  plain_comm a b =
      let packets : a.packet_count + b.packet_count ≡ b.packet_count + a.packet_count =
        omega arith in
      let sums : a.byte_sum + b.byte_sum ≡ b.byte_sum + a.byte_sum = omega arith in
      let counts : a.record_count + b.record_count ≡ b.record_count + a.record_count =
        omega arith in
      let firsts : min a.first_seen b.first_seen ≡ min b.first_seen a.first_seen = omega arith in
      let lasts : max a.last_seen b.last_seen ≡ max b.last_seen a.last_seen = omega arith in
      rw (packets, sums, counts, firsts, lasts, bit_or_comm a.tcp_flags b.tcp_flags) refl

  plain_unit :
      (a : FlowRecord) → IsFlowRecord a → plain_add FlowRecord_default a ≡ record a { padding = 0 }
  unfolding plain_add FlowRecord_default
  plain_unit a h =
      let packets : (0 + a.packet_count) % 2 ^ 64 ≡ a.packet_count =
        let x = h.packets_fit in omega arith in
      let sums : (0 + a.byte_sum) % 2 ^ 64 ≡ a.byte_sum = let x = h.bytes_fit in omega arith in
      let counts : (0 + a.record_count) % 2 ^ 32 ≡ a.record_count =
        let x = h.count_fits in omega arith in
      let firsts : min (2 ^ 32 - 1) a.first_seen ≡ a.first_seen =
        let x = h.first_fits in omega arith in
      let lasts : max 0 a.last_seen ≡ a.last_seen = omega arith in
      rw (packets, sums, counts, firsts, lasts, zero-bit_or a.tcp_flags) refl

  IsFlowRecord-default : IsFlowRecord FlowRecord_default
  unfolding FlowRecord_default
  IsFlowRecord-default = record {
    packets_fit = omega arith;
    bytes_fit = omega arith;
    first_fits = omega arith;
    last_fits = omega arith;
    count_fits = omega arith;
    flags_fit = omega arith;
    padding_fits = omega arith;
  }

  -- The addition of flow records whose fields fit their types is associative and commutative, gives
  -- a record whose fields fit their types, and leaves a record that is added to the default one as
  -- it is but for the padding, which it sets to zero.
  pub FlowRecord_add_lem :
      (a b c : FlowRecord)
      → IsFlowRecord a
      → IsFlowRecord b
      → IsFlowRecord c
      → (FlowRecord_add (FlowRecord_add a b) c ≡ FlowRecord_add a (FlowRecord_add b c))
        × (FlowRecord_add a b ≡ FlowRecord_add b a)
        × (FlowRecord_add FlowRecord_default a ≡ record a { padding = 0 })
        × IsFlowRecord (FlowRecord_add a b)
  FlowRecord_add_lem a b c p q r = (
    rw (plain a b p q, plain b c q r, plain (plain_add a b) c ab r, plain a (plain_add b c) p bc)
        (plain_assoc a b c),
    rw (plain a b p q, plain b a q p) (plain_comm a b),
    rw (plain FlowRecord_default a IsFlowRecord-default p) (plain_unit a p),
    rw (plain a b p q) ab,
  )
    where
      ab : IsFlowRecord (plain_add a b)
      ab = IsFlowRecord-plain a b p q

      bc : IsFlowRecord (plain_add b c)
      bc = IsFlowRecord-plain b c q r
