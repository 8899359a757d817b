-- ===== src/Block.antt =====
-- crates/oram/src/block.rs: the block that trees and stashes store, and the flow record that it may
-- aggregate. A block whose tag is zero is a dummy. A block holds its key as `K` bytes.
pub mod Laws
pub mod Arrays
pub mod Flow
use roga.Base.{
  ℕ, ◌+◌, ◌-◌, ◌^◌, ◌≡◌, Bool, true, false, List, replicate, bit_or, wrapping_add, ◌%◌, ◌==◌,
  if◌then◌else◌, to_bit, not,
}
use roga.External.{ScalarCmov, OramValue}
use roga.Ct.{Cmov, ct_eq_bytes, ct_min_u32, ct_max_u32}
use roga.Routing.{ct_is_real}

pub record OramBlock (V : Type 0) : Type 0 where
  pub tag : ℕ
  pub epoch : ℕ
  pub value : V
  pub payload : List ℕ

module _ {V : Type 0} where
  unfoldable pub real : ℕ → ℕ → V → List ℕ → OramBlock V
  real tag epoch value payload = record {
    tag = tag;
    epoch = epoch;
    value = value;
    payload = payload;
  }

  unfoldable pub dummy : ⦃v : OramValue V⦄ → ℕ → OramBlock V
  dummy ⦃v⦄ k = record { tag = 0; epoch = 0; value = v.default; payload = replicate k 0 }

  unfoldable pub is_real : OramBlock V → ℕ
  unfolding ct_is_real
  is_real self = ct_is_real self.tag

  unfoldable pub ct_identity_eq : ℕ → OramBlock V → OramBlock V → ℕ
  unfolding ct_eq_bytes
  ct_identity_eq k self other = ct_eq_bytes k self.payload other.payload

  unfoldable pub conditional_dummy : ⦃w : ScalarCmov ℕ⦄ → OramBlock V → ℕ → OramBlock V
  conditional_dummy ⦃w⦄ self cond = record {
    tag = w.cmovnz self.tag 0 cond;
    epoch = self.epoch;
    value = self.value;
    payload = self.payload;
  }

  module _ ⦃w : ScalarCmov ℕ⦄ ⦃p : ScalarCmov (List ℕ)⦄ ⦃v : OramValue V⦄ where
    unfoldable pub block_cmov : OramBlock V → OramBlock V → Bool → OramBlock V
    block_cmov self other choice = record {
      tag = w.cmovnz self.tag other.tag (to_bit choice);
      epoch = w.cmovnz self.epoch other.epoch (to_bit choice);
      value = v.scalar.cmovnz self.value other.value (to_bit choice);
      payload = p.cmovnz self.payload other.payload (to_bit choice);
    }

    pub block_cmov_lem :
        (a b : OramBlock V) (choice : Bool) → block_cmov a b choice ≡ (if choice then b else a)
    unfolding block_cmov
    block_cmov_lem a b true = rw (
      w.cmovnz_lem a.tag b.tag 1,
      w.cmovnz_lem a.epoch b.epoch 1,
      v.scalar.cmovnz_lem a.value b.value 1,
      p.cmovnz_lem a.payload b.payload 1,
    )
    block_cmov_lem a b false = rw (
      w.cmovnz_lem a.tag b.tag 0,
      w.cmovnz_lem a.epoch b.epoch 0,
      v.scalar.cmovnz_lem a.value b.value 0,
      p.cmovnz_lem a.payload b.payload 0,
    )

    instance abbrev pub oram_block_cmov : Cmov (OramBlock V)
    oram_block_cmov = record { cmov = block_cmov; cmov_lem = block_cmov_lem }

    unfoldable pub assign_if : OramBlock V → ℕ → ℕ → V → List ℕ → ℕ → OramBlock V
    unfolding block_cmov
    assign_if self tag epoch value payload cond =
        let other : OramBlock V = record {
          tag = tag;
          epoch = epoch;
          value = value;
          payload = payload;
        } in
        block_cmov self other (not (cond == 0))

-- The numbers are words of 64, 32 and 16 bits. `padding` is the field `_padding`, which a conditional move
-- leaves as it is.
pub record FlowRecord : Type 0 where
  pub packet_count : ℕ
  pub byte_sum : ℕ
  pub first_seen : ℕ
  pub last_seen : ℕ
  pub record_count : ℕ
  pub tcp_flags : ℕ
  pub padding : ℕ

unfoldable pub FlowRecord_default : FlowRecord
FlowRecord_default = record {
  packet_count = 0;
  byte_sum = 0;
  first_seen = 2 ^ 32 - 1;
  last_seen = 0;
  record_count = 0;
  tcp_flags = 0;
  padding = 0;
}

module _ ⦃w : ScalarCmov ℕ⦄ where
  unfoldable pub FlowRecord_add : FlowRecord → FlowRecord → FlowRecord
  unfolding ct_min_u32 ct_max_u32
  FlowRecord_add self rhs = record {
    packet_count = wrapping_add self.packet_count rhs.packet_count;
    byte_sum = wrapping_add self.byte_sum rhs.byte_sum;
    first_seen = ct_min_u32 self.first_seen rhs.first_seen;
    last_seen = ct_max_u32 self.last_seen rhs.last_seen;
    record_count = (self.record_count + rhs.record_count) % 2 ^ 32;
    tcp_flags = bit_or self.tcp_flags rhs.tcp_flags;
    padding = 0;
  }

  unfoldable pub FlowRecord_cmovnz : FlowRecord → FlowRecord → ℕ → FlowRecord
  FlowRecord_cmovnz self other condition = record {
    packet_count = w.cmovnz self.packet_count other.packet_count condition;
    byte_sum = w.cmovnz self.byte_sum other.byte_sum condition;
    first_seen = w.cmovnz self.first_seen other.first_seen condition;
    last_seen = w.cmovnz self.last_seen other.last_seen condition;
    record_count = w.cmovnz self.record_count other.record_count condition;
    tcp_flags = w.cmovnz self.tcp_flags other.tcp_flags condition;
    padding = self.padding;
  }
