-- ===== src/Tests/Fixtures.antt =====
-- The inputs of the tests: conditional moves by a test, and blocks with keys of two bytes.
use roga.Base.{
  ℕ, ◌^◌, ◌<◌, ◌*◌, ◌≡◌, refl, arith, List, [], ◌∷◌, ◌==◌, if◌then◌else◌, wrapping_add, ==_refl,
  ==-ne,
}
use roga.External.{ScalarCmov, CmovEq, OramValue, BlockCipher}
use roga.Block.{OramBlock, FlowRecord}
use roga.Block.Laws.{IsBlock, AreBlocks}
use roga.Block.Flow.{IsFlowRecord}

instance abbrev pub plain_cmov {ℓ} : {A : Type ℓ} → ScalarCmov A
plain_cmov = record { cmovnz = λ a b c. if c == 0 then a else b; cmovnz_lem = λ a b c. refl }

abbrev pub identity_cipher : BlockCipher
identity_cipher = record { encrypt_block = λ b. b; length-encrypt_block = λ b. refl }

instance abbrev pub plain_eq : CmovEq ℕ
plain_eq = record {
  cmoveq = λ a b i o. if a == b then i else o;
  cmoveq-self = λ a i o. rw (==_refl a);
  cmoveq-ne = λ a b i o h. rw (==-ne a b h);
}

instance abbrev pub word_value : OramValue ℕ
word_value = record { scalar = plain_cmov; default = 0; add = wrapping_add }

pub wrapping_add_assoc :
    (a b c : ℕ) → wrapping_add (wrapping_add a b) c ≡ wrapping_add a (wrapping_add b c)
wrapping_add_assoc a b c = omega arith

abbrev pub key_a : List ℕ
key_a = 1 ∷ 2 ∷ []

abbrev pub key_b : List ℕ
key_b = 1 ∷ 3 ∷ []

abbrev pub block : ℕ → ℕ → ℕ → List ℕ → OramBlock ℕ
block tag epoch value key = record { tag = tag; epoch = epoch; value = value; payload = key }

abbrev pub sample : List (OramBlock ℕ)
sample =
    block 0 0 0 key_a
    ∷ block 7 3 10 key_a
    ∷ block 7 1 20 key_a
    ∷ block 0 0 5 key_b
    ∷ block 9 2 30 key_b
    ∷ []

pub tag_block :
    (tag epoch value x : ℕ)
    → tag < 2 ^ 64
    → epoch < 2 ^ 8
    → x < 256
    → IsBlock 2 (block tag epoch value (1 ∷ x ∷ []))
tag_block tag epoch value x p q r = record {
  tag_fits = p;
  epoch_fits = q;
  bytes = (omega arith, (r, tt));
  key_length = refl;
}

pub sample-AreBlocks : AreBlocks 2 sample
sample-AreBlocks = (
  tag_block 0 0 0 2 (omega arith) (omega arith) (omega arith),
  (
    tag_block 7 3 10 2 (omega arith) (omega arith) (omega arith),
    (
      tag_block 7 1 20 2 (omega arith) (omega arith) (omega arith),
      (
        tag_block 0 0 5 3 (omega arith) (omega arith) (omega arith),
        (tag_block 9 2 30 3 (omega arith) (omega arith) (omega arith), tt),
      ),
    ),
  ),
)

abbrev pub flow : ℕ → ℕ → ℕ → FlowRecord
flow count time flags = record {
  packet_count = count;
  byte_sum = count * 100;
  first_seen = time;
  last_seen = time;
  record_count = 1;
  tcp_flags = flags;
  padding = 5;
}

pub flow-IsFlowRecord : IsFlowRecord (flow 3 70 2)
flow-IsFlowRecord = record {
  packets_fit = omega arith;
  bytes_fit = omega arith;
  first_fits = omega arith;
  last_fits = omega arith;
  count_fits = omega arith;
  flags_fit = omega arith;
  padding_fits = omega arith;
}
