-- ===== src/Tests/Ct.antt =====
-- Tests of the comparisons, moves and swaps.
use roga.Base.{◌≡◌, refl, arith}
use roga.Tests.Fixtures.{plain_cmov, key_a, key_b, flow, flow-IsFlowRecord}
use roga.Ct.{ct_lt, ct_eq_bytes, word_cmov}
use roga.Ct.Compare.{ct_lt_lem}
use roga.Ct.Bytes.{bytes_eq, ct_eq_bytes_lem}
use roga.Block.{FlowRecord_add, FlowRecord_default}
use roga.Block.Flow.{IsFlowRecord, FlowRecord_add_lem}

ct_lt_lem_example : ct_lt 3 5 ≡ 1
ct_lt_lem_example = ct_lt_lem 3 5 (omega arith) (omega arith)

ct_eq_bytes_lem_example : ct_eq_bytes 2 key_a key_b ≡ 0
unfolding bytes_eq
ct_eq_bytes_lem_example =
    ct_eq_bytes_lem 2 key_a key_b (omega arith, (omega arith, tt)) (omega arith, (omega arith, tt))
      refl refl

FlowRecord_add_lem_example :
    let a = flow 3 70 2 in
    (FlowRecord_add (FlowRecord_add a a) a ≡ FlowRecord_add a (FlowRecord_add a a))
    × (FlowRecord_add a a ≡ FlowRecord_add a a)
    × (FlowRecord_add FlowRecord_default a ≡ record a { padding = 0 })
    × IsFlowRecord (FlowRecord_add a a)
FlowRecord_add_lem_example =
    FlowRecord_add_lem (flow 3 70 2) (flow 3 70 2) (flow 3 70 2) flow-IsFlowRecord flow-IsFlowRecord
      flow-IsFlowRecord
