-- ===== src/Ingest/Tests.antt =====
-- The theorems on the feeds at concrete data, and runs of the definitions.
use obschain.Prelude.{
  text_eq, ◌-◌, ◌<◌, ◌≡◌, refl, true, false, none, some, [], ◌∷◌, codes, replicate, arith,
}
use mathlib.Core.List.{head-eq_of_cons-eq}
use obschain.Core.Source.{bitcoin_core_zmq}
use obschain.Core.Observation.{BlockObservation, reorg}
use obschain.Core.Samples.{block_at}
use obschain.Ingest.Sequence.{
  initial, gap, duplicate, observe_sequence, check, new_tracker, ZmqResult,
}
use obschain.Ingest.Sequence
use obschain.Ingest.Sequence.Tracking.{
  number_of, arrivals, verdicts, last_of, observe_all, observe_all-right,
}
use obschain.Ingest.Sequence.Payload.{Notice, added}
use obschain.Ingest.Cache.{CachedTxOutputs, new_cache, get_output, insert_tx}
use obschain.Ingest.Cache.Bounds.{IsValid, insert_op, get_op, apply_ops, apply_ops-IsValid}
use obschain.Ingest.Cache.Lookup.{Finds, insert_tx-get_output}
use obschain.Ingest.Coordinator.{
  BitcoinCoordinator, Headers, handle_potential_reorg, process_zmq_block,
}
use obschain.Ingest.Coordinator.Walk.{Fork, meet, apart, handle_potential_reorg-Fork}
use obschain.Ingest.Coordinator.Tip.{
  process_blocks, all_announced, at_last, Outcome, process_blocks-Chain, process_zmq_block-reports,
}

observe_all-right_example :
    observe_all (number_of 4_294_967_295 ∷ arrivals 4_294_967_295 (1 ∷ 0 ∷ 5 ∷ [])) new_tracker ≡ (
      initial (number_of 4_294_967_295) ∷ verdicts 4_294_967_295 (1 ∷ 0 ∷ 5 ∷ []),
      record { last_seq = some (number_of (last_of 4_294_967_295 (1 ∷ 0 ∷ 5 ∷ []))) },
    )
observe_all-right_example =
    observe_all-right 4_294_967_295 (1 ∷ 0 ∷ 5 ∷ []) (omega arith, (omega arith, (omega arith, tt)))

abbrev some_notice : Notice
some_notice = added (replicate 32 171) 1_000

abbrev info : CachedTxOutputs
info = record {
  confirmed = true;
  block_height = some 5;
  confirmed_at = none;
  outputs = (0, 700) ∷ (1, 900) ∷ [];
}

apply_ops-IsValid_example : IsValid 1 (
    apply_ops
      (insert_op 0 (codes "aa") info ∷ insert_op 1 (codes "bb") info ∷ get_op 2 (codes "aa") 1 ∷ [])
      (new_cache 1 100))
apply_ops-IsValid_example =
    apply_ops-IsValid 1 100
      (insert_op 0 (codes "aa") info ∷ insert_op 1 (codes "bb") info ∷ get_op 2 (codes "aa") 1 ∷ [])

new_is_open : (new_cache 1 100).poisoned ≡ false
unfolding new_cache
new_is_open = refl

two_is_soon : 2 - 0 < (new_cache 1 100).ttl
unfolding new_cache
two_is_soon = omega arith

insert_tx-get_output_example :
    Finds
      (codes "aa")
      1
      info
      info.outputs
      (get_output 2 (codes "aa") 1 (insert_tx 0 (codes "aa") info (new_cache 1 100))).0
insert_tx-get_output_example =
    insert_tx-get_output 0 2 (codes "aa") info 1 (new_cache 1 100) new_is_open two_is_soon

-- A node that knows two blocks on one root.
abbrev two_blocks : Headers
two_blocks hash = some (some (codes "root"))

one_block-Fork :
    Fork two_blocks (codes "root") (codes "old" ∷ []) (codes "new" ∷ []) (codes "old") (codes "new")
one_block-Fork =
    apart (codes "old") (codes "new") (codes "root") (codes "root") [] []
      (λ e. omega (arith, head-eq_of_cons-eq e)) refl refl meet

abbrev coordinator : BitcoinCoordinator
coordinator = record {
  last_tip_hash = some (codes "00");
  last_tip_height = 9;
  rpc_requests_total = 0;
  rpc_errors_total = 0;
  reorgs_detected = 0;
}

abbrev tenth : BlockObservation
tenth = block_at 10 (codes "0a") 0

process_blocks-Chain_example :
    process_blocks two_blocks 0 ((tenth, []) ∷ []) coordinator
    ≡ (all_announced ((tenth, []) ∷ []), at_last ((tenth, []) ∷ []) coordinator)
process_blocks-Chain_example =
    process_blocks-Chain two_blocks 0 ((tenth, []) ∷ []) (codes "00") coordinator refl (refl, tt)

handle_potential_reorg-Fork_example :
    handle_potential_reorg two_blocks 5 (codes "old") (codes "tip") 10 (codes "new") coordinator ≡ (
      reorg (record {
        old_tip_hash = codes "old";
        old_tip_height = 9;
        new_tip_hash = codes "tip";
        new_tip_height = 10;
        common_ancestor_hash = some (codes "root");
        depth = 2;
        disconnected_blocks = codes "old" ∷ [];
        connected_blocks = codes "tip" ∷ codes "new" ∷ [];
        observed_at = 5;
        source = some (bitcoin_core_zmq (codes "zmq:sequence"));
      })
          ∷ [],
      record coordinator { rpc_requests_total = 1; reorgs_detected = 1 },
    )
handle_potential_reorg-Fork_example =
    handle_potential_reorg-Fork two_blocks 5 (codes "root") (codes "old") (codes "tip")
      (codes "new") 10 (codes "old" ∷ []) (codes "new" ∷ []) coordinator one_block-Fork
      (omega arith)

process_zmq_block-reports_example :
    ((process_zmq_block two_blocks 0 tenth [] coordinator).1.last_tip_hash ≡ some tenth.block_hash)
    × ((process_zmq_block two_blocks 0 tenth [] coordinator).1.last_tip_height ≡ tenth.height)
    × Outcome tenth [] coordinator (process_zmq_block two_blocks 0 tenth [] coordinator)
process_zmq_block-reports_example = process_zmq_block-reports two_blocks 0 tenth [] coordinator
