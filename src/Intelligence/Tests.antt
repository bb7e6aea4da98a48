-- ===== src/Intelligence/Tests.antt =====
-- The theorems on the watch engine at a watched output whose spender is observed, and tests.
use obschain.Prelude.{
  false, ◌≤◌, Option, none, some, List, [], ◌∷◌, codes, text_beq, length, ◌≡◌, refl, map,
}
use obschain.Prelude.Map.{get, insert}
use obschain.Prelude.Queue.{Queued}
use obschain.Core.Samples.{externals, output_of, old_input}
use obschain.Core.Observation.{TransactionObservation}
use obschain.Core.Incident.{heuristic, on_chain_verified}
use obschain.Core.Watch.{
  IncidentActivity, IncidentAlert, WatchTarget, new_address, new_outpoint, watched_outpoint_spent,
  watched_address_spent, new_descendant_observed,
}
use obschain.Intelligence.WatchEngine.{
  IncidentWatchEngine, add_target, enroll_descendants, outpoint_beq, outpoint_eq,
  tracked_descendants_count, with_follow_depth,
}
use obschain.Intelligence.WatchEngine.Activities.{Call}
use obschain.Intelligence.WatchEngine.Processing.{process_transaction}
use obschain.Intelligence.WatchEngine.Bounds.{Shallow}
use obschain.Intelligence.WatchEngine.History.{EngineOp, adds, observes, run, run-bounded}
use obschain.Intelligence.WatchEngine.Represented.{Represents}
use obschain.Intelligence.WatchEngine.Targets.{apply_spec, run_spec, run-Represents}
use obschain.Intelligence.WatchEngine.Expected.{expected, seen}
use obschain.Intelligence.WatchEngine.Completeness.{process_transaction-seen}
use obschain.Intelligence.WatchEngine.Justified.{Justified}

-- the output that `old_input` spends, and an address that is only suspected
abbrev output : WatchTarget
output = new_outpoint 1 0 9 (codes "CASE-1") (codes "BB") 0 on_chain_verified (codes "report") none

abbrev suspect : WatchTarget
suspect = new_address 2 0 9 (codes "CASE-1") (codes "bc1") heuristic (codes "report") none

abbrev spender : TransactionObservation
spender = record {
  txid = codes "CC";
  timestamp = 0;
  block_hash = none;
  block_height = none;
  fee_sats = 10;
  size = 1;
  weight = 4;
  vsize = 1;
  fee_rate_sat_vb = none;
  total_input_sats = 1_000;
  total_output_sats = 990;
  input_count = 1;
  output_count = 1;
  inputs = record (old_input 1_000) { prev_out_address = some (codes "bc1") } ∷ [];
  outputs = output_of 990 ∷ [];
  is_rbf = false;
  confirmed = false;
  source = none;
}

abbrev call : Call
call = record { tx = spender; block_height = none; block_hash = none; now = 5; new_id = λ n. n }

-- the next transaction, which spends the output of the first
abbrev next_call : Call
next_call = record call {
  tx = record spender {
    txid = codes "dd";
    inputs = record (old_input 990) { txid = codes "cc" } ∷ [];
  };
}

abbrev ops : List EngineOp
ops = adds output ∷ adds suspect ∷ []

abbrev watching : IncidentWatchEngine
watching = run externals ops (with_follow_depth 3)

run-bounded_example :
    (tracked_descendants_count
        (run externals (adds output ∷ observes call ∷ []) (with_follow_depth 3))
      ≤ 1_000)
    × (length
          (run externals (adds output ∷ observes call ∷ []) (with_follow_depth 3)).descendant_fifo
        ≤ 1_000)
    × Queued
        (run externals
          (adds output ∷ observes call ∷ [])
          (with_follow_depth 3)).descendant_outpoints
        (run externals (adds output ∷ observes call ∷ []) (with_follow_depth 3)).descendant_fifo
    × Shallow
        (run externals
          (adds output ∷ observes call ∷ [])
          (with_follow_depth 3)).max_descendant_depth
        (run externals
          (adds output ∷ observes call ∷ [])
          (with_follow_depth 3)).descendant_outpoints
    × ((run externals (adds output ∷ observes call ∷ []) (with_follow_depth 3)).max_descendant_depth
        ≤ 5)
run-bounded_example = run-bounded externals 3 (adds output ∷ observes call ∷ [])

run-Represents_example : Represents externals (run_spec ops []) watching
unfolding apply_spec new_outpoint new_address
run-Represents_example = run-Represents externals 3 ops (refl, (refl, tt))

process_transaction-seen_example :
    seen (process_transaction externals call watching).results
    ≡ expected externals (output ∷ suspect ∷ []) call
unfolding run_spec new_address new_outpoint
process_transaction-seen_example =
    process_transaction-seen externals call (output ∷ suspect ∷ []) watching run-Represents_example

-- Both targets are reported, and the output of the transaction is followed.
both_reported :
    map
      (λ (r : IncidentActivity × Option IncidentAlert). r.0.activity_type)
      (process_transaction externals call watching).results
    ≡ watched_outpoint_spent ∷ watched_address_spent ∷ []
unfolding process_transaction run with_follow_depth add_target new_address new_outpoint
    enroll_descendants get insert outpoint_beq text_beq
both_reported = refl

descendant_reported :
    map
      (λ (r : IncidentActivity × Option IncidentAlert). r.0.activity_type)
      (process_transaction externals next_call
        (process_transaction externals call watching).engine).results
    ≡ new_descendant_observed ∷ []
unfolding process_transaction run with_follow_depth add_target new_address new_outpoint
    enroll_descendants get insert outpoint_beq text_beq
descendant_reported = refl
