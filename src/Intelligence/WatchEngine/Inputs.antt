-- ===== src/Intelligence/WatchEngine/Inputs.antt =====
-- crates/obschain-intelligence/src/watch_engine.rs: the second part of `process_transaction`, what the
-- inputs of a transaction spend.
use obschain.Prelude.{
  ℕ, ◌+◌, Option, none, some, List, [], ◌∷◌, length, ltb, nat_eq, Text, text_eq, codes, concat,
  show, if◌then◌else◌,
}
use obschain.Prelude.Map.{get}
use obschain.Core.External.{Uuid, Externals, string, field, end}
use obschain.Core.Observation.{TxInputObservation}
use obschain.Core.Watch.{
  IncidentActivity, direct, WatchTarget, watched_address_spent, watched_outpoint_spent,
}
use obschain.Detectors.Blocks.{num, nullable}
use obschain.Intelligence.WatchEngine.{OutPoint, outpoint_eq, targets_at}
use obschain.Intelligence.WatchEngine.Alerts.{sats_or_zero}
use obschain.Intelligence.WatchEngine.Activities.{
  Call, Scan, address_strength, enroll_in, report, report_descendant, target_activity,
  first_generation, next_generation, forget_outpoint, outpoint_json,
}

module _ (x : Externals) (c : Call) where
  unfoldable pub spent_activity : ℕ → TxInputObservation → WatchTarget → Uuid → IncidentActivity
  unfolding target_activity outpoint_json
  spent_activity vin input target =
      target_activity x c target watched_outpoint_spent input.prev_out_value_sats direct
        (concat (
          codes "Watched outpoint "
          ∷ input.txid
          ∷ codes ":"
          ∷ show input.vout
          ∷ codes " spent by transaction "
          ∷ c.tx.txid
          ∷ codes " (input #"
          ∷ show vin
          ∷ codes ")"
          ∷ []))
        (field "spent_outpoint" (outpoint_json input.txid input.vout) (
          field "vin_index" (num vin) (
            field "spending_txid" (string c.tx.txid)
              (field "value_sats" (nullable num input.prev_out_value_sats) end))))

  -- 2. A: the input spends a watched output
  unfoldable pub match_outpoint : ℕ → TxInputObservation → List WatchTarget → Scan → Scan
  unfolding spent_activity report enroll_in first_generation
  match_outpoint vin input [] s = s
  match_outpoint vin input (target ∷ targets) s = match_outpoint vin input targets (
      enroll_in x c (first_generation x c target)
        (report c.new_id target (spent_activity vin input target) s))

  -- 2. B: the input spends a tracked descendant, which is no longer tracked then
  unfoldable pub match_descendant : TxInputObservation → Scan → Scan
  unfolding report_descendant next_generation forget_outpoint enroll_in
  match_descendant input s0 =
      let key : OutPoint = (x.to_lowercase input.txid, input.vout) in
      elim (get key s0.engine.descendant_outpoints) [
        | none ↦ s0
        | some descendant ↦
            let s1 = forget_outpoint key s0 in
            let origin = get descendant.origin_target_id s1.engine.all_targets in
            let s2 = report_descendant x c input descendant origin s1 in
            if ltb descendant.depth s2.engine.max_descendant_depth
            then enroll_in x c (next_generation x c descendant) s2
            else s2
      ]

  unfoldable pub spender_activity :
      ℕ → TxInputObservation → Text → WatchTarget → Uuid → IncidentActivity
  unfolding target_activity address_strength
  spender_activity vin input addr target =
      target_activity x c target watched_address_spent input.prev_out_value_sats
        (address_strength target.classification)
        (concat (
          codes "Monitored address "
          ∷ addr
          ∷ codes " spent "
          ∷ show (sats_or_zero input.prev_out_value_sats)
          ∷ codes " sats in tx "
          ∷ c.tx.txid
          ∷ []))
        (field "address" (string addr) (
          field "vin_index" (num vin) (
            field "spent_txid" (string c.tx.txid)
              (field "co_spent_inputs_count" (num (length c.tx.inputs)) end))))

  -- 2. C: the input spends from a watched address
  unfoldable pub match_spender : ℕ → TxInputObservation → Text → List WatchTarget → Scan → Scan
  unfolding spender_activity report
  match_spender vin input addr [] s = s
  match_spender vin input addr (target ∷ targets) s =
      match_spender vin input addr targets
        (report c.new_id target (spender_activity vin input addr target) s)

  abbrev pub match_spender_at : ℕ → TxInputObservation → Option Text → Scan → Scan
  match_spender_at vin input none s = s
  match_spender_at vin input (some addr) s =
      match_spender vin input addr (targets_at addr s.engine.address_index) s

  unfoldable pub evaluate_input : ℕ → TxInputObservation → Scan → Scan
  unfolding match_outpoint match_descendant match_spender
  evaluate_input vin input s0 =
      let key : OutPoint = (x.to_lowercase input.txid, input.vout) in
      let s1 = match_outpoint vin input (targets_at key s0.engine.outpoint_index) s0 in
      let s2 = match_descendant input s1 in match_spender_at vin input input.prev_out_address s2

  unfoldable pub evaluate_inputs : ℕ → List TxInputObservation → Scan → Scan
  unfolding evaluate_input
  evaluate_inputs vin [] s = s
  evaluate_inputs vin (input ∷ inputs) s =
      evaluate_inputs (vin + 1) inputs (evaluate_input vin input s)
