-- ===== src/Intelligence/WatchEngine/Processing.antt =====
-- crates/obschain-intelligence/src/watch_engine.rs: `process_transaction`, `process_replacement` and
-- `process_block`.
use obschain.Prelude.{
  ℕ, Option, none, some, List, [], ◌∷◌, ◌++◌, length, ltb, ◌^◌, ◌-◌, Text, text_eq, codes, concat,
  show, if◌then◌else◌,
}
use obschain.Prelude.Map.{get}
use obschain.Core.External.{
  Uuid, DateTime, Externals, Json, string, array, nil, item, object, field, end, Items, number,
  negative,
}
use obschain.Core.Observation.{BlockObservation, TransactionReplacement}
use obschain.Core.Watch.{
  mempool, direct, structural, IncidentActivity, IncidentAlert, WatchTarget, generate_dedup_key,
  status_debug, transaction_replacement,
}
use obschain.Detectors.Blocks.{num}
use obschain.Intelligence.WatchEngine.{IncidentWatchEngine, outpoint_eq, targets_at}
use obschain.Intelligence.WatchEngine.Alerts.{create_alert_if_significant, to_list}
use obschain.Intelligence.WatchEngine.Activities.{
  Call, Scan, known_source, report, target_activity, sighting, status_at,
}
use obschain.Intelligence.WatchEngine.Inputs.{evaluate_inputs}
use obschain.Intelligence.WatchEngine.Outputs.{evaluate_outputs}

module _ (x : Externals) (c : Call) where
  unfoldable pub txid_activity : WatchTarget → Uuid → IncidentActivity
  unfolding target_activity
  txid_activity target =
      target_activity x c target (sighting c.block_height) (some c.tx.total_output_sats) direct
        (concat (
          codes "Monitored transaction "
          ∷ c.tx.txid
          ∷ codes " observed on-chain ("
          ∷ status_debug (status_at c.block_height)
          ∷ codes ")"
          ∷ []))
        (field "txid" (string c.tx.txid) (
          field "total_output_sats" (num c.tx.total_output_sats) (
            field "fee_sats" (num c.tx.fee_sats) (
              field "vin_count" (num (length c.tx.inputs))
                (field "vout_count" (num (length c.tx.outputs)) end)))))

  -- 1. the transaction itself is watched
  unfoldable pub match_txid : List WatchTarget → Scan → Scan
  unfolding txid_activity report
  match_txid [] s = s
  match_txid (target ∷ targets) s =
      match_txid targets (report c.new_id target (txid_activity target) s)

  unfoldable pub process_transaction : IncidentWatchEngine → Scan
  unfolding match_txid evaluate_inputs evaluate_outputs
  process_transaction e =
      let s0 : Scan = record { results = []; drawn = 0; engine = e } in
      let s1 = match_txid (targets_at (x.to_lowercase c.tx.txid) e.txid_index) s0 in
      evaluate_outputs x c 0 c.tx.outputs (evaluate_inputs x c 0 c.tx.inputs s1)

-- `targets.first()`
first_of : List WatchTarget → Option WatchTarget
first_of [] = none
first_of (target ∷ targets) = some target

-- The replacement's own target, if it has one, else one of the replaced transactions'.
matched : Option (List WatchTarget) → Option WatchTarget → Option WatchTarget
matched (some (target ∷ targets)) other = some target
matched _ other = other

-- `{}` of an `i64`, by its 64-bit pattern
show_i64 : ℕ → Text
show_i64 n = if ltb n (2 ^ 63) then show n else codes "-" ++ show (2 ^ 64 - n)

-- The first target of the first of `txids` that is watched.
unfoldable pub first_watched : Externals → List Text → IncidentWatchEngine → Option WatchTarget
unfolding first_of
first_watched x [] e = none
first_watched x (txid ∷ txids) e =
    let later = first_watched x txids e in
    elim (get (x.to_lowercase txid) e.txid_index) [ none ↦ later | some targets ↦ first_of targets ]

join : Text → List Text → Text
join separator [] = []
join separator (s ∷ []) = s
join separator (s ∷ t ∷ ss) = s ++ separator ++ join separator (t ∷ ss)

texts : List Text → Items
texts [] = nil
texts (s ∷ ss) = item (string s) (texts ss)

-- `json!` of an `i64`, by its 64-bit pattern
i64_json : ℕ → Json
i64_json n = if ltb n (2 ^ 63) then num n else number (negative (2 ^ 64 - n))

unfoldable pub replacement_activity :
    Externals → DateTime → TransactionReplacement → WatchTarget → Uuid → IncidentActivity
unfolding join texts i64_json show_i64
replacement_activity x now repl target id = record {
  id = id;
  incident_id = target.incident_id;
  case_id = target.case_id;
  activity_type = transaction_replacement;
  observed_at = now;
  trigger_txid = some repl.replacement_txid;
  block_height = none;
  block_hash = none;
  value_sats = none;
  watch_target_id = target.id;
  confidence = target.classification;
  correlation_strength = structural;
  status = mempool;
  source = known_source repl.source;
  evidence = to_list target.evidence_id;
  description = concat (
      codes "RBF replacement observed for incident tx "
      ∷ join (codes ", ") repl.replaced_txids
      ∷ codes ": replaced by "
      ∷ repl.replacement_txid
      ∷ codes " (fee delta: "
      ∷ show_i64 repl.fee_delta_sats
      ∷ codes " sats)"
      ∷ []);
  details = some (
      object (
        field "replacement_txid" (string repl.replacement_txid) (
          field "replaced_txids" (array (texts repl.replaced_txids))
            (field "fee_delta_sats" (i64_json repl.fee_delta_sats) end))));
  dedup_key =
      generate_dedup_key x target.incident_id transaction_replacement (some repl.replacement_txid)
        target.id;
}

-- `process_replacement` leaves the engine as it is.
unfoldable pub process_replacement :
    Externals
    → (ℕ → Uuid)
    → DateTime
    → TransactionReplacement
    → IncidentWatchEngine
    → List (IncidentActivity × Option IncidentAlert)
unfolding first_watched matched replacement_activity
process_replacement x new_id now repl e =
    let own = get (x.to_lowercase repl.replacement_txid) e.txid_index in
    elim (matched own (first_watched x repl.replaced_txids e)) [
      | none ↦ []
      | some target ↦
          let activity = replacement_activity x now repl target (new_id 0) in
          (activity, create_alert_if_significant (new_id 1) activity target e) ∷ []
    ]

unfoldable pub process_block :
    BlockObservation → IncidentWatchEngine → List (IncidentActivity × Option IncidentAlert)
process_block block e = []
