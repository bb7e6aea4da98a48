-- ===== src/Intelligence/WatchEngine/Activities.antt =====
-- crates/obschain-intelligence/src/watch_engine.rs: the activities that the engine reports, and how a
-- call collects them.
use obschain.Prelude.{
  ℕ, ◌+◌, Option, none, some, List, [], ◌∷◌, ◌++◌, Text, text_eq, codes, concat, show,
}
use obschain.Prelude.Map.{remove}
use obschain.Core.External.{Uuid, DateTime, Externals, Json, string, object, field, end, Fields}
use obschain.Core.Source.{ObservationSource}
use obschain.Core.Incident.{
  ProvenanceClassification, on_chain_verified, officially_attributed, reputable_reporting,
  unverified, disputed,
}
use obschain.Core.Observation.{TransactionObservation, TxInputObservation}
use obschain.Core.Watch.{
  ActivityStatus, mempool, confirmed, CorrelationStrength, direct, structural, heuristic,
  IncidentActivity, IncidentActivityType, IncidentAlert, WatchTarget, generate_dedup_key,
  new_descendant_observed, watched_transaction_confirmed, watched_transaction_observed,
}
use obschain.Detectors.Blocks.{num}
use obschain.Intelligence.WatchEngine.{
  IncidentWatchEngine, OutPoint, TrackedDescendantOutpoint, enroll_descendants, outpoint_eq,
}
use obschain.Intelligence.WatchEngine.Alerts.{create_alert_if_significant, to_list}

-- What a call is given, and what it reads: the n-th identifier that it draws is `new_id n`.
pub record Call : Type 0 where
  pub tx : TransactionObservation
  pub block_height : Option ℕ
  pub block_hash : Option Text
  pub now : DateTime
  pub new_id : ℕ → Uuid

-- What a call has found so far, the number of identifiers that it has drawn, and the engine.
pub record Scan : Type 0 where
  pub results : List (IncidentActivity × Option IncidentAlert)
  pub drawn : ℕ
  pub engine : IncidentWatchEngine

-- How much an address match proves: never directly, unless the address is verified on the chain.
unfoldable pub address_strength : ProvenanceClassification → CorrelationStrength
address_strength on_chain_verified = direct
address_strength officially_attributed = structural
address_strength reputable_reporting = heuristic
address_strength ProvenanceClassification.heuristic = heuristic
address_strength unverified = heuristic
address_strength disputed = heuristic

abbrev pub known_source : Option ObservationSource → ObservationSource
known_source (some s) = s
known_source none = record {
  provider = codes "bitcoin";
  transport = codes "unknown";
  endpoint = none;
}

abbrev pub status_at : Option ℕ → ActivityStatus
status_at (some h) = confirmed
status_at none = mempool

abbrev pub sighting : Option ℕ → IncidentActivityType
sighting (some h) = watched_transaction_confirmed
sighting none = watched_transaction_observed

unfoldable pub outpoint_json : Text → ℕ → Json
outpoint_json txid vout = object (field "txid" (string txid) (field "vout" (num vout) end))

-- the activity and its alert, with the two identifiers that they draw
unfoldable pub report : (ℕ → Uuid) → WatchTarget → (Uuid → IncidentActivity) → Scan → Scan
report new_id target activity_of s =
    let activity = activity_of (new_id s.drawn) in
    let alert = create_alert_if_significant (new_id (s.drawn + 1)) activity target s.engine in
    record s { results = s.results ++ (activity, alert) ∷ []; drawn = s.drawn + 2 }

unfoldable pub forget_outpoint : OutPoint → Scan → Scan
forget_outpoint key s = record s {
  engine = record s.engine { descendant_outpoints = remove key s.engine.descendant_outpoints };
}

module _ (x : Externals) (c : Call) where
  -- an activity of a target; the code writes it out for each kind
  unfoldable pub target_activity :
      WatchTarget
      → IncidentActivityType
      → Option ℕ
      → CorrelationStrength
      → Text
      → Fields
      → Uuid
      → IncidentActivity
  target_activity target activity_type value_sats strength description details id = record {
    id = id;
    incident_id = target.incident_id;
    case_id = target.case_id;
    activity_type = activity_type;
    observed_at = c.now;
    trigger_txid = some c.tx.txid;
    block_height = c.block_height;
    block_hash = c.block_hash;
    value_sats = value_sats;
    watch_target_id = target.id;
    confidence = target.classification;
    correlation_strength = strength;
    status = status_at c.block_height;
    source = known_source c.tx.source;
    evidence = to_list target.evidence_id;
    description = description;
    details = some (object details);
    dedup_key = generate_dedup_key x target.incident_id activity_type (some c.tx.txid) target.id;
  }

  unfoldable pub first_generation : WatchTarget → TrackedDescendantOutpoint
  first_generation target = record {
    incident_id = target.incident_id;
    case_id = target.case_id;
    origin_target_id = target.id;
    depth = 1;
    confidence = target.classification;
    created_at = c.now;
  }

  unfoldable pub enroll_in : TrackedDescendantOutpoint → Scan → Scan
  enroll_in tracked s = record s { engine = enroll_descendants x c.tx tracked s.engine }

  unfoldable pub descendant_activity :
      TxInputObservation → TrackedDescendantOutpoint → Uuid → IncidentActivity
  unfolding outpoint_json
  descendant_activity input descendant id = record {
    id = id;
    incident_id = descendant.incident_id;
    case_id = descendant.case_id;
    activity_type = new_descendant_observed;
    observed_at = c.now;
    trigger_txid = some c.tx.txid;
    block_height = c.block_height;
    block_hash = c.block_hash;
    value_sats = input.prev_out_value_sats;
    watch_target_id = descendant.origin_target_id;
    confidence = descendant.confidence;
    correlation_strength = structural;
    status = status_at c.block_height;
    source = known_source c.tx.source;
    evidence = [];
    description = concat (
        codes "Incident descendant outpoint "
        ∷ input.txid
        ∷ codes ":"
        ∷ show input.vout
        ∷ codes " (depth "
        ∷ show descendant.depth
        ∷ codes ") spent by transaction "
        ∷ c.tx.txid
        ∷ []);
    details = some (
        object (
          field "descendant_depth" (num descendant.depth) (
            field "spent_outpoint" (outpoint_json input.txid input.vout)
              (field "spending_txid" (string c.tx.txid) end))));
    dedup_key =
        generate_dedup_key x descendant.incident_id new_descendant_observed (some c.tx.txid)
          descendant.origin_target_id;
  }

  -- the activity of a descendant, with an alert if its origin is still watched
  unfoldable pub report_descendant :
      TxInputObservation → TrackedDescendantOutpoint → Option WatchTarget → Scan → Scan
  unfolding descendant_activity
  report_descendant input descendant none s = record s {
    results = s.results ++ (descendant_activity input descendant (c.new_id s.drawn), none) ∷ [];
    drawn = s.drawn + 1;
  }
  report_descendant input descendant (some target) s =
      report c.new_id target (descendant_activity input descendant) s

  unfoldable pub next_generation : TrackedDescendantOutpoint → TrackedDescendantOutpoint
  next_generation descendant = record descendant {
    depth = descendant.depth + 1;
    created_at = c.now;
  }
