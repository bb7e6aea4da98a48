-- ===== src/Intelligence/WatchEngine/Alerts.antt =====
-- crates/obschain-intelligence/src/watch_engine.rs: the alert, the timeline entry and the update that
-- an activity leads to.
use obschain.Prelude.{
  ℕ, Bool, true, false, ◌&&◌, Option, none, some, List, [], ◌∷◌, Text, text_eq, codes, concat, leb,
  if◌then◌else◌,
}
use obschain.Prelude.Map.{get}
use obschain.Core.External.{Uuid}
use obschain.Core.Event.{EventSeverity, low, medium, high, critical}
use obschain.Core.Incident.{
  Incident, IncidentUpdate, ProvenanceClassification, TimelineEntry, on_chain_movement,
}
use obschain.Core.Watch.{
  CorrelationStrength, direct, heuristic, IncidentActivity, IncidentActivityType, IncidentAlert,
  WatchTarget, activity_debug, new_descendant_observed, provenance_debug, strength_debug, summary,
  text_or, transaction_replacement, watched_address_received, watched_address_spent,
  watched_outpoint_spent, watched_script_received, watched_transaction_confirmed,
  watched_transaction_observed,
}
use obschain.Intelligence.WatchEngine.{IncidentWatchEngine}

-- the derived `PartialEq` at the two values that the code compares with
abbrev pub is_outpoint_spent : IncidentActivityType → Bool
is_outpoint_spent watched_outpoint_spent = true
is_outpoint_spent _ = false

abbrev pub is_heuristic : CorrelationStrength → Bool
is_heuristic heuristic = true
is_heuristic _ = false

abbrev pub is_direct : CorrelationStrength → Bool
is_direct direct = true
is_direct _ = false

-- `unwrap_or(0)`
abbrev pub sats_or_zero : Option ℕ → ℕ
sats_or_zero none = 0
sats_or_zero (some n) = n

-- the severity where neither the kind, the strength nor the value decides alone
unfoldable pub default_severity : IncidentActivityType → ℕ → EventSeverity
default_severity watched_outpoint_spent value = high
default_severity watched_script_received value = medium
default_severity watched_address_received value = medium
default_severity watched_address_spent value = medium
default_severity watched_transaction_confirmed value = medium
default_severity watched_transaction_observed value = low
default_severity transaction_replacement value = medium
default_severity new_descendant_observed value = if leb 500_000_000 value then high else low

unfoldable pub calculate_alert_severity :
    IncidentActivityType → CorrelationStrength → ProvenanceClassification → Option ℕ → EventSeverity
unfolding default_severity
calculate_alert_severity activity_type correlation confidence value_sats =
    let value : ℕ = sats_or_zero value_sats in
    if is_outpoint_spent activity_type
    then if leb 10_000_000_000 value
      then critical
      else if leb 1_000_000_000 value
      then high
      else high
    else if is_heuristic correlation
    then medium
    else if leb 10_000_000_000 value && is_direct correlation
    then critical
    else if leb 1_000_000_000 value
    then high
    else default_severity activity_type value

abbrev pub alert_name : IncidentActivityType → Text
alert_name watched_outpoint_spent = codes "Watched Outpoint Spent"
alert_name watched_script_received = codes "Watched Script Received Funds"
alert_name watched_address_received = codes "Monitored Address Received Funds"
alert_name watched_address_spent = codes "Monitored Address Spent Funds"
alert_name watched_transaction_confirmed = codes "Watched Transaction Confirmed"
alert_name watched_transaction_observed = codes "Watched Transaction Observed"
alert_name transaction_replacement = codes "Transaction Replacement (RBF)"
alert_name new_descendant_observed = codes "New Descendant Activity"

-- `create_alert_if_significant`, with the identifier that it draws: every activity is significant.
unfoldable pub create_alert_if_significant :
    Uuid → IncidentActivity → WatchTarget → IncidentWatchEngine → Option IncidentAlert
unfolding calculate_alert_severity
create_alert_if_significant id a target e = some (record {
  id = id;
  incident_id = a.incident_id;
  case_id = a.case_id;
  incident_title =
      text_or (concat (codes "Incident " ∷ a.case_id ∷ [])) (get a.case_id e.incident_titles);
  activity_id = a.id;
  severity =
      calculate_alert_severity a.activity_type a.correlation_strength a.confidence a.value_sats;
  title = concat (codes "[" ∷ a.case_id ∷ codes "] " ∷ alert_name a.activity_type ∷ []);
  summary = concat (
      a.description
      ∷ codes ". Target: "
      ∷ text_or (summary target.kind) target.label
      ∷ codes " (Provenance: "
      ∷ provenance_debug a.confidence
      ∷ codes ", Strength: "
      ∷ strength_debug a.correlation_strength
      ∷ codes ")"
      ∷ []);
  confidence = a.confidence;
  correlation_strength = a.correlation_strength;
  observed_at = a.observed_at;
  value_sats = a.value_sats;
  trigger_txid = a.trigger_txid;
})

abbrev pub timeline_title : IncidentActivityType → Text
timeline_title watched_outpoint_spent = codes "Watched Incident UTXO Spent"
timeline_title watched_script_received = codes "Incident Script Received Funds"
timeline_title watched_address_received = codes "Monitored Incident Address Received Funds"
timeline_title watched_address_spent = codes "Monitored Incident Address Spent Funds"
timeline_title watched_transaction_confirmed = codes "Incident Transaction Confirmed"
timeline_title watched_transaction_observed = codes "Incident Transaction Observed in Mempool"
timeline_title transaction_replacement = codes "Incident Transaction Replaced (RBF)"
timeline_title new_descendant_observed = codes "New Incident Fund Descendant Observed"

-- an `Option` as an iterator
abbrev pub to_list {ℓ} : {A : Type ℓ} → Option A → List A
to_list none = []
to_list (some a) = a ∷ []

unfoldable pub generate_timeline_entry : Uuid → IncidentActivity → TimelineEntry
generate_timeline_entry id a = record {
  id = id;
  timestamp = a.observed_at;
  title = timeline_title a.activity_type;
  description = a.description;
  category = on_chain_movement;
  source_id = none;
  evidence_ids = a.evidence;
  transaction_txids = to_list a.trigger_txid;
  block_heights = to_list a.block_height;
  classification = a.confidence;
}

unfoldable pub generate_incident_update : Uuid → Incident → IncidentActivity → IncidentUpdate
generate_incident_update id incident a = record {
  id = id;
  timestamp = a.observed_at;
  title = concat (codes "On-Chain Movement: " ∷ activity_debug a.activity_type ∷ []);
  summary = concat (
      codes "Observed on-chain activity ("
      ∷ activity_debug a.activity_type
      ∷ codes ", confidence: "
      ∷ provenance_debug a.confidence
      ∷ codes ", strength: "
      ∷ strength_debug a.correlation_strength
      ∷ codes ") in tx "
      ∷ text_or (codes "unknown") a.trigger_txid
      ∷ codes ". Recovery balance remains unchanged."
      ∷ []);
  source_id = none;
  recovery_state = some incident.recovery;
}
