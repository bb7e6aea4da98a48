-- ===== src/Core/Watch.antt =====
-- crates/obschain-core/src/watch.rs: what an incident watches, and what is seen of it. The texts of
-- a target (hashes, scripts, addresses) are ASCII, so that a slice of bytes is one of characters.
use obschain.Prelude.{
  ℕ, ◌-◌, Bool, true, Option, none, some, List, [], ◌∷◌, Text, codes, concat, show, length, take,
  drop, ltb, if◌then◌else◌,
}
use obschain.Core.External.{Uuid, DateTime, Json, Externals}
use obschain.Core.Source.{ObservationSource}
use obschain.Core.Event.{EventSeverity}
use obschain.Core.Incident.{
  ProvenanceClassification, on_chain_verified, officially_attributed, reputable_reporting,
  unverified, disputed,
}

pub data WatchTargetKind : Type 0 where
  out_point : Text → ℕ → WatchTargetKind
  script_pub_key : Text → WatchTargetKind
  address : Text → ProvenanceClassification → WatchTargetKind
  transaction : Text → WatchTargetKind

abbrev pub target_type_str : WatchTargetKind → Text
target_type_str (out_point txid vout) = codes "OUTPOINT"
target_type_str (script_pub_key script_hex) = codes "SCRIPT_PUBKEY"
target_type_str (address addr attribution) = codes "ADDRESS"
target_type_str (transaction txid) = codes "TRANSACTION"

-- the derived `Debug`
abbrev pub provenance_debug : ProvenanceClassification → Text
provenance_debug on_chain_verified = codes "OnChainVerified"
provenance_debug officially_attributed = codes "OfficiallyAttributed"
provenance_debug reputable_reporting = codes "ReputableReporting"
provenance_debug ProvenanceClassification.heuristic = codes "Heuristic"
provenance_debug unverified = codes "Unverified"
provenance_debug disputed = codes "Disputed"

-- A text longer than `limit` is cut to its first and last `kept` characters.
shorten : ℕ → ℕ → Text → Text
shorten limit kept s =
    if ltb limit (length s)
    then concat (take kept s ∷ codes "..." ∷ drop (length s - kept) s ∷ [])
    else s

unfoldable pub summary : WatchTargetKind → Text
unfolding shorten
summary (out_point txid vout) =
    concat (codes "OutPoint: " ∷ shorten 12 6 txid ∷ codes ":" ∷ show vout ∷ [])
summary (script_pub_key script_hex) = concat (codes "Script: " ∷ shorten 16 8 script_hex ∷ [])
summary (address addr attribution) = concat (
    codes "Address: "
    ∷ shorten 14 6 addr
    ∷ codes " ["
    ∷ provenance_debug attribution
    ∷ codes "]"
    ∷ [])
summary (transaction txid) = concat (codes "Tx: " ∷ shorten 12 6 txid ∷ [])

pub record WatchTarget : Type 0 where
  pub id : Uuid
  pub incident_id : Uuid
  pub case_id : Text
  pub kind : WatchTargetKind
  pub classification : ProvenanceClassification
  pub source : Text
  pub evidence_id : Option Uuid
  pub label : Option Text
  pub created_at : DateTime
  pub active : Bool

-- The four constructors differ in the kind alone; `id` and `now` are what they draw.
new_target :
    Uuid
    → DateTime
    → Uuid
    → Text
    → WatchTargetKind
    → ProvenanceClassification
    → Text
    → Option Text
    → WatchTarget
new_target id now incident_id case_id kind classification source label = record {
  id = id;
  incident_id = incident_id;
  case_id = case_id;
  kind = kind;
  classification = classification;
  source = source;
  evidence_id = none;
  label = label;
  created_at = now;
  active = true;
}

module _ (id : Uuid) (now : DateTime) (incident_id : Uuid) (case_id : Text) where
  unfoldable pub new_outpoint :
      Text → ℕ → ProvenanceClassification → Text → Option Text → WatchTarget
  unfolding new_target
  new_outpoint txid vout = new_target id now incident_id case_id (out_point txid vout)

  unfoldable pub new_script : Text → ProvenanceClassification → Text → Option Text → WatchTarget
  unfolding new_target
  new_script script_hex = new_target id now incident_id case_id (script_pub_key script_hex)

  unfoldable pub new_address : Text → ProvenanceClassification → Text → Option Text → WatchTarget
  unfolding new_target
  new_address addr classification =
      new_target id now incident_id case_id (address addr classification) classification

  unfoldable pub new_transaction :
      Text → ProvenanceClassification → Text → Option Text → WatchTarget
  unfolding new_target
  new_transaction txid = new_target id now incident_id case_id (transaction txid)

unfoldable pub with_evidence_id : Uuid → WatchTarget → WatchTarget
with_evidence_id evidence_id t = record t { evidence_id = some evidence_id }

pub record PublicWatchTarget : Type 0 where
  pub id : Uuid
  pub incident_id : Uuid
  pub case_id : Text
  pub target_type : Text
  pub target_summary : Text
  pub classification : ProvenanceClassification
  pub label : Option Text
  pub created_at : DateTime
  pub active : Bool

unfoldable pub to_public_metadata : WatchTarget → PublicWatchTarget
unfolding summary
to_public_metadata t = record {
  id = t.id;
  incident_id = t.incident_id;
  case_id = t.case_id;
  target_type = target_type_str t.kind;
  target_summary = summary t.kind;
  classification = t.classification;
  label = t.label;
  created_at = t.created_at;
  active = t.active;
}

pub data IncidentActivityType : Type 0 where
  watched_transaction_observed watched_transaction_confirmed : IncidentActivityType
  watched_outpoint_spent watched_script_received watched_address_received : IncidentActivityType
  watched_address_spent transaction_replacement new_descendant_observed : IncidentActivityType

-- the derived `Debug`
abbrev pub activity_debug : IncidentActivityType → Text
activity_debug watched_transaction_observed = codes "WatchedTransactionObserved"
activity_debug watched_transaction_confirmed = codes "WatchedTransactionConfirmed"
activity_debug watched_outpoint_spent = codes "WatchedOutpointSpent"
activity_debug watched_script_received = codes "WatchedScriptReceived"
activity_debug watched_address_received = codes "WatchedAddressReceived"
activity_debug watched_address_spent = codes "WatchedAddressSpent"
activity_debug transaction_replacement = codes "TransactionReplacement"
activity_debug new_descendant_observed = codes "NewDescendantObserved"

pub data ActivityStatus : Type 0 where
  mempool confirmed reorged_out : ActivityStatus

-- the derived `Debug`
abbrev pub status_debug : ActivityStatus → Text
status_debug mempool = codes "Mempool"
status_debug confirmed = codes "Confirmed"
status_debug reorged_out = codes "ReorgedOut"

pub data CorrelationStrength : Type 0 where
  direct structural heuristic : CorrelationStrength

-- the derived `Debug`
abbrev pub strength_debug : CorrelationStrength → Text
strength_debug direct = codes "Direct"
strength_debug structural = codes "Structural"
strength_debug heuristic = codes "Heuristic"

pub record IncidentActivity : Type 0 where
  pub id : Uuid
  pub incident_id : Uuid
  pub case_id : Text
  pub activity_type : IncidentActivityType
  pub observed_at : DateTime
  pub trigger_txid : Option Text
  pub block_height : Option ℕ
  pub block_hash : Option Text
  pub value_sats : Option ℕ
  pub watch_target_id : Uuid
  pub confidence : ProvenanceClassification
  pub correlation_strength : CorrelationStrength
  pub status : ActivityStatus
  pub source : ObservationSource
  pub evidence : List Uuid
  pub description : Text
  pub details : Option Json
  pub dedup_key : Text

-- `unwrap_or`
abbrev pub text_or : Text → Option Text → Text
text_or default none = default
text_or default (some s) = s

unfoldable pub generate_dedup_key :
    Externals → Uuid → IncidentActivityType → Option Text → Uuid → Text
generate_dedup_key x incident_id activity_type trigger_txid watch_target_id = concat (
    x.uuid_text incident_id
    ∷ codes ":"
    ∷ activity_debug activity_type
    ∷ codes ":"
    ∷ text_or (codes "none") trigger_txid
    ∷ codes ":"
    ∷ x.uuid_text watch_target_id
    ∷ [])

pub record IncidentAlert : Type 0 where
  pub id : Uuid
  pub incident_id : Uuid
  pub case_id : Text
  pub incident_title : Text
  pub activity_id : Uuid
  pub severity : EventSeverity
  pub title : Text
  pub summary : Text
  pub confidence : ProvenanceClassification
  pub correlation_strength : CorrelationStrength
  pub observed_at : DateTime
  pub value_sats : Option ℕ
  pub trigger_txid : Option Text
