-- ===== src/Core/Event.antt =====
-- crates/obschain-core/src/event.rs: chain events and how they are identified.
pub mod Identity
use obschain.Prelude.{
  ℕ, Option, none, some, List, [], ◌∷◌, ◌++◌, Text, codes, concat, show, any, ◌==◌, text_eq, nat_eq,
  if◌then◌else◌,
}
use obschain.Core.External.{Uuid, DateTime, Json, object, end, Externals, Readings}
use obschain.Core.Source.{ObservationSource, ObservationWitness, source_eq}
use obschain.Core.Occurrence.{EventObservation}
use obschain.Core.Mode.{ObservationMode, live}
use obschain.Core.Mode

pub data EventSeverity : Type 0 where
  info low medium high critical : EventSeverity

pub data ConfidenceLevel : Type 0 where
  verified_on_chain high moderate heuristic low : ConfidenceLevel

pub data EventType : Type 0 where
  large_transfer dormant_coins_moved consolidation fan_out extreme_fee : EventType
  transaction_replacement long_block_interval reorg_detected mining_anomaly : EventType
  unusual_fee_ratio : EventType

-- the derived `Debug`
abbrev pub debug : EventType → Text
debug large_transfer = codes "LargeTransfer"
debug dormant_coins_moved = codes "DormantCoinsMoved"
debug consolidation = codes "Consolidation"
debug fan_out = codes "FanOut"
debug extreme_fee = codes "ExtremeFee"
debug transaction_replacement = codes "TransactionReplacement"
debug long_block_interval = codes "LongBlockInterval"
debug reorg_detected = codes "ReorgDetected"
debug mining_anomaly = codes "MiningAnomaly"
debug unusual_fee_ratio = codes "UnusualFeeRatio"

pub record ChainEvent : Type 0 where
  pub id : Uuid
  pub event_type : EventType
  pub severity : EventSeverity
  pub confidence : ConfidenceLevel
  pub title : Text
  pub description : Text
  pub event_time : DateTime
  pub first_observed_at : DateTime
  pub detected_at : DateTime
  pub block_height : Option ℕ
  pub block_hash : Option Text
  pub txid : Option Text
  pub source : Option ObservationSource
  pub witnesses : List ObservationWitness
  pub observation_mode : ObservationMode
  pub replay_job_id : Option Uuid
  pub metadata : Json
  pub observations : List EventObservation

-- `ChainEvent::new`
unfoldable pub new_event :
    Readings → EventType → EventSeverity → ConfidenceLevel → Text → Text → ChainEvent
new_event r event_type severity confidence title description = record {
  id = r.id;
  event_type = event_type;
  severity = severity;
  confidence = confidence;
  title = title;
  description = description;
  event_time = r.now;
  first_observed_at = r.now;
  detected_at = r.now;
  block_height = none;
  block_hash = none;
  txid = none;
  source = none;
  witnesses = [];
  observation_mode = live;
  replay_job_id = none;
  metadata = object end;
  observations = [];
}

-- The name that `deterministic_id` hashes: the
-- event's type and the first of txid, block hash, height and title that it has.
unfoldable pub identity_key : ChainEvent → Text
identity_key e = elim e.txid [
  | some txid ↦ concat (debug e.event_type ∷ codes ":tx:" ∷ txid ∷ [])
  | none ↦ elim e.block_hash [
    | some hash ↦ concat (debug e.event_type ∷ codes ":block:" ∷ hash ∷ [])
    | none ↦ elim e.block_height [
      | some height ↦ concat (debug e.event_type ∷ codes ":height:" ∷ show height ∷ [])
      | none ↦ concat (debug e.event_type ∷ codes ":title:" ∷ e.title ∷ [])
    ]
  ]
]

unfoldable pub deterministic_id : Externals → ChainEvent → Uuid
deterministic_id x e = x.new_v5 (identity_key e)

unfoldable pub with_deterministic_id : Externals → ChainEvent → ChainEvent
unfolding deterministic_id
with_deterministic_id x e = record e { id = deterministic_id x e }

pub with_event_time : DateTime → ChainEvent → ChainEvent
with_event_time time e = record e { event_time = time; detected_at = time }

unfoldable pub add_witness : ObservationWitness → ChainEvent → ChainEvent
add_witness w e =
    if any (λ (v : ObservationWitness). v.source == w.source) e.witnesses
    then e
    else record e { witnesses = e.witnesses ++ w ∷ [] }

unfoldable pub add_observation : EventObservation → ChainEvent → ChainEvent
add_observation obs e =
    if any (λ (o : EventObservation). o.id == obs.id) e.observations
    then e
    else record e { observations = e.observations ++ obs ∷ [] }
