-- ===== src/Detectors/Metadata.antt =====
-- The typed metadata of crates/obschain-core/src/event.rs. How a record is written as JSON is the
-- serializer's; `none` where it fails, as it does on an integer above 64 bits.
use obschain.Prelude.{ℕ, Option, none, some, List, Text}
use obschain.Core.External.{F64, Json}
use obschain.Core.Event.{ChainEvent}

pub data DormantClassification : Type 0 where
  dormant very_old ancient early_bitcoin : DormantClassification

pub record DormantCoinsMetadata : Type 0 where
  pub total_dormant_sats : ℕ
  pub total_dormant_btc : F64
  pub dormant_input_count : ℕ
  pub total_input_count : ℕ
  pub oldest_input_age_days : ℕ
  pub oldest_input_age_seconds : ℕ
  pub youngest_qualifying_age_days : ℕ
  pub total_input_sats : ℕ
  pub total_output_sats : ℕ
  pub dormant_ratio : F64
  pub coin_age_destroyed_sats_days : ℕ
  pub coin_age_destroyed_btc_days : F64
  pub coin_age_destroyed_btc_years : F64
  pub classification : DormantClassification

pub record ConsolidationMetadata : Type 0 where
  pub input_count : ℕ
  pub output_count : ℕ
  pub input_output_ratio : F64
  pub total_input_sats : ℕ
  pub total_output_sats : ℕ
  pub fee_sats : ℕ

pub record FanOutMetadata : Type 0 where
  pub input_count : ℕ
  pub output_count : ℕ
  pub output_input_ratio : F64
  pub total_distributed_sats : ℕ
  pub total_distributed_btc : F64
  pub median_output_sats : ℕ
  pub smallest_output_sats : ℕ
  pub largest_output_sats : ℕ

pub data ExtremeFeeTriggerType : Type 0 where
  high_absolute_fee high_fee_rate both : ExtremeFeeTriggerType

pub record ExtremeFeeMetadata : Type 0 where
  pub fee_sats : ℕ
  pub fee_btc : F64
  pub fee_rate_sat_vb : Option F64
  pub vsize : ℕ
  pub total_input_sats : ℕ
  pub total_output_sats : ℕ
  pub fee_trigger_type : ExtremeFeeTriggerType

-- `fee_delta_sats`, an `i64`, is its 64-bit pattern.
pub record ReplacementMetadata : Type 0 where
  pub replaced_txids : List Text
  pub replacement_txid : Text
  pub replaced_count : ℕ
  pub old_fee_sats : ℕ
  pub new_fee_sats : ℕ
  pub fee_delta_sats : ℕ
  pub fee_increase_percent : Option F64
  pub old_fee_rate_sat_vb : Option F64
  pub new_fee_rate_sat_vb : Option F64

-- `serde_json::to_value` on each of them
pub record Encoders : Type 0 where
  pub dormant_coins : DormantCoinsMetadata → Option Json
  pub consolidation : ConsolidationMetadata → Option Json
  pub fan_out : FanOutMetadata → Option Json
  pub extreme_fee : ExtremeFeeMetadata → Option Json
  pub replacement : ReplacementMetadata → Option Json

-- `ChainEvent::with_typed_metadata`, given what `to_value` makes of the metadata
unfoldable pub with_typed_metadata : Option Json → ChainEvent → ChainEvent
with_typed_metadata none e = e
with_typed_metadata (some json) e = record e { metadata = json }
