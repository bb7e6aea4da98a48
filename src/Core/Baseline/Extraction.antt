-- ===== src/Core/Baseline/Extraction.antt =====
-- crates/obschain-core/src/baseline.rs: `EventMetricExtractor`, which reads the metrics of an event from
-- its metadata.
use obschain.Prelude.{
  ℕ, Option, none, some, List, [], ◌∷◌, Text, String, codes, concat, parse_uint, u128_max,
}
use obschain.Core.External.{F64, Uuid, DateTime, Json, number, unsigned, string, get_key, Readings}
use obschain.Core.Event.{
  ChainEvent, EventType, large_transfer, dormant_coins_moved, consolidation, fan_out, extreme_fee,
  long_block_interval,
}
use obschain.Core.Baseline.{
  BaselineMetric, BaselineMetricDefinition, metric_str, metrics_for_event_type, value_sats,
  input_count, output_count, vsize, dormant_value_sats, oldest_input_age_days,
  coin_age_destroyed_satoshi_days, consolidation_ratio, distributed_value_sats, median_output_sats,
  fee_sats, fee_rate_sat_vb, interval_seconds,
}
use obschain.Core.Baseline.Values.{MetricValue, u64, u128, basis_points, decimal_scaled, scale}
use obschain.Detectors.Metadata.{
  DormantCoinsMetadata, ConsolidationMetadata, FanOutMetadata, ExtremeFeeMetadata,
}

-- What the serializer and the floats give.
pub record Decoders : Type 0 where
  -- `serde_json::from_value`
  pub dormant_coins : Json → Option DormantCoinsMetadata
  pub consolidation_of : Json → Option ConsolidationMetadata
  pub fan_out_of : Json → Option FanOutMetadata
  pub extreme_fee_of : Json → Option ExtremeFeeMetadata
  -- `Value::as_f64`
  pub as_f64 : Json → Option F64
  -- `(x * 100.0).round() as u32`, and the same `as u64`
  pub hundredths_u32 : F64 → ℕ
  pub hundredths_u64 : F64 → ℕ

-- `Value::as_u64`
abbrev pub json_u64 : Json → Option ℕ
json_u64 (number (unsigned n)) = some n
json_u64 _ = none

-- `Value::as_str`
abbrev pub json_str : Json → Option Text
json_str (string s) = some s
json_str _ = none

infixl 5 ◌>>=◌
abbrev pub ◌>>=◌ {ℓ κ} : {A : Type ℓ} {B : Type κ} → Option A → (A → Option B) → Option B
none >>= f = none
some a >>= f = f a

infixr 40 ◌or_else◌
abbrev pub ◌or_else◌ {ℓ} : {A : Type ℓ} → Option A → Option A → Option A
none or_else other = other
some a or_else other = some a

-- the field `name`, else the field `other`, as a `u64`
abbrev pub field_u64 : String → Json → Option MetricValue
field_u64 name json = do v ← get_key name json; n ← json_u64 v; some (u64 n)

abbrev pub field_or_u64 : String → String → Json → Option MetricValue
field_or_u64 name other json = do
  v ← (get_key name json) or_else (get_key other json)
  n ← json_u64 v
  some (u64 n)

-- a `u128` written as a number or as a text
abbrev pub json_u128 : Json → Option ℕ
json_u128 v = json_u64 v or_else (do s ← json_str v; parse_uint u128_max s)

-- a part of the decoded metadata, else a field of the value
abbrev pub decoded {ℓ} :
    {A : Type ℓ} → Option A → (A → Option MetricValue) → Option MetricValue → Option MetricValue
decoded none f fallback = fallback
decoded (some a) f fallback = f a

module _ (d : Decoders) where
  unfoldable pub large_transfer_metric : Json → BaselineMetric → Option MetricValue
  large_transfer_metric json value_sats = field_or_u64 "total_output_sats" "value_sats" json
  large_transfer_metric json input_count = field_or_u64 "inputs_count" "input_count" json
  large_transfer_metric json output_count = field_or_u64 "outputs_count" "output_count" json
  large_transfer_metric json vsize = field_u64 "vsize" json
  large_transfer_metric json _ = none

  unfoldable pub dormant_metric : Json → BaselineMetric → Option MetricValue
  dormant_metric json dormant_value_sats =
      decoded (d.dormant_coins json) (λ m. some (u64 m.total_dormant_sats))
        (field_or_u64 "total_dormant_sats" "dormant_value_sats" json)
  dormant_metric json oldest_input_age_days =
      decoded (d.dormant_coins json) (λ m. some (u64 m.oldest_input_age_days))
        (field_u64 "oldest_input_age_days" json)
  dormant_metric json coin_age_destroyed_satoshi_days =
      decoded (d.dormant_coins json) (λ m. some (u128 m.coin_age_destroyed_sats_days))
        (do
          v ←
              (get_key "coin_age_destroyed_sats_days" json)
              or_else (get_key "coin_age_destroyed_satoshi_days" json)
          n ← json_u128 v
          some (u128 n))
  dormant_metric json input_count =
      decoded (d.dormant_coins json) (λ m. some (u64 m.dormant_input_count))
        (field_or_u64 "dormant_input_count" "input_count" json)
  dormant_metric json _ = none

  unfoldable pub consolidation_metric : Json → BaselineMetric → Option MetricValue
  consolidation_metric json input_count =
      decoded (d.consolidation_of json) (λ m. some (u64 m.input_count))
        (field_u64 "input_count" json)
  consolidation_metric json output_count =
      decoded (d.consolidation_of json) (λ m. some (u64 m.output_count))
        (field_u64 "output_count" json)
  consolidation_metric json value_sats =
      decoded (d.consolidation_of json) (λ m. some (u64 m.total_input_sats))
        (field_or_u64 "total_input_sats" "value_sats" json)
  consolidation_metric json consolidation_ratio =
      decoded (d.consolidation_of json)
        (λ m. some (basis_points (d.hundredths_u32 m.input_output_ratio)))
        (do
          v ← get_key "input_output_ratio" json
          r ← d.as_f64 v
          some (basis_points (d.hundredths_u32 r)))
  consolidation_metric json _ = none

  unfoldable pub fan_out_metric : Json → BaselineMetric → Option MetricValue
  fan_out_metric json output_count =
      decoded (d.fan_out_of json) (λ m. some (u64 m.output_count)) (field_u64 "output_count" json)
  fan_out_metric json distributed_value_sats =
      decoded (d.fan_out_of json) (λ m. some (u64 m.total_distributed_sats))
        (field_u64 "total_distributed_sats" json)
  fan_out_metric json median_output_sats =
      decoded (d.fan_out_of json) (λ m. some (u64 m.median_output_sats))
        (field_u64 "median_output_sats" json)
  fan_out_metric json _ = none

  unfoldable pub extreme_fee_metric : Json → BaselineMetric → Option MetricValue
  extreme_fee_metric json fee_rate_sat_vb =
      decoded (d.extreme_fee_of json)
        (λ m. do rate ← m.fee_rate_sat_vb; some (decimal_scaled (d.hundredths_u64 rate) 2))
        (do
          v ← get_key "fee_rate_sat_vb" json
          rate ← d.as_f64 v
          some (decimal_scaled (d.hundredths_u64 rate) 2))
  extreme_fee_metric json fee_sats =
      decoded (d.extreme_fee_of json) (λ m. some (u64 m.fee_sats)) (field_u64 "fee_sats" json)
  extreme_fee_metric json _ = none

  unfoldable pub interval_metric : Json → BaselineMetric → Option MetricValue
  interval_metric json interval_seconds = field_u64 "interval_seconds" json
  interval_metric json _ = none

  unfoldable pub metric_of : EventType → Json → BaselineMetric → Option MetricValue
  metric_of large_transfer json metric = large_transfer_metric json metric
  metric_of dormant_coins_moved json metric = dormant_metric json metric
  metric_of consolidation json metric = consolidation_metric json metric
  metric_of fan_out json metric = fan_out_metric json metric
  metric_of extreme_fee json metric = extreme_fee_metric json metric
  metric_of long_block_interval json metric = interval_metric json metric
  metric_of _ json metric = none

  unfoldable pub extract_metric : ChainEvent → BaselineMetric → Option MetricValue
  unfolding metric_of large_transfer_metric dormant_metric consolidation_metric fan_out_metric
      extreme_fee_metric interval_metric
  extract_metric event metric = metric_of event.event_type event.metadata metric

pub record EventMetricValue : Type 0 where
  pub id : Uuid
  pub event_id : Uuid
  pub network : Text
  pub event_type : EventType
  pub metric : BaselineMetric
  pub metric_definition_version : Text
  pub value : MetricValue
  pub metric_scale : ℕ
  pub block_height : ℕ
  pub event_time : DateTime
  pub created_at : DateTime

-- `ChainEvent::network`
unfoldable pub network : ChainEvent → Option Text
network e = do v ← get_key "network" e.metadata; json_str v

abbrev pub height_or_zero : Option ℕ → ℕ
height_or_zero none = 0
height_or_zero (some h) = h

abbrev pub network_or_main : Option Text → Text
network_or_main none = codes "mainnet"
network_or_main (some n) = n

-- the record of one metric; `r` is what it reads from the random source and from the clock
unfoldable pub metric_record :
    Readings → ChainEvent → Text → BaselineMetric → MetricValue → EventMetricValue
unfolding network
metric_record r event version metric v = record {
  id = r.id;
  event_id = event.id;
  network = network_or_main (network event);
  event_type = event.event_type;
  metric = metric;
  metric_definition_version = concat (metric_str metric ∷ codes "-" ∷ version ∷ []);
  value = v;
  metric_scale = scale v;
  block_height = height_or_zero event.block_height;
  event_time = event.event_time;
  created_at = r.now;
}

unfoldable pub extract_defined :
    Decoders
    → (BaselineMetric → Readings)
    → ChainEvent
    → Text
    → List BaselineMetricDefinition
    → List EventMetricValue
unfolding extract_metric metric_record
extract_defined d r event version [] = []
extract_defined d r event version (def ∷ defs) =
    let rest = extract_defined d r event version defs in
    elim (extract_metric d event def.metric) [
      | none ↦ rest
      | some v ↦ metric_record (r def.metric) event version def.metric v ∷ rest
    ]

-- `extract_event_metrics`, with the version `v1` where none is given
unfoldable pub extract_event_metrics :
    Decoders → (BaselineMetric → Readings) → ChainEvent → Option Text → List EventMetricValue
unfolding extract_defined metrics_for_event_type
extract_event_metrics d r event none =
    extract_defined d r event (codes "v1") (metrics_for_event_type event.event_type)
extract_event_metrics d r event (some version) =
    extract_defined d r event version (metrics_for_event_type event.event_type)
