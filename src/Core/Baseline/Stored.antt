-- ===== src/Core/Baseline/Stored.antt =====
-- Every value that is extracted from an event can be stored as text: it is read back by its metric and
-- its scale.
use mathlib.Core.Path.{subst}
use obschain.Prelude.{
  ℕ, ◌≤◌, Option, none, some, Text, u32_max, u64_max, u128_max, false, ◌==◌, ◌≡◌, refl, arith,
  text_eq,
}
use obschain.Core.External.{
  F64, Json, null, bool, number, unsigned, negative, float, string, array, object, get_key,
}
use obschain.Core.Event.{
  ChainEvent, EventType, large_transfer, dormant_coins_moved, consolidation, fan_out, extreme_fee,
  long_block_interval, transaction_replacement, reorg_detected, mining_anomaly, unusual_fee_ratio,
}
use obschain.Core.Baseline.{
  BaselineMetric, metric_eq, position, value_sats, input_count, output_count, vsize,
  dormant_value_sats, oldest_input_age_days, coin_age_destroyed_satoshi_days, consolidation_ratio,
  distributed_value_sats, median_output_sats, fee_sats, fee_rate_sat_vb, interval_seconds,
}
use obschain.Core.Baseline.Values.{
  MetricValue, u64, u128, basis_points, decimal_scaled, scale, to_numeric_string,
  from_str_scale_and_metric,
}
use obschain.Detectors.Metadata.{
  DormantCoinsMetadata, ConsolidationMetadata, FanOutMetadata, ExtremeFeeMetadata,
}
use obschain.Core.Baseline.RoundTrip.{Carries, from_str_scale_and_metric-to_numeric_string}
use obschain.Core.Baseline.Extraction.{
  Decoders, ◌>>=◌, ◌or_else◌, decoded, extract_metric, json_u64, json_u128, metric_of,
  large_transfer_metric, dormant_metric, consolidation_metric, fan_out_metric, extreme_fee_metric,
  interval_metric,
}

-- the form that a metric's values have
abbrev Shape : BaselineMetric → Option MetricValue → Type 0
Shape m none = Unit
Shape m (some (u64 v)) = (m == coin_age_destroyed_satoshi_days) ≡ false
Shape m (some (u128 v)) = m ≡ coin_age_destroyed_satoshi_days
Shape m (some (basis_points v)) = m ≡ consolidation_ratio
Shape m (some (decimal_scaled v s)) = ((m == consolidation_ratio) ≡ false) × (s ≡ 2)

-- the ranges of the types that the code computes with
abbrev pub InRange : MetricValue → Type 0
InRange (u64 v) = v ≤ u64_max
InRange (u128 v) = v ≤ u128_max
InRange (basis_points v) = v ≤ u32_max
InRange (decimal_scaled v s) = v ≤ u64_max

Shape-Carries : (m : BaselineMetric) (v : MetricValue) → Shape m (some v) → InRange v → Carries m v
Shape-Carries m (u64 v) h r = (h, r)
Shape-Carries m (u128 v) h r = (h, r)
Shape-Carries m (basis_points v) h r = (h, r)
Shape-Carries m (decimal_scaled v s) h r = (h.0, omega (arith, h.1), omega (arith, h.1), r)

module _ (m : BaselineMetric) where
  counted :
      (m == coin_age_destroyed_satoshi_days) ≡ false
      → (o : Option Json) → Shape m (do v ← o; n ← json_u64 v; some (u64 n))
  counted h none = tt
  counted h (some (number (unsigned n))) = h
  counted h (some (number (negative n))) = tt
  counted h (some (number (float n))) = tt
  counted h (some null) = tt
  counted h (some (bool b)) = tt
  counted h (some (string s)) = tt
  counted h (some (array xs)) = tt
  counted h (some (object fs)) = tt

  aged :
      m ≡ coin_age_destroyed_satoshi_days
      → (o : Option Json) → Shape m (do v ← o; n ← json_u128 v; some (u128 n))
  aged h none = tt
  aged h (some v) = elim (json_u128 v) as (λ o. Shape m (do n ← o; some (u128 n))) [
    | none ↦ tt
    | some n ↦ h
  ]

  rated :
      (f : F64 → MetricValue)
      → ((r : F64) → Shape m (some (f r)))
      → (o : Option F64) → Shape m (do r ← o; some (f r))
  rated f h none = tt
  rated f h (some r) = h r

  rated_field :
      (as_f64 : Json → Option F64) (f : F64 → MetricValue)
      → ((r : F64) → Shape m (some (f r)))
      → (o : Option Json) → Shape m (do v ← o; r ← as_f64 v; some (f r))
  rated_field as_f64 f h none = tt
  rated_field as_f64 f h (some v) = rated f h (as_f64 v)

  either :
      {A : Type 0} (o : Option A) (f : A → Option MetricValue) (fallback : Option MetricValue)
      → ((a : A) → Shape m (f a))
      → Shape m fallback
      → Shape m (decoded o f fallback)
  either none f fallback h k = k
  either (some a) f fallback h k = h a

  -- a number of the decoded metadata, else a field
  counted_or :
      (m == coin_age_destroyed_satoshi_days) ≡ false
      → {A : Type 0} (o : Option A) (f : A → ℕ) (field : Option Json)
      → Shape m (decoded o (λ a. some (u64 (f a))) (do v ← field; n ← json_u64 v; some (u64 n)))
  counted_or h o f field =
      either o (λ a. some (u64 (f a))) (do v ← field; n ← json_u64 v; some (u64 n)) (λ a. h)
        (counted h field)

module _ (d : Decoders) (json : Json) where
  large_transfer_metric-Shape : (m : BaselineMetric) → Shape m (large_transfer_metric d json m)
  unfolding large_transfer_metric position
  large_transfer_metric-Shape value_sats =
      counted value_sats refl (get_key "total_output_sats" json or_else get_key "value_sats" json)
  large_transfer_metric-Shape input_count =
      counted input_count refl (get_key "inputs_count" json or_else get_key "input_count" json)
  large_transfer_metric-Shape output_count =
      counted output_count refl (get_key "outputs_count" json or_else get_key "output_count" json)
  large_transfer_metric-Shape vsize = counted vsize refl (get_key "vsize" json)
  large_transfer_metric-Shape _ = tt

  dormant_metric-Shape : (m : BaselineMetric) → Shape m (dormant_metric d json m)
  unfolding dormant_metric position
  dormant_metric-Shape dormant_value_sats =
      counted_or dormant_value_sats refl (d.dormant_coins json)
        (λ (a : DormantCoinsMetadata). a.total_dormant_sats)
        (get_key "total_dormant_sats" json or_else get_key "dormant_value_sats" json)
  dormant_metric-Shape oldest_input_age_days =
      counted_or oldest_input_age_days refl (d.dormant_coins json)
        (λ (a : DormantCoinsMetadata). a.oldest_input_age_days)
        (get_key "oldest_input_age_days" json)
  dormant_metric-Shape coin_age_destroyed_satoshi_days =
      either coin_age_destroyed_satoshi_days (d.dormant_coins json)
        (λ (a : DormantCoinsMetadata). some (u128 a.coin_age_destroyed_sats_days)) _
        (λ a. refl {a = coin_age_destroyed_satoshi_days})
        (aged coin_age_destroyed_satoshi_days refl (
          get_key "coin_age_destroyed_sats_days" json
          or_else get_key "coin_age_destroyed_satoshi_days" json))
  dormant_metric-Shape input_count =
      counted_or input_count refl (d.dormant_coins json)
        (λ (a : DormantCoinsMetadata). a.dormant_input_count)
        (get_key "dormant_input_count" json or_else get_key "input_count" json)
  dormant_metric-Shape _ = tt

  consolidation_metric-Shape : (m : BaselineMetric) → Shape m (consolidation_metric d json m)
  unfolding consolidation_metric position
  consolidation_metric-Shape input_count =
      counted_or input_count refl (d.consolidation_of json)
        (λ (a : ConsolidationMetadata). a.input_count) (get_key "input_count" json)
  consolidation_metric-Shape output_count =
      counted_or output_count refl (d.consolidation_of json)
        (λ (a : ConsolidationMetadata). a.output_count) (get_key "output_count" json)
  consolidation_metric-Shape value_sats =
      counted_or value_sats refl (d.consolidation_of json)
        (λ (a : ConsolidationMetadata). a.total_input_sats)
        (get_key "total_input_sats" json or_else get_key "value_sats" json)
  consolidation_metric-Shape consolidation_ratio =
      either consolidation_ratio (d.consolidation_of json)
        (λ (a : ConsolidationMetadata). some (basis_points (d.hundredths_u32 a.input_output_ratio)))
        _ (λ a. refl {a = consolidation_ratio})
        (rated_field consolidation_ratio d.as_f64 (λ r. basis_points (d.hundredths_u32 r))
          (λ r. refl {a = consolidation_ratio}) (get_key "input_output_ratio" json))
  consolidation_metric-Shape _ = tt

  fan_out_metric-Shape : (m : BaselineMetric) → Shape m (fan_out_metric d json m)
  unfolding fan_out_metric position
  fan_out_metric-Shape output_count =
      counted_or output_count refl (d.fan_out_of json) (λ (a : FanOutMetadata). a.output_count)
        (get_key "output_count" json)
  fan_out_metric-Shape distributed_value_sats =
      counted_or distributed_value_sats refl (d.fan_out_of json)
        (λ (a : FanOutMetadata). a.total_distributed_sats) (get_key "total_distributed_sats" json)
  fan_out_metric-Shape median_output_sats =
      counted_or median_output_sats refl (d.fan_out_of json)
        (λ (a : FanOutMetadata). a.median_output_sats) (get_key "median_output_sats" json)
  fan_out_metric-Shape _ = tt

  extreme_fee_metric-Shape : (m : BaselineMetric) → Shape m (extreme_fee_metric d json m)
  unfolding extreme_fee_metric position
  extreme_fee_metric-Shape fee_rate_sat_vb =
      let rate : F64 → MetricValue = λ r. decimal_scaled (d.hundredths_u64 r) 2 in
      let own : (r : F64) → Shape fee_rate_sat_vb (some (rate r)) = λ r. (refl, refl) in
      either fee_rate_sat_vb (d.extreme_fee_of json)
        (λ (a : ExtremeFeeMetadata). a.fee_rate_sat_vb >>= λ r. some (rate r)) _
        (λ a. rated fee_rate_sat_vb rate own a.fee_rate_sat_vb)
        (rated_field fee_rate_sat_vb d.as_f64 rate own (get_key "fee_rate_sat_vb" json))
  extreme_fee_metric-Shape fee_sats =
      counted_or fee_sats refl (d.extreme_fee_of json) (λ (a : ExtremeFeeMetadata). a.fee_sats)
        (get_key "fee_sats" json)
  extreme_fee_metric-Shape _ = tt

  interval_metric-Shape : (m : BaselineMetric) → Shape m (interval_metric d json m)
  unfolding interval_metric position
  interval_metric-Shape interval_seconds =
      counted interval_seconds refl (get_key "interval_seconds" json)
  interval_metric-Shape _ = tt

  metric_of-Shape : (t : EventType) (m : BaselineMetric) → Shape m (metric_of d t json m)
  unfolding metric_of
  metric_of-Shape large_transfer m = large_transfer_metric-Shape m
  metric_of-Shape dormant_coins_moved m = dormant_metric-Shape m
  metric_of-Shape consolidation m = consolidation_metric-Shape m
  metric_of-Shape fan_out m = fan_out_metric-Shape m
  metric_of-Shape extreme_fee m = extreme_fee_metric-Shape m
  metric_of-Shape long_block_interval m = interval_metric-Shape m
  metric_of-Shape transaction_replacement m = tt
  metric_of-Shape reorg_detected m = tt
  metric_of-Shape mining_anomaly m = tt
  metric_of-Shape unusual_fee_ratio m = tt

-- Whatever the metadata of an event holds: a value that is extracted for a metric, in the range of its
-- type, is printed as a text, and this text is read back as the same value by the metric and by the
-- value's scale.
pub extract_metric-stored :
    (d : Decoders) (event : ChainEvent) (metric : BaselineMetric) (v : MetricValue)
    → extract_metric d event metric ≡ some v
    → InRange v
    → (s : Text) × (to_numeric_string v ≡ some s)
      × (from_str_scale_and_metric s (scale v) metric ≡ v)
unfolding extract_metric
extract_metric-stored d event metric v found fits =
    let shape = metric_of-Shape d event.metadata event.event_type metric in
    from_str_scale_and_metric-to_numeric_string metric v
      (Shape-Carries metric v (subst (λ o. Shape metric o) found shape) fits)
