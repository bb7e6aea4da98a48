-- ===== src/Core/Baseline.antt =====
-- crates/obschain-core/src/baseline.rs: the metrics of events and their registry.
pub mod Values
pub mod RoundTrip
pub mod Runs
pub mod Records
pub mod Extraction
pub mod Stored
use obschain.Prelude.{
  ℕ, ◌+◌, ◌-◌, ◌&&◌, Bool, true, false, Option, none, some, List, [], ◌∷◌, ◌++◌, Text, codes,
  concat, map, trim, text_eq, nat_eq, leb, find, get_elem?, Eq, position_eq, ◌==◌, ◌⊎◌, inl, inr,
  if◌then◌else◌, ◌≡◌, refl, ap, ◌∙◌, sym, ◌↔◌, nat_beq, nat_beq_iff, arith,
}
use obschain.Core.External.{Externals}
use obschain.Core.Event.{
  EventType, large_transfer, dormant_coins_moved, consolidation, fan_out, extreme_fee,
  long_block_interval, transaction_replacement, reorg_detected, mining_anomaly, unusual_fee_ratio,
}

pub data BaselineMetric : Type 0 where
  value_sats input_count output_count : BaselineMetric
  vsize dormant_value_sats oldest_input_age_days : BaselineMetric
  average_input_age_days coin_age_destroyed_satoshi_days consolidation_ratio : BaselineMetric
  distributed_value_sats median_output_sats fee_sats : BaselineMetric
  fee_rate_sat_vb interval_seconds : BaselineMetric

-- `as_str` and `Display`
abbrev pub metric_str : BaselineMetric → Text
metric_str value_sats = codes "value_sats"
metric_str input_count = codes "input_count"
metric_str output_count = codes "output_count"
metric_str vsize = codes "vsize"
metric_str dormant_value_sats = codes "dormant_value_sats"
metric_str oldest_input_age_days = codes "oldest_input_age_days"
metric_str average_input_age_days = codes "average_input_age_days"
metric_str coin_age_destroyed_satoshi_days = codes "coin_age_destroyed_satoshi_days"
metric_str consolidation_ratio = codes "consolidation_ratio"
metric_str distributed_value_sats = codes "distributed_value_sats"
metric_str median_output_sats = codes "median_output_sats"
metric_str fee_sats = codes "fee_sats"
metric_str fee_rate_sat_vb = codes "fee_rate_sat_vb"
metric_str interval_seconds = codes "interval_seconds"

abbrev pub default_definition_version : BaselineMetric → Text
default_definition_version value_sats = codes "transfer-amount-v1"
default_definition_version input_count = codes "input-count-v1"
default_definition_version output_count = codes "output-count-v1"
default_definition_version vsize = codes "vsize-v1"
default_definition_version dormant_value_sats = codes "dormant-value-v1"
default_definition_version oldest_input_age_days = codes "oldest-input-age-v1"
default_definition_version average_input_age_days = codes "average-input-age-v1"
default_definition_version coin_age_destroyed_satoshi_days = codes "coin-age-destroyed-v1"
default_definition_version consolidation_ratio = codes "consolidation-ratio-v1"
default_definition_version distributed_value_sats = codes "distributed-value-v1"
default_definition_version median_output_sats = codes "median-output-v1"
default_definition_version fee_sats = codes "fee-sats-v1"
default_definition_version fee_rate_sat_vb = codes "fee-rate-v1"
default_definition_version interval_seconds = codes "block-interval-v1"

-- A table of names stands for a `match` on texts: the first name that fits decides.
abbrev pub Names : Type 0 → Type 0
Names A = List (Text × A)

unfoldable pub named {ℓ} : {A : Type ℓ} → Text → List (Text × A) → Option A
named s [] = none
named s ((name, a) ∷ names) = if s == name then some a else named s names

abbrev pub metric_names : Names BaselineMetric
metric_names =
    (codes "value_sats", value_sats)
    ∷ (codes "total_output_sats", value_sats)
    ∷ (codes "input_count", input_count)
    ∷ (codes "inputs_count", input_count)
    ∷ (codes "output_count", output_count)
    ∷ (codes "outputs_count", output_count)
    ∷ (codes "vsize", vsize)
    ∷ (codes "dormant_value_sats", dormant_value_sats)
    ∷ (codes "total_dormant_sats", dormant_value_sats)
    ∷ (codes "oldest_input_age_days", oldest_input_age_days)
    ∷ (codes "average_input_age_days", average_input_age_days)
    ∷ (codes "coin_age_destroyed_satoshi_days", coin_age_destroyed_satoshi_days)
    ∷ (codes "coin_age_destroyed_sats_days", coin_age_destroyed_satoshi_days)
    ∷ (codes "consolidation_ratio", consolidation_ratio)
    ∷ (codes "input_output_ratio", consolidation_ratio)
    ∷ (codes "distributed_value_sats", distributed_value_sats)
    ∷ (codes "total_distributed_sats", distributed_value_sats)
    ∷ (codes "median_output_sats", median_output_sats)
    ∷ (codes "fee_sats", fee_sats)
    ∷ (codes "fee_rate_sat_vb", fee_rate_sat_vb)
    ∷ (codes "interval_seconds", interval_seconds)
    ∷ []

-- `Result<_, String>`: the message or the value
abbrev pub or_unknown {ℓ} : {A : Type ℓ} → Text → Text → Option A → Text ⊎ A
or_unknown what other none = inl (concat (codes "Unknown " ∷ what ∷ codes ": " ∷ other ∷ []))
or_unknown what other (some a) = inr a

-- `BaselineMetric::from_str`
unfoldable pub metric_from_str : Externals → Text → Text ⊎ BaselineMetric
unfolding named
metric_from_str x s =
    let lower = x.to_lowercase (trim s) in
    or_unknown (codes "baseline metric") lower (named lower metric_names)

pub data MetricUnit : Type 0 where
  satoshis satoshi_days count seconds days satoshis_per_vbyte ratio : MetricUnit

abbrev pub unit_str : MetricUnit → Text
unit_str satoshis = codes "satoshis"
unit_str satoshi_days = codes "satoshi_days"
unit_str count = codes "count"
unit_str seconds = codes "seconds"
unit_str days = codes "days"
unit_str satoshis_per_vbyte = codes "sat_vb"
unit_str ratio = codes "ratio"

-- `to_ascii_lowercase` and `to_ascii_uppercase`
unfoldable pub to_ascii_lowercase : Text → Text
to_ascii_lowercase = map (λ c. if leb b'A' c && leb c b'Z' then c + 32 else c)

unfoldable pub to_ascii_uppercase : Text → Text
to_ascii_uppercase = map (λ c. if leb b'a' c && leb c b'z' then c - 32 else c)

unfoldable pub unit_from_str : Text → Text ⊎ MetricUnit
unfolding named to_ascii_lowercase
unit_from_str s =
    let lower = to_ascii_lowercase s in
    or_unknown (codes "MetricUnit") lower (
      named lower (
        (codes "satoshis", satoshis)
        ∷ (codes "sats", satoshis)
        ∷ (codes "satoshi_days", satoshi_days)
        ∷ (codes "count", count)
        ∷ (codes "seconds", seconds)
        ∷ (codes "days", days)
        ∷ (codes "sat_vb", satoshis_per_vbyte)
        ∷ (codes "satoshis_per_vbyte", satoshis_per_vbyte)
        ∷ (codes "ratio", ratio)
        ∷ (codes "basis_points", ratio)
        ∷ []))

pub data RarityDirection : Type 0 where
  higher_is_rarer lower_is_rarer two_sided : RarityDirection

pub record BaselineMetricDefinition : Type 0 where
  pub event_type : EventType
  pub metric : BaselineMetric
  pub unit : MetricUnit
  pub direction : RarityDirection
  pub is_primary : Bool
  pub metric_definition_version : Text

-- a definition with the default version of its metric
definition :
    EventType → BaselineMetric → MetricUnit → RarityDirection → Bool → BaselineMetricDefinition
definition event_type metric unit direction is_primary = record {
  event_type = event_type;
  metric = metric;
  unit = unit;
  direction = direction;
  is_primary = is_primary;
  metric_definition_version = default_definition_version metric;
}

unfoldable pub supported_event_types : List EventType
supported_event_types =
    large_transfer ∷ long_block_interval ∷ dormant_coins_moved ∷ consolidation ∷ fan_out
    ∷ extreme_fee ∷ []

unfoldable pub metrics_for_event_type : EventType → List BaselineMetricDefinition
unfolding definition
metrics_for_event_type large_transfer =
    definition large_transfer value_sats satoshis higher_is_rarer true
    ∷ definition large_transfer input_count count higher_is_rarer false
    ∷ definition large_transfer output_count count higher_is_rarer false
    ∷ definition large_transfer vsize count higher_is_rarer false
    ∷ []
metrics_for_event_type dormant_coins_moved =
    definition dormant_coins_moved dormant_value_sats satoshis higher_is_rarer true
    ∷ definition dormant_coins_moved oldest_input_age_days days higher_is_rarer false
    ∷ definition dormant_coins_moved coin_age_destroyed_satoshi_days satoshi_days higher_is_rarer
        false
    ∷ definition dormant_coins_moved input_count count higher_is_rarer false
    ∷ []
metrics_for_event_type consolidation =
    definition consolidation input_count count higher_is_rarer true
    ∷ definition consolidation output_count count lower_is_rarer false
    ∷ definition consolidation value_sats satoshis higher_is_rarer false
    ∷ definition consolidation consolidation_ratio ratio higher_is_rarer false
    ∷ []
metrics_for_event_type fan_out =
    definition fan_out output_count count higher_is_rarer true
    ∷ definition fan_out distributed_value_sats satoshis higher_is_rarer false
    ∷ definition fan_out median_output_sats satoshis higher_is_rarer false
    ∷ []
metrics_for_event_type extreme_fee =
    definition extreme_fee fee_rate_sat_vb satoshis_per_vbyte higher_is_rarer true
    ∷ definition extreme_fee fee_sats satoshis higher_is_rarer false
    ∷ []
metrics_for_event_type long_block_interval =
    definition long_block_interval interval_seconds seconds higher_is_rarer true ∷ []
metrics_for_event_type _ = []

unfoldable pub primary_metric : EventType → Option BaselineMetricDefinition
unfolding metrics_for_event_type
primary_metric event_type =
    find (λ (m : BaselineMetricDefinition). m.is_primary) (metrics_for_event_type event_type)

unfoldable pub is_replayable_for_baselines : EventType → Bool
is_replayable_for_baselines large_transfer = true
is_replayable_for_baselines long_block_interval = true
is_replayable_for_baselines dormant_coins_moved = true
is_replayable_for_baselines consolidation = true
is_replayable_for_baselines fan_out = true
is_replayable_for_baselines extreme_fee = true
is_replayable_for_baselines _ = false

-- The derived equality of the metrics compares their positions.
unfoldable pub position : BaselineMetric → ℕ
position value_sats = 0
position input_count = 1
position output_count = 2
position vsize = 3
position dormant_value_sats = 4
position oldest_input_age_days = 5
position average_input_age_days = 6
position coin_age_destroyed_satoshi_days = 7
position consolidation_ratio = 8
position distributed_value_sats = 9
position median_output_sats = 10
position fee_sats = 11
position fee_rate_sat_vb = 12
position interval_seconds = 13

pub at_position : ℕ → Option BaselineMetric
at_position n =
    get_elem?
      (value_sats ∷ input_count ∷ output_count ∷ vsize ∷ dormant_value_sats ∷ oldest_input_age_days
        ∷ average_input_age_days ∷ coin_age_destroyed_satoshi_days ∷ consolidation_ratio
        ∷ distributed_value_sats ∷ median_output_sats ∷ fee_sats ∷ fee_rate_sat_vb
        ∷ interval_seconds ∷ [])
      n

pub at_position-position : (m : BaselineMetric) → at_position (position m) ≡ some m
unfolding at_position position
at_position-position value_sats = refl
at_position-position input_count = refl
at_position-position output_count = refl
at_position-position vsize = refl
at_position-position dormant_value_sats = refl
at_position-position oldest_input_age_days = refl
at_position-position average_input_age_days = refl
at_position-position coin_age_destroyed_satoshi_days = refl
at_position-position consolidation_ratio = refl
at_position-position distributed_value_sats = refl
at_position-position median_output_sats = refl
at_position-position fee_sats = refl
at_position-position fee_rate_sat_vb = refl
at_position-position interval_seconds = refl

instance abbrev pub metric_eq : Eq BaselineMetric
metric_eq = position_eq position at_position at_position-position
