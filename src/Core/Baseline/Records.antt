-- ===== src/Core/Baseline/Records.antt =====
-- crates/obschain-core/src/baseline.rs: the records of runs, distributions, rarity and impact that are
-- stored.
use obschain.Prelude.{
  ℕ, ◌/◌, Bool, Option, List, [], ◌∷◌, ◌⊎◌, Text, codes, concat, show, nat_eq, ◌==◌, if◌then◌else◌,
}
use obschain.Core.External.{F64, Uuid, DateTime, Json}
use obschain.Core.Event.{EventType}
use obschain.Core.Baseline.{BaselineMetric, MetricUnit, named, to_ascii_uppercase}
use obschain.Core.Baseline.Values.{MetricValue}
use obschain.Core.Baseline.Runs.{
  PercentileMethod, RarityBand, EvaluationMode, BaselineQuality, from_upper,
}

pub data BaselineRunStatus : Type 0 where
  pending running completed failed : BaselineRunStatus

abbrev pub run_status_str : BaselineRunStatus → Text
run_status_str pending = codes "PENDING"
run_status_str running = codes "RUNNING"
run_status_str completed = codes "COMPLETED"
run_status_str failed = codes "FAILED"

unfoldable pub run_status_from_str : Text → Text ⊎ BaselineRunStatus
unfolding named to_ascii_uppercase
run_status_from_str = from_upper (codes "BaselineRunStatus") (
    (codes "PENDING", pending)
    ∷ (codes "RUNNING", running)
    ∷ (codes "COMPLETED", completed)
    ∷ (codes "FAILED", failed)
    ∷ [])

pub record BaselineRun : Type 0 where
  pub id : Uuid
  pub network : Text
  pub start_height : ℕ
  pub end_height : ℕ
  pub started_at : DateTime
  pub completed_at : Option DateTime
  pub status : BaselineRunStatus
  pub algorithm_version : Text
  pub canonical_event_count : ℕ
  pub error_message : Option Text
  pub metadata : Json
  pub created_at : DateTime

pub record BaselineDistribution : Type 0 where
  pub id : Uuid
  pub baseline_run_id : Uuid
  pub event_type : EventType
  pub metric : BaselineMetric
  pub unit : MetricUnit
  pub sample_count : ℕ
  pub candidate_count : ℕ
  pub missing_count : ℕ
  pub coverage_ratio : F64
  pub minimum : MetricValue
  pub maximum : MetricValue
  pub mean : F64
  pub p50 : MetricValue
  pub p75 : MetricValue
  pub p90 : MetricValue
  pub p95 : MetricValue
  pub p99 : MetricValue
  pub p999 : MetricValue
  pub quality : BaselineQuality
  pub samples_json : Option Json
  pub created_at : DateTime

pub record EventRarityResult : Type 0 where
  pub event_id : Uuid
  pub baseline_run_id : Uuid
  pub event_type : EventType
  pub metric : BaselineMetric
  pub value : MetricValue
  pub percentile : Option F64
  pub percentile_method : PercentileMethod
  pub estimated : Bool
  pub rarity_band : RarityBand
  pub population_size : ℕ
  pub tail_count : ℕ
  pub evaluation_mode : EvaluationMode

unfoldable pub frequency_description : EventRarityResult → Text
frequency_description r =
    let one_in =
      if r.tail_count == 0 then r.population_size else r.population_size / r.tail_count in
    concat (
      show r.tail_count
      ∷ codes " comparable-or-rarer events across "
      ∷ show r.population_size
      ∷ codes " qualifying events (approx. 1 in "
      ∷ show one_in
      ∷ codes ")"
      ∷ [])

pub record ImpactComponent : Type 0 where
  pub component_name : Text
  pub metric : BaselineMetric
  pub raw_value : Text
  pub percentile : Option F64
  pub weight : F64
  pub points_awarded : F64
  pub population_size : ℕ

pub record ImpactBreakdown : Type 0 where
  pub model_id : Text
  pub model_version : Text
  pub event_type : EventType
  pub status : Text
  pub total_score : Option F64
  pub max_possible_points : F64
  pub model_coverage : F64
  pub coverage_ratio : F64
  pub components : List ImpactComponent
