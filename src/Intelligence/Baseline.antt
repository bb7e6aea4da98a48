-- ===== src/Intelligence/Baseline.antt =====
-- crates/obschain-intelligence/src/baseline.rs: distributions and ranks (`BaselineCalculator`), and the
-- runs that `BaselineEngine` makes.
pub mod Order
pub mod Quantiles
use obschain.Prelude.{
  ℕ, ◌+◌, ◌-◌, Bool, true, false, Option, none, some, List, [], ◌∷◌, ◌++◌, map, Text, length,
  retain, ltb, nat_eq, ◌==◌, if◌then◌else◌, zero, suc,
}
use obschain.Prelude.Sorting.{sort_by}
use obschain.Core.External.{Externals, F64, Uuid, DateTime, Readings, object, field, end}
use obschain.Core.Event.{ChainEvent, EventType}
use obschain.Core.Baseline.{
  BaselineMetricDefinition, RarityDirection, higher_is_rarer, lower_is_rarer, two_sided,
  metrics_for_event_type, supported_event_types,
}
use obschain.Core.Baseline.Values.{MetricValue, u64, u128, basis_points, decimal_scaled, value_le}
use obschain.Core.Baseline.Extraction.{Decoders, extract_metric}
use obschain.Core.Baseline.Runs.{QuantileDistribution, literal, evaluate_quality, epoch_from_height}
use obschain.Core.Baseline.Records.{BaselineRun, BaselineDistribution, running}
use obschain.Detectors.Blocks.{num}
use obschain.Storage.Equalities.{type_eq}

-- the arithmetic of floats that only statistics use
pub record Statistics : Type 0 where
  -- `Iterator::sum`
  pub sum : List F64 → F64
  -- `x.ceil() as usize`
  pub ceil_usize : F64 → ℕ
  -- `10f64.powi(n)`
  pub power_of_ten : ℕ → F64

unfoldable pub to_f64 : Externals → Statistics → MetricValue → F64
to_f64 x st (u64 v) = x.to_f64 v
to_f64 x st (u128 v) = x.to_f64 v
to_f64 x st (basis_points v) = x.div (x.to_f64 v) (x.to_f64 100)
to_f64 x st (decimal_scaled v scale) = x.div (x.to_f64 v) (st.power_of_ten scale)

-- `v[i]` of a vector that is not empty, with its first element; the code keeps `i` below the length
abbrev pub at : MetricValue → List MetricValue → ℕ → MetricValue
at a [] i = a
at a (b ∷ bs) zero = a
at a (b ∷ bs) (suc i) = at b bs i

-- `(rank - 1).min(n - 1)`, where `n - 1` is given
unfoldable pub quantile_index : ℕ → ℕ → ℕ
quantile_index zero last = 0
quantile_index (suc r) last = if ltb r last then r else last

module _ (x : Externals) (st : Statistics) where
  -- `quantile_at` of a sorted vector, by its first element and the others
  unfoldable pub quantile_at : MetricValue → List MetricValue → F64 → MetricValue
  unfolding quantile_index
  quantile_at a bs q =
      at a bs (quantile_index (st.ceil_usize (x.mul q (x.to_f64 (length (a ∷ bs))))) (length bs))

  -- the distribution of a sorted vector
  unfoldable pub distribution_of : List MetricValue → ℕ → Option QuantileDistribution
  unfolding quantile_at to_f64 evaluate_quality
  distribution_of [] candidate_count = none
  distribution_of (a ∷ bs) candidate_count =
      let n = length (a ∷ bs) in
      let coverage =
        if ltb 0 candidate_count
        then x.div (x.to_f64 n) (x.to_f64 candidate_count)
        else x.to_f64 1 in
      some (record {
        sample_count = n;
        candidate_count = candidate_count;
        missing_count = candidate_count - n;
        coverage_ratio = coverage;
        minimum = a;
        maximum = at a bs (length bs);
        mean = x.div (st.sum (map (to_f64 x st) (a ∷ bs))) (x.to_f64 n);
        p50 = quantile_at a bs (literal x 50 2);
        p75 = quantile_at a bs (literal x 75 2);
        p90 = quantile_at a bs (literal x 90 2);
        p95 = quantile_at a bs (literal x 95 2);
        p99 = quantile_at a bs (literal x 99 2);
        p999 = quantile_at a bs (literal x 999 3);
        quality = evaluate_quality x n coverage;
      })

  unfoldable pub compute_distribution : List MetricValue → ℕ → Option QuantileDistribution
  unfolding distribution_of sort_by value_le
  compute_distribution values candidate_count =
      distribution_of (sort_by value_le values) candidate_count

-- `filter(p).count()`
abbrev pub count_where {ℓ} : {A : Type ℓ} → (A → Bool) → List A → ℕ
count_where p xs = length (retain p xs)

-- `count as f64 / n as f64 * 100.0`
abbrev pub percent : Externals → ℕ → ℕ → F64
percent x count n = x.mul (x.div (x.to_f64 count) (x.to_f64 n)) (x.to_f64 100)

unfoldable pub rank_value : Externals → List MetricValue → MetricValue → RarityDirection → F64 × ℕ
unfolding value_le
rank_value x [] value direction = (x.to_f64 0, 0)
rank_value x (v ∷ vs) value direction =
    let count_le = count_where (λ a. value_le a value) (v ∷ vs) in
    let count_ge = count_where (λ a. value_le value a) (v ∷ vs) in
    let n = length (v ∷ vs) in
    elim direction [
      | lower_is_rarer ↦ (percent x count_ge n, count_le)
      | _ ↦ (percent x count_le n, count_ge)
    ]

-- The readings of the record: its identifier and, of its two instants, the earlier one.
unfoldable pub create_run_record : Readings → Text → ℕ → ℕ → Text → BaselineRun
create_run_record r network start_height end_height algorithm_version = record {
  id = r.id;
  network = network;
  start_height = start_height;
  end_height = end_height;
  started_at = r.now;
  completed_at = none;
  status = running;
  algorithm_version = algorithm_version;
  canonical_event_count = 0;
  error_message = none;
  metadata = object (
      field "halving_epoch_start" (num (epoch_from_height start_height))
        (field "halving_epoch_end" (num (epoch_from_height end_height)) end));
  created_at = r.later;
}

module _ (x : Externals) (st : Statistics) (d : Decoders) where
  samples_of : BaselineMetricDefinition → List ChainEvent → List MetricValue
  samples_of def [] = []
  samples_of def (e ∷ es) = elim (extract_metric d e def.metric) [
    | none ↦ samples_of def es
    | some v ↦ v ∷ samples_of def es
  ]

  -- `r` reads the random source and the clock for a distribution.
  unfoldable pub distribution_record :
      (BaselineMetricDefinition → Readings)
      → Uuid
      → BaselineMetricDefinition
      → QuantileDistribution
      → BaselineDistribution
  distribution_record r run def q = record {
    id = (r def).id;
    baseline_run_id = run;
    event_type = def.event_type;
    metric = def.metric;
    unit = def.unit;
    sample_count = q.sample_count;
    candidate_count = q.candidate_count;
    missing_count = q.missing_count;
    coverage_ratio = q.coverage_ratio;
    minimum = q.minimum;
    maximum = q.maximum;
    mean = q.mean;
    p50 = q.p50;
    p75 = q.p75;
    p90 = q.p90;
    p95 = q.p95;
    p99 = q.p99;
    p999 = q.p999;
    quality = q.quality;
    samples_json = none;
    created_at = (r def).now;
  }

  -- the loop over the metrics of a type, whose events are given
  unfoldable pub metric_distributions :
      (BaselineMetricDefinition → Readings)
      → Uuid
      → List ChainEvent
      → List BaselineMetricDefinition
      → List BaselineDistribution
  unfolding samples_of compute_distribution distribution_record
  metric_distributions r run events [] = []
  metric_distributions r run events (def ∷ defs) =
      let rest = metric_distributions r run events defs in
      elim (compute_distribution x st (samples_of def events) (length events)) [
        | none ↦ rest
        | some q ↦ distribution_record r run def q ∷ rest
      ]

  -- the loop over the types
  unfoldable pub type_distributions :
      (BaselineMetricDefinition → Readings)
      → Uuid
      → List ChainEvent
      → List EventType
      → List BaselineDistribution
  unfolding metric_distributions
  type_distributions r run events [] = []
  type_distributions r run events (t ∷ ts) =
      metric_distributions r run (retain (λ (e : ChainEvent). e.event_type == t) events)
        (metrics_for_event_type t)
      ++ type_distributions r run events ts

  unfoldable pub generate_distributions :
      (BaselineMetricDefinition → Readings)
      → Uuid
      → List ChainEvent
      → Option (List EventType)
      → List BaselineDistribution
  unfolding type_distributions
  generate_distributions r run events none = type_distributions r run events supported_event_types
  generate_distributions r run events (some ts) = type_distributions r run events ts
