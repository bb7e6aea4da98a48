-- ===== src/Core/Baseline/Runs.antt =====
-- crates/obschain-core/src/baseline.rs: baseline runs, distributions, and the rarity and the impact of
-- events.
use obschain.Prelude.{
  ℕ, ◌+◌, ◌-◌, ◌*◌, ◌/◌, ◌%◌, ◌^◌, Bool, true, false, ◌&&◌, Option, none, [], ◌∷◌, ◌⊎◌, Text,
  text_eq, codes, ltb, leb, if◌then◌else◌,
}
use obschain.Core.External.{Externals, F64, DateTime}
use obschain.Core.Baseline.{Names, named, or_unknown, to_ascii_uppercase}
use obschain.Core.Baseline.Values.{MetricValue}

-- `from_str` of an enum whose names are in upper case
abbrev pub from_upper : {A : Type 0} → Text → Names A → Text → Text ⊎ A
from_upper what names s =
    let upper = to_ascii_uppercase s in or_unknown what upper (named upper names)

pub data PercentileMethod : Type 0 where
  exact_empirical_cdf quantile_interpolation_estimate : PercentileMethod

abbrev pub method_str : PercentileMethod → Text
method_str exact_empirical_cdf = codes "EXACT_EMPIRICAL_CDF"
method_str quantile_interpolation_estimate = codes "QUANTILE_INTERPOLATION_ESTIMATE"

abbrev pub is_exact : PercentileMethod → Bool
is_exact exact_empirical_cdf = true
is_exact quantile_interpolation_estimate = false

abbrev pub is_estimated : PercentileMethod → Bool
is_estimated exact_empirical_cdf = false
is_estimated quantile_interpolation_estimate = true

unfoldable pub method_from_str : Text → Text ⊎ PercentileMethod
unfolding named to_ascii_uppercase
method_from_str = from_upper (codes "PercentileMethod") (
    (codes "EXACT_EMPIRICAL_CDF", exact_empirical_cdf)
    ∷ (codes "QUANTILE_INTERPOLATION_ESTIMATE", quantile_interpolation_estimate)
    ∷ [])

pub record BaselineWindow : Type 0 where
  pub start_height : ℕ
  pub end_height : ℕ
  pub start_time : Option DateTime
  pub end_time : Option DateTime
  pub network : Text

-- `BaselineWindow::new`
abbrev pub new_window : Text → ℕ → ℕ → BaselineWindow
new_window network start_height end_height = record {
  start_height = start_height;
  end_height = end_height;
  start_time = none;
  end_time = none;
  network = network;
}

abbrev pub with_time_bounds : Option DateTime → Option DateTime → BaselineWindow → BaselineWindow
with_time_bounds start_time end_time w = record w { start_time = start_time; end_time = end_time }

pub data RarityBand : Type 0 where
  common notable unusual rare extreme insufficient_data : RarityBand

-- a float literal with the given number of decimals, which is the quotient of its digits
abbrev pub literal : Externals → ℕ → ℕ → F64
literal x digits decimals = x.div (x.to_f64 digits) (x.to_f64 (10 ^ decimals))

unfoldable pub from_percentile : Externals → F64 → (sample_count min_sample_size : ℕ) → RarityBand
from_percentile x percentile sample_count min_sample_size =
    if ltb sample_count min_sample_size
    then insufficient_data
    else if x.ge percentile (literal x 999 1)
    then extreme
    else if x.ge percentile (x.to_f64 99)
    then rare
    else if x.ge percentile (x.to_f64 95)
    then unusual
    else if x.ge percentile (x.to_f64 90)
    then notable
    else common

abbrev pub band_str : RarityBand → Text
band_str common = codes "COMMON"
band_str notable = codes "NOTABLE"
band_str unusual = codes "UNUSUAL"
band_str rare = codes "RARE"
band_str extreme = codes "EXTREME"
band_str insufficient_data = codes "INSUFFICIENT_DATA"

unfoldable pub band_from_str : Text → Text ⊎ RarityBand
unfolding named to_ascii_uppercase
band_from_str = from_upper (codes "RarityBand") (
    (codes "COMMON", common)
    ∷ (codes "NOTABLE", notable)
    ∷ (codes "UNUSUAL", unusual)
    ∷ (codes "RARE", rare)
    ∷ (codes "EXTREME", extreme)
    ∷ (codes "INSUFFICIENT_DATA", insufficient_data)
    ∷ [])

pub data EvaluationMode : Type 0 where
  retrospective point_in_time : EvaluationMode

abbrev pub evaluation_str : EvaluationMode → Text
evaluation_str retrospective = codes "RETROSPECTIVE"
evaluation_str point_in_time = codes "POINT_IN_TIME"

unfoldable pub evaluation_from_str : Text → Text ⊎ EvaluationMode
unfolding named to_ascii_uppercase
evaluation_from_str =
    from_upper (codes "EvaluationMode")
      ((codes "RETROSPECTIVE", retrospective) ∷ (codes "POINT_IN_TIME", point_in_time) ∷ [])

pub data BaselineQuality : Type 0 where
  high moderate degraded insufficient : BaselineQuality

-- `BaselineQuality::evaluate`
unfoldable pub evaluate_quality : Externals → ℕ → F64 → BaselineQuality
evaluate_quality x sample_count coverage_ratio =
    if leb 500 sample_count && x.ge coverage_ratio (literal x 95 2)
    then high
    else if leb 100 sample_count && x.ge coverage_ratio (literal x 80 2)
    then moderate
    else if leb 30 sample_count && x.ge coverage_ratio (literal x 50 2)
    then degraded
    else insufficient

abbrev pub quality_str : BaselineQuality → Text
quality_str high = codes "HIGH"
quality_str moderate = codes "MODERATE"
quality_str degraded = codes "DEGRADED"
quality_str insufficient = codes "INSUFFICIENT"

unfoldable pub quality_from_str : Text → Text ⊎ BaselineQuality
unfolding named to_ascii_uppercase
quality_from_str = from_upper (codes "BaselineQuality") (
    (codes "HIGH", high)
    ∷ (codes "MODERATE", moderate)
    ∷ (codes "DEGRADED", degraded)
    ∷ (codes "INSUFFICIENT", insufficient)
    ∷ [])

abbrev pub blocks_per_halving : ℕ
blocks_per_halving = 210_000

-- `as u32`
unfoldable pub epoch_from_height : ℕ → ℕ
epoch_from_height height = height / blocks_per_halving % 2 ^ 32

unfoldable pub epoch_range : ℕ → ℕ × ℕ
epoch_range epoch =
    let start = epoch * blocks_per_halving in (start, start + blocks_per_halving - 1)

pub record QuantileDistribution : Type 0 where
  pub sample_count : ℕ
  pub candidate_count : ℕ
  pub missing_count : ℕ
  pub coverage_ratio : F64
  pub minimum : MetricValue
  pub maximum : MetricValue
  pub mean : F64
  pub p50 : MetricValue
  pub p75 : MetricValue
  pub p90 : MetricValue
  pub p95 : MetricValue
  pub p99 : MetricValue
  pub p999 : MetricValue
  pub quality : BaselineQuality
