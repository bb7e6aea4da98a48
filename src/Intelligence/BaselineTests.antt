-- ===== src/Intelligence/BaselineTests.antt =====
-- The theorem on distributions at three samples, and tests.
use obschain.Prelude.{ℕ, ◌+◌, ◌*◌, ◌/◌, some, List, [], ◌∷◌, length, arith, ◌≡◌, refl, All}
use obschain.Prelude.Sorting.{sort_by}
use obschain.Core.Samples.{externals}
use obschain.Core.External.{Externals}
use obschain.Core.Baseline.{higher_is_rarer}
use obschain.Core.Baseline.Values.{MetricValue, u64, value_le}
use obschain.Core.Baseline.Runs.{QuantileDistribution, insufficient, evaluate_quality}
use obschain.Intelligence.Baseline.{
  Statistics, compute_distribution, distribution_of, quantile_at, quantile_index, to_f64,
  rank_value,
}
use obschain.Intelligence.Baseline.Quantiles.{
  Occurs, named_values, Ascending, compute_distribution-Ascending,
}

-- floats that are thousandths
abbrev thousandths : Externals
thousandths = record externals {
  to_f64 = λ n. n * 1_000;
  div = λ a b. a * 1_000 / b;
  mul = λ a b. a * b / 1_000;
}

abbrev total : List ℕ → ℕ
total [] = 0
total (a ∷ xs) = a + total xs

abbrev statistics : Statistics
statistics = record {
  sum = total;
  ceil_usize = λ a. (a + 999) / 1_000;
  power_of_ten = λ n. 10 * 1_000;
}

abbrev samples : List MetricValue
samples = u64 30 ∷ u64 10 ∷ u64 20 ∷ []

abbrev distribution : QuantileDistribution
distribution = record {
  sample_count = 3;
  candidate_count = 4;
  missing_count = 1;
  coverage_ratio = 750;
  minimum = u64 10;
  maximum = u64 30;
  mean = 20_000;
  p50 = u64 20;
  p75 = u64 30;
  p90 = u64 30;
  p95 = u64 30;
  p99 = u64 30;
  p999 = u64 30;
  quality = insufficient;
}

computed : compute_distribution thousandths statistics samples 4 ≡ some distribution
unfolding compute_distribution distribution_of quantile_at quantile_index to_f64 sort_by value_le
    evaluate_quality
computed = refl

compute_distribution-Ascending_example :
    (distribution.sample_count ≡ length samples)
    × All (Occurs samples) (named_values distribution)
    × Ascending (named_values distribution)
compute_distribution-Ascending_example =
    compute_distribution-Ascending thousandths statistics samples 4 distribution computed (record {
      to_p75 = omega arith;
      to_p90 = omega arith;
      to_p95 = omega arith;
      to_p99 = omega arith;
      to_p999 = omega arith;
    })

-- Two of three samples are at most 20, and two are at least 20.
ranked_in_the_middle : rank_value thousandths samples (u64 20) higher_is_rarer ≡ (66_600, 2)
unfolding rank_value value_le
ranked_in_the_middle = refl
