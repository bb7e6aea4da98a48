-- ===== src/Core/Baseline/RoundTrip.antt =====
-- Values of metrics are read back as they were printed: `to_numeric_string` and
-- `from_str_scale_and_metric` in crates/obschain-core/src/baseline.rs.
use native.Mathlib.Nat.{div-add-mod', mod-eq_of_lt, mod-lt, mod-le, div-le_self, pow-le-pow_right}
use mathlib.Core.Path.{subst}
use obschain.Prelude.{
  ℕ, ◌+◌, ◌-◌, ◌*◌, ◌/◌, ◌%◌, ◌^◌, ◌≤◌, ◌<◌, false, some, [], ◌∷◌, ◌++◌, Text, Lacks, All-append,
  length, take, scan, is_whitespace, show, parse_uint, parse_uint-scan, parse_uint-show, u32_max,
  u64_max, u128_max, nat_beq_iff, nat_eq, ◌==◌, arith, ◌≡◌, refl, ap, ◌∙◌,
}
use mathlib.Core.List.{append-nil}
use obschain.Prelude.Decimal.Fixed.{
  fixed_digits, fixed_digits-AllDigits, length-fixed_digits, scan-fixed_digits,
}
use obschain.Prelude.Splitting.{NoSpace, trim_id}
use obschain.Core.Amount.Reading.{AllDigits-plain, IsDigits-of_length, show-AllDigits}
use obschain.Core.Baseline.{
  BaselineMetric, coin_age_destroyed_satoshi_days, consolidation_ratio, metric_eq, position,
}
use obschain.Core.Baseline.Values.{
  MetricValue, basis_points, before_first, decimal_scaled, fit_fraction, from_str_and_metric,
  from_str_scale_and_metric, pointed, power_of_ten, read_scaled, scale, split_once,
  to_numeric_string, u128, u64,
}

split_once_at : (b : ℕ) (s t : Text) → Lacks b s → split_once b (s ++ b ∷ t) ≡ some (s, t)
unfolding split_once
split_once_at b [] t h = ground (arith, nat_beq_iff b b)
split_once_at b (c ∷ s) t h = ground (arith, split_once_at b s t h.1, nat_beq_iff c b, h.0)

before_first_whole : (b : ℕ) (s : Text) → Lacks b s → before_first b s ≡ s
unfolding before_first
before_first_whole b [] h = refl
before_first_whole b (c ∷ s) h = ground (arith, before_first_whole b s h.1, nat_beq_iff c b, h.0)

take-length : (s : Text) → take (length s) s ≡ s
take-length [] = refl
take-length (c ∷ s) = ap (λ t. c ∷ t) (take-length s)

fit_fraction_exact : (s : Text) → fit_fraction (length s) s ≡ s
unfolding fit_fraction
fit_fraction_exact s =
    rw (take-length s) (let e : length s - length s ≡ 0 = omega arith in rw e (append-nil s))

parse_fixed :
    (max k f : ℕ) → 1 ≤ k → f < 10 ^ k → f ≤ max → parse_uint max (fixed_digits k f []) ≡ some f
unfolding scan
parse_fixed max k f low lt le =
    let s = fixed_digits k f [] in
    let digits =
      IsDigits-of_length s (fixed_digits-AllDigits k f [] tt)
        (omega (arith, length-fixed_digits k f [])) in
    parse_uint-scan max s digits ∙ scan-fixed_digits max k f [] lt le

pointed-NoSpace : (w k f : ℕ) → NoSpace (pointed w k f)
unfolding is_whitespace
pointed-NoSpace w k f =
    All-append _ (show w) (b'.' ∷ fixed_digits k f [])
      (AllDigits-plain (show w) (show-AllDigits w)).1
      (refl, (AllDigits-plain _ (fixed_digits-AllDigits k f [] tt)).1)

read_scaled-pointed :
    (max multiplier w k f : ℕ)
    → 1 ≤ k
    → f < 10 ^ k
    → f ≤ max
    → w ≤ max
    → read_scaled max multiplier k (pointed w k f) ≡ (w * multiplier + f) % (max + 1)
unfolding read_scaled
read_scaled-pointed max multiplier w k f low lt fits whole =
    let frac = fixed_digits k f [] in
    let width : length frac ≡ k = omega (arith, length-fixed_digits k f []) in
    let fit : fit_fraction k frac ≡ frac =
      subst (λ n. fit_fraction n frac ≡ frac) width (fit_fraction_exact frac) in
    rw
      (
        split_once_at b'.' (show w) frac (AllDigits-plain (show w) (show-AllDigits w)).0,
        read_scaled,
      )
      (rw (fit, parse_uint-show max w whole, parse_fixed max k f low lt fits) refl)

power_of_ten_exact : (s : ℕ) → s ≤ 19 → power_of_ten s ≡ 10 ^ s
power_of_ten_exact s le =
    mod-eq_of_lt (omega (arith, pow-le-pow_right {n = 10} (omega arith) {i = s} {j = 19} le))

-- The values that a metric has: the coin age destroyed is a `u128`, the consolidation ratio is in basis
-- points, any other is a `u64` or a decimal number with up to 19 digits behind the point.
abbrev pub Carries : BaselineMetric → MetricValue → Type 0
Carries metric (u64 v) = ((metric == coin_age_destroyed_satoshi_days) ≡ false) × (v ≤ u64_max)
Carries metric (u128 v) = (metric ≡ coin_age_destroyed_satoshi_days) × (v ≤ u128_max)
Carries metric (basis_points v) = (metric ≡ consolidation_ratio) × (v ≤ u32_max)
Carries metric (decimal_scaled v s) =
    ((metric == consolidation_ratio) ≡ false) × (1 ≤ s) × (s ≤ 19) × (v ≤ u64_max)

show-NoSpace : (n : ℕ) → NoSpace (show n)
show-NoSpace n = (AllDigits-plain (show n) (show-AllDigits n)).1

show-Lacks : (n : ℕ) → Lacks b'.' (show n)
show-Lacks n = (AllDigits-plain (show n) (show-AllDigits n)).0

read_ratio : (v : ℕ) → v ≤ u32_max → read_scaled u32_max 100 2 (pointed (v / 100) 2 (v % 100)) ≡ v
read_ratio v le =
    read_scaled-pointed u32_max 100 (v / 100) 2 (v % 100) (omega arith) (omega arith) (omega arith)
      (omega arith)
    ∙ mod-eq_of_lt (omega arith)
    ∙ omega arith

read_decimal :
    (v s : ℕ)
    → 1 ≤ s
    → s ≤ 19
    → v ≤ u64_max
    → read_scaled u64_max (power_of_ten s) s (pointed (v / 10 ^ s) s (v % 10 ^ s)) ≡ v
read_decimal v s low high fits =
    let p : ℕ = 10 ^ s in
    let pos : 1 ≤ p = pow-le-pow_right {n = 10} (omega arith) {i = 0} {j = s} (omega arith) in
    let rest : v % p < p = mod-lt v pos in
    let whole = div-add-mod' v p in
    read_scaled-pointed u64_max (power_of_ten s) (v / p) s (v % p) low rest
      (omega (arith, mod-le v p)) (omega (arith, div-le_self v p))
    ∙ rw (power_of_ten_exact s high) (rw whole (mod-eq_of_lt (omega arith)))

from_str_and_metric_ratio :
    (v : ℕ)
    → v ≤ u32_max
    → from_str_and_metric (pointed (v / 100) 2 (v % 100)) consolidation_ratio ≡ basis_points v
unfolding from_str_and_metric position
from_str_and_metric_ratio v le =
    rw (trim_id (pointed (v / 100) 2 (v % 100)) (pointed-NoSpace _ 2 _))
      (ap basis_points (read_ratio v le))

print_decimal :
    (v s : ℕ)
    → 1 ≤ s
    → s ≤ 19
    → to_numeric_string (decimal_scaled v s) ≡ some (pointed (v / 10 ^ s) s (v % 10 ^ s))
unfolding to_numeric_string
print_decimal v s low high =
    let pos : 1 ≤ 10 ^ s = pow-le-pow_right {n = 10} (omega arith) {i = 0} {j = s} (omega arith) in
    rw (power_of_ten_exact s high) (ground (arith, pos))

-- A value is printed, and its print is read back as the same value by its metric and its scale.
pub from_str_scale_and_metric-to_numeric_string :
    (metric : BaselineMetric) (v : MetricValue)
    → Carries metric v
    → (s : Text) × (to_numeric_string v ≡ some s)
      × (from_str_scale_and_metric s (scale v) metric ≡ v)
unfolding to_numeric_string from_str_scale_and_metric scale position
from_str_scale_and_metric-to_numeric_string metric (u64 v) (other, fits) = (
  show v,
  refl,
  rw (trim_id (show v) (show-NoSpace v), other)
      (rw (before_first_whole b'.' (show v) (show-Lacks v), parse_uint-show u64_max v fits) refl),
)
from_str_scale_and_metric-to_numeric_string metric (u128 v) (own, fits) = (
  show v,
  refl,
  rw (trim_id (show v) (show-NoSpace v), own)
      (rw (before_first_whole b'.' (show v) (show-Lacks v), parse_uint-show u128_max v fits) refl),
)
from_str_scale_and_metric-to_numeric_string metric (basis_points v) (own, fits) = (
  pointed (v / 100) 2 (v % 100),
  refl,
  rw (trim_id (pointed (v / 100) 2 (v % 100)) (pointed-NoSpace _ 2 _), own)
      (from_str_and_metric_ratio v fits),
)
from_str_scale_and_metric-to_numeric_string metric (decimal_scaled v s) (other, low, high, fits) = (
  pointed (v / 10 ^ s) s (v % 10 ^ s),
  print_decimal v s low high,
  rw (trim_id (pointed (v / 10 ^ s) s (v % 10 ^ s)) (pointed-NoSpace _ s _), other)
      (ground (arith, read_decimal v s low high fits)),
)
