-- ===== src/Core/Baseline/Values.antt =====
-- crates/obschain-core/src/baseline.rs: the values of metrics, how they are printed and read, and how
-- they are ordered. Texts that are read are ASCII, so that a slice of bytes is one of characters.
use obschain.Prelude.{
  ℕ, ◌+◌, ◌-◌, ◌*◌, ◌/◌, ◌%◌, ◌^◌, Bool, true, false, ◌&&◌, Option, none, some, [], ◌∷◌, ◌++◌, Text,
  show, trim, length, take, replicate, parse_uint, u32_max, u64_max, u128_max, ltb, leb, nat_eq,
  ◌==◌, if◌then◌else◌,
}
use obschain.Prelude.Decimal.Fixed.{fixed_digits}
use obschain.Core.Baseline.{
  BaselineMetric, coin_age_destroyed_satoshi_days, consolidation_ratio, fee_rate_sat_vb, metric_eq,
}

pub data MetricValue : Type 0 where
  u64 : ℕ → MetricValue
  u128 : ℕ → MetricValue
  basis_points : ℕ → MetricValue
  decimal_scaled : (value scale : ℕ) → MetricValue

unfoldable pub scale : MetricValue → ℕ
scale (u64 v) = 0
scale (u128 v) = 0
scale (basis_points v) = 2
scale (decimal_scaled v s) = s

unfoldable pub as_u64 : MetricValue → Option ℕ
as_u64 (u64 v) = some v
as_u64 (u128 v) = none
as_u64 (basis_points v) = some v
as_u64 (decimal_scaled v s) = if s == 0 then some v else none

unfoldable pub as_u128 : MetricValue → Option ℕ
as_u128 (u64 v) = some v
as_u128 (u128 v) = some v
as_u128 (basis_points v) = some v
as_u128 (decimal_scaled v s) = if s == 0 then some v else none

unfoldable pub to_u128 : MetricValue → ℕ
to_u128 (u64 v) = v
to_u128 (u128 v) = v
to_u128 (basis_points v) = v
to_u128 (decimal_scaled v s) = v

-- `10u64.pow(scale)`, which wraps around as it does in a release build
abbrev pub power_of_ten : ℕ → ℕ
power_of_ten s = 10 ^ s % 2 ^ 64

-- the digits before the point, the point, and `width` digits behind it
abbrev pub pointed : ℕ → ℕ → ℕ → Text
pointed whole width frac = show whole ++ b'.' ∷ fixed_digits width frac []

-- `to_numeric_string` and `Display`; `none` is the panic of a division by zero, where the power of ten
-- wraps around to zero.
unfoldable pub to_numeric_string : MetricValue → Option Text
to_numeric_string (u64 v) = some (show v)
to_numeric_string (u128 v) = some (show v)
to_numeric_string (basis_points v) = some (pointed (v / 100) 2 (v % 100))
to_numeric_string (decimal_scaled v s) =
    if s == 0
    then some (show v)
    else if power_of_ten s == 0
    then none
    else some (pointed (v / power_of_ten s) s (v % power_of_ten s))

-- `split_once`: what stands before the first separator and behind it
unfoldable pub split_once : ℕ → Text → Option (Text × Text)
split_once sep [] = none
split_once sep (c ∷ s) =
    let rest = split_once sep s in
    if c == sep
    then some ([], s)
    else elim rest [ none ↦ none | some (before, behind) ↦ some (c ∷ before, behind) ]

-- `split('.').next()`, the whole text if there is no separator
unfoldable pub before_first : ℕ → Text → Text
before_first sep [] = []
before_first sep (c ∷ s) = let rest = before_first sep s in if c == sep then [] else c ∷ rest

abbrev pub or_zero : Option ℕ → ℕ
or_zero none = 0
or_zero (some n) = n

-- `format!("{:0<width$}", &frac[..frac.len().min(width)])`
unfoldable pub fit_fraction : ℕ → Text → Text
fit_fraction width frac =
    let prefix = take width frac in prefix ++ replicate (width - length prefix) b'0'

-- The whole part and the first `width` digits of the fraction, in a type with the maximum `max`, whose
-- arithmetic wraps around as it does in a release build. What is no number counts as zero.
unfoldable pub read_scaled : ℕ → ℕ → ℕ → Text → ℕ
unfolding split_once fit_fraction
read_scaled max multiplier width clean = elim (split_once b'.' clean) [
  | some (whole, frac) ↦
      (or_zero (parse_uint max whole) * multiplier
        + or_zero (parse_uint max (fit_fraction width frac)))
      % (max + 1)
  | none ↦ or_zero (parse_uint max clean) * multiplier % (max + 1)
]

-- the part before the point, else the whole text, else zero
unfoldable pub read_integer : ℕ → Text → ℕ
unfolding before_first
read_integer max clean = elim (parse_uint max (before_first b'.' clean)) [
  | some v ↦ v
  | none ↦ or_zero (parse_uint max clean)
]

unfoldable pub from_str_and_metric : Text → BaselineMetric → MetricValue
unfolding read_integer read_scaled
from_str_and_metric s metric =
    let clean = trim s in
    if metric == coin_age_destroyed_satoshi_days
    then u128 (read_integer u128_max clean)
    else if metric == fee_rate_sat_vb
    then decimal_scaled (read_scaled u64_max 100 2 clean) 2
    else if metric == consolidation_ratio
    then basis_points (read_scaled u32_max 100 2 clean)
    else u64 (read_integer u64_max clean)

unfoldable pub from_str_scale_and_metric : Text → ℕ → BaselineMetric → MetricValue
unfolding from_str_and_metric before_first read_scaled
from_str_scale_and_metric s scale metric =
    let clean = trim s in
    if scale == 0
    then if metric == coin_age_destroyed_satoshi_days
      then u128 (or_zero (parse_uint u128_max (before_first b'.' clean)))
      else u64 (or_zero (parse_uint u64_max (before_first b'.' clean)))
    else if (metric == consolidation_ratio) && (scale == 2)
    then from_str_and_metric clean metric
    else decimal_scaled (read_scaled u64_max (power_of_ten scale) scale clean) scale

-- The derived order: by the constructor first, then by the fields.
unfoldable pub value_le : MetricValue → MetricValue → Bool
value_le (u64 a) (u64 b) = leb a b
value_le (u64 a) _ = true
value_le (u128 a) (u64 b) = false
value_le (u128 a) (u128 b) = leb a b
value_le (u128 a) _ = true
value_le (basis_points a) (basis_points b) = leb a b
value_le (basis_points a) (decimal_scaled b t) = true
value_le (basis_points a) _ = false
value_le (decimal_scaled a s) (decimal_scaled b t) = if a == b then leb s t else ltb a b
value_le (decimal_scaled a s) _ = false
