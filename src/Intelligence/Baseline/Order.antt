-- ===== src/Intelligence/Baseline/Order.antt =====
-- The derived order of the values of metrics (crates/obschain-core/src/baseline.rs) is one, and what a
-- sorted vector has at its places.
use obschain.Prelude.{
  ℕ, zero, suc, ◌≤◌, ◌<◌, true, List, [], ◌∷◌, All, arith, ◌≡◌, ◌↔◌, ◌⊎◌, nat_eq,
}
use obschain.Prelude.Sorting.{Sorted, IsOrder}
use obschain.Core.Baseline.Values.{MetricValue, u64, u128, basis_points, decimal_scaled, value_le}
use obschain.Intelligence.Baseline.{at}

-- the place of the constructor, the value and the scale
tag : MetricValue → ℕ
tag (u64 v) = 0
tag (u128 v) = 1
tag (basis_points v) = 2
tag (decimal_scaled v s) = 3

main : MetricValue → ℕ
main (u64 v) = v
main (u128 v) = v
main (basis_points v) = v
main (decimal_scaled v s) = v

minor : MetricValue → ℕ
minor (decimal_scaled v s) = s
minor _ = 0

Before : (a b : MetricValue) → Type 0
Before a b =
    (tag a < tag b)
    ⊎ ((tag a ≡ tag b) × ((main a < main b) ⊎ ((main a ≡ main b) × (minor a ≤ minor b))))

value_le_iff : (a b : MetricValue) → (value_le a b ≡ true) ↔ Before a b
unfolding value_le tag main minor Before
value_le_iff (u64 a) (u64 b) = ground arith
value_le_iff (u64 a) (u128 b) = ground arith
value_le_iff (u64 a) (basis_points b) = ground arith
value_le_iff (u64 a) (decimal_scaled b t) = ground arith
value_le_iff (u128 a) (u64 b) = ground arith
value_le_iff (u128 a) (u128 b) = ground arith
value_le_iff (u128 a) (basis_points b) = ground arith
value_le_iff (u128 a) (decimal_scaled b t) = ground arith
value_le_iff (basis_points a) (u64 b) = ground arith
value_le_iff (basis_points a) (u128 b) = ground arith
value_le_iff (basis_points a) (basis_points b) = ground arith
value_le_iff (basis_points a) (decimal_scaled b t) = ground arith
value_le_iff (decimal_scaled a s) (u64 b) = ground arith
value_le_iff (decimal_scaled a s) (u128 b) = ground arith
value_le_iff (decimal_scaled a s) (basis_points b) = ground arith
value_le_iff (decimal_scaled a s) (decimal_scaled b t) = ground arith

pub value_le-IsOrder : IsOrder value_le
unfolding Before
value_le-IsOrder = record {
  total = λ a b h. ground (arith, value_le_iff a b, value_le_iff b a);
  trans = λ a b c h k. ground (arith, value_le_iff a b, value_le_iff b c, value_le_iff a c);
}

pub value_le_refl : (a : MetricValue) → value_le a a ≡ true
value_le_refl a = ground (arith, value_le_iff a a, value_le-IsOrder.total a a)

pub at-All :
    (P : MetricValue → Type 0) (a : MetricValue) (bs : List MetricValue) (i : ℕ)
    → All P (a ∷ bs)
    → P (at a bs i)
at-All P a [] i ps = ps.0
at-All P a (b ∷ bs) zero ps = ps.0
at-All P a (b ∷ bs) (suc i) ps = at-All P b bs i ps.1

-- In a sorted vector a later value is not less.
pub at-Sorted :
    (a : MetricValue) (bs : List MetricValue) (i j : ℕ)
    → Sorted value_le (a ∷ bs)
    → i ≤ j
    → value_le (at a bs i) (at a bs j) ≡ true
at-Sorted a [] i j s h = value_le_refl a
at-Sorted a (b ∷ bs) zero zero s h = value_le_refl a
at-Sorted a (b ∷ bs) zero (suc j) s h = at-All (λ c. value_le a c ≡ true) b bs j s.0
at-Sorted a (b ∷ bs) (suc i) zero s h = ground (arith, h)
at-Sorted a (b ∷ bs) (suc i) (suc j) s h = at-Sorted b bs i j s.1 (omega (arith, h))
