-- ===== src/Detectors/Dormant/Severity.antt =====
-- Older and more coins are never less severe: `determine_severity` in
-- crates/obschain-detectors/src/dormant.rs.
use obschain.Prelude.{ℕ, ◌≤◌, true, arith, ◌≡◌}
use obschain.Core.External.{F64, Externals}
use obschain.Core.Amount.{sats_per_btc}
use obschain.Core.Event.{EventSeverity, info, low, medium, high, critical}
use obschain.Detectors.Metadata.{DormantClassification, dormant, very_old, ancient, early_bitcoin}
use obschain.Detectors.Dormant.{determine_severity}

-- the derived orders
abbrev pub severity_rank : EventSeverity → ℕ
severity_rank info = 0
severity_rank low = 1
severity_rank medium = 2
severity_rank high = 3
severity_rank critical = 4

abbrev pub age_rank : DormantClassification → ℕ
age_rank dormant = 0
age_rank very_old = 1
age_rank ancient = 2
age_rank early_bitcoin = 3

-- Comparison of floats respects the order of the numbers they stand for, and so does division by
-- the number of satoshis in a bitcoin.
pub record OrdersFloats (x : Externals) : Type 0 where
  pub ge_bound :
      (btc : F64) (m n : ℕ) → m ≤ n → x.ge btc (x.to_f64 n) ≡ true → x.ge btc (x.to_f64 m) ≡ true
  pub ge_value :
      (a b n : ℕ)
      → a ≤ b
      → x.ge (x.div (x.to_f64 a) (x.to_f64 sats_per_btc)) (x.to_f64 n) ≡ true
      → x.ge (x.div (x.to_f64 b) (x.to_f64 sats_per_btc)) (x.to_f64 n) ≡ true

module _ (x : Externals) (lawful : OrdersFloats x) where
  more_coins :
      (class : DormantClassification) (a b : ℕ)
      → a ≤ b
      → severity_rank (determine_severity x class a) ≤ severity_rank (determine_severity x class b)
  unfolding determine_severity
  more_coins early_bitcoin a b h = ground (arith, lawful.ge_value a b 50 h, lawful.ge_value a b 1 h)
  more_coins ancient a b h = ground (arith, lawful.ge_value a b 100 h, lawful.ge_value a b 10 h)
  more_coins very_old a b h =
      ground (arith, lawful.ge_value a b 200 h, lawful.ge_value a b 50 h, lawful.ge_value a b 5 h)
  more_coins dormant a b h =
      ground (arith, lawful.ge_value a b 500 h, lawful.ge_value a b 100 h, lawful.ge_value a b 10 h)

  rank : DormantClassification → ℕ → ℕ
  rank class a = severity_rank (determine_severity x class a)

  next_class :
      (a : ℕ)
      → (rank dormant a ≤ rank very_old a)
        × (rank very_old a ≤ rank ancient a)
        × (rank ancient a ≤ rank early_bitcoin a)
  unfolding rank determine_severity
  next_class a =
      let bound = lawful.ge_bound (x.div (x.to_f64 a) (x.to_f64 sats_per_btc)) in
      (
        ground (arith, bound 200 500, bound 50 100, bound 5 10),
        ground (arith, bound 100 200, bound 10 50),
        ground (arith, bound 50 100, bound 1 10),
      )

  older_coins :
      (class class' : DormantClassification) (a : ℕ)
      → age_rank class ≤ age_rank class'
      → severity_rank (determine_severity x class a) ≤ severity_rank (determine_severity x class' a)
  unfolding rank
  older_coins class class' a h = ground (arith, next_class a)

  -- Of two spends, the one that is not younger by its class and not smaller by its value is not
  -- less severe, where the comparison of floats and the division by 10^8 respect the order.
  determine_severity-monotone :
      (class class' : DormantClassification) (a b : ℕ)
      → age_rank class ≤ age_rank class'
      → a ≤ b
      → severity_rank (determine_severity x class a) ≤ severity_rank (determine_severity x class' b)
  determine_severity-monotone class class' a b h k =
      omega (arith, older_coins class class' a h, more_coins class' a b k)
