-- ===== src/Detectors/Dormant/Totals.antt =====
-- What the loop of crates/obschain-detectors/src/dormant.rs adds up, against sums, maxima and minima
-- over the outputs that are old enough.
use Prim.Native.Nat.{min, max}
use obschain.Prelude.{
  ℕ, ◌+◌, ◌*◌, ◌/◌, ◌%◌, ◌^◌, ◌≤◌, ◌<◌, none, some, List, [], ◌∷◌, length, nat_eq, if◌then◌else◌,
  ◌≡◌, u64_max, u128_max,
}
use obschain.Core.Observation.{TransactionObservation, TxInputObservation, SpentOutputContext}
use obschain.Detectors.Dormant.{DormantCoinDetector, Tally, age_secs, qualifies}

-- the sum, the greatest and the least of a number over a list
module _ {A : Type 0} (f : A → ℕ) where
  abbrev pub sum_of : List A → ℕ
  sum_of [] = 0
  sum_of (a ∷ xs) = f a + sum_of xs

  abbrev pub greatest_of : List A → ℕ
  greatest_of [] = 0
  greatest_of (a ∷ xs) = max (f a) (greatest_of xs)

  abbrev pub least_of : List A → ℕ
  least_of [] = u64_max
  least_of (a ∷ xs) = min (f a) (least_of xs)

-- The spent outputs that are known and old enough.
unfoldable pub found :
    DormantCoinDetector → TransactionObservation → List TxInputObservation → List SpentOutputContext
found d tx [] = []
found d tx (input ∷ inputs) =
    let rest = found d tx inputs in
    elim input.historical_utxo [
      | none ↦ rest
      | some utxo ↦ if qualifies d tx utxo then utxo ∷ rest else rest
    ]

module _ (tx : TransactionObservation) where
  abbrev pub value_of : SpentOutputContext → ℕ
  value_of u = u.value_sats

  abbrev pub satoshi_days_of : SpentOutputContext → ℕ
  satoshi_days_of u = u.value_sats * (age_secs tx u / 86_400)

  -- What the loop leaves of `t`, after the outputs `us`.
  pub record Tallied (us : List SpentOutputContext) (t t' : Tally) : Type 0 where
    pub counted : t'.qualifying_inputs_count ≡ (t.qualifying_inputs_count + length us) % 2 ^ 32
    pub total : t'.total_dormant_sats ≡ min (t.total_dormant_sats + sum_of value_of us) u64_max
    pub destroyed :
        t'.coin_age_destroyed_sats_days
        ≡ min (t.coin_age_destroyed_sats_days + sum_of satoshi_days_of us) u128_max
    pub oldest : t'.oldest_age_seconds ≡ max t.oldest_age_seconds (greatest_of (age_secs tx) us)
    pub youngest :
        t'.youngest_qualifying_age_seconds
        ≡ min t.youngest_qualifying_age_seconds (least_of (age_secs tx) us)

  -- The variables fit their widths.
  record Fits (t : Tally) : Type 0 where
    count : t.qualifying_inputs_count < 2 ^ 32
    sats : t.total_dormant_sats ≤ u64_max
    days : t.coin_age_destroyed_sats_days ≤ u128_max
    youngest : t.youngest_qualifying_age_seconds ≤ u64_max
