-- ===== src/Detectors/FanOut/Statistics.antt =====
-- What the output statistics of crates/obschain-detectors/src/fan_out.rs mean, and when the two
-- detectors speak.
use obschain.Prelude.{
  ℕ, ◌-◌, ◌/◌, ◌%◌, ◌^◌, ◌≤◌, ◌<◌, ◌&&◌, List, [], ◌∷◌, map, length, length-map, get_elem?, arith,
  ◌≡◌, refl, ap, leb, ◌==◌, nat_eq, inl, inr, Bool-cases, ◌⊎◌,
}
use obschain.Core.External.{Externals, Readings}
use obschain.Core.Observation.{
  Observation, transaction, TransactionObservation, TxOutputObservation,
}
use obschain.Detectors.Metadata.{Encoders}
use obschain.Detectors.FanOut.{
  sort, median, or_zero, OutputStatistics, output_statistics, detect_fan_out, detect_consolidation,
  default_fan_out, default_consolidation,
}
use obschain.Detectors.FanOut.Sorting.{
  Sorted, count, sort-Sorted, count-sort, length-sort, Sorted-get, occurs-get,
}

-- the values that the transaction's outputs carry
abbrev pub values : TransactionObservation → List ℕ
values tx = map (λ (p : TxOutputObservation). p.value_sats) tx.outputs

-- The least and the greatest value bound the middle one and every value of the list.
pub record Summarises (vals : List ℕ) (s : OutputStatistics) : Type 0 where
  pub below : s.smallest ≤ s.middle
  pub above : s.middle ≤ s.largest
  pub bounds : (n : ℕ) → 0 < count n vals → (s.smallest ≤ n) × (n ≤ s.largest)

ends_bound :
    (xs : List ℕ) (i : ℕ)
    → Sorted xs
    → i < length xs
    → (or_zero (get_elem? xs 0) ≤ or_zero (get_elem? xs i))
      × (or_zero (get_elem? xs i) ≤ or_zero (get_elem? xs (length xs - 1)))
ends_bound xs i s h = (
  Sorted-get 0 i xs s (omega arith) h,
  Sorted-get i (length xs - 1) xs s (omega arith) (omega arith),
)

median-between :
    (xs : List ℕ)
    → Sorted xs
    → 0 < length xs
    → or_zero (get_elem? xs (length xs - 1)) < 2 ^ 63
    → (or_zero (get_elem? xs 0) ≤ median xs) × (median xs ≤ or_zero (get_elem? xs (length xs - 1)))
unfolding median
median-between xs s h small = elim (Bool-cases ((length xs % 2 == 0) && leb 2 (length xs))) [
  | inl e ↦ rw e (
      omega (
        arith,
        ends_bound xs (length xs / 2 - 1) s (omega arith),
        ends_bound xs (length xs / 2) s (omega arith),
      ))
  | inr e ↦ rw e (ends_bound xs (length xs / 2) s (omega arith))
]

-- the statistics of a list of values that is not empty
abbrev of_values : List ℕ → OutputStatistics
of_values vals = record {
  smallest = or_zero (get_elem? (sort vals) 0);
  largest = or_zero (get_elem? (sort vals) (length (sort vals) - 1));
  middle = median (sort vals);
}

summary :
    (vals : List ℕ)
    → 0 < length vals
    → (of_values vals).largest < 2 ^ 63
    → Summarises vals (of_values vals)
summary vals h small =
    let (b, a) : (_ × _) =
      median-between (sort vals) (sort-Sorted vals) (omega (arith, length-sort vals)) small in
    record {
      below = b;
      above = a;
      bounds = λ n c.
          let (i, inside, at) = occurs-get n (sort vals) (omega (arith, count-sort n vals)) in
          omega (arith, at, ends_bound (sort vals) i (sort-Sorted vals) inside);
    }

shown :
    (tx : TransactionObservation)
    → 0 < length tx.outputs
    → output_statistics tx ≡ of_values (values tx)
unfolding output_statistics
shown tx h = go tx.outputs refl
  where
    go :
        (os : List TxOutputObservation)
        → tx.outputs ≡ os
        → output_statistics tx ≡ of_values (values tx)
    go [] e = ground (arith, e)
    go (o ∷ os) e = rw e refl

-- When a transaction shows its outputs and their values stay below 2^63 satoshis (4,000 times the
-- supply), the three statistics are in order, and no output carries less than the smallest or more
-- than the largest.
pub output_statistics-Summarises :
    (tx : TransactionObservation)
    → 0 < length tx.outputs
    → (output_statistics tx).largest < 2 ^ 63
    → Summarises (values tx) (output_statistics tx)
output_statistics-Summarises tx h small = rw (shown tx h) (
    summary (values tx)
      (omega (arith, length-map (λ (p : TxOutputObservation). p.value_sats) tx.outputs))
      (omega (arith, small, ap (λ s. s.largest) (shown tx h))))

-- The two detectors with their default thresholds never speak of one transaction.
default-exclusive :
    (x : Externals) (encode : Encoders) (r : Readings) (obs : Observation)
    → (detect_fan_out x encode r default_fan_out obs ≡ [])
      ⊎ (detect_consolidation x encode r default_consolidation obs ≡ [])
unfolding detect_fan_out detect_consolidation
default-exclusive x encode r (transaction tx) = ground arith
default-exclusive x encode r _ = inl refl
