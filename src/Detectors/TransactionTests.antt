-- ===== src/Detectors/TransactionTests.antt =====
-- The theorems on the detectors of transactions at concrete data.
use obschain.Prelude.{◌^◌, ◌<◌, none, [], ◌∷◌, arith}
use obschain.Core.Observation.{TransactionObservation}
use obschain.Core.Samples.{externals, output_of, old_input, spend}
use obschain.Detectors.Metadata.{Encoders}
use obschain.Detectors.FanOut.{output_statistics, sort, place}
use obschain.Detectors.FanOut.Statistics.{Summarises, values, output_statistics-Summarises}
use obschain.Detectors.Dormant.Severity.{OrdersFloats}
use obschain.Detectors.Transactions.{ExtremeFeeDetector}

abbrev encoders : Encoders
encoders = record {
  dormant_coins = λ m. none;
  consolidation = λ m. none;
  fan_out = λ m. none;
  extreme_fee = λ m. none;
  replacement = λ m. none;
}

abbrev fees : ExtremeFeeDetector
fees = record { extreme_fee_sats = 10_000_000; extreme_fee_rate_sat_vb = 200 }

abbrev three_outputs : TransactionObservation
three_outputs =
    spend (old_input 100_000_000 ∷ old_input 200_000_000 ∷ [])
      (output_of 9 ∷ output_of 4 ∷ output_of 7 ∷ [])

three_are_small : (output_statistics three_outputs).largest < 2 ^ 63
unfolding output_statistics sort place
three_are_small = omega arith

output_statistics-Summarises_example :
    Summarises (values three_outputs) (output_statistics three_outputs)
output_statistics-Summarises_example =
    output_statistics-Summarises three_outputs (omega arith) three_are_small

externals-OrdersFloats : OrdersFloats externals
externals-OrdersFloats = record {
  ge_bound = λ btc m n h k. ground arith;
  ge_value = λ a b n h k. ground arith;
}
