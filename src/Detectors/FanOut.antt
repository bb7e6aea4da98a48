-- ===== src/Detectors/FanOut.antt =====
-- crates/obschain-detectors/src/fan_out.rs and consolidation.rs: transactions with many outputs, and
-- with many inputs.
pub mod Sorting
pub mod Statistics
use Prim.Native.Nat.{max}
use obschain.Prelude.{
  ℕ, ◌+◌, ◌-◌, ◌*◌, ◌/◌, ◌%◌, ◌^◌, ◌||◌, Option, none, some, List, [], ◌∷◌, map, length, get_elem?,
  codes, concat, show, ltb, leb, ◌==◌, nat_eq, if◌then◌else◌, ◌&&◌,
}
use obschain.Core.External.{DateTime, Externals, Readings}
use obschain.Core.Amount.{sats_per_btc}
use obschain.Core.Observation.{
  Observation, transaction, TransactionObservation, TxOutputObservation,
}
use obschain.Core.Event.{ChainEvent, EventSeverity, low, medium, high, verified_on_chain, new_event}
use obschain.Core.Event
use obschain.Detectors.Metadata.{Encoders, with_typed_metadata}

pub record FanOutDetector : Type 0 where
  pub min_outputs : ℕ
  pub min_value_sats : ℕ

pub record ConsolidationDetector : Type 0 where
  pub min_inputs : ℕ
  pub max_outputs : ℕ
  pub min_value_sats : ℕ

-- `FanOutDetector::new`
abbrev pub default_fan_out : FanOutDetector
default_fan_out = record { min_outputs = 50; min_value_sats = 0 }

-- `ConsolidationDetector::new`
abbrev pub default_consolidation : ConsolidationDetector
default_consolidation = record { min_inputs = 20; max_outputs = 5; min_value_sats = 0 }

-- `sort_unstable` on numbers
unfoldable pub place : ℕ → List ℕ → List ℕ
place a [] = a ∷ []
place a (b ∷ xs) = let rest = place a xs in if leb a b then a ∷ b ∷ xs else b ∷ rest

unfoldable pub sort : List ℕ → List ℕ
unfolding place
sort [] = []
sort (a ∷ xs) = place a (sort xs)

-- `first`, `last` and an element, 0 where there is none
abbrev pub or_zero : Option ℕ → ℕ
or_zero none = 0
or_zero (some n) = n

-- `(vals[mid - 1] + vals[mid]) / 2` wraps around as a `u64` sum does in a release build.
unfoldable pub median : List ℕ → ℕ
median vals =
    let n = length vals in
    if (n % 2 == 0) && leb 2 n
    then (or_zero (get_elem? vals (n / 2 - 1)) + or_zero (get_elem? vals (n / 2))) % 2 ^ 64 / 2
    else or_zero (get_elem? vals (n / 2))

pub record OutputStatistics : Type 0 where
  pub smallest : ℕ
  pub largest : ℕ
  pub middle : ℕ

-- `(smallest_output_sats, largest_output_sats, median_output_sats)`
unfoldable pub output_statistics : TransactionObservation → OutputStatistics
unfolding sort median
output_statistics tx = elim tx.outputs [
  | [] ↦
      let avg : ℕ = tx.total_output_sats / max tx.output_count 1 in
      record { smallest = avg; largest = avg; middle = avg }
  | o ∷ os ↦
      let vals : List ℕ = sort (map (λ (p : TxOutputObservation). p.value_sats) (o ∷ os)) in
      record {
        smallest = or_zero (get_elem? vals 0);
        largest = or_zero (get_elem? vals (length vals - 1));
        middle = median vals;
      }
]

-- the severity of both detectors, by the count and the value that each looks at
unfoldable pub severity_by : ℕ → ℕ → ℕ → ℕ → EventSeverity
severity_by many more count sats =
    if leb more count || leb (100 * sats_per_btc) sats
    then high
    else if leb many count
    then medium
    else low

-- What both detectors write into the event last.
abbrev pub located : TransactionObservation → DateTime → ChainEvent → ChainEvent
located tx now e = record e {
  txid = some tx.txid;
  block_hash = tx.block_hash;
  block_height = tx.block_height;
  detected_at = now;
}

module _ (x : Externals) (encode : Encoders) (r : Readings) where
  unfoldable pub fan_out_event : TransactionObservation → ChainEvent
  unfolding output_statistics severity_by with_typed_metadata new_event
  fan_out_event tx =
      let btc = x.div (x.to_f64 tx.total_output_sats) (x.to_f64 sats_per_btc) in
      let ratio = x.div (x.to_f64 tx.output_count) (x.to_f64 (max tx.input_count 1)) in
      let stats = output_statistics tx in
      located tx r.later (
        with_typed_metadata
          (encode.fan_out (record {
            input_count = tx.input_count % 2 ^ 32;
            output_count = tx.output_count % 2 ^ 32;
            output_input_ratio = ratio;
            total_distributed_sats = tx.total_output_sats;
            total_distributed_btc = btc;
            median_output_sats = stats.middle;
            smallest_output_sats = stats.smallest;
            largest_output_sats = stats.largest;
          }))
          (new_event r Event.fan_out (severity_by 100 200 tx.output_count tx.total_output_sats)
            verified_on_chain
            (concat (
              codes "High Fan-Out Transaction: "
              ∷ show tx.output_count
              ∷ codes " outputs ("
              ∷ x.fixed 2 btc
              ∷ codes " BTC)"
              ∷ []))
            (concat (
              codes "Transaction "
              ∷ tx.txid
              ∷ codes " created "
              ∷ show tx.output_count
              ∷ codes " outputs across "
              ∷ show tx.input_count
              ∷ codes " input(s) (ratio "
              ∷ x.fixed 1 ratio
              ∷ codes ":1) distributing "
              ∷ x.fixed 4 btc
              ∷ codes " BTC. Median output: "
              ∷ show stats.middle
              ∷ codes " sats."
              ∷ []))))

  -- `FanOutDetector::detect`
  unfoldable pub detect_fan_out : FanOutDetector → Observation → List ChainEvent
  unfolding fan_out_event
  detect_fan_out d (transaction tx) =
      if ltb tx.output_count d.min_outputs || ltb tx.total_output_sats d.min_value_sats
      then []
      else fan_out_event tx ∷ []
  detect_fan_out d _ = []

  unfoldable pub consolidation_event : TransactionObservation → ChainEvent
  unfolding severity_by with_typed_metadata new_event
  consolidation_event tx =
      let btc = x.div (x.to_f64 tx.total_input_sats) (x.to_f64 sats_per_btc) in
      let ratio = x.div (x.to_f64 tx.input_count) (x.to_f64 (max tx.output_count 1)) in
      located tx r.later (
        with_typed_metadata
          (encode.consolidation (record {
            input_count = tx.input_count % 2 ^ 32;
            output_count = tx.output_count % 2 ^ 32;
            input_output_ratio = ratio;
            total_input_sats = tx.total_input_sats;
            total_output_sats = tx.total_output_sats;
            fee_sats = tx.fee_sats;
          }))
          (new_event r Event.consolidation (severity_by 50 100 tx.input_count tx.total_input_sats)
            verified_on_chain
            (concat (
              codes "UTXO Consolidation: "
              ∷ show tx.input_count
              ∷ codes " inputs -> "
              ∷ show tx.output_count
              ∷ codes " outputs ("
              ∷ x.fixed 2 btc
              ∷ codes " BTC)"
              ∷ []))
            (concat (
              codes "Transaction "
              ∷ tx.txid
              ∷ codes " consolidated "
              ∷ show tx.input_count
              ∷ codes " inputs into "
              ∷ show tx.output_count
              ∷ codes " outputs (ratio "
              ∷ x.fixed 1 ratio
              ∷ codes ":1) moving "
              ∷ x.fixed 4 btc
              ∷ codes " BTC with fee "
              ∷ show tx.fee_sats
              ∷ codes " sats."
              ∷ []))))

  -- `ConsolidationDetector::detect`
  unfoldable pub detect_consolidation : ConsolidationDetector → Observation → List ChainEvent
  unfolding consolidation_event
  detect_consolidation d (transaction tx) =
      if ltb tx.input_count d.min_inputs || ltb d.max_outputs tx.output_count
      then []
      else if ltb tx.total_input_sats d.min_value_sats
      then []
      else consolidation_event tx ∷ []
  detect_consolidation d _ = []
