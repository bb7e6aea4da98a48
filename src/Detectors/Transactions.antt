-- ===== src/Detectors/Transactions.antt =====
-- crates/obschain-detectors/src/large_tx.rs, extreme_fee.rs and rbf.rs: large transfers, extreme fees
-- and replaced transactions.
pub mod Replacement
pub mod Keys
use obschain.Prelude.{
  ℕ, ◌+◌, ◌-◌, ◌*◌, ◌/◌, ◌%◌, ◌^◌, Bool, true, false, not, ◌&&◌, ◌||◌, Option, none, some, List, [],
  ◌∷◌, ◌++◌, length, take, Text, codes, concat, show, ltb, leb, if◌then◌else◌, ◌==◌, nat_eq,
}
use obschain.Core.External.{F64, end, field, object, Externals, Readings}
use obschain.Core.Amount.{sats_per_btc}
use obschain.Core.Observation.{
  Observation, transaction, replacement, TransactionObservation, TransactionReplacement,
}
use obschain.Core.Event.{
  ChainEvent, EventSeverity, low, medium, high, critical, large_transfer, extreme_fee,
  transaction_replacement, verified_on_chain, new_event,
}
use obschain.Detectors.Engine.{DetectorAvailability}
use obschain.Detectors.FanOut.{located}
use obschain.Detectors.Blocks.{num, nullable}
use obschain.Detectors.Metadata.{
  Encoders, ExtremeFeeTriggerType, high_absolute_fee, high_fee_rate, both, with_typed_metadata,
}

pub record LargeTransactionDetector : Type 0 where
  pub threshold_sats : ℕ

-- `LargeTransactionDetector::new`
abbrev pub default_large : LargeTransactionDetector
default_large = record { threshold_sats = 100 * 100_000_000 }

pub record ExtremeFeeDetector : Type 0 where
  pub extreme_fee_sats : ℕ
  pub extreme_fee_rate_sat_vb : F64

-- An `i64` is its 64-bit pattern: a comparison with a number that is not negative, and `{:+}`.
abbrev pub i64_ge : ℕ → ℕ → Bool
i64_ge a n = ltb a (2 ^ 63) && leb n a

abbrev pub show_signed : ℕ → Text
show_signed a = if ltb a (2 ^ 63) then codes "+" ++ show a else codes "-" ++ show (2 ^ 64 - a)

-- `(new as i64) - (old as i64)`, which wraps around as it does in a release build
abbrev pub i64_sub : ℕ → ℕ → ℕ
i64_sub a b = (a + 2 ^ 64 - b) % 2 ^ 64

unfoldable pub large_severity : ℕ → EventSeverity
large_severity sats =
    if leb (10_000 * 100_000_000) sats
    then critical
    else if leb (1_000 * 100_000_000) sats
    then high
    else medium

abbrev pub trigger_type : Bool → Bool → ExtremeFeeTriggerType
trigger_type true true = both
trigger_type true false = high_absolute_fee
trigger_type false _ = high_fee_rate

abbrev pub trigger_desc : ExtremeFeeTriggerType → Text
trigger_desc high_absolute_fee = codes "High absolute fee"
trigger_desc high_fee_rate = codes "High fee rate"
trigger_desc both = codes "High fee and fee rate"

unfoldable pub replacement_severity : ℕ → ℕ → EventSeverity
replacement_severity fee_delta_sats replaced_count =
    if i64_ge fee_delta_sats 1_000_000 || leb 5 replaced_count
    then high
    else if i64_ge fee_delta_sats 100_000 || leb 2 replaced_count
    then medium
    else low

module _ (x : Externals) (encode : Encoders) (r : Readings) where
  unfoldable pub large_event : TransactionObservation → ChainEvent
  unfolding large_severity new_event
  large_event tx =
      let btc = x.div (x.to_f64 tx.total_output_sats) (x.to_f64 100_000_000) in
      record (located tx r.later (
        new_event r large_transfer (large_severity tx.total_output_sats) verified_on_chain
          (concat (codes "Large Transfer: " ∷ x.fixed 2 btc ∷ codes " BTC" ∷ []))
          (concat (
            codes "Transaction "
            ∷ tx.txid
            ∷ codes " transferred "
            ∷ x.fixed 2 btc
            ∷ codes " BTC across "
            ∷ show tx.output_count
            ∷ codes " outputs with fee "
            ∷ show tx.fee_sats
            ∷ codes " sats."
            ∷ [])))) {
              metadata = object (
                  field "total_output_sats" (num tx.total_output_sats) (
                    field "total_output_btc" (x.json_float btc) (
                      field "fee_sats" (num tx.fee_sats) (
                        field "fee_rate_sat_vb" (nullable x.json_float tx.fee_rate_sat_vb) (
                          field "vsize" (num tx.vsize) (
                            field "inputs_count" (num tx.input_count)
                              (field "outputs_count" (num tx.output_count) end)))))));
            }

  -- `LargeTransactionDetector::detect`
  unfoldable pub detect_large : LargeTransactionDetector → Observation → List ChainEvent
  unfolding large_event
  detect_large d (transaction tx) =
      if ltb tx.total_output_sats d.threshold_sats then [] else large_event tx ∷ []
  detect_large d _ = []

  unfoldable pub fee_rate : TransactionObservation → F64
  fee_rate tx = elim tx.fee_rate_sat_vb [
    | some rate ↦ rate
    | none ↦ if ltb 0 tx.vsize then x.div (x.to_f64 tx.fee_sats) (x.to_f64 tx.vsize) else x.to_f64 0
  ]

  unfoldable pub fee_severity : ℕ → F64 → EventSeverity
  fee_severity sats rate =
      if leb sats_per_btc sats || x.ge rate (x.to_f64 1000)
      then critical
      else if leb 50_000_000 sats || x.ge rate (x.to_f64 500)
      then high
      else medium

  unfoldable pub extreme_fee_event : TransactionObservation → ExtremeFeeTriggerType → ChainEvent
  unfolding fee_rate fee_severity with_typed_metadata new_event
  extreme_fee_event tx trigger =
      let rate = fee_rate tx in
      let btc = x.div (x.to_f64 tx.fee_sats) (x.to_f64 sats_per_btc) in
      located tx r.later (
        with_typed_metadata
          (encode.extreme_fee (record {
            fee_sats = tx.fee_sats;
            fee_btc = btc;
            fee_rate_sat_vb = some rate;
            vsize = tx.vsize;
            total_input_sats = tx.total_input_sats;
            total_output_sats = tx.total_output_sats;
            fee_trigger_type = trigger;
          }))
          (new_event r extreme_fee (fee_severity tx.fee_sats rate) verified_on_chain
            (concat (
              codes "Extreme Fee: "
              ∷ x.fixed 4 btc
              ∷ codes " BTC ("
              ∷ x.fixed 1 rate
              ∷ codes " sat/vB) ["
              ∷ trigger_desc trigger
              ∷ codes "]"
              ∷ []))
            (concat (
              codes "Transaction "
              ∷ tx.txid
              ∷ codes " paid an extreme fee of "
              ∷ show tx.fee_sats
              ∷ codes " sats ("
              ∷ x.fixed 4 btc
              ∷ codes " BTC) at "
              ∷ x.fixed 2 rate
              ∷ codes " sat/vB (vsize "
              ∷ show tx.vsize
              ∷ codes " vB)."
              ∷ []))))

  -- `ExtremeFeeDetector::detect`
  unfoldable pub detect_extreme_fee : ExtremeFeeDetector → Observation → List ChainEvent
  unfolding extreme_fee_event fee_rate
  detect_extreme_fee d (transaction tx) =
      let is_high_fee = leb d.extreme_fee_sats tx.fee_sats in
      let is_high_rate = x.ge (fee_rate tx) d.extreme_fee_rate_sat_vb in
      if not is_high_fee && not is_high_rate
      then []
      else extreme_fee_event tx (trigger_type is_high_fee is_high_rate) ∷ []
  detect_extreme_fee d _ = []

  abbrev pub increase_percent : ℕ → ℕ → Option F64
  increase_percent delta old =
      if ltb 0 old
      then some (x.mul (x.div (x.i64_to_f64 delta) (x.to_f64 old)) (x.to_f64 100))
      else none

  abbrev pub delta_desc : ℕ → Option F64 → Text
  delta_desc delta none = show_signed delta ++ codes " sats"
  delta_desc delta (some pct) =
      concat (show_signed delta ∷ codes " sats (" ∷ x.fixed_signed 1 pct ∷ codes "%)" ∷ [])

  -- Identifiers of transactions are ASCII, so the slice at 12 bytes is a character boundary.
  unfoldable pub replacement_event : TransactionReplacement → ChainEvent
  unfolding replacement_severity with_typed_metadata new_event
  replacement_event repl =
      let count = length repl.replaced_txids in
      let delta = i64_sub repl.new_fee_sats repl.old_fee_sats in
      let percent = increase_percent delta repl.old_fee_sats in
      let btc = x.div (x.to_f64 repl.new_fee_sats) (x.to_f64 sats_per_btc) in
      record (with_typed_metadata
        (encode.replacement (record {
          replaced_txids = repl.replaced_txids;
          replacement_txid = repl.replacement_txid;
          replaced_count = count;
          old_fee_sats = repl.old_fee_sats;
          new_fee_sats = repl.new_fee_sats;
          fee_delta_sats = delta;
          fee_increase_percent = percent;
          old_fee_rate_sat_vb = repl.old_fee_rate_sat_vb;
          new_fee_rate_sat_vb = repl.new_fee_rate_sat_vb;
        }))
        (new_event r transaction_replacement (replacement_severity delta count) verified_on_chain
          (concat (
            codes "Transaction replacement observed: "
            ∷ take 12 repl.replacement_txid
            ∷ codes " ("
            ∷ show count
            ∷ codes " txs replaced)"
            ∷ []))
          (concat (
            codes "Observed RBF replacement: transaction "
            ∷ repl.replacement_txid
            ∷ codes " replaced "
            ∷ show count
            ∷ codes " transaction(s). New fee: "
            ∷ show repl.new_fee_sats
            ∷ codes " sats ("
            ∷ x.fixed 4 btc
            ∷ codes " BTC), fee delta: "
            ∷ delta_desc delta percent
            ∷ codes "."
            ∷ [])))) {
              txid = some repl.replacement_txid;
              detected_at = r.later;
              source = repl.source;
            }

  -- `RbfDetector::detect`
  unfoldable pub detect_replacement : Observation → List ChainEvent
  unfolding replacement_event
  detect_replacement (replacement repl) =
      if (length repl.replacement_txid == 0) || (length repl.replaced_txids == 0)
      then []
      else replacement_event repl ∷ []
  detect_replacement _ = []

-- `RbfDetector::availability`
abbrev pub replacement_availability : DetectorAvailability
replacement_availability = record {
  historically_replayable = false;
  requires_mempool_history = true;
  requires_multiple_observers = false;
  requires_external_labels = false;
  notes = some (
      codes
        "Requires unconfirmed mempool observation stream; cannot be reconstructed purely from confirmed blockchain history");
}
