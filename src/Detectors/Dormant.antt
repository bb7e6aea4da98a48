-- ===== src/Detectors/Dormant.antt =====
-- crates/obschain-detectors/src/dormant.rs: transactions that spend coins which lay still for years.
pub mod Totals
pub mod Severity
use Prim.Native.Nat.{min}
use obschain.Prelude.{
  ℕ, ◌+◌, ◌-◌, ◌*◌, ◌/◌, ◌%◌, ◌^◌, Bool, false, ◌||◌, Option, none, some, List, [], ◌∷◌, Text,
  codes, concat, show, ltb, leb, ◌==◌, nat_eq, if◌then◌else◌, u64_max, u128_max,
}
use obschain.Core.External.{F64, DateTime, timestamp, seconds_since, Externals, Readings}
use obschain.Core.Amount.{sats_per_btc, calculate_satoshi_days}
use obschain.Core.Observation.{
  Observation, transaction, TransactionObservation, TxInputObservation, SpentOutputContext,
}
use obschain.Core.Event.{
  ChainEvent, EventSeverity, low, medium, high, critical, dormant_coins_moved, verified_on_chain,
  new_event,
}
use obschain.Detectors.FanOut.{located}
use obschain.Detectors.Metadata.{
  Encoders, DormantClassification, dormant, very_old, ancient, early_bitcoin, with_typed_metadata,
}

abbrev pub early_bitcoin_timestamp_cutoff_secs : ℕ
early_bitcoin_timestamp_cutoff_secs = 1_293_840_000

abbrev pub early_bitcoin_block_height_cutoff : ℕ
early_bitcoin_block_height_cutoff = 100_000

pub record DormantCoinDetector : Type 0 where
  pub min_age_days : ℕ
  pub min_value_sats : ℕ

-- `DormantCoinDetector::new`
abbrev pub default_dormant : DormantCoinDetector
default_dormant = record { min_age_days = 1825; min_value_sats = sats_per_btc }

abbrev pub low_height : Option ℕ → Bool
low_height none = false
low_height (some height) = leb height early_bitcoin_block_height_cutoff

abbrev pub early_time : Option DateTime → Bool
early_time none = false
early_time (some ts) = ltb (timestamp ts) early_bitcoin_timestamp_cutoff_secs

unfoldable pub classify : ℕ → Option DateTime → Option ℕ → DormantClassification
classify oldest_age_days confirmed_at confirmed_height =
    if low_height confirmed_height
    then early_bitcoin
    else if early_time confirmed_at
    then early_bitcoin
    else if leb 5475 oldest_age_days
    then ancient
    else if leb 3650 oldest_age_days
    then very_old
    else dormant

-- The age of a spent output, in seconds; a height stands for ten minutes, and the product wraps
-- around as it does in a release build.
unfoldable pub age_secs : TransactionObservation → SpentOutputContext → ℕ
age_secs tx utxo = elim utxo.confirmed_at [
  | some confirmed_at ↦ seconds_since tx.timestamp confirmed_at
  | none ↦ elim utxo.confirmed_height [
    | none ↦ 0
    | some confirmed_height ↦ elim tx.block_height [
      | none ↦ 0
      | some tx_height ↦
          if ltb confirmed_height tx_height
          then (tx_height - confirmed_height) * 600 % 2 ^ 64
          else 0
    ]
  ]
]

abbrev pub saturating_add : ℕ → ℕ → ℕ → ℕ
saturating_add max a b = min (a + b) max

-- the variables of the loop
pub record Tally : Type 0 where
  pub qualifying_inputs_count : ℕ
  pub total_dormant_sats : ℕ
  pub oldest_age_seconds : ℕ
  pub youngest_qualifying_age_seconds : ℕ
  pub coin_age_destroyed_sats_days : ℕ
  pub oldest_confirmed_at : Option DateTime
  pub oldest_confirmed_height : Option ℕ

abbrev pub empty_tally : Tally
empty_tally = record {
  qualifying_inputs_count = 0;
  total_dormant_sats = 0;
  oldest_age_seconds = 0;
  youngest_qualifying_age_seconds = u64_max;
  coin_age_destroyed_sats_days = 0;
  oldest_confirmed_at = none;
  oldest_confirmed_height = none;
}

-- what the loop does with an output that is old enough
unfoldable pub tally_utxo : ℕ → SpentOutputContext → Tally → Tally
tally_utxo age utxo t =
    let older = ltb t.oldest_age_seconds age in
    record {
      qualifying_inputs_count = (t.qualifying_inputs_count + 1) % 2 ^ 32;
      total_dormant_sats = saturating_add u64_max t.total_dormant_sats utxo.value_sats;
      oldest_age_seconds = if older then age else t.oldest_age_seconds;
      youngest_qualifying_age_seconds =
          if ltb age t.youngest_qualifying_age_seconds
          then age
          else t.youngest_qualifying_age_seconds;
      coin_age_destroyed_sats_days =
          saturating_add u128_max t.coin_age_destroyed_sats_days
            (calculate_satoshi_days utxo.value_sats (age / 86_400));
      oldest_confirmed_at = if older then utxo.confirmed_at else t.oldest_confirmed_at;
      oldest_confirmed_height = if older then utxo.confirmed_height else t.oldest_confirmed_height;
    }

unfoldable pub qualifies : DormantCoinDetector → TransactionObservation → SpentOutputContext → Bool
unfolding age_secs
qualifies d tx utxo = leb d.min_age_days (age_secs tx utxo / 86_400)

-- one round of the loop
unfoldable pub tally_input :
    DormantCoinDetector → TransactionObservation → TxInputObservation → Tally → Tally
unfolding qualifies tally_utxo
tally_input d tx input t = elim input.historical_utxo [
  | none ↦ t
  | some utxo ↦ if qualifies d tx utxo then tally_utxo (age_secs tx utxo) utxo t else t
]

unfoldable pub tally_inputs :
    DormantCoinDetector → TransactionObservation → List TxInputObservation → Tally → Tally
unfolding tally_input
tally_inputs d tx [] t = t
tally_inputs d tx (input ∷ inputs) t = tally_inputs d tx inputs (tally_input d tx input t)

abbrev pub class_label : DormantClassification → Text
class_label early_bitcoin = codes "Early Bitcoin Era"
class_label ancient = codes "Ancient (15+ Years)"
class_label very_old = codes "Very Old (10+ Years)"
class_label dormant = codes "Dormant (5+ Years)"

module _ (x : Externals) where
  -- a float literal with no fraction, such as `50.0`
  abbrev at_least : ℕ → F64 → Bool
  at_least n btc = x.ge btc (x.to_f64 n)

  abbrev severity_at : DormantClassification → F64 → EventSeverity
  severity_at early_bitcoin btc =
      if at_least 50 btc then critical else if at_least 1 btc then high else medium
  severity_at ancient btc =
      if at_least 100 btc then critical else if at_least 10 btc then high else medium
  severity_at very_old btc =
      if at_least 200 btc
      then critical
      else if at_least 50 btc
      then high
      else if at_least 5 btc
      then medium
      else low
  severity_at dormant btc =
      if at_least 500 btc
      then critical
      else if at_least 100 btc
      then high
      else if at_least 10 btc
      then medium
      else low

  unfoldable pub determine_severity : DormantClassification → ℕ → EventSeverity
  determine_severity classification total_dormant_sats =
      severity_at classification (x.div (x.to_f64 total_dormant_sats) (x.to_f64 sats_per_btc))

  -- The event of a tally; `365.25` is its bit pattern.
  unfoldable pub dormant_event : Encoders → Readings → TransactionObservation → Tally → ChainEvent
  unfolding classify determine_severity with_typed_metadata new_event
  dormant_event encode r tx t =
      let oldest_days = t.oldest_age_seconds / 86_400 in
      let class = classify oldest_days t.oldest_confirmed_at t.oldest_confirmed_height in
      let btc = x.div (x.to_f64 t.total_dormant_sats) (x.to_f64 sats_per_btc) in
      let ratio =
        if ltb 0 tx.total_input_sats
        then x.div (x.to_f64 t.total_dormant_sats) (x.to_f64 tx.total_input_sats)
        else x.to_f64 1 in
      let btc_days = x.div (x.to_f64 t.coin_age_destroyed_sats_days) (x.to_f64 sats_per_btc) in
      let btc_years = x.div btc_days 0x4076D40000000000 in
      located tx r.later (
        with_typed_metadata
          (encode.dormant_coins (record {
            total_dormant_sats = t.total_dormant_sats;
            total_dormant_btc = btc;
            dormant_input_count = t.qualifying_inputs_count;
            total_input_count = tx.input_count % 2 ^ 32;
            oldest_input_age_days = oldest_days;
            oldest_input_age_seconds = t.oldest_age_seconds;
            youngest_qualifying_age_days = t.youngest_qualifying_age_seconds / 86_400;
            total_input_sats = tx.total_input_sats;
            total_output_sats = tx.total_output_sats;
            dormant_ratio = ratio;
            coin_age_destroyed_sats_days = t.coin_age_destroyed_sats_days;
            coin_age_destroyed_btc_days = btc_days;
            coin_age_destroyed_btc_years = btc_years;
            classification = class;
          }))
          (new_event r dormant_coins_moved (determine_severity class t.total_dormant_sats)
            verified_on_chain
            (concat (
              codes "Dormant Coins Moved: "
              ∷ x.fixed 2 btc
              ∷ codes " BTC ("
              ∷ class_label class
              ∷ codes ")"
              ∷ []))
            (concat (
              codes "Transaction "
              ∷ tx.txid
              ∷ codes " moved "
              ∷ x.fixed 4 btc
              ∷ codes " BTC dormant for "
              ∷ show oldest_days
              ∷ codes " days (oldest UTXO) across "
              ∷ show t.qualifying_inputs_count
              ∷ codes " input(s). Destroyed "
              ∷ show t.coin_age_destroyed_sats_days
              ∷ codes " satoshi-days ("
              ∷ x.fixed 2 btc_years
              ∷ codes " BTC-years)."
              ∷ []))))

  -- `DormantCoinDetector::detect`
  unfoldable pub detect_dormant :
      Encoders → Readings → DormantCoinDetector → Observation → List ChainEvent
  unfolding tally_inputs dormant_event
  detect_dormant encode r d (transaction tx) =
      let t = tally_inputs d tx tx.inputs empty_tally in
      if (t.qualifying_inputs_count == 0) || ltb t.total_dormant_sats d.min_value_sats
      then []
      else dormant_event encode r tx t ∷ []
  detect_dormant encode r d _ = []
