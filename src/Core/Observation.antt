-- ===== src/Core/Observation.antt =====
-- crates/obschain-core/src/observation.rs: the observations that the detectors read.
use obschain.Prelude.{ℕ, Bool, Option, List, Text}
use obschain.Core.External.{F64, DateTime}
use obschain.Core.Source.{ObservationSource}

pub record BlockObservation : Type 0 where
  pub block_hash : Text
  pub height : ℕ
  pub timestamp : DateTime
  pub previous_block_hash : Text
  pub tx_count : ℕ
  pub size_bytes : ℕ
  pub weight : ℕ
  pub difficulty : Option F64
  pub miner_tag : Option Text
  pub interval_seconds : Option ℕ
  pub source : Option ObservationSource

pub record SpentOutputContext : Type 0 where
  pub txid : Text
  pub vout : ℕ
  pub value_sats : ℕ
  pub confirmed_height : Option ℕ
  pub confirmed_at : Option DateTime

pub record TxInputObservation : Type 0 where
  pub txid : Text
  pub vout : ℕ
  pub sequence : ℕ
  pub prev_out_value_sats : Option ℕ
  pub prev_out_address : Option Text
  pub is_coinbase : Bool
  pub historical_utxo : Option SpentOutputContext

pub record TxOutputObservation : Type 0 where
  pub value_sats : ℕ
  pub n : ℕ
  pub script_pubkey_type : Option Text
  pub address : Option Text
  pub scriptpubkey_hex : Option Text

pub record TransactionObservation : Type 0 where
  pub txid : Text
  pub timestamp : DateTime
  pub block_hash : Option Text
  pub block_height : Option ℕ
  pub fee_sats : ℕ
  pub size : ℕ
  pub weight : ℕ
  pub vsize : ℕ
  pub fee_rate_sat_vb : Option F64
  pub total_input_sats : ℕ
  pub total_output_sats : ℕ
  pub input_count : ℕ
  pub output_count : ℕ
  pub inputs : List TxInputObservation
  pub outputs : List TxOutputObservation
  pub is_rbf : Bool
  pub confirmed : Bool
  pub source : Option ObservationSource

pub record MempoolObservation : Type 0 where
  pub count : ℕ
  pub vsize_bytes : ℕ
  pub total_fee_sats : ℕ
  pub min_fee_rate_sat_vb : Option F64
  pub timestamp : DateTime
  pub source : Option ObservationSource

-- `fee_delta_sats`, an `i64`, is its 64-bit pattern.
pub record TransactionReplacement : Type 0 where
  pub replaced_txids : List Text
  pub replacement_txid : Text
  pub old_fee_sats : ℕ
  pub new_fee_sats : ℕ
  pub fee_delta_sats : ℕ
  pub old_vsize : Option ℕ
  pub new_vsize : Option ℕ
  pub old_fee_rate_sat_vb : Option F64
  pub new_fee_rate_sat_vb : Option F64
  pub observed_at : DateTime
  pub source : Option ObservationSource

pub record ReorgObservation : Type 0 where
  pub old_tip_hash : Text
  pub old_tip_height : ℕ
  pub new_tip_hash : Text
  pub new_tip_height : ℕ
  pub common_ancestor_hash : Option Text
  pub depth : ℕ
  pub disconnected_blocks : List Text
  pub connected_blocks : List Text
  pub observed_at : DateTime
  pub source : Option ObservationSource

pub data Observation : Type 0 where
  block : BlockObservation → Observation
  transaction : TransactionObservation → Observation
  mempool : MempoolObservation → Observation
  replacement : TransactionReplacement → Observation
  reorg : ReorgObservation → Observation

abbrev pub source : Observation → Option ObservationSource
source (block b) = b.source
source (transaction t) = t.source
source (mempool m) = m.source
source (replacement r) = r.source
source (reorg r) = r.source

abbrev pub timestamp : Observation → DateTime
timestamp (block b) = b.timestamp
timestamp (transaction t) = t.timestamp
timestamp (mempool m) = m.timestamp
timestamp (replacement r) = r.observed_at
timestamp (reorg r) = r.observed_at
