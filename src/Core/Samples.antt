-- ===== src/Core/Samples.antt =====
-- Concrete data for the tests.
use obschain.Prelude.{
  ℕ, ◌+◌, ◌*◌, ◌/◌, map, if◌then◌else◌, ◌&&◌, true, false, none, some, List, Text, codes, show, leb,
}
use obschain.Core.External.{Externals, Readings, null, DateTime}
use obschain.Core.Source.{ObservationSource}
use obschain.Core.Mode.{ObservationContext, historical_replay}
use obschain.Core.Observation.{
  BlockObservation, TransactionObservation, TxInputObservation, TxOutputObservation,
}
use obschain.Core.Event.{ChainEvent, medium, large_transfer, verified_on_chain, new_event}

-- Floats that are natural numbers, and identifiers that are printed as numbers.
abbrev pub externals : Externals
externals = record {
  new_v5 = λ key. 5;
  uuid_text = show;
  to_f64 = λ n. n;
  div = λ a b. a / b;
  mul = λ a b. a * b;
  i64_to_f64 = λ n. n;
  ge = λ a b. leb b a;
  fixed = λ digits a. show a;
  fixed_signed = λ digits a. show a;
  to_lowercase = map (λ c. if leb b'A' c && leb c b'Z' then c + 32 else c);
  json_float = λ a. null;
  time_text = show;
}

abbrev pub readings : Readings
readings = record { id = 7; now = 1_000; later = 1_001 }

abbrev pub core_zmq : ObservationSource
core_zmq = record { provider = codes "bitcoin_core"; transport = codes "zmq"; endpoint = none }

abbrev pub transfer : ChainEvent
transfer =
    record (new_event readings large_transfer medium verified_on_chain (codes "Large Transfer")
      (codes "A large transfer.")) { txid = some (codes "aa"); source = some core_zmq }

abbrev pub block_at : ℕ → Text → DateTime → BlockObservation
block_at height hash time = record {
  block_hash = hash;
  height = height;
  timestamp = time;
  previous_block_hash = codes "00";
  tx_count = 1;
  size_bytes = 285;
  weight = 1140;
  difficulty = none;
  miner_tag = none;
  interval_seconds = none;
  source = some core_zmq;
}

abbrev pub replay : ObservationContext
replay = record {
  mode = historical_replay;
  replay_job_id = some 9;
  historical_height = some 100;
  historical_block_hash = some (codes "0f");
  historical_timestamp = some 5_000;
  network = codes "mainnet";
}

abbrev pub output_of : ℕ → TxOutputObservation
output_of sats = record {
  value_sats = sats;
  n = 0;
  script_pubkey_type = none;
  address = none;
  scriptpubkey_hex = none;
}

-- an input that spends an output confirmed at the epoch
abbrev pub old_input : ℕ → TxInputObservation
old_input sats = record {
  txid = codes "bb";
  vout = 0;
  sequence = 0;
  prev_out_value_sats = some sats;
  prev_out_address = none;
  is_coinbase = false;
  historical_utxo = some (record {
    txid = codes "bb";
    vout = 0;
    value_sats = sats;
    confirmed_height = some 200_000;
    confirmed_at = some 0;
  });
}

-- a transaction seen 2,000 days after the epoch
abbrev pub spend : List TxInputObservation → List TxOutputObservation → TransactionObservation
spend inputs outputs = record {
  txid = codes "aa";
  timestamp = 172_800_000 * 1_000_000_000;
  block_hash = none;
  block_height = none;
  fee_sats = 1_000;
  size = 200;
  weight = 800;
  vsize = 200;
  fee_rate_sat_vb = none;
  total_input_sats = 300_000_000;
  total_output_sats = 299_999_000;
  input_count = 2;
  output_count = 3;
  inputs = inputs;
  outputs = outputs;
  is_rbf = false;
  confirmed = true;
  source = some core_zmq;
}
