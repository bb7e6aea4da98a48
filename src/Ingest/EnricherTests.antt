-- ===== src/Ingest/EnricherTests.antt =====
-- The theorems on the enricher at a transaction of one unknown input, and a run.
use obschain.Prelude.{ℕ, true, false, Option, none, some, [], ◌∷◌, Text, text_beq, ◌≡◌, refl}
use obschain.Prelude.Map.{get, insert}
use obschain.Core.Samples.{externals, old_input, output_of, spend}
use obschain.Core.Observation.{TransactionObservation, TxInputObservation}
use obschain.Ingest.Cache.{new_cache, get_output, insert_tx, output_at, evict, cleaned}
use obschain.Ingest.Enricher.{
  Sources, TransactionEnricher, MempoolTransaction, enrich_transaction, enrich_inputs, resolve,
  first_pass, fetch, look_up, else_service, of_mempool, note_input, third_pass, with_fees,
}
use obschain.Ingest.Enricher.Privacy.{with_client, enrich_transaction-sovereign}

abbrev unknown_input : TxInputObservation
unknown_input = record (old_input 0) { prev_out_value_sats = none; historical_utxo = none }

abbrev unpriced : TransactionObservation
unpriced = record (spend (unknown_input ∷ []) (output_of 700 ∷ [])) {
  total_input_sats = 0;
  total_output_sats = 700;
  fee_sats = 0;
}

-- a service that knows one output of every transaction
abbrev service : Text → Option MempoolTransaction
service txid =
    some
      (record { confirmed = true; block_height = some 5; block_time = some 9; vout = 1_000 ∷ [] })

abbrev public_sources : Sources
public_sources = record {
  bitcoin_rpc = none;
  rest_client = some service;
  sovereign_only = false;
  max_input_enrichment = 10;
  from_timestamp = λ t. some t;
  to_sats = λ v. v;
}

abbrev sovereign : Sources
sovereign = record public_sources { sovereign_only = true }

abbrev fresh : TransactionEnricher
fresh = record { cache = new_cache 10 60; transactions_enriched = 0; lookup_failures = 0 }

abbrev at_once : ℕ → ℕ
at_once n = 0

enrich_transaction-sovereign_example :
    enrich_transaction externals
      (with_client sovereign none)
      (λ ids. ids)
      at_once
      at_once
      at_once
      unpriced
      fresh
    ≡ enrich_transaction externals sovereign (λ ids. ids) at_once at_once at_once unpriced fresh
enrich_transaction-sovereign_example =
    enrich_transaction-sovereign externals sovereign none (λ ids. ids) at_once at_once at_once
      unpriced fresh refl

-- The service tells the value of the input, and with it the fee.
fee_is_known :
    (enrich_transaction externals public_sources
      (λ ids. ids)
      at_once
      at_once
      at_once
      unpriced
      fresh).0.fee_sats
    ≡ 300
unfolding enrich_transaction enrich_inputs resolve first_pass fetch look_up else_service of_mempool
    note_input third_pass with_fees new_cache get_output insert_tx output_at evict cleaned get
    insert text_beq
fee_is_known = refl

-- A sovereign enricher does not learn it.
fee_is_unknown :
    (enrich_transaction externals sovereign
      (λ ids. ids)
      at_once
      at_once
      at_once
      unpriced
      fresh).1.lookup_failures
    ≡ 1
unfolding enrich_transaction enrich_inputs resolve first_pass fetch look_up else_service of_mempool
    note_input third_pass with_fees new_cache get_output insert_tx output_at evict cleaned get
    insert text_beq
fee_is_unknown = refl
