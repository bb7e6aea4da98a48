-- ===== src/Ingest/Enricher.antt =====
-- crates/obschain-ingest/src/enricher.rs: the context of the outputs that a transaction spends. The
-- clients are parameters: a client is a function from the identifier of a transaction to what it
-- answers, or to nothing if it fails. The semaphore is never closed and no lookup panics. A pass
-- reads the clock once for each lookup, given by the number of lookups before it.
pub mod Privacy
pub mod Keeping
use obschain.Prelude.{
  ℕ, ◌+◌, ◌-◌, ◌*◌, ◌%◌, ◌^◌, Bool, true, false, not, ◌&&◌, ◌||◌, Option, none, some, List, [], ◌∷◌,
  ◌++◌, map, Text, text_eq, nat_eq, contains, length, ltb, leb, if◌then◌else◌, ◌==◌,
}
use obschain.Core.External.{Externals, F64, DateTime}
use obschain.Core.Observation.{TransactionObservation, TxInputObservation, SpentOutputContext}
use obschain.Ingest.Cache.{UtxoCache, CachedTxOutputs, get_output, insert_tx}

-- what the enricher reads of an answer of the node
pub record VerboseTransaction : Type 0 where
  pub blocktime : Option ℕ
  pub confirmations : Option ℕ
  -- the number and the value of each output
  pub vout : List (ℕ × F64)

-- what the enricher reads of an answer of the mempool service
pub record MempoolTransaction : Type 0 where
  pub confirmed : Bool
  pub block_height : Option ℕ
  pub block_time : Option ℕ
  pub vout : List ℕ

-- The sources and the configuration of `TransactionEnricher`, which do not change.
pub record Sources : Type 0 where
  pub bitcoin_rpc : Option (Text → Option VerboseTransaction)
  pub rest_client : Option (Text → Option MempoolTransaction)
  pub sovereign_only : Bool
  pub max_input_enrichment : ℕ
  -- `DateTime::from_timestamp(t, 0)`
  pub from_timestamp : ℕ → Option DateTime
  -- `(value * 100_000_000.0).round() as u64`
  pub to_sats : F64 → ℕ

-- the state of `TransactionEnricher`
pub record TransactionEnricher : Type 0 where
  pub cache : UtxoCache
  pub transactions_enriched : ℕ
  pub lookup_failures : ℕ

abbrev pub timestamp : Sources → Option ℕ → Option DateTime
timestamp s none = none
timestamp s (some t) = s.from_timestamp t

abbrev pub is_confirmed : Option ℕ → Bool
is_confirmed none = false
is_confirmed (some n) = ltb 0 n

abbrev pub numbered : ℕ → List ℕ → List (ℕ × ℕ)
numbered i [] = []
numbered i (v ∷ vs) = (i, v) ∷ numbered (i + 1) vs

unfoldable pub of_verbose : Sources → VerboseTransaction → CachedTxOutputs
of_verbose s tx = record {
  confirmed = is_confirmed tx.confirmations;
  block_height = none;
  confirmed_at = timestamp s tx.blocktime;
  outputs = map (λ (v : ℕ × F64). (v.0, s.to_sats v.1)) tx.vout;
}

unfoldable pub of_mempool : Sources → MempoolTransaction → CachedTxOutputs
of_mempool s tx = record {
  confirmed = tx.confirmed;
  block_height = tx.block_height;
  confirmed_at = timestamp s tx.block_time;
  outputs = numbered 0 tx.vout;
}

-- the node's answer, if a node is configured and answers
abbrev pub node_answer : Sources → Text → Option VerboseTransaction
node_answer s txid = elim s.bitcoin_rpc [ none ↦ none | some rpc ↦ rpc txid ]

abbrev pub service_answer : Sources → Text → Option MempoolTransaction
service_answer s txid = elim s.rest_client [ none ↦ none | some client ↦ client txid ]

-- the node's answer, else the service's, which is not asked by a sovereign enricher
unfoldable pub else_service : Sources → Text → Option VerboseTransaction → Option CachedTxOutputs
unfolding of_verbose of_mempool
else_service s prev_txid (some tx) = some (of_verbose s tx)
else_service s prev_txid none =
    if s.sovereign_only
    then none
    else elim (service_answer s prev_txid) [ none ↦ none | some tx ↦ some (of_mempool s tx) ]

-- A lookup of one transaction; it fails when it finds nothing.
unfoldable pub look_up : Sources → Text → Option CachedTxOutputs
unfolding else_service
look_up s prev_txid = else_service s prev_txid (node_answer s prev_txid)

-- the inputs after the first pass, the transactions that are missing, and the cache
pub record FirstPass : Type 0 where
  pub inputs : List TxInputObservation
  pub missing : List Text
  pub cache : UtxoCache

abbrev pub is_unspendable : TxInputObservation → Bool
is_unspendable input = input.is_coinbase || length input.txid == 0

abbrev pub with_context : SpentOutputContext → TxInputObservation → TxInputObservation
with_context ctx input = record input { historical_utxo = some ctx }

-- `HashSet::insert`
abbrev pub insert_missing : Text → List Text → List Text
insert_missing txid missing = if contains txid missing then missing else missing ++ txid ∷ []

-- one input of the first pass, by what the cache says
unfoldable pub note_input :
    Sources → TxInputObservation → Option SpentOutputContext × UtxoCache → FirstPass → FirstPass
note_input s input (some ctx, cache) p = record p {
  inputs = p.inputs ++ with_context ctx input ∷ [];
  cache = cache;
}
note_input s input (none, cache) p = record {
  inputs = p.inputs ++ input ∷ [];
  missing =
      if ltb (length p.missing) s.max_input_enrichment
      then insert_missing input.txid p.missing
      else p.missing;
  cache = cache;
}

unfoldable pub first_pass : Sources → (ℕ → ℕ) → ℕ → List TxInputObservation → FirstPass → FirstPass
unfolding note_input
first_pass s clock n [] p = p
first_pass s clock n (input ∷ inputs) p =
    let noted = note_input s input (get_output (clock n) input.txid input.vout p.cache) p in
    let next =
      if is_unspendable input then record p { inputs = p.inputs ++ input ∷ [] } else noted in
    first_pass s clock (n + 1) inputs next

-- The second pass: the lookups in the order in which they end.
unfoldable pub fetch : Sources → (ℕ → ℕ) → ℕ → List Text → TransactionEnricher → TransactionEnricher
unfolding look_up
fetch s clock n [] e = e
fetch s clock n (txid ∷ txids) e = fetch s clock (n + 1) txids (elim (look_up s txid) [
  | none ↦ record e { lookup_failures = (e.lookup_failures + 1) % 2 ^ 64 }
  | some info ↦ record e { cache = insert_tx (clock n) txid info e.cache }
])

abbrev pub or_value : Option ℕ → ℕ → Option ℕ
or_value none v = some v
or_value (some w) v = some w

abbrev pub assign : TxInputObservation → Option SpentOutputContext → TxInputObservation
assign input none = input
assign input (some ctx) = record input {
  historical_utxo = some ctx;
  prev_out_value_sats = or_value input.prev_out_value_sats ctx.value_sats;
}

unfoldable pub third_pass :
    (ℕ → ℕ) → ℕ → List TxInputObservation → UtxoCache → List TxInputObservation × UtxoCache
third_pass clock n [] cache = ([], cache)
third_pass clock n (input ∷ inputs) cache =
    let (ctx, cache') = get_output (clock n) input.txid input.vout cache in
    let (rest, end) =
      third_pass clock (n + 1) inputs (if input.is_coinbase then cache else cache') in
    ((if input.is_coinbase then input else assign input ctx) ∷ rest, end)

abbrev pub has_value : Option ℕ → Bool
has_value none = false
has_value (some v) = true

abbrev pub all_known : List TxInputObservation → Bool
all_known [] = true
all_known (i ∷ is) = (has_value i.prev_out_value_sats || i.is_coinbase) && all_known is

abbrev pub or_nothing : Option ℕ → ℕ
or_nothing none = 0
or_nothing (some v) = v

abbrev pub sum_values : List TxInputObservation → ℕ
sum_values [] = 0
sum_values (i ∷ is) = or_nothing i.prev_out_value_sats + sum_values is

abbrev pub or_rate : Externals → ℕ → ℕ → Option F64 → Option F64
or_rate x fee vsize (some r) = some r
or_rate x fee vsize none =
    if ltb 0 vsize then some (x.div (x.to_f64 fee) (x.to_f64 vsize)) else none

-- The totals, where every input is known; the sum wraps around as it does in a release build.
unfoldable pub with_fees : Externals → TransactionObservation → TransactionObservation
with_fees x tx =
    let total_in = sum_values tx.inputs % 2 ^ 64 in
    let fee = total_in - tx.total_output_sats in
    if tx.total_input_sats == 0 && all_known tx.inputs
    then (if leb tx.total_output_sats total_in
        then record tx {
          total_input_sats = total_in;
          fee_sats = fee;
          fee_rate_sat_vb = or_rate x fee tx.vsize tx.fee_rate_sat_vb;
        }
        else record tx { total_input_sats = total_in })
    else tx

abbrev pub counted : TransactionEnricher → TransactionEnricher
counted e = record e { transactions_enriched = (e.transactions_enriched + 1) % 2 ^ 64 }

-- The second and the third pass and the fees, where transactions are missing; `order` is the order in
-- which their lookups end.
unfoldable pub resolve :
    Externals
    → Sources
    → (order : List Text → List Text) → (second third : ℕ → ℕ) → (missing : List Text) → FirstPass
    → TransactionObservation
    → TransactionEnricher
    → TransactionObservation × TransactionEnricher
unfolding fetch third_pass with_fees
resolve x s order second third [] p tx e0 =
    (record tx { inputs = p.inputs }, counted (record e0 { cache = p.cache }))
resolve x s order second third (txid ∷ txids) p tx e0 =
    let e = fetch s second 0 (order (txid ∷ txids)) (record e0 { cache = p.cache }) in
    let (inputs, cache) = third_pass third 0 p.inputs e.cache in
    (with_fees x (record tx { inputs = inputs }), counted (record e { cache = cache }))

unfoldable pub enrich_inputs :
    Externals
    → Sources
    → (order : List Text → List Text) → (first second third : ℕ → ℕ) → List TxInputObservation
    → TransactionObservation
    → TransactionEnricher
    → TransactionObservation × TransactionEnricher
unfolding first_pass resolve
enrich_inputs x s order first second third [] tx e = (tx, e)
enrich_inputs x s order first second third (i ∷ is) tx e =
    let p = first_pass s first 0 (i ∷ is) (record { inputs = []; missing = []; cache = e.cache }) in
    resolve x s order second third p.missing p tx e

unfoldable pub enrich_transaction :
    Externals
    → Sources
    → (order : List Text → List Text) → (first second third : ℕ → ℕ) → TransactionObservation
    → TransactionEnricher
    → TransactionObservation × TransactionEnricher
unfolding enrich_inputs
enrich_transaction x s order first second third tx e =
    enrich_inputs x s order first second third tx.inputs tx e
