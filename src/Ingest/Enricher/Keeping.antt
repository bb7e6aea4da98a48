-- ===== src/Ingest/Enricher/Keeping.antt =====
-- What an enricher (crates/obschain-ingest/src/enricher.rs) changes of a transaction.
use obschain.Prelude.{
  ℕ, ◌%◌, ◌^◌, ◌-◌, none, List, [], ◌∷◌, Text, ◌≡◌, ◌⊎◌, if◌then◌else◌, leb, ◌==◌, nat_eq, ◌&&◌,
}
use obschain.Core.Observation.{TransactionObservation, TxInputObservation}
use obschain.Ingest.Enricher.{
  Sources, TransactionEnricher, FirstPass, first_pass, sum_values, all_known,
}

-- An input spends the same output, and its value is the same if it was known.
abbrev pub Kept : TxInputObservation → TxInputObservation → Type 0
Kept i j =
    (j.txid ≡ i.txid)
    × (j.vout ≡ i.vout)
    × (j.is_coinbase ≡ i.is_coinbase)
    × ((j.prev_out_value_sats ≡ i.prev_out_value_sats) ⊎ (i.prev_out_value_sats ≡ none))

abbrev pub AllKept : List TxInputObservation → List TxInputObservation → Type 0
AllKept [] [] = Unit
AllKept (i ∷ is) (j ∷ js) = Kept i j × AllKept is js
AllKept _ _ = ⊥

-- Where a transaction was `missing`, whose output an input spends: the total, if it was 0 and every
-- input is now known, is the sum of the inputs (modulo 2^64), and the fee is then what the outputs
-- leave of it, unless they exceed it. All else is as it was.
abbrev pub Balanced : List Text → TransactionObservation → TransactionObservation → Type 0
Balanced [] tx tx' = (tx'.total_input_sats ≡ tx.total_input_sats) × (tx'.fee_sats ≡ tx.fee_sats)
Balanced (txid ∷ txids) tx tx' =
    let total = sum_values tx'.inputs % 2 ^ 64 in
    let complete = tx.total_input_sats == 0 && all_known tx'.inputs in
    (tx'.total_input_sats ≡ (if complete then total else tx.total_input_sats))
    × (tx'.fee_sats ≡ (
        if complete && leb tx.total_output_sats total
        then total - tx.total_output_sats
        else tx.fee_sats))

abbrev pub Enriches : List Text → TransactionObservation → TransactionObservation → Type 0
Enriches missing tx tx' =
    (tx'.txid ≡ tx.txid)
    × (tx'.outputs ≡ tx.outputs)
    × AllKept tx.inputs tx'.inputs
    × Balanced missing tx tx'

-- where the first pass starts, and the transactions that it leaves to be looked up
abbrev pass_start : TransactionEnricher → FirstPass
pass_start e = record { inputs = []; missing = []; cache = e.cache }

abbrev pub missing_of :
    Sources → (first : ℕ → ℕ) → List TxInputObservation → TransactionEnricher → List Text
missing_of s first inputs e = (first_pass s first 0 inputs (pass_start e)).missing
