-- ===== src/Ingest/Enricher/Privacy.antt =====
-- What an enricher (crates/obschain-ingest/src/enricher.rs) asks of its sources.
use obschain.Prelude.{
  ℕ, ◌+◌, true, Option, none, some, List, [], ◌∷◌, ◌++◌, Text, ◌≡◌, refl, ap, ◌∙◌, if◌then◌else◌,
}
use obschain.Core.External.{Externals}
use obschain.Core.Observation.{TransactionObservation, TxInputObservation, SpentOutputContext}
use obschain.Ingest.Cache.{UtxoCache, get_output}
use obschain.Ingest.Enricher.{
  Sources, TransactionEnricher, MempoolTransaction, FirstPass, node_answer, look_up, else_service,
  VerboseTransaction, enrich_inputs, note_input, first_pass, fetch, resolve, enrich_transaction,
  is_unspendable,
}

module _ (s : Sources) (client : Option (Text → Option MempoolTransaction)) where
  -- the same sources with another mempool service, or with none
  abbrev pub with_client : Sources
  with_client = record s { rest_client = client }

  else_service-sovereign :
      (txid : Text) (answer : Option VerboseTransaction)
      → s.sovereign_only ≡ true
      → else_service with_client txid answer ≡ else_service s txid answer
  unfolding else_service
  else_service-sovereign txid none h = rw h refl
  else_service-sovereign txid (some tx) h = refl

  look_up-sovereign :
      (txid : Text) → s.sovereign_only ≡ true → look_up with_client txid ≡ look_up s txid
  unfolding look_up
  look_up-sovereign txid h = else_service-sovereign txid (node_answer s txid) h

  note_input-client :
      (input : TxInputObservation) (g : Option SpentOutputContext × UtxoCache) (p : FirstPass)
      → note_input with_client input g p ≡ note_input s input g p
  unfolding note_input
  note_input-client input (none, cache) p = refl
  note_input-client input (some ctx, cache) p = refl

  first_pass-client :
      (clock : ℕ → ℕ) (n : ℕ) (inputs : List TxInputObservation) (p : FirstPass)
      → first_pass with_client clock n inputs p ≡ first_pass s clock n inputs p
  unfolding first_pass
  first_pass-client clock n [] p = refl
  first_pass-client clock n (i ∷ inputs) p =
      let g = get_output (clock n) i.txid i.vout p.cache in
      first_pass-client clock (n + 1) inputs _
      ∙ ap
          (λ noted.
            first_pass s clock (n + 1) inputs
              (if is_unspendable i then record p { inputs = p.inputs ++ i ∷ [] } else noted))
          (note_input-client i g p)

  fetch-sovereign :
      (clock : ℕ → ℕ) (n : ℕ) (txids : List Text) (e : TransactionEnricher)
      → s.sovereign_only ≡ true
      → fetch with_client clock n txids e ≡ fetch s clock n txids e
  unfolding fetch
  fetch-sovereign clock n [] e h = refl
  fetch-sovereign clock n (txid ∷ txids) e h =
      rw (look_up-sovereign txid h) (fetch-sovereign clock (n + 1) txids _ h)

  module _ (x : Externals) (order : List Text → List Text) (second third : ℕ → ℕ) where
    resolve-sovereign :
        (missing : List Text) (p : FirstPass) (tx : TransactionObservation)
        (e : TransactionEnricher)
        → s.sovereign_only ≡ true
        → resolve x with_client order second third missing p tx e
          ≡ resolve x s order second third missing p tx e
    unfolding resolve
    resolve-sovereign [] p tx e h = refl
    resolve-sovereign (txid ∷ txids) p tx e h =
        rw (fetch-sovereign second 0 (order (txid ∷ txids)) (record e { cache = p.cache }) h) refl

    enrich_inputs-sovereign :
        (first : ℕ → ℕ) (inputs : List TxInputObservation) (tx : TransactionObservation)
        (e : TransactionEnricher)
        → s.sovereign_only ≡ true
        → enrich_inputs x with_client order first second third inputs tx e
          ≡ enrich_inputs x s order first second third inputs tx e
    unfolding enrich_inputs
    enrich_inputs-sovereign first [] tx e h = refl
    enrich_inputs-sovereign first (i ∷ is) tx e h =
        let start : FirstPass = record { inputs = []; missing = []; cache = e.cache } in
        let p = first_pass s first 0 (i ∷ is) start in
        rw (first_pass-client first 0 (i ∷ is) start) (resolve-sovereign p.missing p tx e h)

-- What a sovereign enricher makes of a transaction, and what it caches and counts, do not depend on the
-- public mempool service: it is the same with any other service in its place, or with none.
pub enrich_transaction-sovereign :
    (x : Externals) (s : Sources) (client : Option (Text → Option MempoolTransaction))
    (order : List Text → List Text) (first second third : ℕ → ℕ) (tx : TransactionObservation)
    (e : TransactionEnricher)
    → s.sovereign_only ≡ true
    → enrich_transaction x (with_client s client) order first second third tx e
      ≡ enrich_transaction x s order first second third tx e
unfolding enrich_transaction
enrich_transaction-sovereign x s client order first second third tx e h =
    enrich_inputs-sovereign s client x order second third first tx.inputs tx e h
