-- ===== src/Intelligence/WatchEngine/Completeness.antt =====
-- `process_transaction` finds what a scan of all targets finds.
use mathlib.Core.List.{append_assoc, append-nil}
use obschain.Prelude.{ℕ, ◌+◌, List, [], ◌∷◌, ◌++◌, text_eq, nat_eq, ◌≡◌, ◌∙◌, ap, sym}
use obschain.Core.External.{Externals}
use obschain.Core.Observation.{TxInputObservation, TxOutputObservation}
use obschain.Core.Watch.{WatchTarget, watched_address_spent, watched_outpoint_spent}
use obschain.Intelligence.WatchEngine.{IncidentWatchEngine, OutPoint, outpoint_eq, targets_at}
use obschain.Intelligence.WatchEngine.Activities.{Call, Scan}
use obschain.Intelligence.WatchEngine.Inputs.{
  evaluate_input, evaluate_inputs, match_descendant, match_outpoint,
}
use obschain.Intelligence.WatchEngine.Outputs.{
  evaluate_output, evaluate_outputs, match_receiver_at, match_script_at,
}
use obschain.Intelligence.WatchEngine.Processing.{match_txid, process_transaction}
use obschain.Intelligence.WatchEngine.Watched.{is_outpoint, of_kind}
use obschain.Intelligence.WatchEngine.Represented.{Represents}
use obschain.Intelligence.WatchEngine.Expected.{
  at_address, by_rule, expected, input_sightings, output_sightings, proven, seen, sightings,
}
use obschain.Intelligence.WatchEngine.Following.{
  evaluate_input-keeps, evaluate_inputs-keeps, match_descendant-keeps, match_outpoint-keeps,
  match_txid-keeps, match_script_at-keeps, match_receiver_at-keeps,
}
use obschain.Intelligence.WatchEngine.Targets.{enroll_descendants-Represents}
use obschain.Intelligence.WatchEngine.Matches.{
  match_descendant-seen, match_outpoint-seen, match_receiver_at-seen, match_script_at-seen,
  match_spender_at-seen, match_txid-seen,
}

module _ (x : Externals) (c : Call) (ts : List WatchTarget) where
  evaluate_input-seen :
      (vin : ℕ) (input : TxInputObservation) (s : Scan)
      → Represents x ts s.engine
      → seen (evaluate_input x c vin input s).results
        ≡ seen s.results
          ++ (sightings watched_outpoint_spent input.prev_out_value_sats proven
                (of_kind (is_outpoint x (x.to_lowercase input.txid, input.vout)) ts)
              ++ sightings watched_address_spent input.prev_out_value_sats by_rule
                  (at_address input.prev_out_address ts))
  unfolding evaluate_input
  evaluate_input-seen vin input s r =
      let key : OutPoint = (x.to_lowercase input.txid, input.vout) in
      let targets = targets_at key s.engine.outpoint_index in
      let s1 = match_outpoint x c vin input targets s in
      let r1 =
        match_outpoint-keeps x c (Represents x ts) (enroll_descendants-Represents x c.tx ts)
          (λ k e h. h) vin input targets s r in
      let s2 = match_descendant x c input s1 in
      let r2 =
        match_descendant-keeps x c (Represents x ts) (enroll_descendants-Represents x c.tx ts)
          (λ k e h. h) input s1 r1 in
      match_spender_at-seen x c ts vin input input.prev_out_address s2 r2
      ∙ rw
          (
            match_descendant-seen x c input s1,
            match_outpoint-seen x c vin input targets s,
            r.outpoints key,
          )
          (append_assoc (seen s.results) _ _)

  evaluate_inputs-seen :
      (vin : ℕ) (inputs : List TxInputObservation) (s : Scan)
      → Represents x ts s.engine
      → seen (evaluate_inputs x c vin inputs s).results
        ≡ seen s.results ++ input_sightings x ts inputs
  unfolding evaluate_inputs
  evaluate_inputs-seen vin [] s r = sym (append-nil (seen s.results))
  evaluate_inputs-seen vin (input ∷ inputs) s r =
      let r' =
        evaluate_input-keeps x c (Represents x ts) (enroll_descendants-Represents x c.tx ts)
          (λ k e h. h) vin input s r in
      evaluate_inputs-seen (vin + 1) inputs (evaluate_input x c vin input s) r'
      ∙ simp (evaluate_input-seen vin input s r, append_assoc)

  evaluate_outputs-seen :
      (vout : ℕ) (outputs : List TxOutputObservation) (s : Scan)
      → Represents x ts s.engine
      → seen (evaluate_outputs x c vout outputs s).results
        ≡ seen s.results ++ output_sightings x ts outputs
  unfolding evaluate_outputs evaluate_output
  evaluate_outputs-seen vout [] s r = sym (append-nil (seen s.results))
  evaluate_outputs-seen vout (output ∷ outputs) s r =
      let s1 = match_script_at x c vout output output.scriptpubkey_hex s in
      let r1 =
        match_script_at-keeps x c (Represents x ts) (enroll_descendants-Represents x c.tx ts)
          (λ k e h. h) vout output output.scriptpubkey_hex s r in
      let s2 = match_receiver_at x c vout output output.address s1 in
      let r2 =
        match_receiver_at-keeps x c (Represents x ts) (enroll_descendants-Represents x c.tx ts)
          (λ k e h. h) vout output output.address s1 r1 in
      evaluate_outputs-seen (vout + 1) outputs s2 r2
      ∙ simp (
        match_receiver_at-seen x c ts vout output output.address s1 r1,
        match_script_at-seen x c ts vout output output.scriptpubkey_hex s r,
        append_assoc,
      )

  -- If the indices of the engine stand for the list `ts`, then what a call of `process_transaction`
  -- reports of the targets themselves, leaving out the activities of their descendants, is exactly what
  -- a scan of the list finds, kind, target, incident, value and strength, in this order: for each target
  -- that is the transaction one report, then for each input one for each target that is the output it
  -- spends and for each that is the address it spends from, then for each output one for each target
  -- that is its script and for each that is its address. An address counts as the target's
  -- classification allows, all else as direct.
  pub process_transaction-seen :
      (e : IncidentWatchEngine)
      → Represents x ts e
      → seen (process_transaction x c e).results ≡ expected x ts c
  unfolding process_transaction
  process_transaction-seen e r =
      let key = x.to_lowercase c.tx.txid in
      let targets = targets_at key e.txid_index in
      let s0 : Scan = record { results = []; drawn = 0; engine = e } in
      let s1 = match_txid x c targets s0 in
      let P = Represents x ts in
      let enrolls = enroll_descendants-Represents x c.tx ts in
      let r1 = match_txid-keeps x c P enrolls (λ k e' h. h) targets s0 r in
      let s2 = evaluate_inputs x c 0 c.tx.inputs s1 in
      let r2 = evaluate_inputs-keeps x c P enrolls (λ k e' h. h) 0 c.tx.inputs s1 r1 in
      evaluate_outputs-seen 0 c.tx.outputs s2 r2
      ∙ ap (λ l. l ++ output_sightings x ts c.tx.outputs)
          (evaluate_inputs-seen 0 c.tx.inputs s1 r1
            ∙ ap (λ l. l ++ input_sightings x ts c.tx.inputs) (match_txid-seen x c targets s0))
      ∙ rw (r.txids key)
          (append_assoc _ (input_sightings x ts c.tx.inputs) (output_sightings x ts c.tx.outputs))
