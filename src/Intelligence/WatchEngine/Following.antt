-- ===== src/Intelligence/WatchEngine/Following.antt =====
-- What `process_transaction` does to the engine: it forgets descendants that are spent and enrolls the
-- outputs of the transaction, and nothing else.
use obschain.Prelude.{
  ℕ, ◌+◌, ◌≤◌, Option, none, some, List, [], ◌∷◌, Text, ltb, nat_eq, text_eq, arith, inl, inr,
  Bool-cases, Option-cases,
}
use obschain.Prelude.Map.{get, remove}
use obschain.Core.External.{Externals}
use obschain.Core.Observation.{TxInputObservation, TxOutputObservation}
use obschain.Core.Watch.{WatchTarget}
use obschain.Intelligence.WatchEngine.{
  IncidentWatchEngine, OutPoint, TrackedDescendantOutpoint, enroll_descendants, outpoint_eq,
  targets_at,
}
use obschain.Intelligence.WatchEngine.Activities.{
  Call, Scan, enroll_in, report, report_descendant, first_generation, next_generation,
  forget_outpoint,
}
use obschain.Intelligence.WatchEngine.Inputs.{
  match_outpoint, match_descendant, match_spender, match_spender_at, evaluate_input,
  evaluate_inputs,
}
use obschain.Intelligence.WatchEngine.Outputs.{
  match_script, match_script_at, match_receiver, match_receiver_at, evaluate_output,
  evaluate_outputs,
}
use obschain.Intelligence.WatchEngine.Processing.{match_txid, process_transaction}

-- What enrolling a descendant and forgetting one preserve holds of the engine after the call.
module _ (x : Externals) (c : Call) (P : IncidentWatchEngine → Type 0)
    (enroll : (tracked : TrackedDescendantOutpoint) (e : IncidentWatchEngine)
      → 1 ≤ tracked.depth
      → P e
      → P (enroll_descendants x c.tx tracked e))
    (forgets : (key : OutPoint) (e : IncidentWatchEngine)
      → P e
      → P (record e { descendant_outpoints = remove key e.descendant_outpoints })) where
  pub match_txid-keeps :
      (targets : List WatchTarget) (s : Scan) → P s.engine → P (match_txid x c targets s).engine
  unfolding match_txid report
  match_txid-keeps [] s h = h
  match_txid-keeps (target ∷ targets) s h = match_txid-keeps targets _ h

  pub match_outpoint-keeps :
      (vin : ℕ) (input : TxInputObservation) (targets : List WatchTarget) (s : Scan)
      → P s.engine
      → P (match_outpoint x c vin input targets s).engine
  unfolding match_outpoint report enroll_in first_generation
  match_outpoint-keeps vin input [] s h = h
  match_outpoint-keeps vin input (target ∷ targets) s h =
      match_outpoint-keeps vin input targets _
        (enroll (first_generation x c target) s.engine (omega arith) h)

  report_descendant-keeps :
      (input : TxInputObservation) (d : TrackedDescendantOutpoint) (origin : Option WatchTarget)
      (s : Scan)
      → P s.engine
      → P (report_descendant x c input d origin s).engine
  unfolding report_descendant report
  report_descendant-keeps input d none s h = h
  report_descendant-keeps input d (some target) s h = h

  pub match_descendant-keeps :
      (input : TxInputObservation) (s : Scan) → P s.engine → P (match_descendant x c input s).engine
  unfolding match_descendant forget_outpoint
  match_descendant-keeps input s h =
      let key : OutPoint = (x.to_lowercase input.txid, input.vout) in
      elim (Option-cases (get key s.engine.descendant_outpoints)) [
        | inl e ↦ rw (e, match_descendant) h
        | inr (d, e) ↦
            let s1 = forget_outpoint key s in
            let origin = get d.origin_target_id s1.engine.all_targets in
            let s2 = report_descendant x c input d origin s1 in
            let kept = report_descendant-keeps input d origin s1 (forgets key s.engine h) in
            elim (Bool-cases (ltb d.depth s2.engine.max_descendant_depth)) [
              | inl deeper ↦
                  rw (e, match_descendant)
                    (rw deeper (
                      unfold enroll_in next_generation in
                      enroll (next_generation x c d) s2.engine (omega arith) kept))
              | inr last ↦ rw (e, match_descendant) (rw last kept)
            ]
      ]

  match_spender-keeps :
      (vin : ℕ) (input : TxInputObservation) (addr : Text) (targets : List WatchTarget) (s : Scan)
      → P s.engine
      → P (match_spender x c vin input addr targets s).engine
  unfolding match_spender report
  match_spender-keeps vin input addr [] s h = h
  match_spender-keeps vin input addr (target ∷ targets) s h =
      match_spender-keeps vin input addr targets _ h

  match_spender_at-keeps :
      (vin : ℕ) (input : TxInputObservation) (addr : Option Text) (s : Scan)
      → P s.engine
      → P (match_spender_at x c vin input addr s).engine
  match_spender_at-keeps vin input none s h = h
  match_spender_at-keeps vin input (some addr) s h =
      match_spender-keeps vin input addr (targets_at addr s.engine.address_index) s h

  pub evaluate_input-keeps :
      (vin : ℕ) (input : TxInputObservation) (s : Scan)
      → P s.engine
      → P (evaluate_input x c vin input s).engine
  unfolding evaluate_input
  evaluate_input-keeps vin input s h =
      let key : OutPoint = (x.to_lowercase input.txid, input.vout) in
      let targets = targets_at key s.engine.outpoint_index in
      let s1 = match_outpoint x c vin input targets s in
      match_spender_at-keeps vin input input.prev_out_address (match_descendant x c input s1)
        (match_descendant-keeps input s1 (match_outpoint-keeps vin input targets s h))

  pub evaluate_inputs-keeps :
      (vin : ℕ) (inputs : List TxInputObservation) (s : Scan)
      → P s.engine
      → P (evaluate_inputs x c vin inputs s).engine
  unfolding evaluate_inputs
  evaluate_inputs-keeps vin [] s h = h
  evaluate_inputs-keeps vin (input ∷ inputs) s h =
      evaluate_inputs-keeps (vin + 1) inputs _ (evaluate_input-keeps vin input s h)

  match_script-keeps :
      (vout : ℕ) (output : TxOutputObservation) (script_hex : Text) (targets : List WatchTarget)
      (s : Scan)
      → P s.engine
      → P (match_script x c vout output script_hex targets s).engine
  unfolding match_script report
  match_script-keeps vout output script_hex [] s h = h
  match_script-keeps vout output script_hex (target ∷ targets) s h =
      match_script-keeps vout output script_hex targets _ h

  pub match_script_at-keeps :
      (vout : ℕ) (output : TxOutputObservation) (script_hex : Option Text) (s : Scan)
      → P s.engine
      → P (match_script_at x c vout output script_hex s).engine
  match_script_at-keeps vout output none s h = h
  match_script_at-keeps vout output (some script_hex) s h =
      match_script-keeps vout output script_hex
        (targets_at (x.to_lowercase script_hex) s.engine.script_index) s h

  match_receiver-keeps :
      (vout : ℕ) (output : TxOutputObservation) (addr : Text) (targets : List WatchTarget)
      (s : Scan)
      → P s.engine
      → P (match_receiver x c vout output addr targets s).engine
  unfolding match_receiver report
  match_receiver-keeps vout output addr [] s h = h
  match_receiver-keeps vout output addr (target ∷ targets) s h =
      match_receiver-keeps vout output addr targets _ h

  pub match_receiver_at-keeps :
      (vout : ℕ) (output : TxOutputObservation) (addr : Option Text) (s : Scan)
      → P s.engine
      → P (match_receiver_at x c vout output addr s).engine
  match_receiver_at-keeps vout output none s h = h
  match_receiver_at-keeps vout output (some addr) s h =
      match_receiver-keeps vout output addr (targets_at addr s.engine.address_index) s h

  evaluate_output-keeps :
      (vout : ℕ) (output : TxOutputObservation) (s : Scan)
      → P s.engine
      → P (evaluate_output x c vout output s).engine
  unfolding evaluate_output
  evaluate_output-keeps vout output s h =
      match_receiver_at-keeps vout output output.address _
        (match_script_at-keeps vout output output.scriptpubkey_hex s h)

  evaluate_outputs-keeps :
      (vout : ℕ) (outputs : List TxOutputObservation) (s : Scan)
      → P s.engine
      → P (evaluate_outputs x c vout outputs s).engine
  unfolding evaluate_outputs
  evaluate_outputs-keeps vout [] s h = h
  evaluate_outputs-keeps vout (output ∷ outputs) s h =
      evaluate_outputs-keeps (vout + 1) outputs _ (evaluate_output-keeps vout output s h)

  pub process_transaction-keeps :
      (e : IncidentWatchEngine) → P e → P (process_transaction x c e).engine
  unfolding process_transaction
  process_transaction-keeps e h =
      let targets = targets_at (x.to_lowercase c.tx.txid) e.txid_index in
      let s0 : Scan = record { results = []; drawn = 0; engine = e } in
      let s1 = match_txid x c targets s0 in
      evaluate_outputs-keeps 0 c.tx.outputs (evaluate_inputs x c 0 c.tx.inputs s1)
        (evaluate_inputs-keeps 0 c.tx.inputs s1 (match_txid-keeps targets s0 h))
