-- ===== src/Intelligence/WatchEngine/Outputs.antt =====
-- crates/obschain-intelligence/src/watch_engine.rs: the third part of `process_transaction`, whom the
-- outputs of a transaction pay.
use obschain.Prelude.{ℕ, ◌+◌, Option, none, some, List, [], ◌∷◌, Text, text_eq, codes, concat, show}
use obschain.Core.External.{Uuid, Externals, string, field, end}
use obschain.Core.Observation.{TxOutputObservation}
use obschain.Core.Watch.{
  IncidentActivity, direct, WatchTarget, watched_address_received, watched_script_received,
}
use obschain.Detectors.Blocks.{num}
use obschain.Intelligence.WatchEngine.{outpoint_eq, targets_at}
use obschain.Intelligence.WatchEngine.Activities.{
  Call, Scan, address_strength, report, target_activity,
}

module _ (x : Externals) (c : Call) where
  unfoldable pub script_activity :
      ℕ → TxOutputObservation → Text → WatchTarget → Uuid → IncidentActivity
  unfolding target_activity
  script_activity vout output script_hex target =
      target_activity x c target watched_script_received (some output.value_sats) direct
        (concat (
          codes "Watched scriptPubKey received "
          ∷ show output.value_sats
          ∷ codes " sats in tx "
          ∷ c.tx.txid
          ∷ codes " (output #"
          ∷ show vout
          ∷ codes ")"
          ∷ []))
        (field "script_pubkey" (string script_hex)
          (field "vout_index" (num vout) (field "value_sats" (num output.value_sats) end)))

  -- 3. A: the output pays to a watched script
  unfoldable pub match_script : ℕ → TxOutputObservation → Text → List WatchTarget → Scan → Scan
  unfolding script_activity report
  match_script vout output script_hex [] s = s
  match_script vout output script_hex (target ∷ targets) s =
      match_script vout output script_hex targets
        (report c.new_id target (script_activity vout output script_hex target) s)

  abbrev pub match_script_at : ℕ → TxOutputObservation → Option Text → Scan → Scan
  match_script_at vout output none s = s
  match_script_at vout output (some script_hex) s =
      match_script vout output script_hex
        (targets_at (x.to_lowercase script_hex) s.engine.script_index) s

  unfoldable pub receiver_activity :
      ℕ → TxOutputObservation → Text → WatchTarget → Uuid → IncidentActivity
  unfolding target_activity address_strength
  receiver_activity vout output addr target =
      target_activity x c target watched_address_received (some output.value_sats)
        (address_strength target.classification)
        (concat (
          codes "Monitored address "
          ∷ addr
          ∷ codes " received "
          ∷ show output.value_sats
          ∷ codes " sats in tx "
          ∷ c.tx.txid
          ∷ codes " (output #"
          ∷ show vout
          ∷ codes ")"
          ∷ []))
        (field "address" (string addr)
          (field "vout_index" (num vout) (field "value_sats" (num output.value_sats) end)))

  -- 3. B: the output pays to a watched address
  unfoldable pub match_receiver : ℕ → TxOutputObservation → Text → List WatchTarget → Scan → Scan
  unfolding receiver_activity report
  match_receiver vout output addr [] s = s
  match_receiver vout output addr (target ∷ targets) s =
      match_receiver vout output addr targets
        (report c.new_id target (receiver_activity vout output addr target) s)

  abbrev pub match_receiver_at : ℕ → TxOutputObservation → Option Text → Scan → Scan
  match_receiver_at vout output none s = s
  match_receiver_at vout output (some addr) s =
      match_receiver vout output addr (targets_at addr s.engine.address_index) s

  unfoldable pub evaluate_output : ℕ → TxOutputObservation → Scan → Scan
  unfolding match_script match_receiver
  evaluate_output vout output s =
      match_receiver_at vout output output.address
        (match_script_at vout output output.scriptpubkey_hex s)

  unfoldable pub evaluate_outputs : ℕ → List TxOutputObservation → Scan → Scan
  unfolding evaluate_output
  evaluate_outputs vout [] s = s
  evaluate_outputs vout (output ∷ outputs) s =
      evaluate_outputs (vout + 1) outputs (evaluate_output vout output s)
