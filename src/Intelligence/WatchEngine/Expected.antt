-- ===== src/Intelligence/WatchEngine/Expected.antt =====
-- What a call of `process_transaction` is to report of a list of targets.
use obschain.Prelude.{
  ℕ, Bool, true, false, Option, none, some, List, [], ◌∷◌, ◌++◌, map, Text, text_eq, nat_eq,
  if◌then◌else◌,
}
use obschain.Core.External.{Externals, Uuid}
use obschain.Core.Observation.{TxInputObservation, TxOutputObservation}
use obschain.Core.Watch.{
  CorrelationStrength, direct, IncidentActivity, IncidentActivityType, IncidentAlert, WatchTarget,
  new_descendant_observed, watched_address_received, watched_address_spent, watched_outpoint_spent,
  watched_script_received,
}
use obschain.Intelligence.WatchEngine.{outpoint_eq}
use obschain.Intelligence.WatchEngine.Activities.{Call, address_strength, sighting}
use obschain.Intelligence.WatchEngine.Watched.{is_address, is_outpoint, is_script, is_txid, of_kind}

-- What an activity says: its kind, the target, the target's incident, the value and the strength.
abbrev pub Sighted : Type 0
Sighted = IncidentActivityType × Uuid × Uuid × Option ℕ × CorrelationStrength

abbrev pub is_descendant : IncidentActivityType → Bool
is_descendant new_descendant_observed = true
is_descendant _ = false

-- What is reported of the targets themselves, without the activities of descendants.
abbrev pub seen : List (IncidentActivity × Option IncidentAlert) → List Sighted
seen [] = []
seen ((a, alert) ∷ results) =
    let rest = seen results in
    if is_descendant a.activity_type
    then rest
    else (a.activity_type, a.watch_target_id, a.incident_id, a.value_sats, a.correlation_strength)
      ∷ rest

abbrev pub sightings :
    IncidentActivityType
    → Option ℕ
    → (WatchTarget → CorrelationStrength)
    → List WatchTarget
    → List Sighted
sightings activity_type value strength targets =
    map (λ (t : WatchTarget). (activity_type, t.id, t.incident_id, value, strength t)) targets

abbrev pub by_rule : WatchTarget → CorrelationStrength
by_rule t = address_strength t.classification

abbrev pub proven : WatchTarget → CorrelationStrength
proven t = direct

abbrev pub at_address : Option Text → List WatchTarget → List WatchTarget
at_address none ts = []
at_address (some addr) ts = of_kind (is_address addr) ts

abbrev pub at_script : Externals → Option Text → List WatchTarget → List WatchTarget
at_script x none ts = []
at_script x (some script_hex) ts = of_kind (is_script x (x.to_lowercase script_hex)) ts

module _ (x : Externals) (ts : List WatchTarget) where
  abbrev pub input_sightings : List TxInputObservation → List Sighted
  input_sightings [] = []
  input_sightings (input ∷ inputs) =
      sightings watched_outpoint_spent input.prev_out_value_sats proven
        (of_kind (is_outpoint x (x.to_lowercase input.txid, input.vout)) ts)
      ++ (sightings watched_address_spent input.prev_out_value_sats by_rule
            (at_address input.prev_out_address ts)
          ++ input_sightings inputs)

  abbrev pub output_sightings : List TxOutputObservation → List Sighted
  output_sightings [] = []
  output_sightings (output ∷ outputs) =
      sightings watched_script_received (some output.value_sats) proven
        (at_script x output.scriptpubkey_hex ts)
      ++ (sightings watched_address_received (some output.value_sats) by_rule
            (at_address output.address ts)
          ++ output_sightings outputs)

  -- what a call is to report of the targets `ts`
  abbrev pub expected : Call → List Sighted
  expected c =
      sightings (sighting c.block_height) (some c.tx.total_output_sats) proven
        (of_kind (is_txid x (x.to_lowercase c.tx.txid)) ts)
      ++ (input_sightings c.tx.inputs ++ output_sightings c.tx.outputs)
