-- ===== src/Intelligence/WatchEngine/Matches.antt =====
-- What each part of `process_transaction` adds to what is seen of the targets.
use mathlib.Core.List.{append_assoc, append-nil}
use obschain.Prelude.{
  ℕ, true, false, Option, none, some, List, [], ◌∷◌, ◌++◌, Text, text_eq, nat_eq, if◌then◌else◌,
  arith, ◌≡◌, refl, ◌∙◌, sym, Option-cases, inl, inr, ltb,
}
use obschain.Prelude.Map.{get}
use obschain.Core.External.{Externals}
use obschain.Core.Observation.{TxInputObservation, TxOutputObservation}
use obschain.Core.Watch.{
  IncidentActivity, IncidentAlert, WatchTarget, watched_address_received, watched_address_spent,
  watched_outpoint_spent, watched_script_received,
}
use obschain.Intelligence.WatchEngine.{OutPoint, TrackedDescendantOutpoint, outpoint_eq, targets_at}
use obschain.Intelligence.WatchEngine.Activities.{
  Call, Scan, enroll_in, forget_outpoint, report, report_descendant, sighting, target_activity,
  descendant_activity, next_generation,
}
use obschain.Intelligence.WatchEngine.Inputs.{
  match_descendant, match_outpoint, match_spender, match_spender_at,
}
use obschain.Intelligence.WatchEngine.Outputs.{
  match_receiver, match_receiver_at, match_script, match_script_at,
}
use obschain.Intelligence.WatchEngine.Processing.{match_txid}
use obschain.Intelligence.WatchEngine.Represented.{Represents}
use obschain.Intelligence.WatchEngine.Expected.{
  Sighted, at_address, at_script, by_rule, is_descendant, proven, seen, sightings,
}

seen-append :
    (rs qs : List (IncidentActivity × Option IncidentAlert)) → seen (rs ++ qs) ≡ seen rs ++ seen qs
seen-append [] qs = refl
seen-append ((a, alert) ∷ rs) qs = ground (arith, seen-append rs qs)

sighting-target : (h : Option ℕ) → is_descendant (sighting h) ≡ false
sighting-target none = refl
sighting-target (some h) = refl

seen-snoc :
    (rs : List (IncidentActivity × Option IncidentAlert))
    (r : IncidentActivity × Option IncidentAlert) (one : Sighted) (rest : List Sighted)
    → seen (r ∷ []) ≡ one ∷ []
    → seen (rs ++ r ∷ []) ++ rest ≡ seen rs ++ one ∷ rest
seen-snoc rs r one rest e = rw (seen-append rs (r ∷ []), e) (append_assoc (seen rs) (one ∷ []) rest)

module _ (x : Externals) (c : Call) where
  pub match_txid-seen :
      (targets : List WatchTarget) (s : Scan)
      → seen (match_txid x c targets s).results
        ≡ seen s.results
          ++ sightings (sighting c.block_height) (some c.tx.total_output_sats) proven targets
  unfolding match_txid report target_activity
  match_txid-seen [] s = sym (append-nil (seen s.results))
  match_txid-seen (t ∷ targets) s =
      match_txid-seen targets _
      ∙ seen-snoc s.results _ _ _ (rw (sighting-target c.block_height) refl)

  pub match_outpoint-seen :
      (vin : ℕ) (input : TxInputObservation) (targets : List WatchTarget) (s : Scan)
      → seen (match_outpoint x c vin input targets s).results
        ≡ seen s.results
          ++ sightings watched_outpoint_spent input.prev_out_value_sats proven targets
  unfolding match_outpoint report target_activity enroll_in
  match_outpoint-seen vin input [] s = sym (append-nil (seen s.results))
  match_outpoint-seen vin input (t ∷ targets) s =
      match_outpoint-seen vin input targets _ ∙ seen-snoc s.results _ _ _ refl

  match_spender-seen :
      (vin : ℕ) (input : TxInputObservation) (addr : Text) (targets : List WatchTarget) (s : Scan)
      → seen (match_spender x c vin input addr targets s).results
        ≡ seen s.results
          ++ sightings watched_address_spent input.prev_out_value_sats by_rule targets
  unfolding match_spender report target_activity
  match_spender-seen vin input addr [] s = sym (append-nil (seen s.results))
  match_spender-seen vin input addr (t ∷ targets) s =
      match_spender-seen vin input addr targets _ ∙ seen-snoc s.results _ _ _ refl

  report_descendant-seen :
      (input : TxInputObservation) (d : TrackedDescendantOutpoint) (origin : Option WatchTarget)
      (s : Scan)
      → seen (report_descendant x c input d origin s).results ≡ seen s.results
  unfolding report_descendant report descendant_activity
  report_descendant-seen input d none s = seen-append s.results _ ∙ append-nil (seen s.results)
  report_descendant-seen input d (some t) s = seen-append s.results _ ∙ append-nil (seen s.results)

  pub match_descendant-seen :
      (input : TxInputObservation) (s : Scan)
      → seen (match_descendant x c input s).results ≡ seen s.results
  unfolding match_descendant forget_outpoint
  match_descendant-seen input s =
      let key : OutPoint = (x.to_lowercase input.txid, input.vout) in
      elim (Option-cases (get key s.engine.descendant_outpoints)) [
        | inl e ↦ rw (e, match_descendant) refl
        | inr (d, e) ↦
            let s1 = forget_outpoint key s in
            let origin = get d.origin_target_id s1.engine.all_targets in
            let s2 = report_descendant x c input d origin s1 in
            let same = report_descendant-seen input d origin s1 in
            rw (e, match_descendant)
              (elim (ltb d.depth s2.engine.max_descendant_depth)
                as (λ b.
                  seen (if b then enroll_in x c (next_generation x c d) s2 else s2).results
                  ≡ seen s.results) [ true ↦ unfold enroll_in in same | false ↦ same ])
      ]

  match_script-seen :
      (vout : ℕ) (output : TxOutputObservation) (script_hex : Text) (targets : List WatchTarget)
      (s : Scan)
      → seen (match_script x c vout output script_hex targets s).results
        ≡ seen s.results
          ++ sightings watched_script_received (some output.value_sats) proven targets
  unfolding match_script report target_activity
  match_script-seen vout output script_hex [] s = sym (append-nil (seen s.results))
  match_script-seen vout output script_hex (t ∷ targets) s =
      match_script-seen vout output script_hex targets _ ∙ seen-snoc s.results _ _ _ refl

  match_receiver-seen :
      (vout : ℕ) (output : TxOutputObservation) (addr : Text) (targets : List WatchTarget)
      (s : Scan)
      → seen (match_receiver x c vout output addr targets s).results
        ≡ seen s.results
          ++ sightings watched_address_received (some output.value_sats) by_rule targets
  unfolding match_receiver report target_activity
  match_receiver-seen vout output addr [] s = sym (append-nil (seen s.results))
  match_receiver-seen vout output addr (t ∷ targets) s =
      match_receiver-seen vout output addr targets _ ∙ seen-snoc s.results _ _ _ refl

  module _ (ts : List WatchTarget) where
    pub match_spender_at-seen :
        (vin : ℕ) (input : TxInputObservation) (addr : Option Text) (s : Scan)
        → Represents x ts s.engine
        → seen (match_spender_at x c vin input addr s).results
          ≡ seen s.results
            ++ sightings watched_address_spent input.prev_out_value_sats by_rule
                (at_address addr ts)
    match_spender_at-seen vin input none s r = sym (append-nil (seen s.results))
    match_spender_at-seen vin input (some addr) s r =
        match_spender-seen vin input addr (targets_at addr s.engine.address_index) s
        ∙ rw (r.addresses addr) refl

    pub match_receiver_at-seen :
        (vout : ℕ) (output : TxOutputObservation) (addr : Option Text) (s : Scan)
        → Represents x ts s.engine
        → seen (match_receiver_at x c vout output addr s).results
          ≡ seen s.results
            ++ sightings watched_address_received
                (some output.value_sats)
                by_rule
                (at_address addr ts)
    match_receiver_at-seen vout output none s r = sym (append-nil (seen s.results))
    match_receiver_at-seen vout output (some addr) s r =
        match_receiver-seen vout output addr (targets_at addr s.engine.address_index) s
        ∙ rw (r.addresses addr) refl

    pub match_script_at-seen :
        (vout : ℕ) (output : TxOutputObservation) (script_hex : Option Text) (s : Scan)
        → Represents x ts s.engine
        → seen (match_script_at x c vout output script_hex s).results
          ≡ seen s.results
            ++ sightings watched_script_received
                (some output.value_sats)
                proven
                (at_script x script_hex ts)
    match_script_at-seen vout output none s r = sym (append-nil (seen s.results))
    match_script_at-seen vout output (some script_hex) s r =
        match_script-seen vout output script_hex
          (targets_at (x.to_lowercase script_hex) s.engine.script_index) s
        ∙ rw (r.scripts (x.to_lowercase script_hex)) refl
