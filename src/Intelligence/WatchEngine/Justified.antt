-- ===== src/Intelligence/WatchEngine/Justified.antt =====
-- What an activity and its alert may claim, and that a report of `IncidentWatchEngine`
-- (crates/obschain-intelligence/src/watch_engine.rs) claims no more.
use obschain.Prelude.{
  ℕ, ◌+◌, Bool, true, false, Option, none, some, text_eq, nat_eq, All, All-append, arith, ◌≡◌, refl,
}
use obschain.Core.External.{Uuid}
use obschain.Core.Event.{critical, medium}
use obschain.Core.Incident.{
  ProvenanceClassification, on_chain_verified, officially_attributed, reputable_reporting,
  unverified, disputed,
}
use obschain.Core.Watch.{
  CorrelationStrength, direct, structural, heuristic, IncidentActivity, IncidentActivityType,
  IncidentAlert, WatchTarget, new_descendant_observed, watched_address_received,
  watched_address_spent, watched_outpoint_spent, watched_script_received, transaction_replacement,
  watched_transaction_observed, watched_transaction_confirmed,
}
use obschain.Intelligence.WatchEngine.{IncidentWatchEngine, outpoint_eq}
use obschain.Intelligence.WatchEngine.Alerts.{
  calculate_alert_severity, create_alert_if_significant, default_severity, is_outpoint_spent,
  sats_or_zero,
}
use obschain.Intelligence.WatchEngine.Activities.{Scan, address_strength, report}

-- what is found by an address alone
abbrev pub is_by_address : IncidentActivityType → Bool
is_by_address watched_address_received = true
is_by_address watched_address_spent = true
is_by_address _ = false

-- An activity claims no more than its classification allows, and its alert no more than the activity.
pub record Claims (a : IncidentActivity) (alert : IncidentAlert) : Type 0 where
  pub activity : alert.activity_id ≡ a.id
  pub alarming : alert.severity ≡ critical → a.correlation_strength ≡ direct
  pub cautious : a.correlation_strength ≡ heuristic → alert.severity ≡ medium

abbrev pub Justified : IncidentActivity × Option IncidentAlert → Type 0
Justified (a, none) =
    is_by_address a.activity_type ≡ true
    → a.correlation_strength ≡ direct
    → a.confidence ≡ on_chain_verified
Justified (a, some alert) =
    (is_by_address a.activity_type ≡ true
      → a.correlation_strength ≡ direct
      → a.confidence ≡ on_chain_verified)
    × Claims a alert

default_severity-critical :
    (activity_type : IncidentActivityType) (value : ℕ)
    → default_severity activity_type value ≡ critical
    → ⊥
unfolding default_severity
default_severity-critical watched_outpoint_spent value h = cc
default_severity-critical watched_script_received value h = cc
default_severity-critical watched_address_received value h = cc
default_severity-critical watched_address_spent value h = cc
default_severity-critical watched_transaction_confirmed value h = cc
default_severity-critical watched_transaction_observed value h = cc
default_severity-critical transaction_replacement value h = cc
default_severity-critical new_descendant_observed value h = ground arith

severity_alarming :
    (activity_type : IncidentActivityType) (strength : CorrelationStrength)
    (confidence : ProvenanceClassification) (value : Option ℕ)
    → (is_outpoint_spent activity_type ≡ true → strength ≡ direct)
    → calculate_alert_severity activity_type strength confidence value ≡ critical
    → strength ≡ direct
unfolding calculate_alert_severity
severity_alarming activity_type direct confidence value spent h = refl
severity_alarming activity_type structural confidence value spent h =
    ground (arith, default_severity-critical activity_type (sats_or_zero value))
severity_alarming activity_type heuristic confidence value spent h = ground arith

severity_cautious :
    (activity_type : IncidentActivityType) (strength : CorrelationStrength)
    (confidence : ProvenanceClassification) (value : Option ℕ)
    → (is_outpoint_spent activity_type ≡ true → strength ≡ direct)
    → strength ≡ heuristic
    → calculate_alert_severity activity_type strength confidence value ≡ medium
unfolding calculate_alert_severity
severity_cautious activity_type direct confidence value spent h = cc
severity_cautious activity_type structural confidence value spent h = cc
severity_cautious activity_type heuristic confidence value spent h = ground arith

-- The alert of an activity that speaks of a spent output only directly.
reported-Justified :
    (id : Uuid) (a : IncidentActivity) (target : WatchTarget) (e : IncidentWatchEngine)
    → (is_outpoint_spent a.activity_type ≡ true → a.correlation_strength ≡ direct)
    → (is_by_address a.activity_type ≡ true
        → a.correlation_strength ≡ direct
        → a.confidence ≡ on_chain_verified)
    → Justified (a, create_alert_if_significant id a target e)
unfolding create_alert_if_significant
reported-Justified id a target e spent owned = (
  owned,
  record {
    activity = refl;
    alarming =
        severity_alarming a.activity_type a.correlation_strength a.confidence a.value_sats spent;
    cautious =
        severity_cautious a.activity_type a.correlation_strength a.confidence a.value_sats spent;
  },
)

pub address_strength-direct :
    (c : ProvenanceClassification) → address_strength c ≡ direct → c ≡ on_chain_verified
unfolding address_strength
address_strength-direct on_chain_verified h = refl
address_strength-direct officially_attributed h = cc
address_strength-direct reputable_reporting h = cc
address_strength-direct ProvenanceClassification.heuristic h = cc
address_strength-direct unverified h = cc
address_strength-direct disputed h = cc

abbrev pub AllJustified : Scan → Type 0
AllJustified s = All Justified s.results

pub report-Justified :
    (new_id : ℕ → Uuid) (target : WatchTarget) (activity_of : Uuid → IncidentActivity) (s : Scan)
    → ((id : Uuid)
        → is_outpoint_spent (activity_of id).activity_type ≡ true
        → (activity_of id).correlation_strength ≡ direct)
    → ((id : Uuid)
        → is_by_address (activity_of id).activity_type ≡ true
        → (activity_of id).correlation_strength ≡ direct
        → (activity_of id).confidence ≡ on_chain_verified)
    → AllJustified s
    → AllJustified (report new_id target activity_of s)
unfolding report
report-Justified new_id target activity_of s spent owned h =
    let id = new_id s.drawn in
    All-append Justified s.results _ h (
      reported-Justified (new_id (s.drawn + 1)) (activity_of id) target s.engine (spent id)
          (owned id),
      tt,
    )
