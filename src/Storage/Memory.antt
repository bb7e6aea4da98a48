-- ===== src/Storage/Memory.antt =====
-- crates/obschain-storage/src/repository.rs: the state of `InMemoryStorage` and what its operations on
-- its collections have in common. The locks are never poisoned: no operation panics while it holds one.
use obschain.Prelude.{
  ℕ, Bool, true, Option, none, some, List, [], ◌∷◌, length, take, drop, leb, if◌then◌else◌,
}
use obschain.Core.External.{Uuid}
use obschain.Core.Event.{ChainEvent}
use obschain.Core.Occurrence.{EventObservation}
use obschain.Core.Replay.{ReplayJob, ReplayCheckpoint}
use obschain.Core.Watch.{WatchTarget, IncidentActivity, IncidentAlert}
use obschain.Core.Incident.{Incident}
use obschain.Core.Baseline.Extraction.{EventMetricValue}
use obschain.Core.Baseline.Records.{
  BaselineRun, BaselineDistribution, EventRarityResult, ImpactBreakdown,
}

pub record InMemoryStorage : Type 0 where
  pub events : List ChainEvent
  pub event_observations : List EventObservation
  pub incidents : List Incident
  pub watch_targets : List WatchTarget
  pub activities : List IncidentActivity
  pub alerts : List IncidentAlert
  pub replay_jobs : List ReplayJob
  pub replay_checkpoints : List ReplayCheckpoint
  pub baseline_runs : List BaselineRun
  pub baseline_distributions : List BaselineDistribution
  pub event_rarity : List (EventRarityResult × Option ImpactBreakdown)
  pub event_metrics : List EventMetricValue
  pub max_events : ℕ
  pub max_activities : ℕ

-- the storage of the given limits that both constructors begin with, before they seed it
unfoldable pub unseeded : ℕ → ℕ → InMemoryStorage
unseeded max_events max_activities = record {
  events = [];
  event_observations = [];
  incidents = [];
  watch_targets = [];
  activities = [];
  alerts = [];
  replay_jobs = [];
  replay_checkpoints = [];
  baseline_runs = [];
  baseline_distributions = [];
  event_rarity = [];
  event_metrics = [];
  max_events = max_events;
  max_activities = max_activities;
}

-- the `StorageError` of a job or a run that is not stored, and of a number that does not fit
pub data StorageError : Type 0 where
  not_found : Uuid → StorageError
  exceeds_limit : ℕ → StorageError
  is_negative : ℕ → StorageError

-- `Result<A, StorageError>`
pub data Stored (A : Type 0) : Type 0 where
  ok : A → Stored A
  err : StorageError → Stored A

-- a criterion that is not given holds
abbrev pub given {ℓ} : {A : Type ℓ} → Option A → (A → Bool) → Bool
given none p = true
given (some a) p = p a

module _ {A : Type 0} where
  -- `if let Some(pos) = position(p) { lock[pos] = a } else { lock.push(a) }`
  unfoldable pub upsert : (A → Bool) → A → List A → List A
  upsert p a [] = a ∷ []
  upsert p a (b ∷ bs) = let rest = upsert p a bs in if p b then a ∷ bs else b ∷ rest

  -- the first element with `p` is changed
  unfoldable pub change_first : (A → Bool) → (A → A) → List A → List A
  change_first p f [] = []
  change_first p f (b ∷ bs) = let rest = change_first p f bs in if p b then f b ∷ bs else b ∷ rest

  -- `pop_front`, if the collection is full
  unfoldable pub make_room : ℕ → List A → List A
  make_room limit [] = []
  make_room limit (b ∷ bs) = if leb limit (length (b ∷ bs)) then bs else b ∷ bs

  -- `skip(offset).take(limit)`
  abbrev pub page : ℕ → ℕ → List A → List A
  page limit offset xs = take limit (drop offset xs)
