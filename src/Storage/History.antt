-- ===== src/Storage/History.antt =====
-- Histories of calls of `InMemoryStorage` (crates/obschain-storage/src/repository.rs).
use obschain.Prelude.{Option, ℕ, List, [], ◌∷◌, Text, text_eq, nat_eq}
use obschain.Core.External.{Externals, Uuid, DateTime, Readings}
use obschain.Core.Event.{ChainEvent}
use obschain.Core.Incident.{Incident}
use obschain.Core.Occurrence.{EventObservation}
use obschain.Core.Replay.{ReplayJob, ReplayCheckpoint}
use obschain.Core.Watch.{WatchTarget, IncidentActivity, IncidentAlert}
use obschain.Core.Baseline.{BaselineMetric}
use obschain.Core.Baseline.Extraction.{Decoders, EventMetricValue}
use obschain.Storage.Memory.{InMemoryStorage, Stored, ok, err}
use obschain.Storage.Events.{save_event, save_event_metrics, save_event_observation, clear_events}
use obschain.Storage.Incidents.{
  save_incident, save_watch_target, save_activity, save_alert, clear_activities, clear_alerts,
  create_job, update_job, save_checkpoint,
}
use obschain.Core.Baseline.Records.{
  BaselineRun, BaselineRunStatus, BaselineDistribution, EventRarityResult, ImpactBreakdown,
}
use obschain.Storage.Baselines.{
  RankQuery, create_baseline_run, update_baseline_run_status, save_baseline_distributions,
  save_event_rarity, get_exact_empirical_rank,
}

-- The calls that change the storage. The readings of the random source and of the clock that the
-- metrics of a new event take are given with the event.
pub data StorageOp : Type 0 where
  saves_event : (BaselineMetric → Readings) → ChainEvent → StorageOp
  saves_metrics : List EventMetricValue → StorageOp
  saves_observation : EventObservation → StorageOp
  saves_incident : Incident → StorageOp
  saves_target : WatchTarget → StorageOp
  saves_activity : IncidentActivity → StorageOp
  saves_alert : IncidentAlert → StorageOp
  creates_job updates_job : ReplayJob → StorageOp
  saves_checkpoint : ReplayCheckpoint → StorageOp
  creates_run : BaselineRun → StorageOp
  updates_run : Uuid → BaselineRunStatus → Option DateTime → ℕ → Option Text → StorageOp
  saves_distributions : List BaselineDistribution → StorageOp
  saves_rarity : EventRarityResult → Option ImpactBreakdown → StorageOp
  ranks : Externals → (ChainEvent → BaselineMetric → Readings) → RankQuery → StorageOp
  clears_events clears_activities clears_alerts : StorageOp

-- the storage after a call that fails is the one before
abbrev pub after : InMemoryStorage → Stored InMemoryStorage → InMemoryStorage
after st (ok st') = st'
after st (err e) = st

unfoldable pub apply_op : Decoders → StorageOp → InMemoryStorage → InMemoryStorage
apply_op d (saves_event r event) st = save_event d r event st
apply_op d (saves_metrics ms) st = save_event_metrics ms st
apply_op d (saves_observation o) st = save_event_observation o st
apply_op d (saves_incident i) st = save_incident i st
apply_op d (saves_target t) st = save_watch_target t st
apply_op d (saves_activity a) st = save_activity a st
apply_op d (saves_alert a) st = save_alert a st
apply_op d (creates_job j) st = create_job j st
apply_op d (updates_job j) st = after st (update_job j st)
apply_op d (saves_checkpoint c) st = save_checkpoint c st
apply_op d (creates_run r) st = create_baseline_run r st
apply_op d (updates_run id status at n message) st =
    after st (update_baseline_run_status id status at n message st)
apply_op d (saves_distributions ds) st = save_baseline_distributions ds st
apply_op d (saves_rarity e impact) st = save_event_rarity e impact st
apply_op d (ranks x r q) st = (get_exact_empirical_rank x d r q st).1
apply_op d clears_events st = clear_events st
apply_op d clears_activities st = clear_activities st
apply_op d clears_alerts st = clear_alerts st

unfoldable pub run : Decoders → List StorageOp → InMemoryStorage → InMemoryStorage
unfolding apply_op
run d [] st = st
run d (op ∷ ops) st = run d ops (apply_op d op st)
