-- ===== src/Core/Replay.antt =====
-- crates/obschain-core/src/replay.rs: replay jobs and their checkpoints.
use obschain.Prelude.{ℕ, ◌+◌, ◌-◌, Bool, true, false, Option, none, Text, codes, leb, if◌then◌else◌}
use obschain.Core.External.{Uuid, DateTime, Readings}

pub data ReplayJobStatus : Type 0 where
  pending running paused completed failed cancelled : ReplayJobStatus

abbrev pub status_str : ReplayJobStatus → Text
status_str pending = codes "pending"
status_str running = codes "running"
status_str paused = codes "paused"
status_str completed = codes "completed"
status_str failed = codes "failed"
status_str cancelled = codes "cancelled"

abbrev pub is_terminal : ReplayJobStatus → Bool
is_terminal completed = true
is_terminal failed = true
is_terminal cancelled = true
is_terminal _ = false

abbrev pub is_active : ReplayJobStatus → Bool
is_active running = true
is_active pending = true
is_active _ = false

pub record ReplayJob : Type 0 where
  pub id : Uuid
  pub network : Text
  pub start_height : ℕ
  pub end_height : ℕ
  pub current_height : ℕ
  pub status : ReplayJobStatus
  pub source_type : Text
  pub created_at : DateTime
  pub started_at : Option DateTime
  pub completed_at : Option DateTime
  pub blocks_processed : ℕ
  pub transactions_processed : ℕ
  pub events_generated : ℕ
  pub events_created : ℕ
  pub events_existing : ℕ
  pub observations_recorded : ℕ
  pub error_count : ℕ
  pub last_error : Option Text

-- `ReplayJob::new`
unfoldable pub new_job : Readings → Text → ℕ → ℕ → Text → ReplayJob
new_job r network start_height end_height source_type = record {
  id = r.id;
  network = network;
  start_height = start_height;
  end_height = end_height;
  current_height = start_height;
  status = pending;
  source_type = source_type;
  created_at = r.now;
  started_at = none;
  completed_at = none;
  blocks_processed = 0;
  transactions_processed = 0;
  events_generated = 0;
  events_created = 0;
  events_existing = 0;
  observations_recorded = 0;
  error_count = 0;
  last_error = none;
}

abbrev pub total_blocks : ReplayJob → ℕ
total_blocks job =
    if leb job.start_height job.end_height then job.end_height - job.start_height + 1 else 0

pub record ReplayCheckpoint : Type 0 where
  pub id : Uuid
  pub job_id : Uuid
  pub completed_height : ℕ
  pub blocks_processed : ℕ
  pub transactions_processed : ℕ
  pub events_generated : ℕ
  pub events_created : ℕ
  pub events_existing : ℕ
  pub observations_recorded : ℕ
  pub checkpointed_at : DateTime

-- `ReplayCheckpoint::new`
abbrev pub new_checkpoint : Readings → Uuid → ℕ → ℕ → ℕ → ℕ → ReplayCheckpoint
new_checkpoint r job_id height blocks transactions events = record {
  id = r.id;
  job_id = job_id;
  completed_height = height;
  blocks_processed = blocks;
  transactions_processed = transactions;
  events_generated = events;
  events_created = 0;
  events_existing = 0;
  observations_recorded = events;
  checkpointed_at = r.now;
}

abbrev pub with_provenance_counts : ℕ → ℕ → ℕ → ReplayCheckpoint → ReplayCheckpoint
with_provenance_counts created existing observations c = record c {
  events_created = created;
  events_existing = existing;
  observations_recorded = observations;
}
