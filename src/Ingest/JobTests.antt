-- ===== src/Ingest/JobTests.antt =====
-- The theorems on replay jobs at concrete data.
use obschain.Prelude.{
  ℕ, text_eq, ◌+◌, ◌-◌, ◌*◌, ◌≤◌, ◌↔◌, ◌≡◌, refl, true, false, Option, none, some, [], ◌∷◌, map,
  codes, arith, All,
}
use obschain.Core.External.{DateTime}
use obschain.Core.Replay.{ReplayJob, ReplayCheckpoint, new_job, failed}
use obschain.Core.Samples.{readings}
use obschain.Ingest.Replay.{
  Run, ReplayResult, ok, BlockOutcome, ReplayStore, BitcoinNodeCapabilities, save_progress,
  run_loop, conclude, run_job, resume_replay, latest_checkpoint, validate_capabilities_and_range,
}
use obschain.Ingest.Replay.Range.{Servable, validate_capabilities_and_range_iff}
use obschain.Ingest.Replay.Checkpoints.{TrueCheckpoint, run_job-TrueCheckpoint}
use obschain.Ingest.Replay.Stranded.{resumed, LeftRunning, resume_replay-LeftRunning}

abbrev node : BitcoinNodeCapabilities
node = record {
  regtest = false;
  blocks = 900;
  initial_block_download = false;
  pruned = true;
  prune_height = some 100;
}

validate_capabilities_and_range_iff_example :
    (validate_capabilities_and_range 1_000 200 300 (ok node) ≡ ok node) ↔ (
      (200 ≤ 300)
      × (300 - 200 + 1 ≤ 1_000)
      × (Path (ReplayResult BitcoinNodeCapabilities) (ok node) (ok node))
      × Servable 200 300 node)
validate_capabilities_and_range_iff_example =
    validate_capabilities_and_range_iff 1_000 200 300 (ok node) node (omega arith)

-- A chain whose blocks have three transactions each, and an engine that counts the blocks it has
-- replayed. It finds an event in every block that follows another within the run.
abbrev outcome : Option DateTime → BlockOutcome
outcome none = record {
  block_time = 0;
  tx_count = 3;
  event_count = 0;
  created_count = 0;
  existing_count = 0;
  obs_count = 0;
}
outcome (some prev) = record {
  block_time = prev + 600;
  tx_count = 3;
  event_count = 1;
  created_count = 1;
  existing_count = 0;
  obs_count = 1;
}

abbrev calm : Run ℕ
calm = record {
  checkpoint_interval = 2;
  readings = λ height. readings;
  signals = λ height. record { cancel = false; pause = false };
  process_block = λ height prev e. (ok (outcome prev), e + 1);
  error_text = λ e. [];
}

abbrev fresh_store : ReplayStore
fresh_store = record {
  job = some (new_job readings (codes "main") 10 14 (codes "rpc"));
  checkpoints = [];
}

run_job-TrueCheckpoint_example :
    All (TrueCheckpoint calm 10 0 14) (run_job calm 0 fresh_store 0).store.checkpoints
run_job-TrueCheckpoint_example =
    run_job-TrueCheckpoint calm 0 0 readings (codes "main") 10 14 (codes "rpc") (omega arith)

-- The checkpoints are behind the second, the fourth and the last block.
three_checkpoints :
    map
      (λ (c : ReplayCheckpoint). c.completed_height)
      (run_job calm 0 fresh_store 0).store.checkpoints
    ≡ 11 ∷ 13 ∷ 14 ∷ []
unfolding run_job run_loop save_progress conclude new_job
three_checkpoints = refl

-- With an interval of 0 the run panics at its first block, and the job is left as running.
panics_at_once : (run_job (record calm { checkpoint_interval = 0 }) 0 fresh_store 0).returned ≡ none
unfolding run_job run_loop save_progress conclude new_job
panics_at_once = refl

abbrev checkpoint_at : ℕ → ℕ → ReplayCheckpoint
checkpoint_at height n = record {
  id = 1;
  job_id = 7;
  completed_height = height;
  blocks_processed = n;
  transactions_processed = 3 * n;
  events_generated = n;
  events_created = n;
  events_existing = 0;
  observations_recorded = n;
  checkpointed_at = 0;
}

abbrev stopped_job : ReplayJob
stopped_job = record {
  id = 7;
  network = codes "main";
  start_height = 10;
  end_height = 14;
  current_height = 12;
  status = failed;
  source_type = codes "rpc";
  created_at = 0;
  started_at = some 0;
  completed_at = none;
  blocks_processed = 3;
  transactions_processed = 9;
  events_generated = 3;
  events_created = 3;
  events_existing = 0;
  observations_recorded = 3;
  error_count = 1;
  last_error = none;
}

abbrev stopped_store : ReplayStore
stopped_store = record { job = some stopped_job; checkpoints = checkpoint_at 11 2 ∷ [] }

abbrev ended_store : ReplayStore
ended_store = record { job = some stopped_job; checkpoints = checkpoint_at 14 5 ∷ [] }

latest_is_14 : latest_checkpoint ended_store.checkpoints ≡ some (checkpoint_at 14 5)
unfolding latest_checkpoint
latest_is_14 = refl

resume_replay-LeftRunning_example : LeftRunning 14 ended_store.checkpoints 3 (
    resume_replay calm 7
      (resumed calm (5 ∷ 6 ∷ []) (ended_store, 3)).0
      (resumed calm (5 ∷ 6 ∷ []) (ended_store, 3)).1)
resume_replay-LeftRunning_example =
    resume_replay-LeftRunning calm 3 (5 ∷ 6 ∷ []) 7 stopped_job ended_store (checkpoint_at 14 5)
      refl refl (omega arith) latest_is_14 refl
