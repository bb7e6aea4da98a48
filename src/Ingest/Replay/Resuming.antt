-- ===== src/Ingest/Replay/Resuming.antt =====
-- How a job ends that nothing stops, new or resumed: `resume_replay` and `run_job` in
-- crates/obschain-ingest/src/historical_replay.rs.
use obschain.Prelude.{ℕ, ◌^◌, ◌<◌, false, Option, some, ◌≡◌, ◌==◌, nat_eq}
use obschain.Core.External.{DateTime}
use obschain.Core.Replay.{ReplayJob, ReplayCheckpoint, running, completed}
use obschain.Ingest.Replay.{Run, ok, BlockOutcome, LoopEnd, ended, RunResult}
use obschain.Ingest.Replay.Checkpoints.{Totals, Replayed, Counts}

-- Nothing stops the run: no token is set, every block can be replayed, and the interval is not 0.
pub record Undisturbed {E : Type 0} (run : Run E) : Type 0 where
  pub no_cancel : (height : ℕ) → (run.signals height).cancel ≡ false
  pub no_pause : (height : ℕ) → (run.signals height).pause ≡ false
  pub positive : (run.checkpoint_interval == 0) ≡ false
  pub replays :
      (height : ℕ) (prev : Option DateTime) (e : E)
      → (b : BlockOutcome) × (e' : E) × (run.process_block height prev e ≡ (ok b, e'))

module _ {E : Type 0} (run : Run E) (start : ℕ) (first : E) (base : Totals) where
  -- The loop ended at the last of `n` blocks.
  record Ended (n : ℕ) (l : LoopEnd E) : Type 0 where
    stop : l.stop ≡ ended
    status : l.job.status ≡ running
    at_end : l.job.current_height ≡ l.job.end_height
    time : Option DateTime
    totals : Totals
    replayed : Replayed run start first n time l.engine totals
    counts : Counts base totals l.job

  -- The call returned the job as completed at its end, and so it is stored. The `n` blocks from
  -- `start` on were replayed in their order, and the job counts them on top of `base`.
  pub record Completed (n : ℕ) (result : RunResult E) : Type 0 where
    pub job : ReplayJob
    pub returned : result.returned ≡ some (ok job)
    pub stored : result.store.job ≡ some job
    pub status : job.status ≡ completed
    pub at_end : job.current_height ≡ job.end_height
    pub time : Option DateTime
    pub totals : Totals
    pub replayed : Replayed run start first n time result.engine totals
    pub counts : Counts base totals job

-- What a resumed job counts on: the blocks, transactions and events of the checkpoint, but of the
-- provenance what the job itself has counted since it began.
abbrev pub resumed_from : ReplayCheckpoint → ReplayJob → Totals
resumed_from cp job = record {
  blocks = cp.blocks_processed;
  transactions = cp.transactions_processed;
  events = cp.events_generated;
  created = job.events_created;
  existing = job.events_existing;
  observations = job.observations_recorded;
}

-- The counters are of 64 bits.
pub record Fits (t : Totals) : Type 0 where
  pub blocks : t.blocks < 2 ^ 64
  pub transactions : t.transactions < 2 ^ 64
  pub events : t.events < 2 ^ 64
  pub created : t.created < 2 ^ 64
  pub existing : t.existing < 2 ^ 64
  pub observations : t.observations < 2 ^ 64
