-- ===== src/Ingest/Replay.antt =====
-- crates/obschain-ingest/src/historical_replay.rs: how a replay job runs, stops and is resumed. What
-- replaying one block gives, and which signals stand at a block, are parameters; the store is the
-- one in memory (crates/obschain-storage/src/repository.rs), whose writes succeed.
pub mod Range
pub mod Checkpoints
pub mod Resuming
pub mod Stranded
use obschain.Prelude.{
  ℕ, zero, suc, ◌+◌, ◌-◌, ◌%◌, ◌^◌, Bool, true, false, not, ◌&&◌, ◌||◌, Option, none, some, List,
  [], ◌∷◌, ◌++◌, Text, ltb, ◌==◌, nat_eq, if◌then◌else◌,
}
use obschain.Core.External.{DateTime, Readings}
use obschain.Core.Replay.{
  ReplayJob, ReplayJobStatus, running, paused, completed, failed, cancelled, is_terminal,
  ReplayCheckpoint, new_checkpoint, with_provenance_counts,
}

-- The fields of `BitcoinNodeCapabilities` that the validation reads. Whether the network is
-- regtest is the parameter `regtest`, as its text is compared regardless of case.
pub record BitcoinNodeCapabilities : Type 0 where
  pub regtest : Bool
  pub blocks : ℕ
  pub initial_block_download : Bool
  pub pruned : Bool
  pub prune_height : Option ℕ

pub data ReplayError : Type 0 where
  validation : ReplayError
  pruned_history_unavailable : (requested retained_from : ℕ) → ReplayError
  initial_block_download_active : ReplayError
  height_beyond_tip : (requested tip : ℕ) → ReplayError
  range_exceeds_maximum : (requested_blocks max_range : ℕ) → ReplayError
  job_not_found : ReplayError
  job_already_finished : ReplayJobStatus → ReplayError
  rpc : Text → ReplayError
  deserialization : Text → ReplayError

pub data ReplayResult {ℓ} (A : Type ℓ) : Type ℓ where
  ok : A → ReplayResult A
  err : ReplayError → ReplayResult A

abbrev pruned_before : ℕ → BitcoinNodeCapabilities → Option ℕ
pruned_before start c =
    if c.pruned
    then elim c.prune_height [ none ↦ none | some h ↦ if ltb start h then some h else none ]
    else none

-- The checks behind the call of the node.
unfoldable pub validate_capabilities :
    ℕ → ℕ → BitcoinNodeCapabilities → ReplayResult BitcoinNodeCapabilities
validate_capabilities start_height end_height c =
    if c.initial_block_download && not c.regtest
    then err initial_block_download_active
    else elim (pruned_before start_height c) [
      | some h ↦ err (pruned_history_unavailable start_height h)
      | none ↦ if ltb c.blocks end_height then err (height_beyond_tip end_height c.blocks) else ok c
    ]

-- `node` is what `inspect_capabilities` answers. The number of blocks wraps around at 2^64 as it
-- does in a release build.
unfoldable pub validate_capabilities_and_range :
    ℕ → ℕ → ℕ → ReplayResult BitcoinNodeCapabilities → ReplayResult BitcoinNodeCapabilities
unfolding validate_capabilities
validate_capabilities_and_range max_range start_height end_height node =
    if ltb end_height start_height
    then err validation
    else let requested_blocks = (end_height - start_height + 1) % 2 ^ 64 in
      if ltb max_range requested_blocks
      then err (range_exceeds_maximum requested_blocks max_range)
      else elim node [ err e ↦ err e | ok c ↦ validate_capabilities start_height end_height c ]

-- What `process_block` returns.
pub record BlockOutcome : Type 0 where
  pub block_time : DateTime
  pub tx_count : ℕ
  pub event_count : ℕ
  pub created_count : ℕ
  pub existing_count : ℕ
  pub obs_count : ℕ

-- What the tokens of the job show when a block is reached.
pub record Signals : Type 0 where
  pub cancel : Bool
  pub pause : Bool

-- What is stored of the job, and the checkpoints filed under it, oldest first.
pub record ReplayStore : Type 0 where
  pub job : Option ReplayJob
  pub checkpoints : List ReplayCheckpoint

-- What a run depends on: the configuration, the clock, the tokens and the replay of one block. The
-- latter is given the time of the block before (and of the job the identifier and the network, which
-- do not change), and reads and writes what else the engine keeps, an
-- `E`: the cache of transactions, the detectors, the events stored. A failure comes with its text.
pub record Run (E : Type 0) : Type 0 where
  pub checkpoint_interval : ℕ
  pub readings : ℕ → Readings
  pub signals : ℕ → Signals
  pub process_block : ℕ → Option DateTime → E → ReplayResult BlockOutcome × E
  pub error_text : ReplayError → Text

-- `u64` addition, which wraps around as it does in a release build
abbrev pub add64 : ℕ → ℕ → ℕ
add64 a b = (a + b) % 2 ^ 64

abbrev pub update_job : ReplayJob → ReplayStore → ReplayStore
update_job job st = record st { job = some job }

abbrev pub finished : ReplayJobStatus → DateTime → ReplayJob → ReplayJob
finished status now job = record job { status = status; completed_at = some now }

-- the job after a block
abbrev pub advance : ℕ → BlockOutcome → ReplayJob → ReplayJob
advance height b job = record job {
  current_height = height;
  blocks_processed = add64 job.blocks_processed 1;
  transactions_processed = add64 job.transactions_processed b.tx_count;
  events_generated = add64 job.events_generated b.event_count;
  events_created = add64 job.events_created b.created_count;
  events_existing = add64 job.events_existing b.existing_count;
  observations_recorded = add64 job.observations_recorded b.obs_count;
}

abbrev pub checkpoint_of : Readings → ℕ → ReplayJob → ReplayCheckpoint
checkpoint_of r height job =
    with_provenance_counts job.events_created job.events_existing job.observations_recorded (
      new_checkpoint r job.id height job.blocks_processed job.transactions_processed
        job.events_generated)

-- How the loop ends: after the last block or by a token, with an error, or with a panic.
pub data Stop : Type 0 where
  ended : Stop
  failed_with : ReplayError → Stop
  panicked : Stop

pub record LoopEnd (E : Type 0) : Type 0 where
  pub stop : Stop
  pub job : ReplayJob
  pub store : ReplayStore
  pub engine : E

-- What a call leaves; it returns nothing where it panics.
pub record RunResult (E : Type 0) : Type 0 where
  pub returned : Option (ReplayResult ReplayJob)
  pub store : ReplayStore
  pub engine : E

abbrev pub stopped : {E : Type 0} → ReplayJob → ReplayStore → E → LoopEnd E
stopped job st e = record { stop = ended; job = job; store = update_job job st; engine = e }

abbrev pub is_running : ReplayJobStatus → Bool
is_running running = true
is_running _ = false

abbrev pub started : DateTime → ReplayJob → ReplayJob
started now job = record job {
  status = running;
  started_at = elim job.started_at [ none ↦ some now | some t ↦ some t ];
}

-- `get_latest_checkpoint`: of the greatest height, the one saved last
unfoldable pub latest_checkpoint : List ReplayCheckpoint → Option ReplayCheckpoint
latest_checkpoint [] = none
latest_checkpoint (c ∷ cs) = elim (latest_checkpoint cs) [
  | none ↦ some c
  | some d ↦ if ltb d.completed_height c.completed_height then some c else some d
]

unfoldable pub restore : Option ReplayCheckpoint → ReplayJob → ReplayJob
restore none job = job
restore (some cp) job = record job {
  current_height = add64 cp.completed_height 1;
  blocks_processed = cp.blocks_processed;
  transactions_processed = cp.transactions_processed;
  events_generated = cp.events_generated;
}

abbrev pub is_over : ReplayJobStatus → Bool
is_over completed = true
is_over cancelled = true
is_over _ = false

module _ {E : Type 0} (run : Run E) where
  -- A checkpoint is due every `checkpoint_interval` blocks, which is not 0 here, and at the end.
  unfoldable pub save_progress : ℕ → ℕ → ReplayJob → ReplayStore → ReplayStore
  save_progress height end_height job st =
      if (job.blocks_processed % run.checkpoint_interval == 0) || (height == end_height)
      then record {
        job = some job;
        checkpoints = st.checkpoints ++ checkpoint_of (run.readings height) height job ∷ [];
      }
      else st

  abbrev pub fail_job : ReplayError → DateTime → ReplayJob → ReplayJob
  fail_job error now job = record (finished failed now job) {
    error_count = add64 job.error_count 1;
    last_error = some (run.error_text error);
  }

  -- The loop over the heights: so many are left, the next one, and the time of the last block. With
  -- an interval of 0 the remainder panics, as soon as a block is replayed.
  unfoldable pub run_loop : ℕ → ℕ → Option DateTime → ReplayJob → ReplayStore → E → LoopEnd E
  unfolding save_progress
  run_loop zero height prev job st e = record { stop = ended; job = job; store = st; engine = e }
  run_loop (suc n) height prev job st e =
      let now = (run.readings height).now in
      if (run.signals height).cancel
      then stopped (finished cancelled now job) st e
      else if (run.signals height).pause
      then stopped (record job { status = paused }) st e
      else let (outcome, e') = run.process_block height prev e in
        elim outcome [
          | err error ↦
              let job' = fail_job error now job in
              record {
                stop = failed_with error;
                job = job';
                store = update_job job' st;
                engine = e';
              }
          | ok b ↦
              let job' = advance height b job in
              elim (run.checkpoint_interval == 0) [
                | true ↦ record { stop = panicked; job = job'; store = st; engine = e' }
                | false ↦
                    run_loop n (height + 1) (some b.block_time) job'
                      (save_progress height job.end_height job' st) e'
              ]
        ]

  -- What follows the loop, at the instant `now`.
  unfoldable pub conclude : DateTime → LoopEnd E → RunResult E
  conclude now l = elim l.stop [
    | panicked ↦ record { returned = none; store = l.store; engine = l.engine }
    | failed_with error ↦ record { returned = some (err error); store = l.store; engine = l.engine }
    | ended ↦
        if is_running l.job.status && (l.job.current_height == l.job.end_height)
        then record {
          returned = some (ok (finished completed now l.job));
          store = update_job (finished completed now l.job) l.store;
          engine = l.engine;
        }
        else record { returned = some (ok l.job); store = l.store; engine = l.engine }
  ]

  -- `run_job`, which begins and ends at the instant `now`
  unfoldable pub run_job : DateTime → ReplayStore → E → RunResult E
  unfolding run_loop conclude
  run_job now st e = elim st.job [
    | none ↦ record { returned = some (err job_not_found); store = st; engine = e }
    | some job ↦ conclude now (
        run_loop (job.end_height + 1 - job.current_height) job.current_height none (started now job)
          (update_job (started now job) st) e)
  ]

  unfoldable pub resume_replay : DateTime → ReplayStore → E → RunResult E
  unfolding run_job latest_checkpoint restore
  resume_replay now st e = elim st.job [
    | none ↦ record { returned = some (err job_not_found); store = st; engine = e }
    | some job ↦
        if is_over job.status
        then record {
          returned = some (err (job_already_finished job.status));
          store = st;
          engine = e;
        }
        else run_job now
            (update_job
              (record (restore (latest_checkpoint st.checkpoints) job) { status = running }) st)
            e
  ]

-- `cancel_replay`, what it does to the store
unfoldable pub cancel_replay : DateTime → ReplayStore → ReplayStore
cancel_replay now st = elim st.job [
  | none ↦ st
  | some job ↦ if is_terminal job.status then st else update_job (finished cancelled now job) st
]
