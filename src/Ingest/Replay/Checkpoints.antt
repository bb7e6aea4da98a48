-- ===== src/Ingest/Replay/Checkpoints.antt =====
-- The checkpoints of a replay job count exactly the blocks below them: `run_job` in
-- crates/obschain-ingest/src/historical_replay.rs.
use obschain.Prelude.{
  ℕ, zero, suc, ◌+◌, ◌-◌, ◌%◌, ◌^◌, ◌≤◌, ◌||◌, Option, none, some, [], All, All-append, arith, ◌≡◌,
  refl, ◌==◌, nat_eq, Bool-cases, inl, inr, ◌⊎◌, Text,
}
use obschain.Core.External.{DateTime, Readings}
use obschain.Core.Replay.{ReplayJob, ReplayCheckpoint, new_job}
use obschain.Ingest.Replay.{
  Run, ReplayResult, ReplayError, ok, err, BlockOutcome, ReplayStore, advance, checkpoint_of,
  save_progress, run_loop, LoopEnd, started, conclude, run_job,
}

-- what blocks have together
pub record Totals : Type 0 where
  pub blocks : ℕ
  pub transactions : ℕ
  pub events : ℕ
  pub created : ℕ
  pub existing : ℕ
  pub observations : ℕ

abbrev pub zeros : Totals
zeros = record {
  blocks = 0;
  transactions = 0;
  events = 0;
  created = 0;
  existing = 0;
  observations = 0;
}

abbrev pub plus : Totals → BlockOutcome → Totals
plus t b = record {
  blocks = t.blocks + 1;
  transactions = t.transactions + b.tx_count;
  events = t.events + b.event_count;
  created = t.created + b.created_count;
  existing = t.existing + b.existing_count;
  observations = t.observations + b.obs_count;
}

-- The `n` blocks from `start` on were replayed in their order, each given the time of the one before
-- it, the first none, and what the engine kept after the one before it, the first `first`: which
-- time and engine the last block left, and the totals.
pub data Replayed {E : Type 0} (run : Run E) (start : ℕ) (first : E)
    : ℕ → Option DateTime → E → Totals → Type 0 where
  none_yet : Replayed run start first 0 none first zeros
  one_more :
      (n : ℕ) (prev : Option DateTime) (e e' : E) (t : Totals) (b : BlockOutcome)
      → Replayed run start first n prev e t
      → run.process_block (start + n) prev e ≡ (ok b, e')
      → Replayed run start first (suc n) (some b.block_time) e' (plus t b)

-- The counters of a job are `base` and the totals together (modulo 2^64).
pub record Counts (base t : Totals) (job : ReplayJob) : Type 0 where
  pub blocks : job.blocks_processed ≡ (base.blocks + t.blocks) % 2 ^ 64
  pub transactions : job.transactions_processed ≡ (base.transactions + t.transactions) % 2 ^ 64
  pub events : job.events_generated ≡ (base.events + t.events) % 2 ^ 64
  pub created : job.events_created ≡ (base.created + t.created) % 2 ^ 64
  pub existing : job.events_existing ≡ (base.existing + t.existing) % 2 ^ 64
  pub observations : job.observations_recorded ≡ (base.observations + t.observations) % 2 ^ 64

pub advance-Counts :
    (base t : Totals) (height : ℕ) (b : BlockOutcome) (job : ReplayJob)
    → Counts base t job
    → Counts base (plus t b) (advance height b job)
advance-Counts base t height b job c = record {
  blocks = omega (arith, c.blocks);
  transactions = omega (arith, c.transactions);
  events = omega (arith, c.events);
  created = omega (arith, c.created);
  existing = omega (arith, c.existing);
  observations = omega (arith, c.observations);
}

-- A checkpoint has the totals (modulo 2^64).
pub record Holds (t : Totals) (c : ReplayCheckpoint) : Type 0 where
  pub blocks : c.blocks_processed ≡ t.blocks % 2 ^ 64
  pub transactions : c.transactions_processed ≡ t.transactions % 2 ^ 64
  pub events : c.events_generated ≡ t.events % 2 ^ 64
  pub created : c.events_created ≡ t.created % 2 ^ 64
  pub existing : c.events_existing ≡ t.existing % 2 ^ 64
  pub observations : c.observations_recorded ≡ t.observations % 2 ^ 64

Result-cases {ℓ} :
    {A : Type ℓ} (r : ReplayResult A) → ((e : ReplayError) × (r ≡ err e)) ⊎ ((a : A) × (r ≡ ok a))
Result-cases (err e) = inl (e, refl)
Result-cases (ok a) = inr (a, refl)

-- what the replay of a block answered, with what it left of the engine
pub pair_of : {A B : Type 0} (p : A × B) (a : A) → p.0 ≡ a → p ≡ (a, p.1)
pair_of (r, e) a same = rw same refl

module _ {E : Type 0} (run : Run E) (start : ℕ) (first : E) where
  -- A checkpoint is true: it lies in the range, and its counters are the totals of the blocks up to
  -- its height, which were replayed in their order.
  pub record TrueCheckpoint (end_height : ℕ) (c : ReplayCheckpoint) : Type 0 where
    pub from : start ≤ c.completed_height
    pub upto : c.completed_height ≤ end_height
    pub time : Option DateTime
    pub engine : E
    pub totals : Totals
    pub replayed : Replayed run start first (c.completed_height + 1 - start) time engine totals
    pub holds : Holds totals c

  height_count : (n : ℕ) → start + n + 1 - start ≡ suc n
  height_count n = omega arith

  pub next_height : (n : ℕ) → start + n + 1 ≡ start + suc n
  next_height n = omega arith

  save_progress-True :
      (n end_height : ℕ) (prev : Option DateTime) (e : E) (t : Totals) (job : ReplayJob)
      (st : ReplayStore)
      → start + n ≤ end_height
      → Replayed run start first (suc n) prev e t
      → Counts zeros t job
      → All (TrueCheckpoint end_height) st.checkpoints
      → All
          (TrueCheckpoint end_height)
          (save_progress run (start + n) end_height job st).checkpoints
  unfolding save_progress
  save_progress-True n end_height prev e t job st le trace c h =
      elim (Bool-cases
        ((job.blocks_processed % run.checkpoint_interval == 0) || (start + n == end_height))) [
          | inl due ↦ rw due (All-append (TrueCheckpoint end_height) st.checkpoints _ h (saved, tt))
          | inr not_due ↦ rw not_due h
        ]
    where
      saved : TrueCheckpoint end_height (checkpoint_of (run.readings (start + n)) (start + n) job)
      saved = record {
        from = omega arith;
        upto = le;
        time = prev;
        engine = e;
        totals = t;
        replayed = rw (height_count n) trace;
        holds = record {
          blocks = omega (arith, c.blocks);
          transactions = omega (arith, c.transactions);
          events = omega (arith, c.events);
          created = omega (arith, c.created);
          existing = omega (arith, c.existing);
          observations = omega (arith, c.observations);
        };
      }

  run_loop-True :
      (n k : ℕ) (prev : Option DateTime) (e : E) (t : Totals) (job : ReplayJob) (st : ReplayStore)
      → start + n + k ≡ job.end_height + 1
      → Replayed run start first n prev e t
      → Counts zeros t job
      → All (TrueCheckpoint job.end_height) st.checkpoints
      → All
          (TrueCheckpoint job.end_height)
          (run_loop run k (start + n) prev job st e).store.checkpoints
  unfolding run_loop
  run_loop-True n zero prev e t job st total trace c h = h
  run_loop-True n (suc k) prev e t job st total trace c h =
      let (r, e') = run.process_block (start + n) prev e in
      elim (Bool-cases (run.signals (start + n)).cancel) [
        | inl stop ↦ rw stop h
        | inr go ↦ elim (Bool-cases (run.signals (start + n)).pause) [
          | inl stop ↦ rw (go, stop) h
          | inr on ↦ elim (Result-cases r) [
            | inl (error, p) ↦ rw (go, on, p) h
            | inr (b, p) ↦ elim (Bool-cases (run.checkpoint_interval == 0)) [
              | inl panics ↦ rw (go, on, p, panics) h
              | inr positive ↦
                  let job' = advance (start + n) b job in
                  let counted = advance-Counts zeros t (start + n) b job c in
                  let longer = one_more n prev e e' t b trace (pair_of _ (ok b) p) in
                  rw (go, on, p, positive, next_height n)
                    (run_loop-True (suc n) k (some b.block_time) e' (plus t b) job'
                      (save_progress run (start + n) job.end_height job' st) (omega (arith, total))
                      longer counted
                      (save_progress-True n job.end_height (some b.block_time) e' (plus t b) job' st
                        (omega (arith, total)) longer counted h))
            ]
          ]
        ]
      ]

  run_loop-True_at :
      (height k : ℕ) (job : ReplayJob) (st : ReplayStore)
      → height ≡ start + 0
      → start + 0 + k ≡ job.end_height + 1
      → Counts zeros zeros job
      → All (TrueCheckpoint job.end_height) st.checkpoints
      → All
          (TrueCheckpoint job.end_height)
          (run_loop run k height none job st first).store.checkpoints
  run_loop-True_at height k job st at total c h =
      rw at (run_loop-True 0 k none first zeros job st total none_yet c h)

conclude-checkpoints :
    {E : Type 0} (run : Run E) (now : DateTime) (l : LoopEnd E)
    → (conclude run now l).store.checkpoints ≡ l.store.checkpoints
unfolding conclude
conclude-checkpoints run now l = ground arith

-- Whatever stops the run of a new job with a range that is not empty (a cancellation, a pause or a
-- failure at any block, a panic, or nothing): each checkpoint that it saved lies in the job's range,
-- the blocks from the start up to its height were replayed in their order, and it counts exactly
-- these blocks, their transactions, events and observations (modulo 2^64).
pub run_job-TrueCheckpoint :
    {E : Type 0} (run : Run E) (first : E) (now : DateTime) (r : Readings) (network : Text)
    (start end_height : ℕ) (source_type : Text)
    → start ≤ end_height
    → All
        (TrueCheckpoint run start first end_height)
        (run_job run now
          (record { job = some (new_job r network start end_height source_type); checkpoints = [] })
          first).store.checkpoints
unfolding run_job new_job
run_job-TrueCheckpoint run first now r network start end_height source_type le =
    rw (conclude-checkpoints run now _) (
      run_loop-True_at run start first start (end_height + 1 - start)
        (started now (new_job r network start end_height source_type))
        (record {
          job = some (started now (new_job r network start end_height source_type));
          checkpoints = [];
        })
        (omega arith) (omega arith)
        (record {
          blocks = refl;
          transactions = refl;
          events = refl;
          created = refl;
          existing = refl;
          observations = refl;
        })
        tt)
