-- ===== src/Ingest/Replay/Stranded.antt =====
-- A job that stopped between its last checkpoint and its completion: `resume_replay` in
-- crates/obschain-ingest/src/historical_replay.rs.
use obschain.Prelude.{
  ℕ, ◌+◌, ◌-◌, ◌^◌, ◌<◌, false, some, List, [], ◌∷◌, arith, ◌≡◌, refl, ◌==◌, nat_eq,
}
use obschain.Core.External.{DateTime}
use obschain.Core.Replay.{ReplayJob, ReplayCheckpoint, running}
use obschain.Ingest.Replay.{
  Run, ok, ReplayStore, add64, run_loop, RunResult, conclude, run_job, latest_checkpoint, restore,
  resume_replay, is_over, started,
}

-- what any number of resumed runs leave, each at an instant
abbrev pub resumed : {E : Type 0} → Run E → List DateTime → ReplayStore × E → ReplayStore × E
resumed run [] s = s
resumed run (now ∷ nows) (st, e) =
    let r = resume_replay run now st e in resumed run nows (r.store, r.engine)

-- The job is returned as running, one block beyond its range, and so it is stored; no checkpoint was
-- saved and no block replayed.
pub record LeftRunning {E : Type 0} (end_height : ℕ) (checkpoints : List ReplayCheckpoint) (e : E)
    (result : RunResult E) : Type 0 where
  pub job : ReplayJob
  pub returned : result.returned ≡ some (ok job)
  pub stored : result.store.job ≡ some job
  pub status : job.status ≡ running
  pub beyond : job.current_height ≡ end_height + 1
  pub same_end : job.end_height ≡ end_height
  pub same_checkpoints : result.store.checkpoints ≡ checkpoints
  pub same_engine : result.engine ≡ e

module _ {E : Type 0} (run : Run E) (cp : ReplayCheckpoint) (checkpoints : List ReplayCheckpoint)
    (e : E) where
  -- the store between two of the runs
  record Between (st : ReplayStore) : Type 0 where
    job : ReplayJob
    stored : st.job ≡ some job
    still_open : is_over job.status ≡ false
    ends : job.end_height ≡ cp.completed_height
    kept : st.checkpoints ≡ checkpoints

  resume_once :
      (now : DateTime) (st : ReplayStore) (e' : E)
      → e' ≡ e
      → latest_checkpoint checkpoints ≡ some cp
      → cp.completed_height < 2 ^ 64 - 1
      → Between st
      → LeftRunning cp.completed_height checkpoints e (resume_replay run now st e')
  unfolding resume_replay restore run_job run_loop conclude
  resume_once now st e' same latest fits h =
      rw (h.stored, h.still_open, h.kept, latest, nothing_left, past)
        (record {
          job = started now (record (restore (some cp) h.job) { status = running });
          returned = refl;
          stored = refl;
          status = refl;
          beyond = omega (arith, fits);
          same_end = h.ends;
          same_checkpoints = refl;
          same_engine = same;
        })
    where
      nothing_left : h.job.end_height + 1 - add64 cp.completed_height 1 ≡ 0
      nothing_left = omega (arith, fits, h.ends)

      past : (add64 cp.completed_height 1 == h.job.end_height) ≡ false
      past = ground (arith, fits, h.ends)

  resume_again :
      (nows : List DateTime) (now : DateTime) (st : ReplayStore) (e' : E)
      → e' ≡ e
      → latest_checkpoint checkpoints ≡ some cp
      → cp.completed_height < 2 ^ 64 - 1
      → Between st
      → LeftRunning cp.completed_height checkpoints e
          (resume_replay run now (resumed run nows (st, e')).0 (resumed run nows (st, e')).1)
  resume_again [] now st e' same latest fits h = resume_once now st e' same latest fits h
  resume_again (earlier ∷ nows) now st e' same latest fits h =
      let l = resume_once earlier st e' same latest fits h in
      let r = resume_replay run earlier st e' in
      resume_again nows now r.store r.engine l.same_engine latest fits (record {
        job = l.job;
        stored = l.stored;
        still_open = rw l.status refl;
        ends = l.same_end;
        kept = l.same_checkpoints;
      })

-- A job (with an end below 2^64 - 1) that stopped after the checkpoint of its last block, but before
-- it was marked as completed, is never completed by resuming it: however often it was resumed, the
-- next time it is again returned and stored as running, one block beyond its range.
pub resume_replay-LeftRunning :
    {E : Type 0} (run : Run E) (e : E) (nows : List DateTime) (now : DateTime) (job : ReplayJob)
    (st : ReplayStore) (cp : ReplayCheckpoint)
    → st.job ≡ some job
    → is_over job.status ≡ false
    → job.end_height < 2 ^ 64 - 1
    → latest_checkpoint st.checkpoints ≡ some cp
    → cp.completed_height ≡ job.end_height
    → LeftRunning cp.completed_height st.checkpoints e
        (resume_replay run now (resumed run nows (st, e)).0 (resumed run nows (st, e)).1)
resume_replay-LeftRunning run e nows now job st cp stored open_job fits latest at =
    resume_again run cp st.checkpoints e nows now st e refl latest (omega (arith, fits, at))
      (record { job = job; stored = stored; still_open = open_job; ends = cc at; kept = refl })
