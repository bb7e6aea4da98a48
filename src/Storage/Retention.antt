-- ===== src/Storage/Retention.antt =====
-- What holds of the collections of `InMemoryStorage` (crates/obschain-storage/src/repository.rs)
-- after every history of calls.
use Prim.Native.Nat.{max}
use obschain.Prelude.{
  Option, some, ℕ, ◌≤◌, false, none, List, [], ◌∷◌, ◌++◌, map, ◌==◌, arith, any, Text, text_eq,
  nat_eq, ◌≡◌, refl, inl, inr, Bool-cases, Option-cases,
}
use obschain.Core.External.{Externals, Uuid, DateTime, Readings}
use obschain.Core.Event.{ChainEvent, new_event}
use obschain.Core.Incident.{Incident}
use obschain.Core.Replay.{ReplayJob}
use obschain.Core.Watch.{WatchTarget, IncidentActivity, IncidentAlert}
use obschain.Core.Baseline.{BaselineMetric}
use obschain.Core.Baseline.Extraction.{Decoders, EventMetricValue, extract_event_metrics}
use obschain.Storage.Memory.{InMemoryStorage, unseeded}
use obschain.Storage.Seeding.{
  Seed, same_target, seed_targets, seed_canonical_incidents, seed_mock_data, with_limits, new_empty,
}
use obschain.Storage.Events.{
  save_event, push_event, save_event_metrics, save_event_observation, query_events_for_baseline,
  clear_events, has_id, merged,
}
use obschain.Storage.Incidents.{
  save_incident, save_watch_target, save_activity, save_alert, clear_activities, clear_alerts,
  create_job, update_job, save_checkpoint, has_key, has_alert_id, has_job_id,
}
use obschain.Storage.Keys.{Unique}
use obschain.Core.Baseline.Records.{BaselineRun, BaselineRunStatus, BaselineDistribution}
use obschain.Storage.Baselines.{
  RankQuery, create_baseline_run, update_baseline_run_status, save_baseline_distributions,
  save_event_rarity, get_exact_empirical_rank, extract_all, rank_among, matching, has_run_id,
  with_status,
}
use obschain.Storage.Keys.{change_first-keys}
use obschain.Storage.Kept.{
  IsKept, push-IsKept, push-Unique, upsert-Unique, upsert-IsKept, change-IsKept, nil-IsKept,
}
use obschain.Storage.History.{
  StorageOp, saves_event, saves_metrics, saves_observation, saves_incident, saves_target,
  saves_activity, saves_alert, creates_job, updates_job, saves_checkpoint, creates_run, updates_run,
  saves_distributions, saves_rarity, ranks, clears_events, clears_activities, clears_alerts, after,
  apply_op, run,
}

abbrev event_key : ChainEvent → Uuid
event_key e = e.id

abbrev activity_key : IncidentActivity → Text
activity_key a = a.dedup_key

abbrev alert_key : IncidentAlert → Uuid
alert_key a = a.id

abbrev incident_key : Incident → Uuid
incident_key i = i.id

abbrev target_key : WatchTarget → Uuid
target_key t = t.id

abbrev job_key : ReplayJob → Uuid
job_key j = j.id

abbrev run_key : BaselineRun → Uuid
run_key r = r.id

-- Every collection holds elements with keys of their own, and the bounded ones no more than they may.
abbrev pub IsRetained : (most_events max_events max_activities : ℕ) → InMemoryStorage → Type 0
IsRetained b m n st =
    (st.max_events ≡ m)
    × (st.max_activities ≡ n)
    × IsKept event_key b st.events
    × IsKept activity_key n st.activities
    × IsKept alert_key n st.alerts
    × Unique (map incident_key st.incidents)
    × Unique (map target_key st.watch_targets)
    × Unique (map job_key st.replay_jobs)
    × Unique (map run_key st.baseline_runs)

module _ (b m n : ℕ) (le : m ≤ b) where
  save_event_metrics-keeps :
      (ms : List EventMetricValue) (st : InMemoryStorage)
      → IsRetained b m n st
      → IsRetained b m n (save_event_metrics ms st)
  unfolding save_event_metrics
  save_event_metrics-keeps [] st h = h
  save_event_metrics-keeps (x ∷ ms) st h = save_event_metrics-keeps ms _ h

  save_event-keeps :
      (d : Decoders) (r : BaselineMetric → Readings) (event : ChainEvent) (st : InMemoryStorage)
      → IsRetained b m n st
      → IsRetained b m n (save_event d r event st)
  unfolding save_event push_event
  save_event-keeps d r event st (em, am, events, ac, al, inc, tg, jobs, runs) =
      elim (Bool-cases (any (has_id event.id) st.events)) [
        | inl there ↦ rw there (
          em,
          am,
          change-IsKept event_key b (has_id event.id) (merged event) st.events (λ x. refl) events,
          ac,
          al,
          inc,
          tg,
          jobs,
          runs,
        )
        | inr new ↦
            let kept = push-IsKept event_key m b event st.events le new events in
            rw new (
              save_event_metrics-keeps (extract_event_metrics d r event none) (push_event event st)
                (em, am, rw em kept, ac, al, inc, tg, jobs, runs))
      ]

  save_activity-keeps :
      (a : IncidentActivity) (st : InMemoryStorage)
      → IsRetained b m n st
      → IsRetained b m n (save_activity a st)
  unfolding save_activity
  save_activity-keeps a st (em, am, events, activities, al, inc, tg, jobs, runs) =
      elim (Bool-cases (any (has_key a.dedup_key) st.activities)) [
        | inl there ↦
            let kept = upsert-IsKept activity_key n a st.activities there activities in
            rw there (em, am, events, kept, al, inc, tg, jobs, runs)
        | inr new ↦
            let kept = push-IsKept activity_key n n a st.activities (omega arith) new activities in
            rw new (em, am, events, rw am kept, al, inc, tg, jobs, runs)
      ]

  save_alert-keeps :
      (a : IncidentAlert) (st : InMemoryStorage)
      → IsRetained b m n st
      → IsRetained b m n (save_alert a st)
  unfolding save_alert
  save_alert-keeps a st (em, am, events, activities, alerts, inc, tg, jobs, runs) =
      elim (Bool-cases (any (has_alert_id a.id) st.alerts)) [
        | inl there ↦ rw there (em, am, events, activities, alerts, inc, tg, jobs, runs)
        | inr new ↦
            let kept = push-IsKept alert_key n n a st.alerts (omega arith) new alerts in
            rw new (em, am, events, activities, rw am kept, inc, tg, jobs, runs)
      ]

  create_job-keeps :
      (j : ReplayJob) (st : InMemoryStorage)
      → IsRetained b m n st
      → IsRetained b m n (create_job j st)
  unfolding create_job
  create_job-keeps j st (em, am, events, activities, alerts, incidents, targets, jobs, runs) = (
    em,
    am,
    events,
    activities,
    alerts,
    incidents,
    targets,
    upsert-Unique job_key j st.replay_jobs jobs,
    runs,
  )

  update_run-keeps :
      (id : Uuid) (status : BaselineRunStatus) (at : Option DateTime) (k : ℕ)
      (message : Option Text) (st : InMemoryStorage)
      → IsRetained b m n st
      → IsRetained b m n (after st (update_baseline_run_status id status at k message st))
  unfolding update_baseline_run_status
  update_run-keeps id status at k message st (em, am, ev, ac, al, inc, tg, jobs, runs) =
      elim (Bool-cases (any (has_run_id id) st.baseline_runs)) [
        | inl there ↦ rw there (
          em,
          am,
          ev,
          ac,
          al,
          inc,
          tg,
          jobs,
          rw
              (change_first-keys run_key (has_run_id id) (with_status status at k message)
                st.baseline_runs (λ x. refl))
              runs,
        )
        | inr absent ↦ rw absent (em, am, ev, ac, al, inc, tg, jobs, runs)
      ]

  save_distributions-keeps :
      (ds : List BaselineDistribution) (st : InMemoryStorage)
      → IsRetained b m n st
      → IsRetained b m n (save_baseline_distributions ds st)
  unfolding save_baseline_distributions
  save_distributions-keeps [] st h = h
  save_distributions-keeps (x ∷ ds) st h = save_distributions-keeps ds _ h

  extract_all-keeps :
      (d : Decoders) (r : ChainEvent → BaselineMetric → Readings) (es : List ChainEvent)
      (st : InMemoryStorage)
      → IsRetained b m n st
      → IsRetained b m n (extract_all d r es st)
  unfolding extract_all
  extract_all-keeps d r [] st h = h
  extract_all-keeps d r (e ∷ es) st h =
      extract_all-keeps d r es _
        (save_event_metrics-keeps (extract_event_metrics d (r e) e none) st h)

  rank-keeps :
      (x : Externals) (d : Decoders) (r : ChainEvent → BaselineMetric → Readings) (q : RankQuery)
      (st : InMemoryStorage)
      → IsRetained b m n st
      → IsRetained b m n (get_exact_empirical_rank x d r q st).1
  unfolding get_exact_empirical_rank
  rank-keeps x d r q st h = elim (Option-cases (rank_among x q (matching q st))) [
    | inl absent ↦
        rw (get_exact_empirical_rank, absent)
          (extract_all-keeps d r
            (query_events_for_baseline (some q.event_type) q.start_height q.end_height st) st h)
    | inr (found, e) ↦ rw (get_exact_empirical_rank, e) h
  ]

  apply_op-keeps :
      (d : Decoders) (op : StorageOp) (st : InMemoryStorage)
      → IsRetained b m n st
      → IsRetained b m n (apply_op d op st)
  unfolding apply_op save_event_observation save_incident save_watch_target update_job create_job
      save_checkpoint create_baseline_run save_event_rarity clear_events clear_activities
      clear_alerts
  apply_op-keeps d (saves_event r event) st h = save_event-keeps d r event st h
  apply_op-keeps d (saves_metrics ms) st h = save_event_metrics-keeps ms st h
  apply_op-keeps d (saves_observation o) st h = h
  apply_op-keeps d (saves_incident i) st (em, am, ev, ac, al, incidents, tg, jobs, runs) =
      (em, am, ev, ac, al, upsert-Unique incident_key i st.incidents incidents, tg, jobs, runs)
  apply_op-keeps d (saves_target t) st (em, am, ev, ac, al, inc, targets, jobs, runs) =
      (em, am, ev, ac, al, inc, upsert-Unique target_key t st.watch_targets targets, jobs, runs)
  apply_op-keeps d (saves_activity a) st h = save_activity-keeps a st h
  apply_op-keeps d (saves_alert a) st h = save_alert-keeps a st h
  apply_op-keeps d (creates_job j) st h = create_job-keeps j st h
  apply_op-keeps d (updates_job j) st h = elim (Bool-cases (any (has_job_id j.id) st.replay_jobs)) [
    | inl there ↦ rw there (create_job-keeps j st h)
    | inr absent ↦ rw absent h
  ]
  apply_op-keeps d (saves_checkpoint c) st h = h
  apply_op-keeps d (creates_run r) st (em, am, ev, ac, al, inc, tg, jobs, runs) =
      (em, am, ev, ac, al, inc, tg, jobs, upsert-Unique run_key r st.baseline_runs runs)
  apply_op-keeps d (updates_run id status at k message) st h =
      update_run-keeps id status at k message st h
  apply_op-keeps d (saves_distributions ds) st h = save_distributions-keeps ds st h
  apply_op-keeps d (saves_rarity e impact) st h = h
  apply_op-keeps d (ranks x r q) st h = rank-keeps x d r q st h
  apply_op-keeps d clears_events st (em, am, events, ac, al, inc, tg, jobs, runs) =
      (em, am, nil-IsKept event_key b, ac, al, inc, tg, jobs, runs)
  apply_op-keeps d clears_activities st (em, am, ev, activities, al, inc, tg, jobs, runs) =
      (em, am, ev, nil-IsKept activity_key n, al, inc, tg, jobs, runs)
  apply_op-keeps d clears_alerts st (em, am, ev, ac, alerts, inc, tg, jobs, runs) =
      (em, am, ev, ac, nil-IsKept alert_key n, inc, tg, jobs, runs)

  pub run-keeps :
      (d : Decoders) (ops : List StorageOp) (st : InMemoryStorage)
      → IsRetained b m n st
      → IsRetained b m n (run d ops st)
  unfolding run
  run-keeps d [] st h = h
  run-keeps d (op ∷ ops) st h = run-keeps d ops (apply_op d op st) (apply_op-keeps d op st h)

seed_targets-Unique :
    (targets stored : List WatchTarget)
    → Unique (map target_key stored)
    → Unique (map target_key (seed_targets targets stored))
unfolding seed_targets
seed_targets-Unique [] stored u = u
seed_targets-Unique (t ∷ ts) stored u = elim (Bool-cases (any (same_target t) stored)) [
  | inl there ↦ rw there (seed_targets-Unique ts stored u)
  | inr absent ↦ rw absent (
      seed_targets-Unique ts (stored ++ t ∷ [])
        (push-Unique target_key t stored (no_id t stored absent) u))
]
  where
    no_id :
        (t : WatchTarget) (ts : List WatchTarget)
        → any (same_target t) ts ≡ false
        → any (λ s. target_key s == target_key t) ts ≡ false
    no_id t [] h = refl
    no_id t (s ∷ ts) h = ground (arith, no_id t ts)

module _ (x : Externals) (seed : Seed) (m n : ℕ) where
  with_limits-IsRetained : IsRetained (max m 3) m n (with_limits x seed m n)
  unfolding with_limits seed_canonical_incidents seed_mock_data unseeded new_event
  with_limits-IsRetained = (
    refl,
    refl,
    record { unique = (refl, (refl, (refl, tt))); bounded = omega arith },
    nil-IsKept activity_key n,
    nil-IsKept alert_key n,
    (refl, tt),
    seed_targets-Unique seed.targets [] tt,
    tt,
    tt,
  )

  new_empty-IsRetained : IsRetained m m 5_000 (new_empty seed m)
  unfolding new_empty seed_canonical_incidents unseeded
  new_empty-IsRetained = (
    refl,
    refl,
    nil-IsKept event_key m,
    nil-IsKept activity_key 5_000,
    nil-IsKept alert_key 5_000,
    (refl, tt),
    seed_targets-Unique seed.targets [] tt,
    tt,
    tt,
  )

-- After any calls, a storage made with `with_limits` holds at most `max_events` events, but three if
-- that is less, as it begins with three mock events, and at most `max_activities` activities and as
-- many alerts (one, where that is 0). One made with `new_empty` holds at most `max_events` events
-- (one, where that is 0) and 5,000 activities and alerts. In both no two events, alerts, incidents,
-- watch targets, replay jobs or baseline runs have the same id, and no two activities the same
-- deduplication key.
pub run-IsRetained :
    (d : Decoders) (x : Externals) (seed : Seed) (max_events max_activities : ℕ)
    (ops : List StorageOp)
    → IsRetained
        (max max_events 3)
        max_events
        max_activities
        (run d ops (with_limits x seed max_events max_activities))
      × IsRetained max_events max_events 5_000 (run d ops (new_empty seed max_events))
run-IsRetained d x seed m n ops = (
  run-keeps (max m 3) m n (omega arith) d ops (with_limits x seed m n)
      (with_limits-IsRetained x seed m n),
  run-keeps m m 5_000 (omega arith) d ops (new_empty seed m) (new_empty-IsRetained x seed m n),
)
