-- ===== src/Storage/Incidents.antt =====
-- crates/obschain-storage/src/repository.rs: the incidents of `InMemoryStorage`, their watch targets,
-- activities and alerts, and the replay jobs.
use mathlib.Core.List.{reverse}
use obschain.Prelude.{
  ℕ, Bool, ◌&&◌, Option, none, some, List, [], ◌∷◌, ◌++◌, Text, text_eq, nat_eq, any, find, retain,
  length, leb, if◌then◌else◌, ◌==◌,
}
use obschain.Prelude.Sorting.{sort_by}
use obschain.Core.External.{Uuid}
use obschain.Core.Baseline.{to_ascii_lowercase}
use obschain.Core.Incident.{Incident}
use obschain.Core.Replay.{ReplayJob, ReplayCheckpoint}
use obschain.Core.Watch.{WatchTarget, IncidentActivity, ActivityStatus, IncidentAlert}
use obschain.Ingest.Replay.{latest_checkpoint}
use obschain.Storage.Equalities.{status_eq}
use obschain.Storage.Memory.{
  InMemoryStorage, not_found, Stored, ok, err, upsert, make_room, page, given,
}

unfoldable pub save_incident : Incident → InMemoryStorage → InMemoryStorage
unfolding upsert
save_incident incident st = record st {
  incidents = upsert (λ (i : Incident). i.id == incident.id) incident st.incidents;
}

unfoldable pub list_incidents : ℕ → ℕ → InMemoryStorage → List Incident
list_incidents limit offset st = page limit offset (reverse st.incidents)

unfoldable pub get_incident_by_id : Uuid → InMemoryStorage → Option Incident
get_incident_by_id id st = find (λ (i : Incident). i.id == id) st.incidents

abbrev pub eq_ignore_ascii_case : Text → Text → Bool
eq_ignore_ascii_case s t = to_ascii_lowercase s == to_ascii_lowercase t

-- `parse_str` is `Uuid::parse_str(..).ok()`.
unfoldable pub get_incident_by_id_or_case_id :
    (parse_str : Text → Option Uuid) → Text → InMemoryStorage → Option Incident
unfolding get_incident_by_id to_ascii_lowercase
get_incident_by_id_or_case_id parse_str identifier st =
    let by_case = find (λ (i : Incident). eq_ignore_ascii_case i.case_id identifier) st.incidents in
    elim (parse_str identifier) [
      | none ↦ by_case
      | some id ↦ elim (get_incident_by_id id st) [ none ↦ by_case | some i ↦ some i ]
    ]

unfoldable pub save_watch_target : WatchTarget → InMemoryStorage → InMemoryStorage
unfolding upsert
save_watch_target target st = record st {
  watch_targets = upsert (λ (t : WatchTarget). t.id == target.id) target st.watch_targets;
}

unfoldable pub list_watch_targets : Option Uuid → ℕ → ℕ → InMemoryStorage → List WatchTarget
list_watch_targets incident_id limit offset st =
    page limit offset
      (retain (λ (t : WatchTarget). given incident_id (λ id. t.incident_id == id)) st.watch_targets)

unfoldable pub get_watch_target_by_id : Uuid → InMemoryStorage → Option WatchTarget
get_watch_target_by_id id st = find (λ (t : WatchTarget). t.id == id) st.watch_targets

abbrev pub has_key : Text → IncidentActivity → Bool
has_key dedup_key a = a.dedup_key == dedup_key

unfoldable pub save_activity : IncidentActivity → InMemoryStorage → InMemoryStorage
unfolding upsert make_room
save_activity activity st =
    if any (has_key activity.dedup_key) st.activities
    then record st { activities = upsert (has_key activity.dedup_key) activity st.activities }
    else record st { activities = make_room st.max_activities st.activities ++ activity ∷ [] }

unfoldable pub list_activities :
    Option Uuid → Option ActivityStatus → ℕ → ℕ → InMemoryStorage → List IncidentActivity
list_activities incident_id status limit offset st = page limit offset (
    retain
      (λ (a : IncidentActivity).
        given incident_id (λ id. a.incident_id == id) && given status (λ s. a.status == s))
      (reverse st.activities))

unfoldable pub get_activity_by_id : Uuid → InMemoryStorage → Option IncidentActivity
get_activity_by_id id st = find (λ (a : IncidentActivity). a.id == id) st.activities

unfoldable pub get_activity_by_dedup_key : Text → InMemoryStorage → Option IncidentActivity
get_activity_by_dedup_key dedup_key st = find (has_key dedup_key) st.activities

unfoldable pub clear_activities : InMemoryStorage → InMemoryStorage
clear_activities st = record st { activities = [] }

unfoldable pub activity_count : InMemoryStorage → ℕ
activity_count st = length st.activities

abbrev pub has_alert_id : Uuid → IncidentAlert → Bool
has_alert_id id a = a.id == id

unfoldable pub save_alert : IncidentAlert → InMemoryStorage → InMemoryStorage
unfolding make_room
save_alert alert st =
    if any (has_alert_id alert.id) st.alerts
    then st
    else record st { alerts = make_room st.max_activities st.alerts ++ alert ∷ [] }

unfoldable pub list_alerts : Option Uuid → ℕ → ℕ → InMemoryStorage → List IncidentAlert
list_alerts incident_id limit offset st = page limit offset (
    retain (λ (a : IncidentAlert). given incident_id (λ id. a.incident_id == id))
      (reverse st.alerts))

unfoldable pub get_alert_by_id : Uuid → InMemoryStorage → Option IncidentAlert
get_alert_by_id id st = find (has_alert_id id) st.alerts

unfoldable pub clear_alerts : InMemoryStorage → InMemoryStorage
clear_alerts st = record st { alerts = [] }

unfoldable pub alert_count : InMemoryStorage → ℕ
alert_count st = length st.alerts

abbrev pub has_job_id : Uuid → ReplayJob → Bool
has_job_id id j = j.id == id

unfoldable pub create_job : ReplayJob → InMemoryStorage → InMemoryStorage
unfolding upsert
create_job job st = record st { replay_jobs = upsert (has_job_id job.id) job st.replay_jobs }

unfoldable pub get_job : Uuid → InMemoryStorage → Option ReplayJob
get_job id st = find (has_job_id id) st.replay_jobs

unfoldable pub update_job : ReplayJob → InMemoryStorage → Stored InMemoryStorage
unfolding upsert
update_job job st =
    if any (has_job_id job.id) st.replay_jobs
    then ok (record st { replay_jobs = upsert (has_job_id job.id) job st.replay_jobs })
    else err (not_found job.id)

-- `sort_by_key(Reverse(created_at))`
abbrev newer_job : ReplayJob → ReplayJob → Bool
newer_job j k = leb k.created_at j.created_at

unfoldable pub list_jobs : ℕ → ℕ → InMemoryStorage → List ReplayJob
unfolding sort_by
list_jobs limit offset st = page limit offset (sort_by newer_job st.replay_jobs)

unfoldable pub replay_job_count : InMemoryStorage → ℕ
replay_job_count st = length st.replay_jobs

unfoldable pub save_checkpoint : ReplayCheckpoint → InMemoryStorage → InMemoryStorage
save_checkpoint checkpoint st = record st {
  replay_checkpoints = st.replay_checkpoints ++ checkpoint ∷ [];
}

-- Of the checkpoints of the greatest height, the one that was saved last.
unfoldable pub get_latest_checkpoint : Uuid → InMemoryStorage → Option ReplayCheckpoint
unfolding latest_checkpoint
get_latest_checkpoint job_id st =
    latest_checkpoint
      (reverse (retain (λ (c : ReplayCheckpoint). c.job_id == job_id) st.replay_checkpoints))

unfoldable pub watch_target_count : InMemoryStorage → ℕ
watch_target_count st = length st.watch_targets
