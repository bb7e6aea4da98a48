-- ===== src/Storage/Lookup.antt =====
-- What is read from `InMemoryStorage` (crates/obschain-storage/src/repository.rs) after it was saved.
use obschain.Prelude.{
  ℕ, ◌<◌, true, false, not, Option, none, some, List, [], ◌∷◌, any, find, retain, Text, text_eq,
  nat_eq, length, arith, ◌≡◌, ◌⊎◌, refl, sym, inl, inr, Bool-cases, if◌then◌else◌, ◌==◌,
}
use obschain.Core.External.{Uuid, Readings}
use obschain.Core.Event.{ChainEvent}
use obschain.Core.Occurrence.{EventObservation}
use obschain.Core.Replay.{ReplayJob}
use obschain.Core.Watch.{IncidentActivity}
use obschain.Core.Baseline.{BaselineMetric}
use obschain.Core.Baseline.Extraction.{Decoders, EventMetricValue, extract_event_metrics}
use obschain.Storage.Memory.{InMemoryStorage, ok, err, not_found, change_first}
use obschain.Storage.Events.{
  save_event, push_event, save_event_metrics, forget_oldest, has_id, merged, get_event_by_id,
  list_event_observations,
}
use obschain.Storage.Incidents.{
  save_activity, get_activity_by_dedup_key, has_key, create_job, update_job, get_job, has_job_id,
}
use obschain.Storage.Finding.{find-absent, find-any}
use obschain.Storage.Keys.{
  find-upsert, find-upsert_at, find-upsert_other, find-push, find-push_at, find-change_first,
}

abbrev event_key : ChainEvent → Uuid
event_key e = e.id

abbrev activity_key : IncidentActivity → Text
activity_key a = a.dedup_key

abbrev job_key : ReplayJob → Uuid
job_key j = j.id

module _ (id : Uuid) where
  save_event_metrics-get :
      (ms : List EventMetricValue) (st : InMemoryStorage)
      → get_event_by_id id (save_event_metrics ms st) ≡ get_event_by_id id st
  unfolding save_event_metrics get_event_by_id list_event_observations
  save_event_metrics-get [] st = refl
  save_event_metrics-get (m ∷ ms) st = save_event_metrics-get ms _

  retain_others :
      (other : Uuid) (obs : List EventObservation)
      → (id == other) ≡ false
      → retain
          (λ (o : EventObservation). o.event_id == id)
          (retain (λ (o : EventObservation). not (o.event_id == other)) obs)
        ≡ retain (λ (o : EventObservation). o.event_id == id) obs
  retain_others other [] h = refl
  retain_others other (o ∷ obs) h = ground (arith, retain_others other obs h)

  forget_oldest-others :
      (limit : ℕ) (events : List ChainEvent) (obs : List EventObservation)
      → any (has_id id) events ≡ false
      → retain (λ (o : EventObservation). o.event_id == id) (forget_oldest limit events obs)
        ≡ retain (λ (o : EventObservation). o.event_id == id) obs
  unfolding forget_oldest
  forget_oldest-others limit [] obs h = refl
  forget_oldest-others limit (p ∷ events) obs h = ground (arith, retain_others p.id obs)

  get_found :
      (st : InMemoryStorage) (e : ChainEvent)
      → find (has_id id) st.events ≡ some e
      → get_event_by_id id st ≡ some (record e { observations = list_event_observations id st })
  unfolding get_event_by_id
  get_found st e found = rw (get_event_by_id, found) refl

  get_absent :
      (st : InMemoryStorage) → any (has_id id) st.events ≡ false → get_event_by_id id st ≡ none
  unfolding get_event_by_id
  get_absent st new = rw (get_event_by_id, find-absent (has_id id) st.events new) refl

-- what a caller reads of an event after it is saved, by what was read before
abbrev pub saved_event : ChainEvent → List EventObservation → Option ChainEvent → ChainEvent
saved_event event obs none = record event { observations = obs }
saved_event event obs (some e) = record e {
  title = event.title;
  description = event.description;
  metadata = event.metadata;
}

-- An event that is saved is read back: a new one with the observations that are stored for it, and
-- one that was stored as it was but for the title, the description and the metadata of the new one.
-- This holds for a full storage too.
pub save_event-get_event_by_id :
    (d : Decoders) (r : BaselineMetric → Readings) (event : ChainEvent) (st : InMemoryStorage)
    → get_event_by_id event.id (save_event d r event st)
      ≡ some (saved_event event (list_event_observations event.id st) (get_event_by_id event.id st))
unfolding save_event push_event get_event_by_id list_event_observations
save_event-get_event_by_id d r event st = elim (Bool-cases (any (has_id event.id) st.events)) [
  | inl there ↦
      let (e, found) = find-any (has_id event.id) st.events there in
      let f = merged event in
      rw (there, get_found event.id st e found)
        (get_found event.id (record st { events = change_first (has_id event.id) f st.events })
          (f e) (find-change_first event_key event.id f st.events e (λ x. refl) found))
  | inr new ↦
      rw
        (
          new,
          save_event_metrics-get event.id (extract_event_metrics d r event none)
              (push_event event st),
          get_absent event.id st new,
          sym (forget_oldest-others event.id st.max_events st.events st.event_observations new),
        )
        (get_found event.id (push_event event st) event
          (find-push event_key st.max_events event st.events new))
]

-- While there is room for another activity, or one of its key is stored, saving one changes what is
-- read under its deduplication key, to the activity as it is saved, and under no other key.
pub save_activity-get :
    (a : IncidentActivity) (dedup_key : Text) (st : InMemoryStorage)
    → (length st.activities < st.max_activities) ⊎ (any (has_key a.dedup_key) st.activities ≡ true)
    → get_activity_by_dedup_key dedup_key (save_activity a st)
      ≡ (if a.dedup_key == dedup_key then some a else get_activity_by_dedup_key dedup_key st)
unfolding save_activity get_activity_by_dedup_key
save_activity-get a k st room = elim (Bool-cases (any (has_key a.dedup_key) st.activities)) [
  | inl there ↦ rw there (find-upsert_at activity_key k a st.activities)
  | inr new ↦
      rw new (find-push_at activity_key st.max_activities k a st.activities (ground arith) new)
]

-- A job is updated exactly when a job of its id is stored: then as if it was created, after which it
-- is read back and any other job is read as before; where none is, the result is an error, which
-- names it.
pub update_job-outcome :
    (job : ReplayJob) (other : Uuid) (st : InMemoryStorage)
    → ((get_job job.id st ≡ none) × (update_job job st ≡ err (not_found job.id)))
      ⊎ ((old : ReplayJob) × (get_job job.id st ≡ some old)
          × (update_job job st ≡ ok (create_job job st))
          × (get_job job.id (create_job job st) ≡ some job)
          × ((job.id == other) ≡ true ⊎ (get_job other (create_job job st) ≡ get_job other st)))
unfolding update_job create_job get_job
update_job-outcome job other st = elim (Bool-cases (any (has_job_id job.id) st.replay_jobs)) [
  | inl there ↦
      let (old, found) = find-any (has_job_id job.id) st.replay_jobs there in
      inr (
        old,
        found,
        rw there refl,
        find-upsert job_key job st.replay_jobs,
        elim (Bool-cases (job.id == other)) [
          | inl same ↦ inl same
          | inr another ↦ inr (find-upsert_other job_key other job st.replay_jobs another)
        ],
      )
  | inr absent ↦ inl (find-absent (has_job_id job.id) st.replay_jobs absent, rw absent refl)
]
