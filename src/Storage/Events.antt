-- ===== src/Storage/Events.antt =====
-- crates/obschain-storage/src/repository.rs: the events of `InMemoryStorage` and their observations.
use mathlib.Core.List.{reverse}
use obschain.Prelude.{
  ℕ, Bool, true, false, not, ◌&&◌, ◌||◌, Option, none, some, List, [], ◌∷◌, ◌++◌, Text, text_eq,
  nat_eq, any, find, retain, length, ltb, leb, if◌then◌else◌, ◌==◌,
}
use obschain.Core.External.{Uuid, DateTime, Readings}
use obschain.Core.Event.{ChainEvent, EventType, EventSeverity}
use obschain.Core.Mode.{ObservationMode, live, historical_replay}
use obschain.Core.Occurrence.{EventObservation}
use obschain.Core.Baseline.{BaselineMetric, metric_eq}
use obschain.Core.Baseline.Extraction.{Decoders, EventMetricValue, extract_event_metrics}
use obschain.Storage.Equalities.{option_beq, type_eq, severity_eq, mode_eq, kind_eq}
use obschain.Storage.Memory.{InMemoryStorage, upsert, change_first, make_room, page, given}

unfoldable pub save_event_metrics : List EventMetricValue → InMemoryStorage → InMemoryStorage
save_event_metrics [] st = st
save_event_metrics (m ∷ ms) st = save_event_metrics ms (record st {
  event_metrics =
      upsert
        (λ (e : EventMetricValue).
          (e.event_id == m.event_id)
          && (e.metric == m.metric)
          && (e.metric_definition_version == m.metric_definition_version))
        m st.event_metrics;
})

abbrev pub has_id : Uuid → ChainEvent → Bool
has_id id e = e.id == id

-- the conservative merge with an event that is stored
abbrev pub merged : ChainEvent → ChainEvent → ChainEvent
merged event existing = record existing {
  title = event.title;
  description = event.description;
  metadata = event.metadata;
}

-- The observations of the oldest event go with it, if the storage is full.
unfoldable pub forget_oldest : ℕ → List ChainEvent → List EventObservation → List EventObservation
forget_oldest limit [] obs = obs
forget_oldest limit (p ∷ events) obs =
    if leb limit (length (p ∷ events))
    then retain (λ (o : EventObservation). not (o.event_id == p.id)) obs
    else obs

-- the part of `save_event` that holds the lock of the events, for an event that is not stored
unfoldable pub push_event : ChainEvent → InMemoryStorage → InMemoryStorage
unfolding forget_oldest make_room
push_event event st = record st {
  event_observations = forget_oldest st.max_events st.events st.event_observations;
  events = make_room st.max_events st.events ++ event ∷ [];
}

-- `r` is what the records of the metrics read from the random source and from the clock.
unfoldable pub save_event :
    Decoders → (BaselineMetric → Readings) → ChainEvent → InMemoryStorage → InMemoryStorage
unfolding push_event change_first save_event_metrics
save_event d r event st =
    if any (has_id event.id) st.events
    then record st { events = change_first (has_id event.id) (merged event) st.events }
    else save_event_metrics (extract_event_metrics d r event none) (push_event event st)

unfoldable pub list_events : ℕ → ℕ → InMemoryStorage → List ChainEvent
list_events limit offset st = page limit offset (reverse st.events)

unfoldable pub list_event_observations : Uuid → InMemoryStorage → List EventObservation
list_event_observations event_id st =
    retain (λ (o : EventObservation). o.event_id == event_id) st.event_observations

unfoldable pub get_event_by_id : Uuid → InMemoryStorage → Option ChainEvent
unfolding list_event_observations
get_event_by_id id st = elim (find (has_id id) st.events) [
  | none ↦ none
  | some e ↦ some (record e { observations = list_event_observations id st })
]

pub record EventFilter : Type 0 where
  pub from_height : Option ℕ
  pub to_height : Option ℕ
  pub from_time : Option DateTime
  pub to_time : Option DateTime
  pub event_type : Option EventType
  pub severity : Option EventSeverity
  pub observation_mode : Option ObservationMode
  pub replay_job_id : Option Uuid
  pub txid : Option Text
  pub block_hash : Option Text
  pub limit : Option ℕ
  pub offset : Option ℕ

abbrev pub present {ℓ} : {A : Type ℓ} → Option A → (A → Bool) → Bool
present none p = false
present (some a) p = p a

unfoldable pub matches_filter : EventFilter → List EventObservation → ChainEvent → Bool
matches_filter f obs e =
    given f.from_height (λ from. present e.block_height (λ h. leb from h))
    && given f.to_height (λ to. present e.block_height (λ h. leb h to))
    && given f.from_time (λ from. leb from e.detected_at)
    && given f.to_time (λ to. leb e.detected_at to)
    && given f.event_type (λ t. e.event_type == t)
    && given f.severity (λ s. e.severity == s)
    && given f.observation_mode (λ mode.
      any (λ (o : EventObservation). (o.event_id == e.id) && (o.mode == mode)) obs
      || (e.observation_mode == mode))
    && given f.replay_job_id (λ job.
      any
        (λ (o : EventObservation). (o.event_id == e.id) && present o.replay_job_id (λ j. j == job))
        obs
      || present e.replay_job_id (λ j. j == job))
    && given f.txid (λ txid. present e.txid (λ t. t == txid))
    && given f.block_hash (λ hash. present e.block_hash (λ h. h == hash))

-- `unwrap_or(100).clamp(1, 1000)`
abbrev pub query_limit : Option ℕ → ℕ
query_limit none = 100
query_limit (some n) = if ltb n 1 then 1 else if ltb 1_000 n then 1_000 else n

abbrev pub query_offset : Option ℕ → ℕ
query_offset none = 0
query_offset (some n) = n

unfoldable pub query_events : EventFilter → InMemoryStorage → List ChainEvent
unfolding matches_filter
query_events f st =
    page (query_limit f.limit) (query_offset f.offset)
      (retain (matches_filter f st.event_observations) (reverse st.events))

-- When a stored observation is the same occurrence as a new one.
unfoldable pub same_occurrence : EventObservation → EventObservation → Bool
same_occurrence new o =
    (o.id == new.id)
    || ((new.mode == historical_replay)
        && (o.event_id == new.event_id)
        && option_beq o.replay_job_id new.replay_job_id
        && present new.replay_job_id (λ j. true))
    || ((new.mode == live)
        && (o.event_id == new.event_id)
        && (o.mode == live)
        && (o.source.provider == new.source.provider)
        && (o.source.transport == new.source.transport)
        && (o.kind == new.kind)
        && option_beq o.block_hash new.block_hash
        && option_beq o.source_sequence new.source_sequence
        && option_beq o.mempool_sequence new.mempool_sequence
        && option_beq o.confirmation_status new.confirmation_status)

unfoldable pub save_event_observation : EventObservation → InMemoryStorage → InMemoryStorage
unfolding same_occurrence upsert
save_event_observation observation st = record st {
  event_observations = upsert (same_occurrence observation) observation st.event_observations;
}

unfoldable pub count_event_observations : Option Uuid → InMemoryStorage → ℕ
count_event_observations (some id) st = length (list_event_observations id st)
count_event_observations none st = length st.event_observations

unfoldable pub clear_events : InMemoryStorage → InMemoryStorage
clear_events st = record st { events = []; event_observations = [] }

unfoldable pub event_count : InMemoryStorage → ℕ
event_count st = length st.events

unfoldable pub query_events_for_baseline :
    Option EventType → ℕ → ℕ → InMemoryStorage → List ChainEvent
query_events_for_baseline event_type start_height end_height st =
    retain
      (λ (e : ChainEvent).
        present e.block_height (λ h. leb start_height h && leb h end_height)
        && given event_type (λ t. e.event_type == t))
      st.events

unfoldable pub get_event_metrics : Uuid → InMemoryStorage → List EventMetricValue
get_event_metrics event_id st =
    retain (λ (m : EventMetricValue). m.event_id == event_id) st.event_metrics
