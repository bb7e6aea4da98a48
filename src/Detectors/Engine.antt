-- ===== src/Detectors/Engine.antt =====
-- crates/obschain-detectors/src/engine.rs and the trait of lib.rs: `DetectorEngine`. A detector that
-- panics on an observation returns nothing at all (`none`).
pub mod Identity
pub mod Isolation
pub mod Interval
use obschain.Prelude.{
  ℕ, Bool, true, false, not, ◌&&◌, ◌||◌, Option, none, some, List, [], ◌∷◌, ◌++◌, map, Text, codes,
  String, text_eq, ltb, ◌==◌, if◌then◌else◌,
}
use obschain.Core.External.{
  seconds_since, Json, Fields, object, string, number, unsigned, insert_field, Externals,
}
use obschain.Core.Mode.{live, historical_replay, ObservationContext}
use obschain.Core.Observation.{BlockObservation, Observation, block}
use obschain.Core.Observation
use obschain.Core.Source.{ObservationSource}
use obschain.Core.Event.{ChainEvent, with_deterministic_id}

pub record DetectorAvailability : Type 0 where
  pub historically_replayable : Bool
  pub requires_mempool_history : Bool
  pub requires_multiple_observers : Bool
  pub requires_external_labels : Bool
  pub notes : Option Text

-- `DetectorAvailability::default`
abbrev pub default_availability : DetectorAvailability
default_availability = record {
  historically_replayable = true;
  requires_mempool_history = false;
  requires_multiple_observers = false;
  requires_external_labels = false;
  notes = none;
}

-- `Detector` in one call, without its name and its description: `detect` is what it finds with the
-- random identifiers that it draws and the times that it reads in this call, or none if it panics.
pub record Detector : Type 0 where
  pub detect : Observation → Option (List ChainEvent)
  pub availability : DetectorAvailability

pub record DetectorEngine : Type 0 where
  pub detectors : List Detector
  pub last_block : Option BlockObservation

unfoldable pub new_engine : List Detector → DetectorEngine
new_engine detectors = record { detectors = detectors; last_block = none }

-- The interval to the block before, where it is another block and the clock went forward.
unfoldable pub interval_after : BlockObservation → BlockObservation → Option ℕ
interval_after prev b =
    let secs = seconds_since b.timestamp prev.timestamp in
    if ltb prev.height b.height || not (b.block_hash == prev.block_hash)
    then (if ltb 0 secs then some secs else none)
    else none

-- What the engine does to a block before the detectors see it.
unfoldable pub with_interval : Option BlockObservation → BlockObservation → BlockObservation
unfolding interval_after
with_interval last b = elim b.interval_seconds [
  | some secs ↦ b
  | none ↦ elim last [
    | none ↦ b
    | some prev ↦ record b { interval_seconds = interval_after prev b }
  ]
]

-- The observation that the detectors see, and the block that the engine keeps.
unfoldable pub observe :
    Option BlockObservation → Observation → Observation × Option BlockObservation
unfolding with_interval
observe last (block b) = let b' = with_interval last b in (block b', some b')
observe last obs = (obs, last)

abbrev pub is_replay : Option ObservationContext → Bool
is_replay none = false
is_replay (some ctx) = elim ctx.mode [ live ↦ false | historical_replay ↦ true ]

abbrev pub skipped : Bool → Detector → Bool
skipped replay d = replay && not d.availability.historically_replayable

abbrev pub with_source : Option ObservationSource → ChainEvent → ChainEvent
with_source src ev = elim ev.source [ none ↦ record ev { source = src } | some s ↦ ev ]

abbrev pub optional_field {ℓ} : {A : Type ℓ} → String → (A → Json) → Option A → Fields → Fields
optional_field k encode none m = m
optional_field k encode (some a) m = insert_field k (encode a) m

module _ (x : Externals) where
  -- the keys that a replay adds to an event's metadata
  abbrev pub replay_fields : ObservationContext → Fields → Fields
  replay_fields ctx m =
      let mode = insert_field "observation_mode" (string (codes "historical_replay")) m in
      let job =
        optional_field "replay_job_id" (λ j. string (x.uuid_text j)) ctx.replay_job_id mode in
      let height =
        optional_field "historical_height" (λ h. number (unsigned h)) ctx.historical_height job in
      let hash =
        optional_field "historical_block_hash" (λ h. string h) ctx.historical_block_hash height in
      optional_field "historical_timestamp" (λ t. string (x.time_text t)) ctx.historical_timestamp
        hash

  abbrev pub replay_metadata : ObservationContext → Json → Json
  replay_metadata ctx (object m) = object (replay_fields ctx m)
  replay_metadata ctx json = json

  -- the provenance that a replay gives to an event
  unfoldable pub with_replay : Observation → ObservationContext → ChainEvent → ChainEvent
  with_replay obs ctx ev = record ev {
    detected_at = elim ctx.historical_timestamp [ none ↦ Observation.timestamp obs | some t ↦ t ];
    observation_mode = historical_replay;
    replay_job_id = ctx.replay_job_id;
    metadata = replay_metadata ctx ev.metadata;
  }

  abbrev pub with_context : Observation → Option ObservationContext → ChainEvent → ChainEvent
  with_context obs none ev = ev
  with_context obs (some ctx) ev = elim ctx.mode [
    | live ↦ ev
    | historical_replay ↦ with_replay obs ctx ev
  ]

  -- What the engine does to an event that a detector returns.
  unfoldable pub finish :
      Option ObservationSource → Observation → Option ObservationContext → ChainEvent → ChainEvent
  unfolding with_replay
  finish src obs context ev =
      with_deterministic_id x (with_context obs context (with_source src ev))

  -- What one detector contributes: nothing where it is skipped or panics.
  unfoldable pub run_detector :
      Option ObservationSource
      → Observation
      → Option ObservationContext
      → Detector
      → List ChainEvent
  unfolding finish
  run_detector src obs context d =
      if skipped (is_replay context) d
      then []
      else elim (d.detect obs) [ none ↦ [] | some evs ↦ map (finish src obs context) evs ]

  unfoldable pub run_detectors :
      Option ObservationSource
      → Observation
      → Option ObservationContext
      → List Detector
      → List ChainEvent
  unfolding run_detector
  run_detectors src obs context [] = []
  run_detectors src obs context (d ∷ ds) =
      run_detector src obs context d ++ run_detectors src obs context ds

  unfoldable pub process_observation_with_context :
      Observation → Option ObservationContext → DetectorEngine → List ChainEvent × DetectorEngine
  unfolding run_detectors observe
  process_observation_with_context obs context engine =
      let (seen, last) = observe engine.last_block obs in
      (
        run_detectors (Observation.source obs) seen context engine.detectors,
        record engine { last_block = last },
      )

  unfoldable pub process_observation :
      Observation → DetectorEngine → List ChainEvent × DetectorEngine
  unfolding process_observation_with_context
  process_observation obs engine = process_observation_with_context obs none engine
