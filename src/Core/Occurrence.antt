-- ===== src/Core/Occurrence.antt =====
-- crates/obschain-core/src/event.rs: the observations of an event and how they are identified.
pub mod Keys
use obschain.Prelude.{ℕ, Option, none, some, [], ◌∷◌, Text, codes, concat, show, text_eq, nat_eq}
use obschain.Core.External.{Uuid, DateTime, Externals}
use obschain.Core.Source.{ObservationSource, ObservationWitness, source_eq}
use obschain.Core.Mode.{ObservationMode, live, historical_replay}
use obschain.Core.Mode

pub data EventObservationKind : Type 0 where
  first_seen mempool_seen confirmed reorged_out witnessed replayed : EventObservationKind

abbrev pub kind_str : EventObservationKind → Text
kind_str first_seen = codes "FIRST_SEEN"
kind_str mempool_seen = codes "MEMPOOL_SEEN"
kind_str confirmed = codes "CONFIRMED"
kind_str reorged_out = codes "REORGED_OUT"
kind_str witnessed = codes "WITNESSED"
kind_str replayed = codes "HISTORICAL_REPLAY"

pub record EventObservation : Type 0 where
  pub id : Uuid
  pub event_id : Uuid
  pub mode : ObservationMode
  pub kind : EventObservationKind
  pub source : ObservationSource
  pub observed_at : DateTime
  pub bitcoin_time : Option DateTime
  pub replay_job_id : Option Uuid
  pub block_height : Option ℕ
  pub block_hash : Option Text
  pub confirmation_status : Option Text
  pub source_sequence : Option ℕ
  pub mempool_sequence : Option ℕ
  pub witness : Option ObservationWitness

-- `build_discriminator`
unfoldable pub build_discriminator : Option Text → Option ℕ → Option ℕ → Option Text → Text
build_discriminator (some hash) sseq mseq status = hash
build_discriminator none sseq (some mseq) status = concat (codes "mempool_seq:" ∷ show mseq ∷ [])
build_discriminator none (some sseq) none status = concat (codes "source_seq:" ∷ show sseq ∷ [])
build_discriminator none none none (some status) = status
build_discriminator none none none none = []

-- The name that `EventObservation::deterministic_id` hashes. `text` prints an identifier.
unfoldable pub observation_key :
    (Uuid → Text)
    → Uuid
    → ObservationMode
    → ObservationSource
    → EventObservationKind
    → Option Uuid
    → Option Text
    → Text
observation_key text event_id historical_replay source kind (some job_id) disc =
    concat (codes "obs:" ∷ text event_id ∷ codes ":replay:" ∷ text job_id ∷ [])
observation_key text event_id mode source kind job disc = concat (
    codes "obs:"
    ∷ text event_id
    ∷ codes ":"
    ∷ Mode.as_str mode
    ∷ codes ":"
    ∷ source.provider
    ∷ codes ":"
    ∷ source.transport
    ∷ codes ":"
    ∷ kind_str kind
    ∷ codes ":"
    ∷ elim disc [ none ↦ [] | some d ↦ d ]
    ∷ [])

unfoldable pub observation_id :
    Externals
    → Uuid
    → ObservationMode
    → ObservationSource
    → EventObservationKind
    → Option Uuid
    → Option Text
    → Uuid
observation_id x event_id mode source kind job disc =
    x.new_v5 (observation_key x.uuid_text event_id mode source kind job disc)

-- `recompute_id`
unfoldable pub recompute_id : Externals → EventObservation → EventObservation
recompute_id x o = record o {
  id = observation_id x o.event_id o.mode o.source o.kind o.replay_job_id (
      some (
        build_discriminator o.block_hash o.source_sequence o.mempool_sequence
          o.confirmation_status));
}

pub with_confirmation_status : Externals → Text → EventObservation → EventObservation
unfolding recompute_id
with_confirmation_status x status o =
    recompute_id x (record o { confirmation_status = some status })

pub with_source_sequence : Externals → ℕ → EventObservation → EventObservation
unfolding recompute_id
with_source_sequence x seq o = recompute_id x (record o { source_sequence = some seq })

pub with_mempool_sequence : Externals → ℕ → EventObservation → EventObservation
unfolding recompute_id
with_mempool_sequence x seq o = recompute_id x (record o { mempool_sequence = some seq })

-- `EventObservation::live`
pub live_observation :
    Externals
    → Uuid
    → ObservationSource
    → EventObservationKind
    → DateTime
    → Option DateTime
    → Option ℕ
    → Option Text
    → EventObservation
unfolding observation_id
live_observation x event_id source kind observed_at bitcoin_time block_height block_hash = record {
  id =
      observation_id x event_id live source kind none
        (some (build_discriminator block_hash none none none));
  event_id = event_id;
  mode = live;
  kind = kind;
  source = source;
  observed_at = observed_at;
  bitcoin_time = bitcoin_time;
  replay_job_id = none;
  block_height = block_height;
  block_hash = block_hash;
  confirmation_status = none;
  source_sequence = none;
  mempool_sequence = none;
  witness = some (record { source = source; observed_at = observed_at; metadata = none });
}

-- `EventObservation::historical_replay`
pub replay_observation :
    Externals
    → Uuid
    → Uuid
    → ObservationSource
    → DateTime
    → Option DateTime
    → Option ℕ
    → Option Text
    → EventObservation
unfolding observation_id
replay_observation x event_id job_id source observed_at bitcoin_time block_height block_hash =
    record {
      id = observation_id x event_id historical_replay source replayed (some job_id) none;
      event_id = event_id;
      mode = historical_replay;
      kind = replayed;
      source = source;
      observed_at = observed_at;
      bitcoin_time = bitcoin_time;
      replay_job_id = some job_id;
      block_height = block_height;
      block_hash = block_hash;
      confirmation_status = some (codes "confirmed");
      source_sequence = none;
      mempool_sequence = none;
      witness = none;
    }
