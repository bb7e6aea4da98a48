-- ===== src/Core/Mode.antt =====
-- crates/obschain-core/src/replay.rs: whether an event was observed live or by replaying blocks.
use obschain.Prelude.{ℕ, Option, none, some, Text, codes}
use obschain.Core.External.{Uuid, DateTime}

pub data ObservationMode : Type 0 where
  live historical_replay : ObservationMode

abbrev pub as_str : ObservationMode → Text
as_str live = codes "live"
as_str historical_replay = codes "historical_replay"

pub record ObservationContext : Type 0 where
  pub mode : ObservationMode
  pub replay_job_id : Option Uuid
  pub historical_height : Option ℕ
  pub historical_block_hash : Option Text
  pub historical_timestamp : Option DateTime
  pub network : Text

pub live_context : Text → ObservationContext
live_context network = record {
  mode = live;
  replay_job_id = none;
  historical_height = none;
  historical_block_hash = none;
  historical_timestamp = none;
  network = network;
}

pub replay_context : Uuid → ℕ → Text → DateTime → Text → ObservationContext
replay_context job_id height block_hash timestamp network = record {
  mode = historical_replay;
  replay_job_id = some job_id;
  historical_height = some height;
  historical_block_hash = some block_hash;
  historical_timestamp = some timestamp;
  network = network;
}
