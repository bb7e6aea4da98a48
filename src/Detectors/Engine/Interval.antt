-- ===== src/Detectors/Engine/Interval.antt =====
-- Which interval a block gets: `process_observation_with_context` in
-- crates/obschain-detectors/src/engine.rs.
use obschain.Prelude.{
  ℕ, ◌<◌, Option, none, some, text_eq, text_beq_iff, arith, ◌≡◌, ◌≢◌, ◌↔◌, ◌⊎◌, refl,
}
use mathlib.Core.Option.{some-injective}
use obschain.Core.External.{Externals, seconds_since}
use obschain.Core.Mode.{ObservationContext}
use obschain.Core.Observation.{BlockObservation, block}
use obschain.Detectors.Engine.{
  DetectorEngine, interval_after, with_interval, process_observation_with_context,
}

-- `b` comes `secs` full seconds after the other block `prev`.
pub record Follows (prev b : BlockObservation) (secs : ℕ) : Type 0 where
  pub another : (prev.height < b.height) ⊎ (b.block_hash ≢ prev.block_hash)
  pub elapsed : secs ≡ seconds_since b.timestamp prev.timestamp
  pub positive : 0 < secs

interval_after_iff :
    (prev b : BlockObservation) (secs : ℕ)
    → (interval_after prev b ≡ some secs) ↔ Follows prev b secs
unfolding interval_after
interval_after_iff prev b secs = ground (arith, text_beq_iff b.block_hash prev.block_hash)

with_interval_after :
    (prev b : BlockObservation)
    → b.interval_seconds ≡ none
    → (with_interval (some prev) b).interval_seconds ≡ interval_after prev b
unfolding with_interval
with_interval_after prev b h = ground arith

with_interval_iff :
    (last : Option BlockObservation) (b : BlockObservation) (secs : ℕ)
    → b.interval_seconds ≡ none
    → ((with_interval last b).interval_seconds ≡ some secs)
      ↔ ((prev : BlockObservation) × (last ≡ some prev) × Follows prev b secs)
unfolding with_interval
with_interval_iff none b secs h = ground arith
with_interval_iff (some prev) b secs h = rw (with_interval_after prev b h) (
  λ e. (prev, refl, (interval_after_iff prev b secs).0 e),
  λ p. (interval_after_iff prev b secs).1 (transport-Follows p.0 p.1 p.2),
)
  where
    transport-Follows :
        (prev' : BlockObservation)
        → some prev ≡ some prev'
        → Follows prev' b secs
        → Follows prev b secs
    transport-Follows prev' e f = rw (some-injective prev prev' e) f

-- A block that arrives without an interval gets one exactly when the engine has seen a block
-- before it that is another one (lower, or with another hash) and is at least one full second
-- older; the interval is the difference of their times in full seconds. The engine keeps the block
-- with that interval.
process_observation_with_context-interval :
    (x : Externals) (b : BlockObservation) (context : Option ObservationContext)
    (engine : DetectorEngine)
    → b.interval_seconds ≡ none
    → (process_observation_with_context x (block b) context engine).1.last_block
        ≡ some (with_interval engine.last_block b)
      × ((secs : ℕ)
          → ((with_interval engine.last_block b).interval_seconds ≡ some secs)
            ↔ ((prev : BlockObservation) × (engine.last_block ≡ some prev) × Follows prev b secs))
unfolding process_observation_with_context
process_observation_with_context-interval x b context engine h =
    (refl, λ secs. with_interval_iff engine.last_block b secs h)
