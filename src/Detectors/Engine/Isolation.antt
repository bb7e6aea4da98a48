-- ===== src/Detectors/Engine/Isolation.antt =====
-- A detector that panics changes nothing: `process_observation_with_context` in
-- crates/obschain-detectors/src/engine.rs.
use obschain.Prelude.{
  Bool, false, Option, none, some, List, [], ◌∷◌, ◌++◌, arith, ◌≡◌, refl, ap, inl, inr, Bool-cases,
  retain,
}
use obschain.Core.External.{Externals}
use obschain.Core.Mode.{ObservationContext, historical_replay}
use obschain.Core.Observation.{BlockObservation, Observation}
use obschain.Core.Observation
use obschain.Core.Source.{ObservationSource}
use obschain.Detectors.Engine.{
  Detector, DetectorEngine, is_replay, skipped, observe, run_detector, run_detectors,
  process_observation_with_context,
}

abbrev pub with_detectors : List Detector → Option BlockObservation → DetectorEngine
with_detectors ds last = record { detectors = ds; last_block = last }

module _ (x : Externals) (src : Option ObservationSource) (obs : Observation)
    (context : Option ObservationContext) (p : Detector) where
  panicking : p.detect obs ≡ none → run_detector x src obs context p ≡ []
  unfolding run_detector
  panicking h = elim (Bool-cases (skipped (is_replay context) p)) [
    | inl e ↦ rw e refl
    | inr e ↦ rw (e, h) refl
  ]

  run_detectors_without :
      (ds es : List Detector)
      → p.detect obs ≡ none
      → run_detectors x src obs context (ds ++ p ∷ es) ≡ run_detectors x src obs context (ds ++ es)
  unfolding run_detectors
  run_detectors_without [] es h = rw (panicking h) refl
  run_detectors_without (d ∷ ds) es h =
      ap (λ evs. run_detector x src obs context d ++ evs) (run_detectors_without ds es h)

-- A detector that panics on what it is shown is isolated, wherever it stands in the list: the
-- events, and the block that the engine keeps, are those of the engine without that detector.
pub process_observation_with_context_isolates :
    (x : Externals) (obs : Observation) (context : Option ObservationContext)
    (last : Option BlockObservation) (ds es : List Detector) (p : Detector)
    → p.detect (observe last obs).0 ≡ none
    → ((process_observation_with_context x obs context (with_detectors (ds ++ p ∷ es) last)).0
        ≡ (process_observation_with_context x obs context (with_detectors (ds ++ es) last)).0)
      × ((process_observation_with_context x obs context
            (with_detectors (ds ++ p ∷ es) last)).1.last_block
          ≡ (process_observation_with_context x obs context
              (with_detectors (ds ++ es) last)).1.last_block)
unfolding process_observation_with_context
process_observation_with_context_isolates x obs context last ds es p h =
    (run_detectors_without x (Observation.source obs) (observe last obs).0 context p ds es h, refl)

-- what `retain` keeps for a replay
abbrev pub replayable : Detector → Bool
replayable d = d.availability.historically_replayable

module _ (x : Externals) (src : Option ObservationSource) (obs : Observation)
    (ctx : ObservationContext) (m : ctx.mode ≡ historical_replay) where
  run_detector_live :
      (d : Detector) → replayable d ≡ false → run_detector x src obs (some ctx) d ≡ []
  unfolding run_detector
  run_detector_live d h = rw (m, h) refl

  run_detectors_live :
      (ds : List Detector)
      → run_detectors x src obs (some ctx) ds
        ≡ run_detectors x src obs (some ctx) (retain replayable ds)
  unfolding run_detectors
  run_detectors_live [] = refl
  run_detectors_live (d ∷ ds) = ground (arith, run_detectors_live ds, run_detector_live d)

-- In a historical replay the detectors that are not historically replayable count for nothing: the
-- events are those of the engine that has only the replayable ones, in their order.
process_observation_with_context_skips :
    (x : Externals) (obs : Observation) (ctx : ObservationContext) (last : Option BlockObservation)
    (ds : List Detector)
    → ctx.mode ≡ historical_replay
    → (process_observation_with_context x obs (some ctx) (with_detectors ds last)).0
      ≡ (process_observation_with_context x obs
          (some ctx)
          (with_detectors (retain replayable ds) last)).0
unfolding process_observation_with_context
process_observation_with_context_skips x obs ctx last ds m =
    run_detectors_live x (Observation.source obs) (observe last obs).0 ctx m ds
