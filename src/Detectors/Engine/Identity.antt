-- ===== src/Detectors/Engine/Identity.antt =====
-- Event identifiers do not depend on the mode: `process_observation_with_context` in
-- crates/obschain-detectors/src/engine.rs.
use obschain.Prelude.{
  true, Option, none, some, List, [], ◌∷◌, map, ◌≡◌, refl, sym, ◌∙◌, ap, inl, inr, Bool-cases,
  map-append,
}
use obschain.Core.External.{Uuid, Externals}
use obschain.Core.Mode.{ObservationContext, live, historical_replay}
use obschain.Core.Observation.{Observation, BlockObservation}
use obschain.Core.Observation
use obschain.Core.Source.{ObservationSource}
use obschain.Core.Event.{ChainEvent, with_deterministic_id, deterministic_id, identity_key}
use obschain.Detectors.Engine.Isolation.{with_detectors}
use obschain.Detectors.Engine.{
  Detector, is_replay, observe, finish, with_context, with_replay, with_source, run_detector,
  run_detectors, process_observation_with_context, process_observation,
}

-- The identifiers of events.
abbrev pub ids : List ChainEvent → List Uuid
ids evs = map (λ (e : ChainEvent). e.id) evs

-- The events of two calls: what differs between them is not part of an event's identity.
abbrev pub SameEvents : List ChainEvent → List ChainEvent → Type 0
SameEvents [] [] = Unit
SameEvents (ev ∷ evs) (ev' ∷ evs') = (identity_key ev ≡ identity_key ev') × SameEvents evs evs'
SameEvents _ _ = ⊥

-- Both calls panic or neither.
abbrev pub SameFindings : Option (List ChainEvent) → Option (List ChainEvent) → Type 0
SameFindings none none = Unit
SameFindings (some evs) (some evs') = SameEvents evs evs'
SameFindings _ _ = ⊥

-- A detector that is replayable, in two calls on an observation. A call draws random identifiers and
-- reads the clock, so the two differ in them.
abbrev pub SameDetector : Observation → Detector → Detector → Type 0
SameDetector obs d d' =
    (d.availability.historically_replayable ≡ true) × SameFindings (d.detect obs) (d'.detect obs)

abbrev pub SameDetectors : Observation → List Detector → List Detector → Type 0
SameDetectors obs [] [] = Unit
SameDetectors obs (d ∷ ds) (d' ∷ ds') = SameDetector obs d d' × SameDetectors obs ds ds'
SameDetectors obs _ _ = ⊥

with_source-identity_key :
    (src : Option ObservationSource) (ev : ChainEvent)
    → identity_key (with_source src ev) ≡ identity_key ev
unfolding identity_key
with_source-identity_key src ev =
    elim ev.source
      as (λ s.
        identity_key (elim s [ none ↦ record ev { source = src } | some s' ↦ ev ])
        ≡ identity_key ev) [ none ↦ refl | some s' ↦ refl ]

module _ (x : Externals) (obs : Observation) where
  with_context-identity_key :
      (context : Option ObservationContext) (ev : ChainEvent)
      → identity_key (with_context x obs context ev) ≡ identity_key ev
  unfolding identity_key with_replay
  with_context-identity_key none ev = refl
  with_context-identity_key (some ctx) ev =
      elim ctx.mode
        as (λ mode.
          identity_key (elim mode [ live ↦ ev | historical_replay ↦ with_replay x obs ctx ev ])
          ≡ identity_key ev) [ live ↦ refl | historical_replay ↦ refl ]

  module _ (src : Option ObservationSource) (context : Option ObservationContext) where
    finish-id :
        (ev ev' : ChainEvent)
        → identity_key ev ≡ identity_key ev'
        → (finish x src obs context ev).id ≡ (finish x src obs none ev').id
    unfolding finish with_deterministic_id deterministic_id
    finish-id ev ev' same = ap x.new_v5 (
        with_context-identity_key context (with_source src ev)
        ∙ with_source-identity_key src ev
        ∙ same
        ∙ sym (with_source-identity_key src ev'))

    finish-ids :
        (evs evs' : List ChainEvent)
        → SameEvents evs evs'
        → ids (map (finish x src obs context) evs) ≡ ids (map (finish x src obs none) evs')
    finish-ids [] [] h = refl
    finish-ids [] (ev' ∷ evs') h = elim h [ ]
    finish-ids (ev ∷ evs) [] h = elim h [ ]
    finish-ids (ev ∷ evs) (ev' ∷ evs') h = cc (finish-id ev ev' h.0, finish-ids evs evs' h.1)

    detected-ids :
        (found found' : Option (List ChainEvent))
        → SameFindings found found'
        → ids (elim found [ none ↦ [] | some evs ↦ map (finish x src obs context) evs ])
          ≡ ids (elim found' [ none ↦ [] | some evs ↦ map (finish x src obs none) evs ])
    detected-ids none none h = refl
    detected-ids none (some evs') h = elim h [ ]
    detected-ids (some evs) none h = elim h [ ]
    detected-ids (some evs) (some evs') h = finish-ids evs evs' h

    run_detector-ids :
        (d d' : Detector)
        → SameDetector obs d d'
        → ids (run_detector x src obs context d) ≡ ids (run_detector x src obs none d')
    unfolding run_detector
    run_detector-ids d d' (r, same) = elim (Bool-cases (is_replay context)) [
      | inl e ↦ rw (e, r) (detected-ids (d.detect obs) (d'.detect obs) same)
      | inr e ↦ rw e (detected-ids (d.detect obs) (d'.detect obs) same)
    ]

    run_detectors-ids :
        (ds ds' : List Detector)
        → SameDetectors obs ds ds'
        → ids (run_detectors x src obs context ds) ≡ ids (run_detectors x src obs none ds')
    unfolding run_detectors
    run_detectors-ids [] [] h = refl
    run_detectors-ids [] (d' ∷ ds') h = elim h [ ]
    run_detectors-ids (d ∷ ds) [] h = elim h [ ]
    run_detectors-ids (d ∷ ds) (d' ∷ ds') h =
        rw
          (
            map-append (λ (e : ChainEvent). e.id) (run_detector x src obs context d)
                (run_detectors x src obs context ds),
            map-append (λ (e : ChainEvent). e.id) (run_detector x src obs none d')
                (run_detectors x src obs none ds'),
          )
          (cc (run_detector-ids d d' h.0, run_detectors-ids ds ds' h.1))

-- Event identifiers are the same live and in a replay, although an event is made with a random
-- identifier and with the times of the run. One engine holds the detectors as they are in the call
-- with a context, the other as they are in a live call. Where the former are historically
-- replayable, and each of them finds on the observation events with the keys of identity that its
-- counterpart finds, in their order: the first engine's events have the identifiers of the second's,
-- in the same order, and both keep the same last block.
pub process_observation_with_context-ids :
    (x : Externals) (obs : Observation) (context : Option ObservationContext)
    (last_block : Option BlockObservation) (replayed direct : List Detector)
    → SameDetectors (observe last_block obs).0 replayed direct
    → (ids (process_observation_with_context x obs context (with_detectors replayed last_block)).0
        ≡ ids (process_observation x obs (with_detectors direct last_block)).0)
      × ((process_observation_with_context x obs context
            (with_detectors replayed last_block)).1.last_block
          ≡ (process_observation x obs (with_detectors direct last_block)).1.last_block)
unfolding process_observation_with_context process_observation
process_observation_with_context-ids x obs context last_block replayed direct same = (
  run_detectors-ids x (observe last_block obs).0 (Observation.source obs) context replayed direct
      same,
  refl,
)
