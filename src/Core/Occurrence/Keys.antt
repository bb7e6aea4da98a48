-- ===== src/Core/Occurrence/Keys.antt =====
-- Which observations of an event are one occurrence: `EventObservation` in
-- crates/obschain-core/src/event.rs.
use obschain.Prelude.{
  ℕ, Option, some, ◌∷◌, ◌++◌, Text, codes, ◌≡◌, refl, ◌≢◌, ◌↔◌, arith, Lacks, split_unique,
}
use mathlib.Core.List.{head-eq_of_cons-eq}
use obschain.Core.External.{Uuid, DateTime, Externals}
use obschain.Core.Source.{ObservationSource}
use obschain.Core.Mode.{live, historical_replay}
use obschain.Core.Occurrence.{
  EventObservationKind, EventObservation, observation_key, build_discriminator, recompute_id,
  live_observation, replay_observation, with_confirmation_status, with_source_sequence,
  with_mempool_sequence,
}

-- `Display` of identifiers: distinct ones print differently, and none prints a colon.
pub record IsUuidText (text : Uuid → Text) : Type 0 where
  pub injective : (a b : Uuid) → text a ≡ text b → a ≡ b
  pub no_colon : (a : Uuid) → Lacks b':' (text a)

module _ (text : Uuid → Text) (lawful : IsUuidText text) where
  -- what stands behind the event's identifier
  abbrev replay_tail : Uuid → Text
  replay_tail job = codes "replay:" ++ text job

  split_obs :
      (a b : Uuid) (s t : Text)
      → codes "obs:" ++ text a ++ b':' ∷ s ≡ codes "obs:" ++ text b ++ b':' ∷ t
      → (a ≡ b) × (s ≡ t)
  split_obs a b s t h =
      let (p, q) =
        split_unique b':' (text a) (text b) s t (lawful.no_colon a) (lawful.no_colon b) (cc) in
      (lawful.injective a b p, q)

  -- Replayed observations are one occurrence exactly when they have one event and one job: the
  -- source, the kind and the discriminator do not matter. No live observation is one of them.
  pub replay_key_iff :
      (event event' job job' : Uuid) (source source' : ObservationSource)
      (kind kind' : EventObservationKind) (disc disc' : Option Text) (job? : Option Uuid)
      → ((observation_key text event historical_replay source kind (some job) disc
            ≡ observation_key text event' historical_replay source' kind' (some job') disc')
          ↔ ((event ≡ event') × (job ≡ job')))
        × (observation_key text event historical_replay source kind (some job) disc
            ≢ observation_key text event' live source' kind' job? disc')
  unfolding observation_key
  replay_key_iff event event' job job' source source' kind kind' disc disc' job? =
      ((forth, λ p. cc (p.0, p.1)), apart)
    where
      forth :
          observation_key text event historical_replay source kind (some job) disc
            ≡ observation_key text event' historical_replay source' kind' (some job') disc'
          → (event ≡ event') × (job ≡ job')
      forth h =
          let (p, q) = split_obs event event' (replay_tail job) (replay_tail job') h in
          (p, lawful.injective job job' (cc))

      apart :
          observation_key text event historical_replay source kind (some job) disc
          ≢ observation_key text event' live source' kind' job? disc'
      apart h = omega (arith, head-eq_of_cons-eq (split_obs event event' _ _ h).1)

module _ (x : Externals) where
  -- Every way to build an observation stores the identifier that `recompute_id` derives from its
  -- fields: recomputing it changes nothing.
  recompute_id_built :
      (event job : Uuid) (source : ObservationSource) (kind : EventObservationKind) (at : DateTime)
      (bitcoin_time : Option DateTime) (height : Option ℕ) (hash : Option Text)
      (o : EventObservation) (status : Text) (seq : ℕ)
      → (recompute_id x (live_observation x event source kind at bitcoin_time height hash)
          ≡ live_observation x event source kind at bitcoin_time height hash)
        × (recompute_id x (replay_observation x event job source at bitcoin_time height hash)
            ≡ replay_observation x event job source at bitcoin_time height hash)
        × (recompute_id x (with_confirmation_status x status o)
            ≡ with_confirmation_status x status o)
        × (recompute_id x (with_source_sequence x seq o) ≡ with_source_sequence x seq o)
        × (recompute_id x (with_mempool_sequence x seq o) ≡ with_mempool_sequence x seq o)
  unfolding recompute_id live_observation replay_observation with_confirmation_status
      with_source_sequence with_mempool_sequence observation_key build_discriminator
  recompute_id_built event job source kind at bitcoin_time height hash o status seq =
      (ground arith, refl, refl, refl, refl)
