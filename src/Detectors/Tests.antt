-- ===== src/Detectors/Tests.antt =====
-- The theorems on the detectors and the deduplicator at concrete data.
use obschain.Prelude.{
  ◌+◌, ◌-◌, ◌<◌, ◌≡◌, refl, false, none, some, [], ◌∷◌, ◌++◌, codes, arith, length,
}
use obschain.Prelude.Map.{get, insert}
use obschain.Core.Observation.{block, BlockObservation}
use obschain.Core.Event.{ChainEvent, identity_key}
use obschain.Core.Samples.{externals, transfer, block_at, replay}
use obschain.Detectors.Dedup.{
  Deduplicator, new, event_key, is_duplicate, make_room, record_fresh, filter_one, filter,
}
use obschain.Detectors.Dedup.Invariant.{IsValid, runs, runs-IsValid}
use obschain.Detectors.Dedup.Suppression.{Suppressed, Soon, Roomy, after_all, filter_one_again}
use obschain.Detectors.Dedup.Counting.{Accounted, filter-Accounted}
use obschain.Detectors.Dedup.Growth.{repeated, repeated-order}
use obschain.Detectors.Engine.{
  Detector, default_availability, interval_after, with_interval, process_observation,
  process_observation_with_context,
}
use obschain.Detectors.Engine.Identity.{ids, process_observation_with_context-ids}
use obschain.Detectors.Engine.Isolation.{with_detectors, process_observation_with_context_isolates}

abbrev fresh : Deduplicator
fresh = new 2 1_000

runs-IsValid_example : IsValid 2 (runs ((0, (transfer, 5) ∷ (transfer, 6) ∷ []) ∷ []) (new 2 1_000))
runs-IsValid_example = runs-IsValid 2 1_000 ((0, (transfer, 5) ∷ (transfer, 6) ∷ []) ∷ [])

transfer_is_fresh : is_duplicate 0 (event_key transfer) fresh ≡ false
unfolding is_duplicate new get
transfer_is_fresh = refl

ten_is_soon : 10 - 0 < fresh.ttl
unfolding new
ten_is_soon = omega arith

fresh_is_not_poisoned : fresh.poisoned ≡ false
unfolding new
fresh_is_not_poisoned = refl

-- another event that comes between
abbrev other_transfer : ChainEvent
other_transfer = record transfer { txid = some (codes "0ther") }

other_is_Roomy : Roomy ((3, other_transfer, 7) ∷ []) (filter_one 0 transfer 5 fresh).1
unfolding filter_one is_duplicate make_room record_fresh new get insert
other_is_Roomy = omega arith

three_is_Soon : Soon 0 fresh.ttl ((3, other_transfer, 7) ∷ [])
unfolding new
three_is_Soon = (omega arith, tt)

filter_one_again_example :
    Suppressed 6 transfer
      (after_all ((3, other_transfer, 7) ∷ []) (filter_one 0 transfer 5 fresh).1)
      (filter_one 10 transfer 6
        (after_all ((3, other_transfer, 7) ∷ []) (filter_one 0 transfer 5 fresh).1))
filter_one_again_example =
    filter_one_again 0 10 transfer transfer 5 6 ((3, other_transfer, 7) ∷ []) fresh
      transfer_is_fresh refl three_is_Soon other_is_Roomy ten_is_soon

filter-Accounted_example :
    Accounted 1
      (filter 0 ((transfer, 5) ∷ []) fresh).0
      fresh
      (filter 0 ((transfer, 5) ∷ []) fresh).1
filter-Accounted_example = filter-Accounted 0 ((transfer, 5) ∷ []) fresh fresh_is_not_poisoned

repeated-order_example :
    (length (repeated 3 transfer 5 (new 2 1_000)).1.order ≡ 3 + 1)
    × (length (repeated 3 transfer 5 (new 2 1_000)).1.seen ≡ 1)
repeated-order_example = repeated-order 3 2 1_000 transfer 5 (omega arith)

-- A detector that finds a transfer in everything, one that panics, and one for live use only.
abbrev eager : Detector
eager = record { detect = λ obs. some (transfer ∷ []); availability = default_availability }

abbrev broken : Detector
broken = record { detect = λ obs. none; availability = default_availability }

abbrev live_only : Detector
live_only = record {
  detect = λ obs. some (transfer ∷ []);
  availability = record default_availability { historically_replayable = false };
}

abbrev first_block : BlockObservation
first_block = block_at 100 (codes "0a") 0

abbrev second_block : BlockObservation
second_block = block_at 101 (codes "0b") 600_000_000_000

-- the eager detector in another call, which draws another identifier and reads a later time
abbrev eager_again : Detector
eager_again = record {
  detect = λ obs. some (record transfer { id = 77; detected_at = 99; first_observed_at = 99 } ∷ []);
  availability = default_availability;
}

process_observation_with_context-ids_example :
    (ids
        (process_observation_with_context externals
          (block first_block)
          (some replay)
          (with_detectors (eager_again ∷ broken ∷ []) none)).0
      ≡ ids
          (process_observation externals
            (block first_block)
            (with_detectors (eager ∷ broken ∷ []) none)).0)
    × ((process_observation_with_context externals
          (block first_block)
          (some replay)
          (with_detectors (eager_again ∷ broken ∷ []) none)).1.last_block
        ≡ (process_observation externals
            (block first_block)
            (with_detectors (eager ∷ broken ∷ []) none)).1.last_block)
unfolding identity_key
process_observation_with_context-ids_example =
    process_observation_with_context-ids externals (block first_block) (some replay) none
      (eager_again ∷ broken ∷ []) (eager ∷ broken ∷ []) ((refl, (refl, tt)), ((refl, tt), tt))

process_observation_with_context_isolates_example :
    ((process_observation_with_context externals
        (block first_block)
        none
        (with_detectors (eager ∷ [] ++ broken ∷ eager ∷ []) none)).0
      ≡ (process_observation_with_context externals
          (block first_block)
          none
          (with_detectors (eager ∷ [] ++ eager ∷ []) none)).0)
    × ((process_observation_with_context externals
          (block first_block)
          none
          (with_detectors (eager ∷ [] ++ broken ∷ eager ∷ []) none)).1.last_block
        ≡ (process_observation_with_context externals
            (block first_block)
            none
            (with_detectors (eager ∷ [] ++ eager ∷ []) none)).1.last_block)
process_observation_with_context_isolates_example =
    process_observation_with_context_isolates externals (block first_block) none none (eager ∷ [])
      (eager ∷ []) broken refl

after_ten_minutes : (with_interval (some first_block) second_block).interval_seconds ≡ some 600
unfolding with_interval interval_after
after_ten_minutes = refl
