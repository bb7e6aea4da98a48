-- ===== src/Detectors/Blocks.antt =====
-- crates/obschain-detectors/src/long_interval.rs and reorg.rs: blocks that come late, and forks.
use obschain.Prelude.{
  ℕ, ◌/◌, false, Option, none, some, List, [], ◌∷◌, take, Text, codes, concat, show, ltb, leb,
  if◌then◌else◌,
}
use obschain.Core.External.{
  Json, Items, nil, item, end, field, null, number, unsigned, string, array, object, Externals,
  Readings,
}
use obschain.Core.Observation.{Observation, block, reorg, BlockObservation, ReorgObservation}
use obschain.Core.Event.{
  ChainEvent, EventSeverity, low, medium, high, critical, long_block_interval, reorg_detected,
  verified_on_chain, new_event, add_witness,
}
use obschain.Detectors.Engine.{DetectorAvailability}

pub record LongBlockIntervalDetector : Type 0 where
  pub threshold_seconds : ℕ

-- `LongBlockIntervalDetector::new`
abbrev pub default_interval : LongBlockIntervalDetector
default_interval = record { threshold_seconds = 3600 }

abbrev pub num : ℕ → Json
num n = number (unsigned n)

abbrev pub nullable {ℓ} : {A : Type ℓ} → (A → Json) → Option A → Json
nullable f none = null
nullable f (some a) = f a

abbrev pub strings : List Text → Items
strings [] = nil
strings (t ∷ ts) = item (string t) (strings ts)

unfoldable pub interval_severity : ℕ → EventSeverity
interval_severity interval =
    if leb 7200 interval then critical else if leb 5400 interval then high else medium

unfoldable pub interval_event : Readings → BlockObservation → ℕ → ChainEvent
unfolding interval_severity new_event
interval_event r b interval =
    let minutes = interval / 60 in
    record (new_event r long_block_interval (interval_severity interval) verified_on_chain
      (concat (
        codes "Long Block Interval: "
        ∷ show minutes
        ∷ codes " min at height "
        ∷ show b.height
        ∷ []))
      (concat (
        codes "Block "
        ∷ b.block_hash
        ∷ codes " at height "
        ∷ show b.height
        ∷ codes " was mined "
        ∷ show minutes
        ∷ codes " minutes ("
        ∷ show interval
        ∷ codes "s) after the previous block. Expected target is 10 minutes."
        ∷ []))) {
          block_hash = some b.block_hash;
          block_height = some b.height;
          detected_at = r.later;
          metadata = object (
              field "interval_seconds" (num interval) (
                field "interval_minutes" (num minutes) (
                  field "tx_count" (num b.tx_count) (
                    field "miner_tag" (nullable string b.miner_tag)
                      (field "size_bytes" (num b.size_bytes) end)))));
        }

-- `LongBlockIntervalDetector::detect`
unfoldable pub detect_interval :
    Readings → LongBlockIntervalDetector → Observation → List ChainEvent
unfolding interval_event
detect_interval r d (block b) = elim b.interval_seconds [
  | none ↦ []
  | some interval ↦
      if ltb interval d.threshold_seconds then [] else interval_event r b interval ∷ []
]
detect_interval r d _ = []

unfoldable pub reorg_severity : ℕ → EventSeverity
reorg_severity depth =
    if leb depth 1
    then low
    else if leb depth 2
    then medium
    else if leb depth 5
    then high
    else critical

-- `&hash[..hash.len().min(16)]`; hashes are ASCII.
abbrev pub short : Text → Text
short hash = take 16 hash

abbrev pub reorg_title : ReorgObservation → Text
reorg_title o =
    if leb o.depth 1
    then codes "Single-Block Chain Reorganization (Stale Block)"
    else concat (codes "Chain Reorganization Detected (Depth " ∷ show o.depth ∷ codes ")" ∷ [])

abbrev pub reorg_description : ReorgObservation → Text
reorg_description o =
    if leb o.depth 1
    then concat (
        codes "Competing block resolved at height "
        ∷ show o.old_tip_height
        ∷ codes ". Block "
        ∷ short o.old_tip_hash
        ∷ codes " replaced by "
        ∷ short o.new_tip_hash
        ∷ [])
    else concat (
        codes "Chain reorganization of depth "
        ∷ show o.depth
        ∷ codes " detected. Replaced tip "
        ∷ short o.old_tip_hash
        ∷ codes " (height "
        ∷ show o.old_tip_height
        ∷ codes ") with "
        ∷ short o.new_tip_hash
        ∷ codes " (height "
        ∷ show o.new_tip_height
        ∷ codes ")"
        ∷ [])

abbrev pub witnessed : ReorgObservation → ChainEvent → ChainEvent
witnessed o e = elim o.source [
  | none ↦ e
  | some src ↦ add_witness (record { source = src; observed_at = o.observed_at; metadata = none }) e
]

module _ (x : Externals) (r : Readings) where
  unfoldable pub reorg_event : ReorgObservation → ChainEvent
  unfolding reorg_severity new_event add_witness
  reorg_event o =
      witnessed o
        (record (new_event r reorg_detected (reorg_severity o.depth) verified_on_chain
          (reorg_title o) (reorg_description o)) {
            detected_at = o.observed_at;
            block_height = some o.new_tip_height;
            block_hash = some o.new_tip_hash;
            source = o.source;
            metadata = object (
                field "old_tip" (string o.old_tip_hash) (
                  field "old_tip_height" (num o.old_tip_height) (
                    field "new_tip" (string o.new_tip_hash) (
                      field "new_tip_height" (num o.new_tip_height) (
                        field "common_ancestor" (nullable string o.common_ancestor_hash) (
                          field "depth" (num o.depth) (
                            field "disconnected_blocks" (array (strings o.disconnected_blocks)) (
                              field "connected_blocks" (array (strings o.connected_blocks)) (
                                field "observed_at" (string (x.time_text o.observed_at))
                                  end)))))))));
          })

  -- `ReorgDetector::detect`
  unfoldable pub detect_reorg : Observation → List ChainEvent
  unfolding reorg_event
  detect_reorg (reorg o) = reorg_event o ∷ []
  detect_reorg _ = []

-- `ReorgDetector::availability`
abbrev pub reorg_availability : DetectorAvailability
reorg_availability = record {
  historically_replayable = false;
  requires_mempool_history = false;
  requires_multiple_observers = false;
  requires_external_labels = false;
  notes = some (
      codes
        "Ordinary active-chain block replay cannot reconstruct stale forks or competing tips no longer in the active chain");
}
