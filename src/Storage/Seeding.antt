-- ===== src/Storage/Seeding.antt =====
-- How `InMemoryStorage` begins: `with_limits`, `new_empty` and what they seed, in
-- crates/obschain-storage/src/repository.rs. The canonical incident and its watch targets, which
-- crates/obschain-incidents holds as data, are arguments.
use obschain.Prelude.{
  ℕ, ◌+◌, ◌-◌, ◌*◌, Bool, true, false, ◌&&◌, ◌||◌, some, List, [], ◌∷◌, ◌++◌, map, any, Text, codes,
  text_eq, nat_eq, ◌==◌, if◌then◌else◌,
}
use obschain.Core.External.{
  Externals, Readings, F64, Json, bool, number, string, object, end, field, float, nanos_per_second,
}
use obschain.Core.Source.{bitcoin_core_rpc}
use obschain.Core.Event.{
  ChainEvent, EventType, EventSeverity, large_transfer, long_block_interval, extreme_fee, new_event,
  verified_on_chain,
}
use obschain.Core.Occurrence.{EventObservation, confirmed, live_observation}
use obschain.Core.Incident.{Incident}
use obschain.Core.Watch.{
  WatchTargetKind, out_point, script_pub_key, address, transaction, WatchTarget, provenance_debug,
}
use obschain.Detectors.Blocks.{num}
use obschain.Storage.Memory.{InMemoryStorage, unseeded}

-- the derived equality of kinds; different classifications have different names
abbrev pub same_kind : WatchTargetKind → WatchTargetKind → Bool
same_kind (out_point s m) (out_point t n) = (s == t) && (m == n)
same_kind (script_pub_key s) (script_pub_key t) = s == t
same_kind (address s p) (address t q) = (s == t) && (provenance_debug p == provenance_debug q)
same_kind (transaction s) (transaction t) = s == t
same_kind _ _ = false

abbrev pub same_target : WatchTarget → WatchTarget → Bool
same_target target t =
    (t.id == target.id) || ((t.incident_id == target.incident_id) && same_kind t.kind target.kind)

unfoldable pub seed_targets : List WatchTarget → List WatchTarget → List WatchTarget
seed_targets [] stored = stored
seed_targets (t ∷ ts) stored =
    seed_targets ts (if any (same_target t) stored then stored else stored ++ t ∷ [])

unfoldable pub seed_canonical_incidents :
    Incident → List WatchTarget → InMemoryStorage → InMemoryStorage
unfolding seed_targets
seed_canonical_incidents incident targets st = record st {
  incidents =
      if any (λ (i : Incident). i.case_id == incident.case_id) st.incidents
      then st.incidents
      else st.incidents ++ incident ∷ [];
  watch_targets = seed_targets targets st.watch_targets;
}

-- the four numbers of the mock data that are floats
pub record MockFloats : Type 0 where
  pub btc_volume : F64
  pub fee_rate_sat_vb : F64
  pub median_fee_rate : F64
  pub mempool_vsize_mb : F64

-- an event of the mock data, so many seconds ago
abbrev pub mock_event :
    Readings → EventType → EventSeverity → Text → Text → ℕ → ℕ → Json → ChainEvent
mock_event r event_type severity title description nth seconds metadata =
    record (new_event r event_type severity verified_on_chain title description) {
      id = 212_676_479_325_586_539_664_609_129_644_855_132_160 + nth;
      event_time = r.now - seconds * nanos_per_second;
      first_observed_at = r.now - seconds * nanos_per_second;
      detected_at = r.now - seconds * nanos_per_second;
      metadata = metadata;
    }

abbrev pub first_mock : Readings → MockFloats → ChainEvent
first_mock r f =
    record (mock_event r large_transfer EventSeverity.high (codes "Large Transfer: 2,450.00 BTC")
      (codes "Observed transfer of 2,450.00 BTC across 2 outputs in block 884920.") 1 900
      (object (
        field "is_mock" (bool true) (
          field "btc_volume" (number (float f.btc_volume)) (
            field "fee_sats" (num 3_410)
              (field "fee_rate_sat_vb" (number (float f.fee_rate_sat_vb)) end)))))) {
                txid =
                    some (codes "4a5e1e4baab89f3a32518a88c31bc87f618f76673e2cc77ab2127b7afdeda33b");
                block_height = some 884_920;
                block_hash =
                    some (codes "000000000000000000021b34e56997427ce090ef6d38e2195ec4188b449102c1");
              }

abbrev pub second_mock : Readings → ChainEvent
second_mock r =
    record (mock_event r long_block_interval EventSeverity.medium
      (codes "Long Block Interval: 74 min at height 884918")
      (codes "Block interval of 4,440 seconds observed between heights 884917 and 884918.") 2 7_200
      (object (
        field "is_mock" (bool true) (
          field "interval_seconds" (num 4_440) (
            field "expected_interval_seconds" (num 600)
              (field "miner_tag" (string (codes "AntPool")) end)))))) {
                block_height = some 884_918;
                block_hash =
                    some (codes "00000000000000000001f37e42d87e07663f73367809bfccb34ba85df1176b66");
              }

abbrev pub third_mock : Readings → MockFloats → ChainEvent
third_mock r f =
    mock_event r extreme_fee EventSeverity.low (codes "Mempool Fee Spike: Median > 85 sat/vB")
      (codes "Mempool congestion spike observed following rapid sequential transactions.") 3 18_000
      (object (
        field "is_mock" (bool true) (
          field "median_fee_rate" (number (float f.median_fee_rate))
            (field "mempool_vsize_mb" (number (float f.mempool_vsize_mb)) end))))

abbrev pub mock_observation : Externals → ChainEvent → EventObservation
mock_observation x e =
    live_observation x e.id (bitcoin_core_rpc (codes "http://127.0.0.1:18443")) confirmed
      e.detected_at (some e.detected_at) e.block_height e.block_hash

-- Three events with an observation each are pushed, whatever the limit. The random identifiers and
-- the times that `ChainEvent::new` draws are replaced; `r.now` is the one reading that counts.
unfoldable pub seed_mock_data :
    Externals → Readings → MockFloats → InMemoryStorage → InMemoryStorage
unfolding new_event
seed_mock_data x r f st =
    let mocks = first_mock r f ∷ second_mock r ∷ third_mock r f ∷ [] in
    record st {
      events = st.events ++ mocks;
      event_observations = st.event_observations ++ map (mock_observation x) mocks;
    }

-- What a new storage is seeded with: the canonical dossier, the clock and the
-- floats of the mock data.
pub record Seed : Type 0 where
  pub incident : Incident
  pub targets : List WatchTarget
  pub readings : Readings
  pub floats : MockFloats

unfoldable pub with_limits : Externals → Seed → ℕ → ℕ → InMemoryStorage
unfolding seed_canonical_incidents seed_mock_data unseeded
with_limits x seed max_events max_activities =
    seed_mock_data x seed.readings seed.floats
      (seed_canonical_incidents seed.incident seed.targets (unseeded max_events max_activities))

-- the storage without mock data, with the default limit of activities
unfoldable pub new_empty : Seed → ℕ → InMemoryStorage
unfolding seed_canonical_incidents unseeded
new_empty seed max_events =
    seed_canonical_incidents seed.incident seed.targets (unseeded max_events 5_000)
