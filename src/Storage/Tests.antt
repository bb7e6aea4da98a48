-- ===== src/Storage/Tests.antt =====
-- The theorems on the storage and on the metrics that it keeps, at concrete data, and tests.
use obschain.Prelude.{
  ◌≡◌, ◌⊎◌, inl, refl, true, none, some, List, [], ◌∷◌, Text, codes, text_beq, arith, ◌==◌, text_eq,
  nat_eq,
}
use obschain.Core.External.{object, field, end, get_key}
use obschain.Storage.Equalities.{type_position}
use obschain.Storage.Baselines.{RankQuery, matching, rank_among, get_exact_empirical_rank}
use obschain.Core.Samples.{externals, readings, transfer, core_zmq}
use obschain.Core.Event.{ChainEvent, new_event}
use obschain.Core.Incident.{on_chain_verified, new_recovery}
use obschain.Core.Replay.{ReplayJob, new_job}
use obschain.Core.Watch.{new_address, IncidentActivity, mempool, watched_outpoint_spent, direct}
use obschain.Core.Baseline.{value_sats, higher_is_rarer, position}
use obschain.Core.Baseline.Values.{
  value_le, u64, scale, to_numeric_string, from_str_scale_and_metric,
}
use obschain.Core.Baseline.Extraction.{
  Decoders, extract_metric, large_transfer_metric, metric_of, extract_event_metrics,
}
use obschain.Core.Baseline.Stored.{extract_metric-stored}
use obschain.Detectors.Blocks.{num}
use obschain.Storage.Memory.{InMemoryStorage, ok, err, not_found, unseeded, make_room, upsert}
use obschain.Storage.Events.{
  save_event, get_event_by_id, list_event_observations, event_count, push_event, save_event_metrics,
}
use obschain.Storage.Incidents.{
  save_activity, get_activity_by_dedup_key, create_job, update_job, get_job,
}
use obschain.Storage.Seeding.{
  Seed, seed_canonical_incidents, seed_mock_data, with_limits, new_empty,
}
use obschain.Storage.History.{
  StorageOp, saves_event, saves_activity, creates_job, updates_job, apply_op, run,
}
use obschain.Storage.Retention.{IsRetained, run-IsRetained}
use obschain.Storage.Lookup.{
  saved_event, save_event-get_event_by_id, save_activity-get, update_job-outcome,
}

-- decoders that decode nothing, so that every metric is read from the fields
abbrev decoders : Decoders
decoders = record {
  dormant_coins = λ j. none;
  consolidation_of = λ j. none;
  fan_out_of = λ j. none;
  extreme_fee_of = λ j. none;
  as_f64 = λ j. none;
  hundredths_u32 = λ r. r;
  hundredths_u64 = λ r. r;
}

abbrev paid : ChainEvent
paid = record transfer { metadata = object (field "total_output_sats" (num 120) end) }

paid_value : extract_metric decoders paid value_sats ≡ some (u64 120)
unfolding extract_metric metric_of large_transfer_metric new_event get_key
paid_value = refl

extract_metric-stored_example :
    (s : Text) × (to_numeric_string (u64 120) ≡ some s)
    × (from_str_scale_and_metric s (scale (u64 120)) value_sats ≡ u64 120)
extract_metric-stored_example =
    extract_metric-stored decoders paid value_sats (u64 120) paid_value (omega arith)

abbrev activity : IncidentActivity
activity = record {
  id = 3;
  incident_id = 9;
  case_id = codes "CASE-1";
  activity_type = watched_outpoint_spent;
  observed_at = 5;
  trigger_txid = some (codes "cc");
  block_height = none;
  block_hash = none;
  value_sats = some 1_000;
  watch_target_id = 1;
  confidence = on_chain_verified;
  correlation_strength = direct;
  status = mempool;
  source = core_zmq;
  evidence = [];
  description = codes "spent";
  details = none;
  dedup_key = codes "9:spent:cc:1";
}

abbrev job : ReplayJob
job = new_job readings (codes "main") 10 12 (codes "rpc")

-- a second event comes to a storage of one, and the first job is updated
abbrev calls : List StorageOp
calls =
    saves_event (λ m. readings) transfer
    ∷ saves_event (λ m. readings) (record paid { id = 8 })
    ∷ saves_activity activity
    ∷ creates_job job
    ∷ updates_job job
    ∷ []

-- a dossier, an address that it watches, and readings; the floats of the mock data do not matter
abbrev seed : Seed
seed = record {
  incident = record {
    id = 1;
    case_id = codes "OBS-1";
    recovery = new_recovery 900 400 0;
    on_chain_messages = [];
    timeline = [];
    evidence = [];
    updates = [];
    graph = record { nodes = []; edges = [] };
  };
  targets =
      new_address 4 0 1 (codes "OBS-1") (codes "bc1q") on_chain_verified (codes "report") none ∷ [];
  readings = readings;
  floats = record {
    btc_volume = 0;
    fee_rate_sat_vb = 0;
    median_fee_rate = 0;
    mempool_vsize_mb = 0;
  };
}

run-IsRetained_example :
    IsRetained 3 1 2 (run decoders calls (with_limits externals seed 1 2))
    × IsRetained 1 1 5_000 (run decoders calls (new_empty seed 1))
run-IsRetained_example = run-IsRetained decoders externals seed 1 2 calls

-- The mock data exceeds a limit of 1 from the start.
begins_with_three : event_count (with_limits externals seed 1 2) ≡ 3
unfolding with_limits seed_canonical_incidents seed_mock_data unseeded event_count
begins_with_three = refl

abbrev one_event : InMemoryStorage
one_event = save_event decoders (λ m. readings) transfer (unseeded 1 2)

save_event-get_event_by_id_example :
    get_event_by_id transfer.id (save_event decoders (λ m. readings) paid one_event)
    ≡ some (
        saved_event paid
          (list_event_observations transfer.id one_event)
          (get_event_by_id transfer.id one_event))
unfolding new_event
save_event-get_event_by_id_example =
    save_event-get_event_by_id decoders (λ m. readings) paid one_event

save_activity-get_example :
    get_activity_by_dedup_key (codes "9:spent:cc:1") (save_activity activity (unseeded 1 2))
    ≡ some activity
unfolding unseeded text_beq
save_activity-get_example =
    save_activity-get activity (codes "9:spent:cc:1") (unseeded 1 2) (inl (omega arith))

update_job-outcome_example :
    ((get_job job.id (unseeded 1 2) ≡ none)
      × (update_job job (unseeded 1 2) ≡ err (not_found job.id)))
    ⊎ ((old : ReplayJob) × (get_job job.id (unseeded 1 2) ≡ some old)
        × (update_job job (unseeded 1 2) ≡ ok (create_job job (unseeded 1 2)))
        × (get_job job.id (create_job job (unseeded 1 2)) ≡ some job)
        × ((job.id == 8) ≡ true
            ⊎ (get_job 8 (create_job job (unseeded 1 2)) ≡ get_job 8 (unseeded 1 2))))
update_job-outcome_example = update_job-outcome job 8 (unseeded 1 2)

abbrev query : RankQuery
query = record {
  network = codes "mainnet";
  event_type = transfer.event_type;
  metric = value_sats;
  metric_definition_version = codes "value_sats-v1";
  start_height = 0;
  end_height = 10;
  query_value = u64 100;
  direction = higher_is_rarer;
}

-- The one metric of a stored event is at least the value that is asked for.
one_is_rarer :
    (get_exact_empirical_rank externals decoders
      (λ e m. readings)
      query
      (save_event decoders (λ m. readings) paid (unseeded 1 2))).0
    ≡ some (0, 1, 1)
unfolding get_exact_empirical_rank save_event unseeded make_room upsert new_event get_key
    extract_event_metrics save_event_metrics rank_among matching value_le text_beq type_position
    position
one_is_rarer = refl

-- The older event has given way, and the job is there.
kept_one : event_count (run decoders calls (unseeded 1 2)) ≡ 1
unfolding run apply_op save_event push_event save_event_metrics save_activity create_job update_job
    unseeded make_room upsert event_count new_event new_job extract_event_metrics get_key
kept_one = refl
