-- ===== src/Lib.antt =====
-- ObsChain watches the Bitcoin network: feeds turn what a node or a mempool service reports into
-- observations, detectors turn observations into events, and events are stored, deduplicated,
-- compared with baselines and grouped into incidents. This library models the program's core logic
-- and proves what it promises.
--
-- Parts, and how the modules correspond to the code:
--
-- Prelude: shared names; lists, maps and texts. A text is the list of its character codes, a
-- `HashMap` is an association list, the printing and the parsing of unsigned integers are those of
-- the language.
-- Core: crates/obschain-core/src. Core.Source is source.rs, Core.Mode the modes and contexts of
-- replay.rs, Core.Observation observation.rs, Core.Event and Core.Occurrence event.rs, Core.Amount
-- amount.rs and fee.rs. Core.Watch is watch.rs, and Core.Baseline is baseline.rs. Core.External
-- holds what the program takes from other crates and from the language.
-- Detectors: crates/obschain-detectors/src. Detectors.Dedup is dedup.rs (`EventDeduplicator`),
-- Detectors.Engine is engine.rs (`DetectorEngine`), and the detectors are Detectors.FanOut
-- (fan_out.rs and consolidation.rs), Detectors.Dormant (dormant.rs), Detectors.Transactions
-- (large_tx.rs, extreme_fee.rs, rbf.rs) and Detectors.Blocks (long_interval.rs, reorg.rs).
-- Ingest: crates/obschain-ingest/src. Ingest.Sequence is the part of bitcoin_zmq.rs that tracks
-- sequence numbers and reads messages, Ingest.Coordinator is the tip of bitcoin_coordinator.rs
-- (`BitcoinCoordinator`), Ingest.Cache is utxo_cache.rs (`UtxoCache`), Ingest.Enricher enricher.rs
-- (`TransactionEnricher`), and Ingest.Replay is the job of historical_replay.rs
-- (`HistoricalReplayEngine`), over a parameter that replays one block and reads and writes the rest
-- of the engine's state, with the jobs and checkpoints of
-- crates/obschain-storage/src/repository.rs; Core.Replay is the rest of replay.rs.
-- Incidents: crates/obschain-incidents/src. Incidents.Validation is validation.rs over the dossier
-- of crates/obschain-core/src/incident.rs, which is Core.Incident.
-- Intelligence: crates/obschain-intelligence/src. Intelligence.Baseline is the calculator and the
-- runs of baseline.rs (`BaselineCalculator`, `BaselineEngine`), and Intelligence.WatchEngine is
-- watch_engine.rs (`IncidentWatchEngine`): the indices and the followed outputs are in the module
-- itself, `process_transaction` is Processing with the loops over the inputs (Inputs) and the
-- outputs (Outputs), Activities is what they report and Alerts the alerts and the timeline. Watched
-- and Expected describe, by a list of targets alone, what the engine watches and what it should
-- report.
-- Storage: crates/obschain-storage/src/repository.rs (`InMemoryStorage`). Storage.Memory is the
-- state, Storage.Events the events with their observations and metrics, Storage.Seeding how it
-- begins, Storage.Incidents the incidents, watch targets, activities, alerts and replay jobs,
-- Storage.Baselines the runs and ranks, Storage.Checked the conversions of numbers.
--
-- The detectors' events reach the storage (Storage.Events.save_event), which extracts their metrics
-- (Core.Baseline.Extraction); the observations also reach the watch engine, whose activities and
-- alerts the storage keeps by their deduplication keys (Core.Watch.generate_dedup_key).
--
-- State is passed explicitly: an operation takes the state last and returns it with its result. An
-- operation `f` of the code is the definition `f` of its module unless a comment there names
-- another. Integers are natural numbers; where the code can reach the end of a type's range, the
-- wrap-around or the saturation is written out. Floats, hashes, the text of identifiers and the
-- serializer are fields of Core.External.Externals and Detectors.Metadata.Encoders: the theorems
-- hold for every choice of them, and what a theorem needs of them is a hypothesis. Readings of the
-- clock and of the random source are arguments; a detector is what it answers in one call, so that
-- the same detector in another call, with other readings, is another value. No definition needs
-- fuel: every loop is a recursion on a list, on a queue or on the number of blocks that are left.
--
-- Hashes, scripts and addresses are ASCII, so that a slice of bytes is one of characters, and the
-- lower case of a text is a field of Externals. Locks are never poisoned, except where a state has
-- a field for it: no operation panics while it holds one. A replay job with a checkpoint interval
-- of 0 panics, and its call then returns nothing. What the decoding of an event's metadata gives is
-- a field of Core.Baseline.Extraction.Decoders. An `i64` is its 64-bit pattern.
--
-- Not modelled: the network clients, the database, the HTTP interface and the configuration, which
-- are input and output; the replay of one block; the builder and the seed data of incidents, except
-- that a new storage receives them; the estimate of a rank from a distribution and the impact
-- model, where most numbers are floats; clustering, graph and report.
pub mod Prelude
pub mod Core
pub mod Detectors
pub mod Ingest
pub mod Incidents
pub mod Intelligence
pub mod Storage
