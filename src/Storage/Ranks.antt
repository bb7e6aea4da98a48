-- ===== src/Storage/Ranks.antt =====
-- The exact rank of crates/obschain-storage/src/repository.rs is that of
-- crates/obschain-intelligence/src/baseline.rs.
use obschain.Prelude.{ℕ, Option, none, some, List, [], ◌∷◌, ◌++◌, length, ◌≡◌, ◌≢◌, ◌⊎◌}
use obschain.Core.External.{Externals, F64, Readings}
use obschain.Core.Event.{ChainEvent}
use obschain.Core.Baseline.{BaselineMetric}
use obschain.Core.Baseline.Values.{MetricValue}
use obschain.Core.Baseline.Extraction.{Decoders, EventMetricValue, extract_event_metrics}
use obschain.Intelligence.Baseline.{rank_value}
use obschain.Storage.Memory.{InMemoryStorage}
use obschain.Storage.Baselines.{RankQuery, matching}
use obschain.Storage.Events.{save_event_metrics, query_events_for_baseline}

abbrev pub value_of : EventMetricValue → MetricValue
value_of m = m.value

-- the rank among the values, and their number; there is none among no values
unfoldable pub ranked : Externals → RankQuery → List MetricValue → Option (F64 × ℕ × ℕ)
ranked x q [] = none
ranked x q (v ∷ vs) =
    let rank = rank_value x (v ∷ vs) q.query_value q.direction in
    some (rank.0, rank.1, length (v ∷ vs))

-- the metrics of several events, in their order
abbrev pub metrics_of :
    Decoders → (ChainEvent → BaselineMetric → Readings) → List ChainEvent → List EventMetricValue
metrics_of d r [] = []
metrics_of d r (e ∷ es) = extract_event_metrics d (r e) e none ++ metrics_of d r es

-- What a query leaves of the storage: all of it where a metric matches, and else also the metrics of
-- the events of the range.
abbrev pub Leaves :
    Decoders
    → (ChainEvent → BaselineMetric → Readings)
    → RankQuery
    → InMemoryStorage
    → InMemoryStorage
    → Type 0
Leaves d r q st st' =
    ((matching q st ≢ []) × (st' ≡ st))
    ⊎ ((matching q st ≡ [])
        × (st'
            ≡ save_event_metrics
                (metrics_of d r
                  (query_events_for_baseline (some q.event_type) q.start_height q.end_height st))
                st))
