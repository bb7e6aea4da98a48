-- ===== src/Storage/Baselines.antt =====
-- crates/obschain-storage/src/repository.rs: the baseline runs of `InMemoryStorage`, their distributions,
-- the rarity of events, and exact ranks.
use obschain.Prelude.{
  ℕ, Bool, true, false, ◌&&◌, ◌||◌, Option, none, some, List, [], ◌∷◌, map, Text, text_eq, nat_eq,
  any, find, retain, length, take, ltb, leb, if◌then◌else◌, ◌==◌,
}
use obschain.Prelude.Sorting.{sort_by}
use obschain.Core.External.{Externals, F64, Uuid, DateTime, Readings}
use obschain.Core.Event.{ChainEvent, EventType}
use obschain.Core.Baseline.{BaselineMetric, metric_eq, RarityDirection, lower_is_rarer}
use obschain.Core.Baseline.Values.{MetricValue, value_le}
use obschain.Core.Baseline.Extraction.{Decoders, EventMetricValue, extract_event_metrics}
use obschain.Core.Baseline.Records.{
  BaselineRun, BaselineRunStatus, completed, BaselineDistribution, EventRarityResult,
  ImpactBreakdown,
}
use obschain.Storage.Equalities.{type_eq}
use obschain.Storage.Memory.{
  InMemoryStorage, Stored, ok, err, not_found, upsert, change_first, page, given,
}
use obschain.Storage.Events.{save_event_metrics, query_events_for_baseline}

abbrev pub has_run_id : Uuid → BaselineRun → Bool
has_run_id id r = r.id == id

unfoldable pub create_baseline_run : BaselineRun → InMemoryStorage → InMemoryStorage
unfolding upsert
create_baseline_run run st = record st {
  baseline_runs = upsert (has_run_id run.id) run st.baseline_runs;
}

abbrev pub with_status :
    BaselineRunStatus → Option DateTime → ℕ → Option Text → BaselineRun → BaselineRun
with_status status completed_at canonical_event_count error_message r = record r {
  status = status;
  completed_at = completed_at;
  canonical_event_count = canonical_event_count;
  error_message = error_message;
}

unfoldable pub update_baseline_run_status :
    Uuid
    → BaselineRunStatus
    → Option DateTime
    → ℕ
    → Option Text
    → InMemoryStorage
    → Stored InMemoryStorage
unfolding change_first
update_baseline_run_status id status completed_at canonical_event_count error_message st =
    if any (has_run_id id) st.baseline_runs
    then ok (record st {
      baseline_runs =
          change_first (has_run_id id)
            (with_status status completed_at canonical_event_count error_message) st.baseline_runs;
    })
    else err (not_found id)

unfoldable pub get_baseline_run : Uuid → InMemoryStorage → Option BaselineRun
get_baseline_run id st = find (has_run_id id) st.baseline_runs

-- `sort_by_key(Reverse(created_at))`
abbrev newer_run : BaselineRun → BaselineRun → Bool
newer_run r s = leb s.created_at r.created_at

unfoldable pub list_baseline_runs : Option Text → ℕ → ℕ → InMemoryStorage → List BaselineRun
unfolding sort_by
list_baseline_runs network limit offset st = page limit offset (
    sort_by newer_run
      (retain (λ (r : BaselineRun). given network (λ n. r.network == n)) st.baseline_runs))

abbrev is_completed : BaselineRunStatus → Bool
is_completed completed = true
is_completed _ = false

-- an absent instant comes before every other
abbrev instant_le : Option DateTime → Option DateTime → Bool
instant_le none b = true
instant_le (some a) none = false
instant_le (some a) (some b) = leb a b

-- `b.end_height.cmp(&a.end_height).then_with(|| b.completed_at.cmp(&a.completed_at))` is not greater
abbrev later_run : BaselineRun → BaselineRun → Bool
later_run a b =
    ltb b.end_height a.end_height
    || (b.end_height == a.end_height && instant_le b.completed_at a.completed_at)

abbrev first_run : List BaselineRun → Option BaselineRun
first_run [] = none
first_run (r ∷ rs) = some r

unfoldable pub get_latest_compatible_baseline_run :
    Text → Option ℕ → Option Text → InMemoryStorage → Option BaselineRun
unfolding sort_by
get_latest_compatible_baseline_run network height version st = first_run (
    sort_by later_run (
      retain
        (λ (r : BaselineRun).
          (r.network == network)
          && is_completed r.status
          && given height (λ h. leb r.start_height h)
          && given version (λ v. r.algorithm_version == v))
        st.baseline_runs))

unfoldable pub save_baseline_distributions :
    List BaselineDistribution → InMemoryStorage → InMemoryStorage
unfolding upsert
save_baseline_distributions [] st = st
save_baseline_distributions (dist ∷ dists) st = save_baseline_distributions dists (record st {
  baseline_distributions =
      upsert
        (λ (d : BaselineDistribution).
          (d.baseline_run_id == dist.baseline_run_id)
          && (d.event_type == dist.event_type)
          && (d.metric == dist.metric))
        dist st.baseline_distributions;
})

unfoldable pub get_baseline_distributions : Uuid → InMemoryStorage → List BaselineDistribution
get_baseline_distributions run st =
    retain (λ (d : BaselineDistribution). d.baseline_run_id == run) st.baseline_distributions

unfoldable pub query_distributions :
    Option EventType → Option BaselineMetric → ℕ → InMemoryStorage → List BaselineDistribution
query_distributions event_type metric limit st = take limit (
    retain
      (λ (d : BaselineDistribution).
        given event_type (λ t. d.event_type == t) && given metric (λ m. d.metric == m))
      st.baseline_distributions)

unfoldable pub save_event_rarity :
    EventRarityResult → Option ImpactBreakdown → InMemoryStorage → InMemoryStorage
unfolding upsert
save_event_rarity rarity impact st = record st {
  event_rarity =
      upsert
        (λ (e : EventRarityResult × Option ImpactBreakdown).
          (e.0.event_id == rarity.event_id)
          && (e.0.baseline_run_id == rarity.baseline_run_id)
          && (e.0.metric == rarity.metric))
        (rarity, impact) st.event_rarity;
}

unfoldable pub get_event_rarity : Uuid → Option Uuid → InMemoryStorage → List EventRarityResult
get_event_rarity event_id run st =
    map (λ (e : EventRarityResult × Option ImpactBreakdown). e.0)
      (retain
        (λ (e : EventRarityResult × Option ImpactBreakdown).
          (e.0.event_id == event_id) && given run (λ r. e.0.baseline_run_id == r))
        st.event_rarity)

-- What an exact rank is asked for.
pub record RankQuery : Type 0 where
  pub network : Text
  pub event_type : EventType
  pub metric : BaselineMetric
  pub metric_definition_version : Text
  pub start_height : ℕ
  pub end_height : ℕ
  pub query_value : MetricValue
  pub direction : RarityDirection

-- the filter that the code writes twice
unfoldable pub matching : RankQuery → InMemoryStorage → List EventMetricValue
matching q st =
    retain
      (λ (m : EventMetricValue).
        (m.network == q.network)
        && (m.event_type == q.event_type)
        && (m.metric == q.metric)
        && (m.metric_definition_version == q.metric_definition_version)
        && leb q.start_height m.block_height
        && leb m.block_height q.end_height)
      st.event_metrics

-- the rank among the metrics that match, which the code writes twice
unfoldable pub rank_among : Externals → RankQuery → List EventMetricValue → Option (F64 × ℕ × ℕ)
unfolding value_le
rank_among x q [] = none
rank_among x q (m ∷ ms) =
    let n = length (m ∷ ms) in
    let count_le =
      length (retain (λ (a : EventMetricValue). value_le a.value q.query_value) (m ∷ ms)) in
    let count_ge =
      length (retain (λ (a : EventMetricValue). value_le q.query_value a.value) (m ∷ ms)) in
    let percentile : ℕ → F64 =
      λ count. x.mul (x.div (x.to_f64 count) (x.to_f64 n)) (x.to_f64 100) in
    elim q.direction [
      | lower_is_rarer ↦ some (percentile count_ge, count_le, n)
      | _ ↦ some (percentile count_le, count_ge, n)
    ]

-- the metrics of the events that are stored without them; `r` reads for the metrics of an event
unfoldable pub extract_all :
    Decoders
    → (ChainEvent → BaselineMetric → Readings)
    → List ChainEvent
    → InMemoryStorage
    → InMemoryStorage
unfolding save_event_metrics
extract_all d r [] st = st
extract_all d r (e ∷ es) st =
    extract_all d r es (save_event_metrics (extract_event_metrics d (r e) e none) st)

unfoldable pub get_exact_empirical_rank :
    Externals
    → Decoders
    → (ChainEvent → BaselineMetric → Readings)
    → RankQuery
    → InMemoryStorage
    → Option (F64 × ℕ × ℕ) × InMemoryStorage
unfolding matching rank_among extract_all query_events_for_baseline
get_exact_empirical_rank x d r q st = elim (rank_among x q (matching q st)) [
  | some found ↦ (some found, st)
  | none ↦
      let st' =
        extract_all d r
          (query_events_for_baseline (some q.event_type) q.start_height q.end_height st) st in
      (rank_among x q (matching q st'), st')
]
