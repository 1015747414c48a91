-- ===== src/Report.antt =====
-- internal/report/summary.go and internal/runner/summary.go: the summary of a run, and what a report
-- looks up in it. The tags of an entry are always nil; checks, groups and the strict diagnostics are
-- left out.
mod Entries
pub mod Found
pub mod Lookups
mod Tests
use vuhive.Prelude.{
  String, List, [], ◌∷◌, ◌++◌, map, Option, none, some, ℤ, pos, ◌-ℤ◌, is_neg, Bool, str_eq,
  if◌then◌else◌, FloatOps, sort_by,
}
use vuhive.Metric.Types.{
  MetricType, counter_type, gauge_type, duration_type, rate_type, HistogramSnapshot,
}
use vuhive.Metric.Registry.{Registry, names_by_type}
use vuhive.Sla.{MetricReader, Actual, ThresholdResult}

pub record MetricSummary (F : Type 0) : Type 0 where
  pub name : String
  pub kind : String
  pub count : ℤ
  pub value : F
  pub rate : F
  pub min : ℤ
  pub mean : ℤ
  pub p50 : ℤ
  pub p90 : ℤ
  pub p95 : ℤ
  pub p99 : ℤ
  pub max : ℤ

pub record ThresholdSummary (F : Type 0) : Type 0 where
  pub metric : String
  pub stat : String
  pub operator : String
  pub target : String
  pub actual : Actual F
  pub passed : Bool

pub record SummaryData (F : Type 0) : Type 0 where
  pub duration : ℤ
  pub metrics : List (MetricSummary F)
  pub thresholds : List (ThresholdSummary F)
  pub passed : Bool
  pub aborted : Bool
  pub abort_reason : String

-- The part of SummaryParams that the summary is built from, with times in nanoseconds. The store is
-- `none` when it is nil, and else what reads it and the registry that its names are in.
pub record SummaryParams (F : Type 0) : Type 0 where
  pub started_at : ℤ
  pub ended_at : ℤ
  pub metrics_store : Option (MetricReader F × Registry)
  pub threshold_results : List (ThresholdResult F)
  pub all_passed : Bool
  pub aborted : Bool
  pub abort_reason : String

module _ {F : Type 0} where
  threshold_summary : ThresholdResult F → ThresholdSummary F
  threshold_summary th = record {
    metric = th.metric;
    stat = th.stat;
    operator = th.operator;
    target = th.target;
    actual = th.actual;
    passed = th.passed;
  }

module _ {F : Type 0} (ops : FloatOps F) where
  -- An entry with every number 0.
  blank_entry : String → String → MetricSummary F
  blank_entry name kind = record {
    name = name;
    kind = kind;
    count = pos 0;
    value = ops.of_int (pos 0);
    rate = ops.of_int (pos 0);
    min = pos 0;
    mean = pos 0;
    p50 = pos 0;
    p90 = pos 0;
    p95 = pos 0;
    p99 = pos 0;
    max = pos 0;
  }

  -- The entry of a name, in each of the four loops.
  pub metric_entry : MetricReader F → MetricType → String → MetricSummary F
  unfolding blank_entry
  metric_entry reader duration_type name =
      let snap = reader.merged_histogram_snapshot name in
      record (blank_entry name "duration") {
        count = snap.count;
        min = snap.min;
        mean = snap.mean;
        p50 = snap.p50;
        p90 = snap.p90;
        p95 = snap.p95;
        p99 = snap.p99;
        max = snap.max;
      }
  metric_entry reader counter_type name = record (blank_entry name "counter") {
    count = reader.aggregated_counter_value name;
  }
  metric_entry reader gauge_type name = record (blank_entry name "gauge") {
    value = reader.last_gauge_value name;
  }
  metric_entry reader rate_type name = record (blank_entry name "rate") {
    rate = (reader.rate_data name).0;
  }

  entries_of : MetricReader F → Registry → MetricType → List (MetricSummary F)
  entries_of reader registry mt = map (metric_entry reader mt) (names_by_type mt registry)

  -- The four loops, and the sort by name.
  pub metric_entries : Option (MetricReader F × Registry) → List (MetricSummary F)
  unfolding entries_of
  metric_entries none = []
  metric_entries (some (reader, registry)) =
      sort_by (λ (e : MetricSummary F). e.name)
        (entries_of reader registry duration_type
          ++ (entries_of reader registry counter_type
              ++ (entries_of reader registry gauge_type ++ entries_of reader registry rate_type)))

  pub build_summary_data : SummaryParams F → SummaryData F
  unfolding metric_entries threshold_summary
  build_summary_data p =
      let duration = p.ended_at -ℤ p.started_at in
      record {
        duration = if is_neg duration then pos 0 else duration;
        metrics = metric_entries p.metrics_store;
        thresholds = map threshold_summary p.threshold_results;
        passed = p.all_passed;
        aborted = p.aborted;
        abort_reason = p.abort_reason;
      }

-- SummaryData.Metric and Threshold; nil is `none`.
module _ {F : Type 0} where
  pub metric_in : String → List (MetricSummary F) → Option (MetricSummary F)
  metric_in name [] = none
  metric_in name (m ∷ ms) = if str_eq m.name name then some m else metric_in name ms

  pub metric : String → SummaryData F → Option (MetricSummary F)
  unfolding metric_in
  metric name s = metric_in name s.metrics

  threshold_in : String → List (ThresholdSummary F) → Option (ThresholdSummary F)
  threshold_in name [] = none
  threshold_in name (t ∷ ts) = if str_eq t.metric name then some t else threshold_in name ts

  pub threshold : String → SummaryData F → Option (ThresholdSummary F)
  unfolding threshold_in
  threshold name s = threshold_in name s.thresholds

  pub counter : String → SummaryData F → ℤ
  unfolding metric
  counter name s = elim (metric name s) [ none ↦ pos 0 | some m ↦ m.count ]

module _ {F : Type 0} (ops : FloatOps F) where
  pub rate : String → SummaryData F → F
  unfolding metric
  rate name s = elim (metric name s) [ none ↦ ops.of_int (pos 0) | some m ↦ m.rate ]

  pub gauge : String → SummaryData F → F
  unfolding metric
  gauge name s = elim (metric name s) [ none ↦ ops.of_int (pos 0) | some m ↦ m.value ]
