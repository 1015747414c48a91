-- ===== src/Report/Found.antt =====
-- internal/report/summary.go: the entry that a name of a type is to have in the summary.
use vuhive.Prelude.{String, Option, none, some, ℤ, pos, FloatOps, ◌≡◌, refl}
use vuhive.Metric.Types.{
  MetricType, HistogramSnapshot, counter_type, gauge_type, duration_type, rate_type,
}
use vuhive.Sla.{MetricReader}
use vuhive.Report.{MetricSummary, metric_entry}

-- The word for a type.
abbrev pub type_name : MetricType → String
type_name counter_type = "counter"
type_name gauge_type = "gauge"
type_name duration_type = "duration"
type_name rate_type = "rate"

-- What the lookups are to return, from the type of the name.
module _ {F : Type 0} (ops : FloatOps F) (reader : MetricReader F) (name : String) where
  abbrev pub entry_for : Option MetricType → Option (MetricSummary F)
  entry_for none = none
  entry_for (some t) = some (metric_entry ops reader t name)

  abbrev pub count_for : Option MetricType → ℤ
  count_for (some counter_type) = reader.aggregated_counter_value name
  count_for (some duration_type) = (reader.merged_histogram_snapshot name).count
  count_for o = pos 0

  abbrev pub rate_for : Option MetricType → F
  rate_for (some rate_type) = (reader.rate_data name).0
  rate_for o = ops.of_int (pos 0)

  abbrev pub value_for : Option MetricType → F
  value_for (some gauge_type) = reader.last_gauge_value name
  value_for o = ops.of_int (pos 0)

  -- A number of the histogram of a duration.
  abbrev pub statistic : (HistogramSnapshot → ℤ) → MetricType → ℤ
  statistic number duration_type = number (reader.merged_histogram_snapshot name)
  statistic number t = pos 0

  -- The entry of a name of a type.
  pub record Holds (t : MetricType) (m : MetricSummary F) : Type 0 where
    pub named : m.name ≡ name
    pub kind : m.kind ≡ type_name t
    pub count : m.count ≡ count_for (some t)
    pub value : m.value ≡ value_for (some t)
    pub rate : m.rate ≡ rate_for (some t)
    pub min : m.min ≡ statistic (λ s. s.min) t
    pub mean : m.mean ≡ statistic (λ s. s.mean) t
    pub p50 : m.p50 ≡ statistic (λ s. s.p50) t
    pub p90 : m.p90 ≡ statistic (λ s. s.p90) t
    pub p95 : m.p95 ≡ statistic (λ s. s.p95) t
    pub p99 : m.p99 ≡ statistic (λ s. s.p99) t
    pub max : m.max ≡ statistic (λ s. s.max) t

  -- What a lookup finds under the name.
  abbrev pub Found : Option MetricType → Option (MetricSummary F) → Type 0
  Found none o = o ≡ none
  Found (some t) o = (m : MetricSummary F) × (o ≡ some m) × Holds t m

  metric_entry-Holds : (t : MetricType) → Holds t (metric_entry ops reader t name)
  unfolding metric_entry
  metric_entry-Holds counter_type = record {
    named = refl;
    kind = refl;
    count = refl;
    value = refl;
    rate = refl;
    min = refl;
    mean = refl;
    p50 = refl;
    p90 = refl;
    p95 = refl;
    p99 = refl;
    max = refl;
  }
  metric_entry-Holds gauge_type = record {
    named = refl;
    kind = refl;
    count = refl;
    value = refl;
    rate = refl;
    min = refl;
    mean = refl;
    p50 = refl;
    p90 = refl;
    p95 = refl;
    p99 = refl;
    max = refl;
  }
  metric_entry-Holds duration_type = record {
    named = refl;
    kind = refl;
    count = refl;
    value = refl;
    rate = refl;
    min = refl;
    mean = refl;
    p50 = refl;
    p90 = refl;
    p95 = refl;
    p99 = refl;
    max = refl;
  }
  metric_entry-Holds rate_type = record {
    named = refl;
    kind = refl;
    count = refl;
    value = refl;
    rate = refl;
    min = refl;
    mean = refl;
    p50 = refl;
    p90 = refl;
    p95 = refl;
    p99 = refl;
    max = refl;
  }

  pub entry_for-Found : (o : Option MetricType) → Found o (entry_for o)
  entry_for-Found none = refl
  entry_for-Found (some t) = (metric_entry ops reader t name, refl, metric_entry-Holds t)
