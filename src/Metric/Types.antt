-- ===== src/Metric/Types.antt =====
-- internal/metric/registry.go and histogram.go: the kinds of metric and the statistics of a histogram.
use vuhive.Prelude.{ℤ, pos, Bool, true, false}

pub data MetricType : Type 0 where
  counter_type : MetricType
  gauge_type : MetricType
  duration_type : MetricType
  rate_type : MetricType

-- existing == mt
abbrev pub same_type : MetricType → MetricType → Bool
same_type counter_type counter_type = true
same_type gauge_type gauge_type = true
same_type duration_type duration_type = true
same_type rate_type rate_type = true
same_type a b = false

pub record HistogramSnapshot : Type 0 where
  pub count : ℤ
  pub min : ℤ
  pub max : ℤ
  pub mean : ℤ
  pub p50 : ℤ
  pub p90 : ℤ
  pub p95 : ℤ
  pub p99 : ℤ

-- HistogramSnapshot{}
abbrev pub zero_snapshot : HistogramSnapshot
zero_snapshot = record {
  count = pos 0;
  min = pos 0;
  max = pos 0;
  mean = pos 0;
  p50 = pos 0;
  p90 = pos 0;
  p95 = pos 0;
  p99 = pos 0;
}
