-- ===== src/Report/Tests.antt =====
-- The summary of a run with one counter.
use vuhive.Prelude.{String, List, [], ◌∷◌, some, none, true, ℤ, pos, ◌≡◌, refl, milli}
use vuhive.Metric.Types.{MetricType, counter_type, rate_type, zero_snapshot}
use vuhive.Metric.Registry.{new_registry, register, metric_type}
use vuhive.Metric.Registry.Order.{register_all}
use vuhive.Sla.{MetricReader}
use vuhive.Report.{SummaryParams, build_summary_data, metric, counter, rate, gauge}
use vuhive.Report.Found.{Found}
use vuhive.Report.Lookups.{metric-build_summary_data}

-- The second registration fails.
abbrev registrations : List (String × MetricType)
registrations = ("requests", counter_type) ∷ ("requests", rate_type) ∷ []

abbrev sevens : MetricReader ℤ
sevens = record {
  metric_type = λ name. none;
  merged_histogram_snapshot = λ name. zero_snapshot;
  aggregated_counter_value = λ name. pos 7;
  rate_data = λ name. (pos 7000, true);
  last_gauge_value = λ name. pos 7000;
}

abbrev finished : SummaryParams ℤ
finished = record {
  started_at = pos 5;
  ended_at = pos 9;
  metrics_store = some (sevens, register_all registrations new_registry);
  threshold_results = [];
  all_passed = true;
  aborted = true;
  abort_reason = "";
}

metric-build_summary_data_example :
    Found milli sevens "requests"
      (some counter_type)
      (metric "requests" (build_summary_data milli finished))
    × (counter "requests" (build_summary_data milli finished) ≡ pos 7)
    × (rate milli "requests" (build_summary_data milli finished) ≡ pos 0)
    × (gauge milli "requests" (build_summary_data milli finished) ≡ pos 0)
unfolding register_all register new_registry metric_type
metric-build_summary_data_example =
    metric-build_summary_data milli sevens registrations finished refl "requests"
