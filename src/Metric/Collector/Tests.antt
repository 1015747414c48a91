-- ===== src/Metric/Collector/Tests.antt =====
-- internal/metric/collector.go: a concrete history of the store.
use vuhive.Prelude.{ℕ, ℤ, pos, String, List, [], ◌∷◌, some, ◌≡◌, refl, wrap64}
use vuhive.Metric.Types.{counter_type}
use vuhive.Metric.Registry.{new_registry, register, must_register}
use vuhive.Metric.Keys.{Tags, make_key}
use vuhive.Metric.Collector.{
  Collector, new_collector, count_event, counter, get_or_create, aggregated_counter_value,
}
use vuhive.Metric.Collector.Totals.{count_all, sum_for, aggregated_counter_value_sum}
use vuhive.Metric.Collector.Kinds.{Handle, AllTyped, a_counter, a_gauge}
use vuhive.Metric.Collector.Histories.{request_all, request_all-AllTyped}

abbrev hits : List (String × Tags × ℤ)
hits =
    ("hits", ("host", "a") ∷ [], pos 2)
    ∷ ("misses", [], pos 1)
    ∷ ("hits", ("host", "b") ∷ [], pos 3)
    ∷ []

abbrev counted : Collector ℤ ℕ
counted = record {
  registry =
      ("vuhive.checks.passed", counter_type)
      ∷ ("vuhive.checks.failed", counter_type)
      ∷ ("hits", counter_type)
      ∷ ("misses", counter_type)
      ∷ [];
  counters =
      (record { name = "hits"; tags_key = "host=a" }, 2)
      ∷ (record { name = "misses"; tags_key = "" }, 1)
      ∷ (record { name = "hits"; tags_key = "host=b" }, 3)
      ∷ [];
  gauges = [];
  histograms = [];
  rates = [];
}

hits-counted : count_all hits new_collector ≡ some counted
unfolding count_all new_collector count_event counter get_or_create must_register register
    new_registry make_key
hits-counted = refl

aggregated_counter_value_sum_example :
    aggregated_counter_value "hits" counted ≡ wrap64 (sum_for "hits" hits)
aggregated_counter_value_sum_example = aggregated_counter_value_sum hits hits-counted "hits"

abbrev requests : List (Handle × String × Tags)
requests = (a_counter, "login", []) ∷ (a_gauge, "login", []) ∷ (a_gauge, "users", []) ∷ []

-- A histogram is the number of its samples.
abbrev no_samples : ℕ
no_samples = 0

request_all-AllTyped_example : AllTyped (request_all (pos 0) no_samples requests new_collector)
request_all-AllTyped_example = request_all-AllTyped (pos 0) no_samples requests
