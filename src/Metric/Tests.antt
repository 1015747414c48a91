-- ===== src/Metric/Tests.antt =====
-- internal/metric: concrete histories of the store.
use vuhive.Prelude.{String, List, [], ◌∷◌, some, ◌≡◌, refl, lookup}
use vuhive.Metric.Types.{MetricType, counter_type, gauge_type}
use vuhive.Metric.Registry.{new_registry, metric_type, register}
use vuhive.Metric.Registry.Order.{or_else, register_all, register_all-metric_type}

abbrev calls : List (String × MetricType)
calls = ("login", counter_type) ∷ ("login", gauge_type) ∷ []

register_all-metric_type_example :
    metric_type "login" (register_all calls new_registry)
    ≡ or_else (metric_type "login" new_registry) (lookup "login" calls)
register_all-metric_type_example = register_all-metric_type calls new_registry "login"

first_wins : metric_type "login" (register_all calls new_registry) ≡ some counter_type
unfolding metric_type register_all register new_registry
first_wins = refl
