-- ===== src/Config/Stats.antt =====
-- internal/config/validate.go: the sets of supported words, and what a stat says of its metric.
use vuhive.Prelude.{String, [], ◌∷◌, Bool, one_of, str_eq, if◌then◌else◌}

duration_stats : String → Bool
duration_stats = one_of ("p50" ∷ "p90" ∷ "p95" ∷ "p99" ∷ "mean" ∷ "max" ∷ [])

unfoldable pub is_duration_stat : String → Bool
unfolding duration_stats
is_duration_stat stat = duration_stats stat

unfoldable pub valid_stats : String → Bool
valid_stats =
    one_of ("p50" ∷ "p90" ∷ "p95" ∷ "p99" ∷ "mean" ∷ "max" ∷ "count" ∷ "rate" ∷ "value" ∷ [])

unfoldable pub valid_operators : String → Bool
valid_operators = one_of ("<" ∷ "<=" ∷ ">" ∷ ">=" ∷ [])

unfoldable pub valid_on_no_data : String → Bool
valid_on_no_data = one_of ("" ∷ "zero" ∷ "fail" ∷ "pass" ∷ "ignore" ∷ "skip" ∷ [])

unfoldable pub valid_strict_modes : String → Bool
valid_strict_modes = one_of ("" ∷ "off" ∷ "warn" ∷ "fatal" ∷ [])

unfoldable pub inferred_metric_kind : String → String
unfolding is_duration_stat
inferred_metric_kind stat =
    if is_duration_stat stat
    then "duration"
    else if str_eq stat "count"
    then "counter"
    else if str_eq stat "rate"
    then "rate"
    else if str_eq stat "value"
    then "gauge"
    else "unknown"
