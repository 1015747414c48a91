-- ===== src/Engine/Context/Tests.antt =====
-- internal/engine/context.go: parameters, checks and groups of a small scenario.
use vuhive.Prelude.{
  ℕ, ◌+◌, ◌%◌, String, List, [], ◌∷◌, none, some, true, false, ◌&&◌, not, ℤ, pos, ◌≡◌, refl, one_of,
  err, Result,
}
use vuhive.Config.Model.{ScenarioConfig}
use vuhive.Config.Scenario.Tests.{steady}
use vuhive.Metric.Types.{counter_type}
use vuhive.Metric.Registry.{metric_checks_passed, metric_checks_failed}
use vuhive.Metric.Collector.{counter_total}
use vuhive.Engine.Context.{setup_params, vu_params, param, param_int, mark, unused_params}
use vuhive.Engine.Context.Unused.{
  Access, by_param, by_param_int, access, access_all, asked, declares, unused_params_exact,
}
use vuhive.Engine.Context.Checks.{CheckCall, check, check_equal, check_true, CheckState, run_checks}
use vuhive.Engine.Context.Checks.Counted.{IsReady, results, count, run_checks-Recorded}
use vuhive.Engine.Context.Groups.{
  ScenarioContext, Groups, stop, enter, run_iterations, new_vu_scenario_context,
}
use vuhive.Engine.Context.Groups.Transparent.{plain_iterations, run_iterations-plain_iterations}

abbrev unread : String → Result String ℤ
unread s = err "not a number"

abbrev two_params : ScenarioConfig ℤ
two_params = record steady { params = ("host", "localhost") ∷ ("users", "many") ∷ [] }

abbrev calls : List Access
calls = by_param_int "users" (pos 3) ∷ by_param "region" ∷ []

host_unused : unused_params (access_all unread unread calls (setup_params two_params)) ≡ "host" ∷ []
unfolding unused_params access_all access setup_params param param_int mark
host_unused = refl

default_used :
    param_int unread "users" (pos 3) (setup_params two_params)
    ≡ ((pos 3, true), record { declared = two_params.params; accessed = some ("users" ∷ []) })
unfolding param_int param setup_params mark
default_used = refl

unused_params_exact_example :
    ((key : String)
      → one_of (unused_params (access_all unread unread calls (setup_params two_params))) key
        ≡ (declares two_params.params key && not (one_of (asked calls) key)))
    × (unused_params (access_all unread unread calls (vu_params two_params none)) ≡ [])
unused_params_exact_example = unused_params_exact unread unread two_params calls

abbrev fresh : CheckState ℤ ℕ
fresh = record {
  check_cache = [];
  metrics = record {
    registry = (metric_checks_passed, counter_type) ∷ (metric_checks_failed, counter_type) ∷ [];
    counters = [];
    gauges = [];
    histograms = [];
    rates = [];
  };
}

fresh-IsReady : IsReady fresh
fresh-IsReady = record { passed = refl; failed = refl; cached = λ name h. cc }

abbrev checks : List (String × CheckCall)
checks =
    ("status", check_equal false "500" "200")
    ∷ ("body", check none)
    ∷ ("status", check_true true [])
    ∷ []

run_checks-Recorded_example :
    (c' : CheckState ℤ ℕ) × (run_checks checks fresh ≡ some (results checks, c'))
    × IsReady c'
    × (counter_total metric_checks_passed c'.metrics.counters
        ≡ (counter_total metric_checks_passed fresh.metrics.counters + count true (results checks))
          % 18446744073709551616)
    × (counter_total metric_checks_failed c'.metrics.counters
        ≡ (counter_total metric_checks_failed fresh.metrics.counters + count false (results checks))
          % 18446744073709551616)
run_checks-Recorded_example = run_checks-Recorded checks fresh fresh-IsReady

abbrev user : ScenarioContext String ℕ
user = new_vu_scenario_context "vu" (pos 4) steady "api" 0

-- A checkout with a payment inside, twice, in two iterations.
abbrev shopping : List (String × ℤ × Groups)
shopping =
    ("first", pos 0, enter "checkout" (enter "pay" stop stop) (enter "browse" stop stop))
    ∷ ("second", pos 1, enter "checkout" (enter "pay" stop stop) stop)
    ∷ []

run_iterations-plain_iterations_example :
    run_iterations user shopping [] ≡ plain_iterations user shopping
run_iterations-plain_iterations_example = run_iterations-plain_iterations user shopping
