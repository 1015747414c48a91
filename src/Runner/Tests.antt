-- ===== src/Runner/Tests.antt =====
-- internal/runner: one run, from its flags to its verdict.
use vuhive.Prelude.{
  some, String, ℤ, pos, [], ◌∷◌, none, ◌≡◌, ◌↔◌, ◌⊎◌, refl, Result, ok, err, Bool, true, false,
  is_empty, lookup, str_eq, milli,
}
use vuhive.Config.Model.{Config}
use vuhive.Config.Scenario.Tests.{steady}
use vuhive.Metric.Types.{zero_snapshot}
use vuhive.Runner.{
  Flags, ResolvedScenario, resolved, target_of, resolve, no_scenario, not_registered,
  not_configured, Execution, SuiteResult, run_suite,
}
use vuhive.Runner.Resolved.{IsResolved, resolve-IsResolved}
use vuhive.Config.Model.{ThresholdConfig}
use vuhive.Config.Stats.{is_duration_stat}
use vuhive.Metric.Types.{duration_type}
use vuhive.Runner.{required_type}
use vuhive.Runner.Registration.{requested}
use vuhive.Runner.Verdict.{IsPassing, run_suite-IsPassing}

abbrev latency : ThresholdConfig ℤ
latency = record {
  metric = "login";
  stat = "p95";
  operator = "<";
  target = "200ms";
  on_no_data = "fail";
  abort_on_fail = false;
  delay_abort_eval = pos 0;
  target_duration = pos 200_000_000;
  target_float = pos 0;
}

abbrev flags : Flags
flags = record {
  config_path = "vuhive.yaml";
  scenario_name = "";
  show_version = false;
  strict = false;
  strict_fatal = true;
}

abbrev cfg : Config ℤ
cfg = record { version = "1.0"; default_scenario = "api"; scenarios = ("api", steady) ∷ [] }

abbrev load : String → Result String (Config ℤ)
load path = ok cfg

abbrev registered : String → Bool
registered name = str_eq name "api"

abbrev api : ResolvedScenario ℤ
api = record { flags = flags; config = cfg; target_scenario = "api"; scenario_cfg = steady }

-- A run that leaves its parameter unused.
abbrev execution : Execution ℤ
execution = record {
  aborted = false;
  abort_reason = "";
  setup_params = record { declared = ("region", "eu") ∷ []; accessed = some [] };
  metrics = record {
    metric_type = λ name. none;
    merged_histogram_snapshot = λ name. zero_snapshot;
    aggregated_counter_value = λ name. pos 0;
    rate_data = λ name. (pos 0, false);
    last_gauge_value = λ name. pos 0;
  };
}

abbrev execute : ResolvedScenario ℤ → Result String (Execution ℤ)
execute r = ok execution

api_resolves : resolve (ok flags) load registered ≡ ok (resolved api)
unfolding resolve target_of
api_resolves = refl

resolve-IsResolved_example :
    ((r : ResolvedScenario ℤ) × (resolve (ok flags) load registered ≡ ok (resolved r))
      × IsResolved flags cfg registered r)
    ⊎ ((resolve (ok flags) load registered ≡ err no_scenario)
        × (is_empty (target_of flags cfg) ≡ true))
    ⊎ ((resolve (ok flags) load registered ≡ err (not_registered (target_of flags cfg)))
        × (is_empty (target_of flags cfg) ≡ false)
        × (registered (target_of flags cfg) ≡ false))
    ⊎ ((resolve (ok flags) load registered ≡ err (not_configured (target_of flags cfg)))
        × (is_empty (target_of flags cfg) ≡ false)
        × (registered (target_of flags cfg) ≡ true)
        × (lookup (target_of flags cfg) cfg.scenarios ≡ none))
resolve-IsResolved_example = resolve-IsResolved flags load registered refl refl

run_suite-IsPassing_example :
    (res : SuiteResult) × (run_suite milli (ok flags) load registered execute ≡ ok res)
    × ((res.passed ≡ true) ↔ IsPassing milli api execution)
    × (res.aborted ≡ false)
    × (res.abort_reason ≡ execution.abort_reason)
run_suite-IsPassing_example =
    run_suite-IsPassing milli (ok flags) load registered execute api_resolves refl

login_is_duration : lookup "login" (requested (latency ∷ [])) ≡ some duration_type
unfolding requested required_type is_duration_stat
login_is_duration = refl
