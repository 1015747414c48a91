-- ===== src/Runner.antt =====
-- internal/runner/resolver.go, strict.go and runner.go: the workflow of a run, from the flags to the
-- verdict. The parsed flags, the loaded configuration and what the executor reports are inputs.
pub mod Resolved
pub mod Verdict
pub mod Registration
mod Tests
use vuhive.Prelude.{
  ℕ, suc, String, List, [], ◌∷◌, ◌++◌, Option, none, some, ℤ, pos, Bool, true, false, not, ◌&&◌,
  ◌||◌, is_empty, is_zero, is_pos, is_some, str_eq, if◌then◌else◌, Result, ok, err, Checked,
  fail_if, ◌>>=◌, ◌>>◌, lookup, FloatOps,
}
use vuhive.Config.Model.{
  Config, ScenarioConfig, ThresholdConfig, strict_mode_off, strict_mode_warn, strict_mode_fatal,
  is_strict_enabled,
}
use vuhive.Config.Stats.{is_duration_stat}
use vuhive.Metric.Types.{MetricType, counter_type, gauge_type, duration_type, rate_type}
use vuhive.Metric.Registry.{Registry, register}
use vuhive.Engine.Context.{Params, unused_params}
use vuhive.Sla.{MetricReader, ThresholdResult, evaluate, all_passed}

-- cli.Flags, as far as the workflow reads them.
pub record Flags : Type 0 where
  pub config_path : String
  pub scenario_name : String
  pub show_version : Bool
  pub strict : Bool
  pub strict_fatal : Bool

-- E is an error of the flag parser, the loader or the executor.
pub data SuiteError (E : Type 0) : Type 0 where
  flag_error : E → SuiteError E
  load_error : E → SuiteError E
  no_scenario : SuiteError E
  not_registered : String → SuiteError E
  not_configured : String → SuiteError E
  execution_error : E → SuiteError E

pub record ResolvedScenario (F : Type 0) : Type 0 where
  pub flags : Flags
  pub config : Config F
  pub target_scenario : String
  pub scenario_cfg : ScenarioConfig F

-- The version was asked for, or there is a scenario to run.
pub data Resolution (F : Type 0) : Type 0 where
  version_shown : Resolution F
  resolved : ResolvedScenario F → Resolution F

-- The flag, or else the default of the configuration.
pub target_of : {F : Type 0} → Flags → Config F → String
target_of flags cfg =
    if is_empty flags.scenario_name then cfg.default_scenario else flags.scenario_name

-- The type under which a threshold registers its metric, if any.
pub required_type : {F : Type 0} → ThresholdConfig F → Option MetricType
required_type th =
    if is_empty th.metric
    then none
    else if is_duration_stat th.stat
    then some duration_type
    else if str_eq th.stat "count"
    then some counter_type
    else if str_eq th.stat "rate"
    then some rate_type
    else if str_eq th.stat "value"
    then some gauge_type
    else none

-- preRegisterThresholdMetrics; the errors of Register are dropped.
pub pre_register_threshold_metrics : {F : Type 0} → List (ThresholdConfig F) → Registry → Registry
pre_register_threshold_metrics [] reg = reg
pre_register_threshold_metrics (th ∷ ths) reg =
    pre_register_threshold_metrics ths (elim (required_type th) [
      | none ↦ reg
      | some mt ↦ elim (register th.metric mt reg) [ ok r ↦ r | err e ↦ reg ]
    ])

-- The priority is --strict-fatal, --strict, and then the configuration.
pub resolve_strict_mode : Bool → Bool → String → String
resolve_strict_mode cli_strict cli_strict_fatal yaml_strict =
    if cli_strict_fatal
    then strict_mode_fatal
    else if cli_strict
    then strict_mode_warn
    else if not (is_empty yaml_strict) && not (str_eq yaml_strict strict_mode_off)
    then yaml_strict
    else ""

-- A diagnostic, before it is printed.
pub data StrictDiagnostic : Type 0 where
  unused_param : String → StrictDiagnostic
  unmatched_threshold : String → String → StrictDiagnostic

-- What the executor reports: F is float64. The parameters are those of its SetupCtx.
pub record Execution (F : Type 0) : Type 0 where
  pub aborted : Bool
  pub abort_reason : String
  pub setup_params : Params
  pub metrics : MetricReader F

-- runner.Result, without its error.
pub record SuiteResult : Type 0 where
  pub passed : Bool
  pub aborted : Bool
  pub abort_reason : String

param_diagnostics : List String → List StrictDiagnostic
param_diagnostics [] = []
param_diagnostics (key ∷ keys) = unused_param key ∷ param_diagnostics keys

no_diagnostics : List StrictDiagnostic → Bool
no_diagnostics [] = true
no_diagnostics (_ ∷ _) = false

module _ {F : Type 0} (ops : FloatOps F) where
  pub has_observed_data : ThresholdConfig F → MetricReader F → Bool
  has_observed_data th reader =
      if not (is_some (reader.metric_type th.metric))
      then false
      else if is_duration_stat th.stat
      then is_pos (reader.merged_histogram_snapshot th.metric).count
      else if str_eq th.stat "count"
      then is_pos (reader.aggregated_counter_value th.metric)
      else if str_eq th.stat "rate"
      then (reader.rate_data th.metric).1
      else if str_eq th.stat "value"
      then not (ops.eq (reader.last_gauge_value th.metric) (ops.of_int (pos 0)))
      else false

  threshold_diagnostics : List (ThresholdConfig F) → MetricReader F → List StrictDiagnostic
  threshold_diagnostics [] reader = []
  threshold_diagnostics (th ∷ ths) reader =
      let rest = threshold_diagnostics ths reader in
      if is_empty th.metric || has_observed_data th reader
      then rest
      else unmatched_threshold th.metric th.stat ∷ rest

  pub evaluate_strict_diagnostics :
      ScenarioConfig F → List String → MetricReader F → List StrictDiagnostic
  evaluate_strict_diagnostics cfg unused reader =
      param_diagnostics unused ++ threshold_diagnostics cfg.thresholds reader

  -- The part of RunSuite after the executor: the strict mode, the thresholds and the verdict.
  pub conclude : ResolvedScenario F → Execution F → SuiteResult
  conclude r execution =
      let mode =
        resolve_strict_mode r.flags.strict r.flags.strict_fatal r.scenario_cfg.strict_mode in
      let found : List StrictDiagnostic =
        (if is_strict_enabled mode
          then evaluate_strict_diagnostics r.scenario_cfg (unused_params execution.setup_params)
              execution.metrics
          else []) in
      let met = all_passed (evaluate ops r.scenario_cfg.thresholds execution.metrics) in
      record {
        passed =
            met
            && not execution.aborted
            && not (str_eq mode strict_mode_fatal && not (no_diagnostics found));
        aborted = execution.aborted;
        abort_reason = execution.abort_reason;
      }

module _ {F E : Type 0} where
  -- ScenarioResolver.Resolve
  pub resolve :
      Result E Flags
      → (String → Result E (Config F))
      → (String → Bool)
      → Result (SuiteError E) (Resolution F)
  resolve (err e) load registered = err (flag_error e)
  resolve (ok flags) load registered =
      if flags.show_version then ok version_shown else elim (load flags.config_path) [
        | err e ↦ err (load_error e)
        | ok cfg ↦
            if is_empty (target_of flags cfg)
            then err no_scenario
            else if not (registered (target_of flags cfg))
            then err (not_registered (target_of flags cfg))
            else elim (lookup (target_of flags cfg) cfg.scenarios) [
              | none ↦ err (not_configured (target_of flags cfg))
              | some sc ↦ ok (
                  resolved (record {
                    flags = flags;
                    config = cfg;
                    target_scenario = target_of flags cfg;
                    scenario_cfg = sc;
                  }))
            ]
      ]

  -- RunSuite
  pub run_suite :
      FloatOps F
      → Result E Flags
      → (String → Result E (Config F))
      → (String → Bool)
      → (ResolvedScenario F → Result E (Execution F))
      → Result (SuiteError E) SuiteResult
  run_suite ops flags load registered execute = elim (resolve flags load registered) [
    | err e ↦ err e
    | ok version_shown ↦ ok (record { passed = true; aborted = false; abort_reason = "" })
    | ok (resolved r) ↦ elim (execute r) [
      | err e ↦ err (execution_error e)
      | ok execution ↦ ok (conclude ops r execution)
    ]
  ]
