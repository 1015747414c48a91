-- ===== src/Config/Scenario.antt =====
-- internal/config/validate.go: validateScenario, its checks in the order of the source. A check
-- returns at its first violation.
pub mod Valid
pub mod Sound
pub mod Capacity
pub mod Rules
pub mod Tests
use Prim.Native.String.{◌++◌}
use vuhive.Prelude.{
  ℕ, suc, ◌+◌, ◌/◌, ◌%◌, String, List, [], ◌∷◌, Option, none, some, ℤ, pos, pos_part, Bool, true,
  false, not, is_neg, is_pos, is_zero, is_empty, str_eq, ◌||◌, ◌&&◌, ltb_ℤ, Result, ok, err,
  Checked, fail_if, ◌>>=◌, ◌>>◌, itoa, if◌then◌else◌, FloatOps,
}
use vuhive.Config.Model.{
  ScenarioConfig, StageConfig, HttpConfig, ThinkTimeConfig, InteractionDelayConfig, ValidationError,
  text, sprintf, str, int, float, scenario_type_constant_vus, scenario_type_arrival_rate,
  scenario_type_ramping_vus, default_guard_deadline,
}
use vuhive.Config.Stats.{valid_strict_modes}
use vuhive.Config.Delays.{DelayValidatorFunc, validate_interaction_delay, validate_think_time}
use vuhive.Config.Thresholds.{Parsers, complain, validate_thresholds}

-- Duration.Seconds of a duration that is not negative.
unfoldable pub seconds : {F : Type 0} → FloatOps F → ℤ → F
seconds ops d =
    ops.add (ops.of_int (pos (pos_part d / 1_000_000_000)))
      (ops.div (ops.of_int (pos (pos_part d % 1_000_000_000))) (ops.of_int (pos 1_000_000_000)))

is_nil : List StageConfig → Bool
is_nil [] = true
is_nil (_ ∷ _) = false

pub default_timeout : {F : Type 0} → ScenarioConfig F → ScenarioConfig F
default_timeout sc =
    if is_zero sc.vu_timeout && not sc.allow_unbounded_iterations
    then record sc { vu_timeout = default_guard_deadline }
    else sc

module _ {F : Type 0} (ops : FloatOps F) where
  -- int(math.Ceil(float64(sc.TargetTPS) * vuTimeoutSec))
  unfoldable pub required_vus : ℤ → ℤ → ℤ
  required_vus target_tps vu_timeout =
      ops.ceil (ops.mul (ops.of_int target_tps) (seconds ops vu_timeout))

  check_constant_vus : String → ScenarioConfig F → Checked (ValidationError F)
  check_constant_vus prefix sc = do
    complain (prefix ++ ".vus") "must be > 0 for constant_vus scenario type" (not (is_pos sc.vus))
    complain (prefix ++ ".run_period") "must be > 0" (not (is_pos sc.run_period))

  check_arrival_rate : String → ScenarioConfig F → Checked (ValidationError F)
  check_arrival_rate prefix sc = do
    complain (prefix ++ ".target_tps") "must be > 0 for arrival_rate scenario type"
        (not (is_pos sc.target_tps))
    complain (prefix ++ ".max_vus") "must be > 0 for arrival_rate scenario type"
        (not (is_pos sc.max_vus))
    complain (prefix ++ ".run_period") "must be > 0" (not (is_pos sc.run_period))
    fail_if (is_pos sc.vu_timeout && ltb_ℤ sc.max_vus (required_vus sc.target_tps sc.vu_timeout))
        (record {
          field = prefix ++ ".max_vus";
          message =
              sprintf
                "insufficient for target throughput: max_vus=%d but Little's Law requires at least %d (ceil(%d × %.3fs)); maximum achievable TPS is %.1f"
                (int sc.max_vus
                  ∷ int (required_vus sc.target_tps sc.vu_timeout)
                  ∷ int sc.target_tps
                  ∷ float (seconds ops sc.vu_timeout)
                  ∷ float (ops.div (ops.of_int sc.max_vus) (seconds ops sc.vu_timeout))
                  ∷ []);
        })
    complain (prefix ++ ".burst_buffer") "must be >= 0" (is_neg sc.burst_buffer)

  pub check_stages : String → ℕ → List StageConfig → Checked (ValidationError F)
  check_stages prefix i [] = ok tt
  check_stages prefix i (st ∷ sts) = do
    let st_prefix = prefix ++ (".stages[" ++ (itoa i ++ "]"))
    complain (st_prefix ++ ".target") "must be >= 0" (is_neg st.target)
    complain (st_prefix ++ ".duration") "must be > 0" (not (is_pos st.duration))
    check_stages prefix (suc i) sts

  check_ramping_vus : String → ScenarioConfig F → Checked (ValidationError F)
  check_ramping_vus prefix sc = do
    complain (prefix ++ ".stages")
        "at least one stage must be defined for ramping_vus scenario type" (is_nil sc.stages)
    check_stages prefix 0 sc.stages

  -- The switch over sc.Type.
  pub check_type : String → ScenarioConfig F → Checked (ValidationError F)
  check_type prefix sc =
      if str_eq sc.kind scenario_type_constant_vus
      then check_constant_vus prefix sc
      else if str_eq sc.kind scenario_type_arrival_rate
      then check_arrival_rate prefix sc
      else if str_eq sc.kind scenario_type_ramping_vus
      then check_ramping_vus prefix sc
      else err (record {
        field = prefix ++ ".type";
        message = sprintf "must be %q, %q, or %q, got %q" (
            str scenario_type_constant_vus
            ∷ str scenario_type_arrival_rate
            ∷ str scenario_type_ramping_vus
            ∷ str sc.kind
            ∷ []);
      })

  -- The ranges of the timing and quorum fields, and the strict mode.
  pub check_ranges : String → ScenarioConfig F → Checked (ValidationError F)
  check_ranges prefix sc = do
    complain (prefix ++ ".ramp_up") "must be >= 0" (is_neg sc.ramp_up)
    complain (prefix ++ ".ramp_down") "must be >= 0" (is_neg sc.ramp_down)
    complain (prefix ++ ".drain") "must be >= 0" (is_neg sc.drain)
    complain (prefix ++ ".max_pretest_retries") "must be >= 0" (is_neg sc.max_pretest_retries)
    complain (prefix ++ ".min_ready_ratio") "must be between 0.0 and 1.0" (
        ops.lt sc.min_ready_ratio (ops.of_int (pos 0))
        || ops.lt (ops.of_int (pos 1)) sc.min_ready_ratio)
    complain (prefix ++ ".startup_grace_period") "must be >= 0" (is_neg sc.startup_grace_period)
    complain (prefix ++ ".watchdog_stall_threshold") "must be >= 0"
        (is_neg sc.watchdog_stall_threshold)
    complain (prefix ++ ".watchdog_interval") "must be >= 0" (is_neg sc.watchdog_interval)
    fail_if (not (valid_strict_modes sc.strict_mode)) (record {
      field = prefix ++ ".strict";
      message = sprintf "must be one of {off, warn, fatal}, got %q" (str sc.strict_mode ∷ []);
    })

  pub check_params : String → List (String × String) → Checked (ValidationError F)
  check_params prefix [] = ok tt
  check_params prefix ((k, v) ∷ params) = do
    complain (prefix ++ ".params") "param keys must be non-empty strings" (is_empty k)
    complain (prefix ++ (".params." ++ k)) "param values must be non-empty strings" (is_empty v)
    check_params prefix params

  pub validate_http_config : String → HttpConfig → Checked (ValidationError F)
  validate_http_config prefix cfg = do
    complain (prefix ++ ".timeout") "must be >= 0" (is_neg cfg.timeout)
    complain (prefix ++ ".pool.max_idle_conns") "must be >= 0" (is_neg cfg.pool.max_idle_conns)
    complain (prefix ++ ".pool.max_idle_conns_per_host") "must be >= 0"
        (is_neg cfg.pool.max_idle_conns_per_host)
    complain (prefix ++ ".pool.idle_conn_timeout") "must be >= 0"
        (is_neg cfg.pool.idle_conn_timeout)

  pub check_client : String → String → Option HttpConfig → Checked (ValidationError F)
  check_client prefix name none =
      complain (prefix ++ (".http_clients." ++ name)) "client configuration must not be null" true
  check_client prefix name (some cfg) =
      validate_http_config (prefix ++ (".http_clients." ++ name)) cfg

  pub check_clients : String → List (String × Option HttpConfig) → Checked (ValidationError F)
  check_clients prefix [] = ok tt
  check_clients prefix ((name, cfg) ∷ clients) = do
    complain (prefix ++ ".http_clients") "client names must be non-empty strings" (is_empty name)
    check_client prefix name cfg
    check_clients prefix clients

-- if p != nil { if err := check(p); err != nil { return err } }
abbrev pub if_present :
    {F A : Type 0} → Option A → (A → Checked (ValidationError F)) → Checked (ValidationError F)
if_present none check = ok tt
if_present (some a) check = check a

module _ {F : Type 0} (ops : FloatOps F) (parsers : Parsers F)
    (validators : List (String × DelayValidatorFunc F)) where
  pub validate_scenario : String → ScenarioConfig F → Result (ValidationError F) (ScenarioConfig F)
  validate_scenario name sc = do
    let prefix = "scenarios." ++ name
    check_type ops prefix sc
    complain (prefix ++ ".vu_timeout") "must be >= 0" (is_neg sc.vu_timeout)
    check_ranges ops prefix (default_timeout sc)
    check_params ops prefix sc.params
    if_present sc.interaction_delay (validate_interaction_delay validators prefix)
    if_present sc.think_time (validate_think_time validators prefix)
    if_present sc.http (validate_http_config ops (prefix ++ ".http"))
    check_clients ops prefix sc.http_clients
    thresholds ← validate_thresholds parsers prefix 0 [] sc.thresholds
    ok (record (default_timeout sc) { thresholds = thresholds })
