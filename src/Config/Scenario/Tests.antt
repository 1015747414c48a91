-- ===== src/Config/Scenario/Tests.antt =====
-- Scenarios through validation.
use vuhive.Prelude.{differ, ℤ, pos, [], ◌∷◌, ◌≡◌, refl, ok, err, is_ok, false, none, milli, arith}
use vuhive.Config.Model.{ScenarioConfig, default_guard_deadline}
use vuhive.Config.Stats.{valid_strict_modes}
use vuhive.Config.Delays.{delay_validators}
use vuhive.Config.Thresholds.{Parsers, validate_thresholds}
use vuhive.Config.Scenario.{
  seconds, required_vus, check_arrival_rate, check_type, default_timeout, check_ranges,
  check_params, check_clients, validate_scenario,
}
use vuhive.Config.Scenario.Valid.{constant, HasCapacity}
use vuhive.Config.Scenario.Sound.{
  IsScenarioValid, guarded_timeout, validate_scenario-IsScenarioValid, validate_scenario-fixed,
}
use vuhive.Config.Scenario.Capacity.{capacity_unchecked}

abbrev pub no_parse : Parsers ℤ
no_parse = record { parse_duration = λ _. err "unused"; parse_float = λ _. err "unused" }

-- 100 iterations a second from one worker, with the timeout left out.
abbrev starved : ScenarioConfig ℤ
starved = record {
  kind = "arrival_rate";
  vus = pos 0;
  target_tps = pos 100;
  max_vus = pos 1;
  burst_buffer = pos 0;
  stages = [];
  ramp_up = pos 0;
  run_period = pos 60_000_000_000;
  ramp_down = pos 0;
  drain = pos 0;
  max_pretest_retries = pos 3;
  min_ready_ratio = pos 0;
  startup_grace_period = pos 0;
  vu_timeout = pos 0;
  allow_unbounded_iterations = false;
  watchdog_stall_threshold = pos 0;
  watchdog_interval = pos 0;
  params = ("region", "eu") ∷ [];
  strict_mode = "";
  interaction_delay = none;
  think_time = none;
  thresholds = [];
  http = none;
  http_clients = [];
}

abbrev starved_out : ScenarioConfig ℤ
starved_out = record starved { vu_timeout = default_guard_deadline }

starved_passes : validate_scenario milli no_parse delay_validators "api" starved ≡ ok starved_out
unfolding validate_scenario check_type check_arrival_rate default_timeout check_ranges check_params
    check_clients validate_thresholds valid_strict_modes
starved_passes = refl

abbrev pub steady : ScenarioConfig ℤ
steady = record starved_out { kind = "constant_vus"; vus = pos 5 }

pub steady-IsScenarioValid : IsScenarioValid milli no_parse steady
unfolding valid_strict_modes
steady-IsScenarioValid = record {
  pacing = constant refl (omega arith) (omega arith);
  timeout_range = omega arith;
  guarded = λ _. omega arith;
  ranges = record {
    ramp_up = omega arith;
    ramp_down = omega arith;
    drain = omega arith;
    max_pretest_retries = omega arith;
    ratio_low = refl;
    ratio_high = refl;
    startup_grace_period = omega arith;
    watchdog_stall_threshold = omega arith;
    watchdog_interval = omega arith;
    strict_mode = refl;
  };
  params = ((refl, refl), tt);
  interaction = tt;
  thinking = tt;
  http = tt;
  clients = tt;
  thresholds = record { each = tt; agree = tt; same = tt };
}

pub steady-HasCapacity : HasCapacity milli steady
steady-HasCapacity kind = absurd (differ {s = steady.kind} refl refl kind)

validate_scenario-fixed_example :
    validate_scenario milli no_parse delay_validators "api" steady ≡ ok steady
validate_scenario-fixed_example =
    validate_scenario-fixed milli no_parse "api" steady steady-IsScenarioValid steady-HasCapacity

validate_scenario-IsScenarioValid_example :
    IsScenarioValid milli no_parse starved_out
    × HasCapacity milli starved
    × (starved_out ≡ record starved {
      vu_timeout = guarded_timeout milli no_parse starved;
      thresholds = starved_out.thresholds;
    })
validate_scenario-IsScenarioValid_example =
    validate_scenario-IsScenarioValid milli no_parse "api" starved starved_passes

capacity_unchecked_example :
    (starved_out.vu_timeout ≡ default_guard_deadline)
    × (is_ok (validate_scenario milli no_parse delay_validators "api" starved_out) ≡ false)
unfolding required_vus seconds
capacity_unchecked_example =
    capacity_unchecked milli no_parse "api" starved refl refl refl starved_passes (omega arith)
