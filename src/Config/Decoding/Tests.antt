-- ===== src/Config/Decoding/Tests.antt =====
-- internal/config/loader.go: a small configuration, decoded and loaded.
use vuhive.Prelude.{
  ℤ, pos, false, String, [], ◌∷◌, none, ◌≡◌, refl, Result, ok, milli, inl, ap, ◌∙◌,
}
use vuhive.Config.Delays.{delay_validators}
use vuhive.Config.Scenario.Tests.{no_parse}
use vuhive.Config.Validate.{validate}
use vuhive.Config.Validate.Tests.{whole, whole_passes}
use vuhive.Config.Decoding.{ScenarioConfigDto, ConfigDto, scenario_model, to_model, load}
use vuhive.Config.Decoding.Loaded.{IsLoaded, load-ok, load-IsLoaded}

abbrev steady_dto : ScenarioConfigDto ℤ
steady_dto = record {
  kind = "constant_vus";
  vus = pos 5;
  target_tps = pos 100;
  max_vus = pos 1;
  burst_buffer = pos 0;
  stages = [];
  ramp_up = pos 0;
  run_period = pos 60_000_000_000;
  ramp_down = pos 0;
  drain = pos 0;
  drain_period = pos 0;
  max_pretest_retries = none;
  min_ready_ratio = pos 0;
  startup_grace_period = pos 0;
  vu_timeout = pos 30_000_000_000;
  allow_unbounded_iterations = false;
  watchdog_stall_threshold = pos 0;
  watchdog_interval = pos 0;
  params = ("region", "eu") ∷ [];
  strict = "";
  interaction_delay = none;
  think_time = none;
  thresholds = [];
  http = none;
  http_clients = [];
}

abbrev whole_dto : ConfigDto ℤ
whole_dto = record {
  version = "1.0";
  default_scenario = "api";
  scenarios = ("api", steady_dto) ∷ [];
}

decoded_whole : to_model milli whole_dto ≡ whole
unfolding to_model scenario_model
decoded_whole = refl

-- A missing drain is taken from drain_period.
drained : (scenario_model milli (record steady_dto { drain_period = pos 7 })).drain ≡ pos 7
unfolding scenario_model
drained = refl

abbrev read : Result String (Unit {0})
read = ok tt

loaded : load milli no_parse delay_validators read (ok whole_dto) ≡ ok whole
loaded =
    load-ok milli no_parse whole_dto
      (ap (validate milli no_parse delay_validators) decoded_whole ∙ whole_passes)

load-IsLoaded_example : IsLoaded milli no_parse read (ok whole_dto) whole
load-IsLoaded_example = load-IsLoaded milli no_parse "vuhive.yaml" read (ok whole_dto) (inl loaded)
