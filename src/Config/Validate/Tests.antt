-- ===== src/Config/Validate/Tests.antt =====
-- A whole configuration through validation.
use vuhive.Prelude.{ℤ, [], ◌∷◌, ◌≡◌, refl, ok, milli}
use vuhive.Config.Model.{Config}
use vuhive.Config.Delays.{delay_validators}
use vuhive.Config.Scenario.Sound.{validate_scenario-fixed}
use vuhive.Config.Scenario.Tests.{no_parse, steady, steady-IsScenarioValid, steady-HasCapacity}
use vuhive.Config.Validate.{is_nil, check_config, validate_each, validate}
use vuhive.Config.Validate.Whole.{names, IsConfigValid, validate-IsConfigValid}

abbrev pub whole : Config ℤ
whole = record { version = "1.0"; default_scenario = "api"; scenarios = ("api", steady) ∷ [] }

pub whole_passes : validate milli no_parse delay_validators whole ≡ ok whole
unfolding validate check_config validate_each is_nil
whole_passes =
    rw
      (validate_scenario-fixed milli no_parse "api" steady steady-IsScenarioValid
        steady-HasCapacity)
      refl

validate-IsConfigValid_example :
    IsConfigValid milli no_parse whole × (names whole.scenarios ≡ names whole.scenarios)
validate-IsConfigValid_example = validate-IsConfigValid milli no_parse whole whole_passes
