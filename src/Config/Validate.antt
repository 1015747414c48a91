-- ===== src/Config/Validate.antt =====
-- internal/config/validate.go: Validate, which checks a parsed configuration and fills in what its
-- scenarios leave out.
pub mod Whole
pub mod Tests
use vuhive.Prelude.{
  String, List, [], ◌∷◌, Option, none, some, Bool, true, false, not, is_empty, is_some, str_eq,
  ◌&&◌, Result, ok, err, Checked, fail_if, ◌>>=◌, ◌>>◌, lookup, FloatOps,
}
use vuhive.Config.Model.{Config, ScenarioConfig, ValidationError, text, sprintf, str}
use vuhive.Config.Delays.{DelayValidatorFunc}
use vuhive.Config.Thresholds.{Parsers, complain}
use vuhive.Config.Scenario.{validate_scenario}

pub is_nil {ℓ} : {A : Type ℓ} → List A → Bool
is_nil [] = true
is_nil (_ ∷ _) = false

pub check_config : {F : Type 0} → Config F → Checked (ValidationError F)
check_config cfg = do
  fail_if (not (str_eq cfg.version "1.0")) (record {
    field = "version";
    message = sprintf "must be %q, got %q" (str "1.0" ∷ str cfg.version ∷ []);
  })
  complain "scenarios" "at least one scenario must be defined" (is_nil cfg.scenarios)
  fail_if
      (not (is_empty cfg.default_scenario)
        && not (is_some (lookup cfg.default_scenario cfg.scenarios)))
      (record {
        field = "default_scenario";
        message = sprintf "references unknown scenario %q" (str cfg.default_scenario ∷ []);
      })

module _ {F : Type 0} (ops : FloatOps F) (parsers : Parsers F)
    (validators : List (String × DelayValidatorFunc F)) where
  -- for name, sc := range cfg.Scenarios, in the order that the range takes.
  pub validate_each :
      List (String × ScenarioConfig F)
      → Result (ValidationError F) (List (String × ScenarioConfig F))
  validate_each [] = ok []
  validate_each ((name, sc) ∷ rest) = do
    sc' ← validate_scenario ops parsers validators name sc
    rest' ← validate_each rest
    ok ((name, sc') ∷ rest')

  pub validate : Config F → Result (ValidationError F) (Config F)
  validate cfg = do
    check_config cfg
    scenarios ← validate_each cfg.scenarios
    ok (record cfg { scenarios = scenarios })
