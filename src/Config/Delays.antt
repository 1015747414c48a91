-- ===== src/Config/Delays.antt =====
-- internal/config/validate.go: the delay validators and their registry.
pub mod Bounds
mod Tests
use Prim.Native.String.{◌++◌}
use vuhive.Prelude.{
  String, List, [], ◌∷◌, Option, none, some, ℤ, Bool, ◌&&◌, is_neg, is_pos, not, ltb_ℤ, Checked, ok,
  err, fail_if, ◌>>=◌, ◌>>◌, lookup, insert,
}
use vuhive.Config.Model.{
  ThinkTimeConfig, InteractionDelayConfig, ValidationError, Message, text, sprintf, str,
}

module _ {F : Type 0} where
  abbrev pub invalid : String → String → ValidationError F
  invalid field message = record { field = field; message = text message }

  pub validate_fixed_delay : String → ThinkTimeConfig → Checked (ValidationError F)
  validate_fixed_delay prefix delay =
      fail_if (not (is_pos delay.duration))
        (invalid (prefix ++ ".duration") "must be > 0 for fixed delay")

  pub validate_range_delay : String → ThinkTimeConfig → Checked (ValidationError F)
  validate_range_delay prefix delay = do
    fail_if (is_neg delay.min) (invalid (prefix ++ ".min") "must be >= 0 for range delay")
    fail_if (not (is_pos delay.max)) (invalid (prefix ++ ".max") "must be > 0 for range delay")
    fail_if (ltb_ℤ delay.max delay.min)
        (invalid (prefix ++ ".max") "must be >= min for range delay")

  -- The two clamps of an expo or gaussian delay; a clamp that is 0 is off.
  abbrev clamps : String → String → ThinkTimeConfig → Checked (ValidationError F)
  clamps prefix ordered delay = do
    fail_if (is_neg delay.min) (invalid (prefix ++ ".min") "must be >= 0")
    fail_if (is_neg delay.max) (invalid (prefix ++ ".max") "must be >= 0")
    fail_if (is_pos delay.min && is_pos delay.max && ltb_ℤ delay.max delay.min)
        (invalid (prefix ++ ".max") ordered)

  pub validate_expo_delay : String → ThinkTimeConfig → Checked (ValidationError F)
  validate_expo_delay prefix delay = do
    fail_if (not (is_pos delay.mean)) (invalid (prefix ++ ".mean") "must be > 0 for expo delay")
    clamps prefix "must be >= min for expo delay" delay

  pub validate_gaussian_delay : String → ThinkTimeConfig → Checked (ValidationError F)
  validate_gaussian_delay prefix delay = do
    fail_if (not (is_pos delay.mean)) (invalid (prefix ++ ".mean") "must be > 0 for gaussian delay")
    fail_if (not (is_pos delay.std_dev))
        (invalid (prefix ++ ".std_dev") "must be > 0 for gaussian delay")
    clamps prefix "must be >= min for gaussian delay" delay

abbrev pub DelayValidatorFunc : Type 0 → Type 0
DelayValidatorFunc F = String → ThinkTimeConfig → Checked (ValidationError F)

module _ {F : Type 0} where
  pub delay_validators : List (String × DelayValidatorFunc F)
  delay_validators =
      ("fixed", validate_fixed_delay)
      ∷ ("range", validate_range_delay)
      ∷ ("expo", validate_expo_delay)
      ∷ ("gaussian", validate_gaussian_delay)
      ∷ []

  pub register_delay_validator :
      String
      → DelayValidatorFunc F
      → List (String × DelayValidatorFunc F)
      → List (String × DelayValidatorFunc F)
  register_delay_validator strategy fn validators = insert strategy fn validators

  pub get_delay_validator :
      List (String × DelayValidatorFunc F) → String → Option (DelayValidatorFunc F)
  get_delay_validator validators strategy = lookup strategy validators

  pub validate_delay_config :
      List (String × DelayValidatorFunc F) → String → ThinkTimeConfig → Checked (ValidationError F)
  unfolding get_delay_validator
  validate_delay_config validators prefix delay = elim (get_delay_validator validators delay.kind) [
    | none ↦ err (record {
      field = prefix ++ ".type";
      message =
          sprintf "must be one of {fixed, range, expo, gaussian}, got %q" (str delay.kind ∷ []);
    })
    | some validator ↦ validator prefix delay
  ]

  unfoldable pub validate_interaction_delay :
      List (String × DelayValidatorFunc F)
      → String
      → InteractionDelayConfig
      → Checked (ValidationError F)
  validate_interaction_delay validators prefix delay =
      validate_delay_config validators (prefix ++ ".interaction_delay") delay

  unfoldable pub validate_think_time :
      List (String × DelayValidatorFunc F) → String → ThinkTimeConfig → Checked (ValidationError F)
  validate_think_time validators prefix tt' =
      validate_delay_config validators (prefix ++ ".think_time") tt'
