-- ===== src/Config/Delays/Tests.antt =====
-- Delays that pass their validator and delays that do not.
use vuhive.Prelude.{ℤ, pos, ◌≡◌, refl, is_ok, false, true}
use vuhive.Config.Model.{ThinkTimeConfig}
use vuhive.Config.Delays.{
  validate_range_delay, delay_validators, get_delay_validator, validate_delay_config,
}

abbrev between : ThinkTimeConfig
between = record {
  kind = "range";
  duration = pos 0;
  min = pos 100;
  max = pos 500;
  mean = pos 0;
  std_dev = pos 0;
}

range_passes : is_ok (validate_delay_config {F = ℤ} delay_validators "think" between) ≡ true
unfolding validate_delay_config get_delay_validator delay_validators validate_range_delay
range_passes = refl

crossed_range_fails :
    is_ok
      (validate_delay_config {F = ℤ} delay_validators "think" (record between { min = pos 900 }))
    ≡ false
unfolding validate_delay_config get_delay_validator delay_validators validate_range_delay
crossed_range_fails = refl

unknown_type_fails :
    is_ok
      (validate_delay_config {F = ℤ} delay_validators "think" (record between { kind = "uniform" }))
    ≡ false
unfolding validate_delay_config get_delay_validator delay_validators
unknown_type_fails = refl
