-- ===== src/Config/Thresholds/Tests.antt =====
-- Thresholds through validation.
use vuhive.Prelude.{ℤ, pos, [], ◌∷◌, ◌≡◌, refl, ok, err, is_ok, false, if◌then◌else◌, str_eq}
use vuhive.Config.Model.{ThresholdConfig}
use vuhive.Config.Stats.{
  is_duration_stat, valid_stats, valid_operators, valid_on_no_data, inferred_metric_kind,
}
use vuhive.Config.Thresholds.{
  Parsers, threshold_prefix, default_on_no_data, parse_target, check_threshold, validate_threshold,
  check_kind, validate_thresholds,
}

-- Parsers that know two literals.
abbrev pub two_literals : Parsers ℤ
two_literals = record {
  parse_duration = λ s. if str_eq s "200ms" then ok (pos 200_000_000) else err "bad duration";
  parse_float = λ s. if str_eq s "0.01" then ok (pos 10) else err "bad float";
}

abbrev pub latency : ThresholdConfig ℤ
latency = record {
  metric = "login";
  stat = "p95";
  operator = "<";
  target = "200ms";
  on_no_data = "";
  abort_on_fail = false;
  delay_abort_eval = pos 0;
  target_duration = pos 0;
  target_float = pos 0;
}

abbrev pub latency_valid : ThresholdConfig ℤ
latency_valid = record latency { on_no_data = "fail"; target_duration = pos 200_000_000 }

abbrev errors : ThresholdConfig ℤ
errors = record latency { metric = "errors"; stat = "rate"; target = "0.01" }

latency_passes : validate_threshold two_literals "s" 0 latency ≡ ok latency_valid
unfolding validate_threshold threshold_prefix default_on_no_data parse_target check_threshold
    is_duration_stat valid_stats valid_operators valid_on_no_data
latency_passes = refl

both_pass :
    validate_thresholds two_literals "s" 0 [] (latency ∷ errors ∷ [])
    ≡ ok (latency_valid ∷ record errors { on_no_data = "fail"; target_float = pos 10 } ∷ [])
unfolding validate_thresholds validate_threshold threshold_prefix default_on_no_data parse_target
    check_threshold is_duration_stat valid_stats valid_operators valid_on_no_data check_kind
    inferred_metric_kind
both_pass = refl

conflicting_kinds_fail :
    is_ok (
      validate_thresholds two_literals "s" 0 [] (latency ∷ record errors { metric = "login" } ∷ []))
    ≡ false
unfolding validate_thresholds validate_threshold threshold_prefix default_on_no_data parse_target
    check_threshold is_duration_stat valid_stats valid_operators valid_on_no_data check_kind
    inferred_metric_kind
conflicting_kinds_fail = refl
