-- ===== src/Sla/Tests.antt =====
-- internal/sla: thresholds against a concrete store.
use vuhive.Prelude.{
  ℤ, pos, [], ◌∷◌, ◌≡◌, ◌↔◌, refl, ok, err, true, false, none, some, str_eq, if◌then◌else◌, milli,
  All,
}
use vuhive.Config.Model.{ThresholdConfig}
use vuhive.Config.Stats.{is_duration_stat, valid_stats, valid_operators, valid_on_no_data}
use vuhive.Config.Thresholds.{Parsers}
use vuhive.Config.Thresholds.Sound.{IsThresholdValid}
use vuhive.Metric.Types.{duration_type, counter_type, zero_snapshot}
use vuhive.Sla.{
  MetricReader, compare, compare_duration, compare_float, resolve_on_no_data, stat_of_snapshot,
  evaluate_no_data, evaluate_duration, evaluate_number, evaluate_threshold, evaluate, all_passed,
}
use vuhive.Sla.Verdict.{Meets, observe, all_passed-evaluate}
use vuhive.Sla.Reasons.{AreReasoned, evaluate-AreReasoned}

-- A store with one histogram: p95 of 150 ms.
abbrev store : MetricReader ℤ
store = record {
  metric_type = λ name. if str_eq name "login" then some duration_type else none;
  merged_histogram_snapshot = λ name.
      if str_eq name "login"
      then record zero_snapshot { count = pos 10; p95 = pos 150_000_000 }
      else zero_snapshot;
  aggregated_counter_value = λ name. pos 0;
  rate_data = λ name. (pos 0, false);
  last_gauge_value = λ name. pos 0;
}

abbrev latency : ThresholdConfig ℤ
latency = record {
  metric = "login";
  stat = "p95";
  operator = "<";
  target = "200ms";
  on_no_data = "fail";
  abort_on_fail = false;
  delay_abort_eval = pos 0;
  target_duration = pos 200_000_000;
  target_float = pos 0;
}

abbrev errors : ThresholdConfig ℤ
errors = record latency {
  metric = "errors";
  stat = "count";
  operator = "<=";
  target = "0";
  on_no_data = "";
}

both_pass : all_passed (evaluate milli (latency ∷ errors ∷ []) store) ≡ true
unfolding all_passed evaluate evaluate_threshold evaluate_duration evaluate_number evaluate_no_data
    resolve_on_no_data compare_duration compare_float compare stat_of_snapshot is_duration_stat
both_pass = refl

missing_fails :
    all_passed (evaluate milli (record latency { metric = "logout" } ∷ []) store) ≡ false
unfolding all_passed evaluate evaluate_threshold evaluate_duration evaluate_number evaluate_no_data
    resolve_on_no_data compare_duration compare_float compare stat_of_snapshot is_duration_stat
missing_fails = refl

one_literal : Parsers ℤ
one_literal = record {
  parse_duration = λ s. if str_eq s "200ms" then ok (pos 200_000_000) else err "bad duration";
  parse_float = λ s. err "bad float";
}

latency-IsThresholdValid : IsThresholdValid one_literal latency
unfolding one_literal is_duration_stat valid_stats valid_operators valid_on_no_data
latency-IsThresholdValid = record {
  metric = refl;
  stat = refl;
  operator = refl;
  on_no_data = refl;
  resolved = refl;
  warm_up = refl;
  target = refl;
  parsed = (λ h. refl, λ h. cc);
}

all_passed-evaluate_example :
    (all_passed (evaluate milli (latency ∷ errors ∷ []) store) ≡ true)
    ↔ All (λ th. Meets milli th (observe milli th store)) (latency ∷ errors ∷ [])
all_passed-evaluate_example = all_passed-evaluate milli (latency ∷ errors ∷ []) store

evaluate-AreReasoned_example :
    AreReasoned milli store (latency ∷ errors ∷ []) (evaluate milli (latency ∷ errors ∷ []) store)
evaluate-AreReasoned_example = evaluate-AreReasoned milli (latency ∷ errors ∷ []) store

-- A counter of errors that must stay at 0.
abbrev pub error_limit : ThresholdConfig ℤ
error_limit = record {
  metric = "errors";
  stat = "count";
  operator = "<=";
  target = "0";
  on_no_data = "zero";
  abort_on_fail = true;
  delay_abort_eval = pos 1_000_000_000;
  target_duration = pos 0;
  target_float = pos 0;
}

abbrev pub counting : ℤ → MetricReader ℤ
counting n = record {
  metric_type = λ name. some counter_type;
  merged_histogram_snapshot = λ name. zero_snapshot;
  aggregated_counter_value = λ name. n;
  rate_data = λ name. (pos 0, false);
  last_gauge_value = λ name. pos 0;
}

pub errors_breach : (evaluate_threshold milli error_limit (counting (pos 3))).passed ≡ false
unfolding evaluate_threshold evaluate_number compare_float compare is_duration_stat
errors_breach = refl
