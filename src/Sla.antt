-- ===== src/Sla.antt =====
-- internal/sla/evaluator.go and result.go: the evaluation of the thresholds against the metrics.
pub mod Verdict
pub mod Reasons
pub mod Tests
use vuhive.Prelude.{
  String, List, [], ◌∷◌, Option, none, some, ℤ, pos, Bool, true, false, not, str_eq, ◌||◌, is_empty,
  is_zero, if◌then◌else◌, ltb_ℤ, leb_ℤ, FloatOps, is_some,
}
use vuhive.Config.Model.{ThresholdConfig}
use vuhive.Config.Stats.{is_duration_stat}
use vuhive.Metric.Types.{MetricType, HistogramSnapshot}

-- What the evaluator needs of the metrics store.
pub record MetricReader (F : Type 0) : Type 0 where
  pub metric_type : String → Option MetricType
  pub merged_histogram_snapshot : String → HistogramSnapshot
  pub aggregated_counter_value : String → ℤ
  pub rate_data : String → F × Bool
  pub last_gauge_value : String → F

-- The text of what was measured, before it is printed.
pub data Actual (F : Type 0) : Type 0 where
  shown_text : String → Actual F
  shown_duration : ℤ → Actual F
  shown_int : ℤ → Actual F
  shown_float : F → Actual F

-- The reason of a failure, before it is printed.
pub data Reason (F : Type 0) : Type 0 where
  no_data_reason : Reason F
  not_satisfied : String → Actual F → String → String → Reason F
  unsupported_stat : String → Reason F

-- An empty reason is `none`.
pub record ThresholdResult (F : Type 0) : Type 0 where
  pub threshold : ThresholdConfig F
  pub metric : String
  pub stat : String
  pub operator : String
  pub target : String
  pub actual : Actual F
  pub passed : Bool
  pub reason : Option (Reason F)

-- The generic comparison, with the order of its type.
pub compare : {T : Type 0} → (T → T → Bool) → (T → T → Bool) → T → T → String → Bool
compare lt le actual target op =
    if str_eq op "<"
    then lt actual target
    else if str_eq op "<="
    then le actual target
    else if str_eq op ">"
    then lt target actual
    else if str_eq op ">="
    then le target actual
    else false

pub compare_duration : ℤ → ℤ → String → Bool
compare_duration = compare ltb_ℤ leb_ℤ

unfoldable pub resolve_on_no_data : {F : Type 0} → ThresholdConfig F → String
resolve_on_no_data th =
    if not (is_empty th.on_no_data)
    then th.on_no_data
    else if str_eq th.stat "count" || str_eq th.stat "value"
    then "zero"
    else "fail"

-- The percentile that a stat names.
pub stat_of_snapshot : String → HistogramSnapshot → ℤ
stat_of_snapshot stat snap =
    if str_eq stat "p50"
    then snap.p50
    else if str_eq stat "p90"
    then snap.p90
    else if str_eq stat "p95"
    then snap.p95
    else if str_eq stat "p99"
    then snap.p99
    else if str_eq stat "mean"
    then snap.mean
    else if str_eq stat "max"
    then snap.max
    else pos 0

module _ {F : Type 0} where
  -- The result with the threshold's own fields.
  abbrev pub base_result :
      ThresholdConfig F → Actual F → Bool → Option (Reason F) → ThresholdResult F
  base_result th actual passed reason = record {
    threshold = th;
    metric = th.metric;
    stat = th.stat;
    operator = th.operator;
    target = th.target;
    actual = actual;
    passed = passed;
    reason = reason;
  }

  -- A comparison, with its reason if it fails.
  abbrev pub compared : ThresholdConfig F → Actual F → Bool → ThresholdResult F
  compared th actual passed =
      base_result th actual passed
        (if passed then none else some (not_satisfied th.stat actual th.operator th.target))

  -- res.Passed, over the slice.
  pub all_passed : List (ThresholdResult F) → Bool
  all_passed [] = true
  all_passed (r ∷ rs) = if r.passed then all_passed rs else false

module _ {F : Type 0} (ops : FloatOps F) where
  pub compare_float : F → F → String → Bool
  compare_float = compare ops.lt ops.le

  pub evaluate_no_data : ThresholdConfig F → String → ThresholdResult F
  evaluate_no_data th strategy =
      if str_eq strategy "pass" || str_eq strategy "ignore" || str_eq strategy "skip"
      then base_result th (shown_text "no data") true none
      else if str_eq strategy "zero"
      then (if is_duration_stat th.stat
          then compared th (shown_text "0s")
              (compare_duration (pos 0) th.target_duration th.operator)
          else compared th (shown_text "0")
              (compare_float (ops.of_int (pos 0)) th.target_float th.operator))
      else base_result th (shown_text "no data") false (some no_data_reason)

  evaluate_duration : ThresholdConfig F → HistogramSnapshot → ThresholdResult F
  evaluate_duration th snap =
      if is_zero snap.count
      then evaluate_no_data th (resolve_on_no_data th)
      else compared th (shown_duration (stat_of_snapshot th.stat snap))
          (compare_duration (stat_of_snapshot th.stat snap) th.target_duration th.operator)

  evaluate_number : ThresholdConfig F → MetricReader F → ThresholdResult F
  evaluate_number th reader =
      if str_eq th.stat "count"
      then compared th (shown_int (reader.aggregated_counter_value th.metric)) (
          compare_float (ops.of_int (reader.aggregated_counter_value th.metric)) th.target_float
            th.operator)
      else if str_eq th.stat "rate"
      then (if (reader.rate_data th.metric).1
          then compared th (shown_float (reader.rate_data th.metric).0)
              (compare_float (reader.rate_data th.metric).0 th.target_float th.operator)
          else evaluate_no_data th (resolve_on_no_data th))
      else if str_eq th.stat "value"
      then compared th (shown_float (reader.last_gauge_value th.metric))
          (compare_float (reader.last_gauge_value th.metric) th.target_float th.operator)
      else base_result th (shown_text "unknown stat") false (some (unsupported_stat th.stat))

  pub evaluate_threshold : ThresholdConfig F → MetricReader F → ThresholdResult F
  evaluate_threshold th reader =
      if is_some (reader.metric_type th.metric)
      then (if is_duration_stat th.stat
          then evaluate_duration th (reader.merged_histogram_snapshot th.metric)
          else evaluate_number th reader)
      else evaluate_no_data th (resolve_on_no_data th)

  -- Every threshold, in order.
  pub evaluate : List (ThresholdConfig F) → MetricReader F → List (ThresholdResult F)
  evaluate [] reader = []
  evaluate (th ∷ ths) reader = evaluate_threshold th reader ∷ evaluate ths reader
