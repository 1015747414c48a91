-- ===== src/Sla/Reasons.antt =====
-- internal/sla/evaluator.go: what a result carries besides its verdict.
use vuhive.Prelude.{
  List, [], ◌∷◌, none, some, pos, Bool, true, false, ◌≡◌, ◌≢◌, ◌↔◌, refl, sym, ap, ◌∙◌, subst,
  FloatOps, arith, if◌then◌else◌, str_eq, eq_iff, one_of, Bool-cases, inl, inr,
}
use vuhive.Config.Model.{ThresholdConfig}
use vuhive.Config.Stats.{is_duration_stat}
use vuhive.Sla.{
  MetricReader, Actual, shown_text, shown_duration, shown_int, shown_float, ThresholdResult,
  no_data_reason, not_satisfied, unsupported_stat, base_result, compared, compare_duration,
  compare_float, evaluate_no_data, evaluate_duration, evaluate_number, evaluate_threshold, evaluate,
  resolve_on_no_data,
}
use vuhive.Sla.Verdict.{
  Reading, silent, measured_duration, measured_number, unreadable, observe_number, observe, Meets,
  stat_of_snapshot_lem, evaluate_threshold-Meets,
}

module _ {F : Type 0} (ops : FloatOps F) where
  -- A comparison that shows a value.
  abbrev pub IsCompared : ThresholdConfig F → Actual F → ThresholdResult F → Type 0
  IsCompared th shown r =
      (r.actual ≡ shown)
      × (r.passed ≡ true → r.reason ≡ none)
      × (r.passed ≡ false → r.reason ≡ some (not_satisfied th.stat shown th.operator th.target))

  -- What a result tells, from what the metrics say.
  abbrev pub Tells : ThresholdConfig F → MetricReader F → ThresholdResult F → Reading F → Type 0
  Tells th reader r silent =
      (one_of ("pass" ∷ "ignore" ∷ "skip" ∷ []) (resolve_on_no_data th) ≡ true
        → (r.actual ≡ shown_text "no data") × (r.reason ≡ none))
      × (resolve_on_no_data th ≡ "zero"
          → IsCompared th (shown_text (if is_duration_stat th.stat then "0s" else "0")) r)
      × (one_of ("pass" ∷ "ignore" ∷ "skip" ∷ "zero" ∷ []) (resolve_on_no_data th) ≡ false
          → (r.actual ≡ shown_text "no data") × (r.reason ≡ some no_data_reason))
  Tells th reader r (measured_duration d) = IsCompared th (shown_duration d) r
  Tells th reader r (measured_number x) =
      (th.stat ≡ "count" → IsCompared th (shown_int (reader.aggregated_counter_value th.metric)) r)
      × (th.stat ≢ "count" → IsCompared th (shown_float x) r)
  Tells th reader r unreadable =
      (r.actual ≡ shown_text "unknown stat") × (r.reason ≡ some (unsupported_stat th.stat))

  pub record IsReasoned (th : ThresholdConfig F) (reader : MetricReader F) (r : ThresholdResult F)
      : Type 0 where
    pub threshold : r.threshold ≡ th
    pub metric : r.metric ≡ th.metric
    pub stat : r.stat ≡ th.stat
    pub operator : r.operator ≡ th.operator
    pub target : r.target ≡ th.target
    pub verdict : (r.passed ≡ true) ↔ Meets ops th (observe ops th reader)
    pub told : Tells th reader r (observe ops th reader)

  result_for : ThresholdConfig F → MetricReader F → Reading F → ThresholdResult F
  result_for th reader silent = evaluate_no_data ops th (resolve_on_no_data th)
  result_for th reader (measured_duration d) =
      compared th (shown_duration d) (compare_duration d th.target_duration th.operator)
  result_for th reader (measured_number x) =
      compared th
        (if str_eq th.stat "count"
          then shown_int (reader.aggregated_counter_value th.metric)
          else shown_float x)
        (compare_float ops x th.target_float th.operator)
  result_for th reader unreadable =
      base_result th (shown_text "unknown stat") false (some (unsupported_stat th.stat))

  evaluate_threshold-result_for :
      (th : ThresholdConfig F) (reader : MetricReader F)
      → evaluate_threshold ops th reader ≡ result_for th reader (observe ops th reader)
  unfolding evaluate_threshold evaluate_duration evaluate_number observe observe_number result_for
  evaluate_threshold-result_for th reader =
      let named = stat_of_snapshot_lem th.stat (reader.merged_histogram_snapshot th.metric) in
      ground arith

  compared-IsCompared :
      (th : ThresholdConfig F) (shown : Actual F) (b : Bool)
      → IsCompared th shown (compared th shown b)
  compared-IsCompared th shown true = (refl, λ h. refl, λ h. cc)
  compared-IsCompared th shown false = (refl, λ h. cc, λ h. refl)

  is_zero_met : ThresholdConfig F → Bool → Bool
  is_zero_met th b =
      if b
      then compare_duration (pos 0) th.target_duration th.operator
      else compare_float ops (ops.of_int (pos 0)) th.target_float th.operator

  evaluate_no_data-zero :
      (th : ThresholdConfig F)
      → evaluate_no_data ops th "zero"
        ≡ compared th
            (shown_text (if is_duration_stat th.stat then "0s" else "0"))
            (is_zero_met th (is_duration_stat th.stat))
  unfolding evaluate_no_data is_zero_met
  evaluate_no_data-zero th = elim (Bool-cases (is_duration_stat th.stat)) [
    | inl e ↦ rw e refl
    | inr e ↦ rw e refl
  ]

  evaluate_no_data-Tells :
      (th : ThresholdConfig F) (reader : MetricReader F)
      → Tells th reader (evaluate_no_data ops th (resolve_on_no_data th)) silent
  unfolding evaluate_no_data
  evaluate_no_data-Tells th reader = (
    λ h. (ground arith, ground arith),
    λ h.
        rw (h, evaluate_no_data-zero th)
          (compared-IsCompared th (shown_text (if is_duration_stat th.stat then "0s" else "0"))
            (is_zero_met th (is_duration_stat th.stat))),
    λ h. (ground arith, ground arith),
  )

  result_for-Tells :
      (th : ThresholdConfig F) (reader : MetricReader F) (o : Reading F)
      → Tells th reader (result_for th reader o) o
  unfolding result_for
  result_for-Tells th reader silent = evaluate_no_data-Tells th reader
  result_for-Tells th reader (measured_duration d) =
      compared-IsCompared th (shown_duration d) (compare_duration d th.target_duration th.operator)
  result_for-Tells th reader (measured_number x) = (
    λ h.
        let named : str_eq th.stat "count" ≡ true = (eq_iff th.stat "count").1 h in
        rw named (
          compared-IsCompared th (shown_int (reader.aggregated_counter_value th.metric))
            (compare_float ops x th.target_float th.operator)),
    λ h. elim (Bool-cases (str_eq th.stat "count")) [
      | inl e ↦ absurd (h ((eq_iff th.stat "count").0 e))
      | inr e ↦
          rw e (
            compared-IsCompared th (shown_float x)
              (compare_float ops x th.target_float th.operator))
    ],
  )
  result_for-Tells th reader unreadable = (refl, refl)

  result_for-threshold :
      (th : ThresholdConfig F) (reader : MetricReader F) (o : Reading F)
      → ((result_for th reader o).threshold ≡ th)
        × ((result_for th reader o).metric ≡ th.metric)
        × ((result_for th reader o).stat ≡ th.stat)
        × ((result_for th reader o).operator ≡ th.operator)
        × ((result_for th reader o).target ≡ th.target)
  unfolding result_for evaluate_no_data
  result_for-threshold th reader silent =
      (ground arith, ground arith, ground arith, ground arith, ground arith)
  result_for-threshold th reader (measured_duration d) = (refl, refl, refl, refl, refl)
  result_for-threshold th reader (measured_number x) = (refl, refl, refl, refl, refl)
  result_for-threshold th reader unreadable = (refl, refl, refl, refl, refl)

  evaluate_threshold-IsReasoned :
      (th : ThresholdConfig F) (reader : MetricReader F)
      → IsReasoned th reader (evaluate_threshold ops th reader)
  evaluate_threshold-IsReasoned th reader =
      let e = evaluate_threshold-result_for th reader in
      let same = result_for-threshold th reader (observe ops th reader) in
      record {
        threshold = ap (λ (r : ThresholdResult F). r.threshold) e ∙ same.0;
        metric = ap (λ (r : ThresholdResult F). r.metric) e ∙ same.1;
        stat = ap (λ (r : ThresholdResult F). r.stat) e ∙ same.2;
        operator = ap (λ (r : ThresholdResult F). r.operator) e ∙ same.3;
        target = ap (λ (r : ThresholdResult F). r.target) e ∙ same.4;
        verdict = evaluate_threshold-Meets ops th reader;
        told =
            subst (λ (r : ThresholdResult F). Tells th reader r (observe ops th reader)) (sym e)
              (result_for-Tells th reader (observe ops th reader));
      }

  abbrev pub AreReasoned :
      MetricReader F → List (ThresholdConfig F) → List (ThresholdResult F) → Type 0
  AreReasoned reader [] [] = Unit
  AreReasoned reader (th ∷ ths) (r ∷ rs) = IsReasoned th reader r × AreReasoned reader ths rs
  AreReasoned reader ths rs = ⊥

  -- For any float64 operations, thresholds and metrics: the evaluation gives one result for each
  -- threshold, in the same order, a failed one not ending it. Each result carries its threshold with its
  -- metric, stat, operator and target, has passed exactly when the metrics meet the threshold, and shows
  -- the measured value: the statistic of the histogram, the integer of the counter, or the float64 of the
  -- rate or gauge. A passed one has no reason, and a failed comparison the reason that quotes the value
  -- with the operator and the target. Without data the result shows "no data", with a reason only if its
  -- strategy is none of pass, ignore, skip and zero, and with zero it is the comparison of "0s" or "0". An
  -- unknown stat is shown as such and is the reason.
  pub evaluate-AreReasoned :
      (ths : List (ThresholdConfig F)) (reader : MetricReader F)
      → AreReasoned reader ths (evaluate ops ths reader)
  unfolding evaluate
  evaluate-AreReasoned [] reader = tt
  evaluate-AreReasoned (th ∷ ths) reader =
      (evaluate_threshold-IsReasoned th reader, evaluate-AreReasoned ths reader)
