-- ===== src/Sla/Verdict.antt =====
-- internal/sla/evaluator.go: the verdict, against a description of when the metrics meet a threshold.
use vuhive.Prelude.{
  String, List, [], ◌∷◌, ℤ, pos, Bool, true, false, str_eq, ◌≡◌, refl, ◌⊎◌, ◌↔◌, inl, inr, is_zero,
  if◌then◌else◌, ltb_ℤ, leb_ℤ, FloatOps, is_some, All, none, some, lookup, arith, Bool-cases,
  one_of, eq_iff,
}
use vuhive.Config.Model.{ThresholdConfig}
use vuhive.Config.Stats.{is_duration_stat}
use vuhive.Metric.Types.{HistogramSnapshot}
use vuhive.Sla.{
  MetricReader, compare, compare_duration, compare_float, resolve_on_no_data, stat_of_snapshot,
  evaluate_no_data, evaluate_duration, evaluate_number, evaluate_threshold, evaluate, all_passed,
}

-- The relation that an operator names.
abbrev pub Related : {T : Type 0} → (T → T → Bool) → (T → T → Bool) → T → T → String → Type 0
Related lt le a b op =
    ((op ≡ "<") × (lt a b ≡ true))
    ⊎ ((op ≡ "<=") × (le a b ≡ true))
    ⊎ ((op ≡ ">") × (lt b a ≡ true))
    ⊎ ((op ≡ ">=") × (le b a ≡ true))

Tested : {T : Type 0} → (T → T → Bool) → (T → T → Bool) → T → T → String → Type 0
Tested lt le a b op =
    ((str_eq op "<" ≡ true) × (lt a b ≡ true))
    ⊎ ((str_eq op "<=" ≡ true) × (le a b ≡ true))
    ⊎ ((str_eq op ">" ≡ true) × (lt b a ≡ true))
    ⊎ ((str_eq op ">=" ≡ true) × (le b a ≡ true))

compare-Tested :
    {T : Type 0} (lt le : T → T → Bool) (a b : T) (op : String)
    → compare lt le a b op ≡ true
    → Tested lt le a b op
unfolding compare Tested
compare-Tested lt le a b op h = ground arith

compare_named :
    {T : Type 0} (lt le : T → T → Bool) (a b : T) (op : String)
    → Tested lt le a b op
    → Related lt le a b op
unfolding Tested
compare_named lt le a b op (inl (e, h)) = inl ((eq_iff op "<").0 e, h)
compare_named lt le a b op (inr (inl (e, h))) = inr (inl ((eq_iff op "<=").0 e, h))
compare_named lt le a b op (inr (inr (inl (e, h)))) = inr (inr (inl ((eq_iff op ">").0 e, h)))
compare_named lt le a b op (inr (inr (inr (e, h)))) = inr (inr (inr ((eq_iff op ">=").0 e, h)))

compare_holds :
    {T : Type 0} (lt le : T → T → Bool) (a b : T) (op : String)
    → Related lt le a b op
    → compare lt le a b op ≡ true
unfolding compare
compare_holds lt le a b op (inl (e, h)) = rw e h
compare_holds lt le a b op (inr (inl (e, h))) = rw e h
compare_holds lt le a b op (inr (inr (inl (e, h)))) = rw e h
compare_holds lt le a b op (inr (inr (inr (e, h)))) = rw e h

compare-Related :
    {T : Type 0} (lt le : T → T → Bool) (a b : T) (op : String)
    → (compare lt le a b op ≡ true) ↔ Related lt le a b op
compare-Related lt le a b op =
    (λ h. compare_named lt le a b op (compare-Tested lt le a b op h), compare_holds lt le a b op)

-- What the metrics say about one stat.
pub data Reading (F : Type 0) : Type 0 where
  silent : Reading F
  measured_duration : ℤ → Reading F
  measured_number : F → Reading F
  unreadable : Reading F

-- The statistic of a histogram that a stat names.
abbrev pub statistics : List (String × (HistogramSnapshot → ℤ))
statistics =
    ("p50", λ s. s.p50)
    ∷ ("p90", λ s. s.p90)
    ∷ ("p95", λ s. s.p95)
    ∷ ("p99", λ s. s.p99)
    ∷ ("mean", λ s. s.mean)
    ∷ ("max", λ s. s.max)
    ∷ []

unfoldable pub statistic_of : String → HistogramSnapshot → ℤ
statistic_of stat snap = elim (lookup stat statistics) [ none ↦ pos 0 | some number ↦ number snap ]

str_eq_comm : (a b : String) → str_eq a b ≡ str_eq b a
str_eq_comm a b = ground (arith, eq_iff a b, eq_iff b a)

pub stat_of_snapshot_lem :
    (stat : String) (snap : HistogramSnapshot) → stat_of_snapshot stat snap ≡ statistic_of stat snap
unfolding stat_of_snapshot statistic_of
stat_of_snapshot_lem stat snap =
    rw
      (
        str_eq_comm stat "p50",
        str_eq_comm stat "p90",
        str_eq_comm stat "p95",
        str_eq_comm stat "p99",
        str_eq_comm stat "mean",
        str_eq_comm stat "max",
      )
      (ground arith)

module _ {F : Type 0} (ops : FloatOps F) where
  unfoldable pub observe_number : ThresholdConfig F → MetricReader F → Reading F
  observe_number th reader =
      if str_eq th.stat "count"
      then measured_number (ops.of_int (reader.aggregated_counter_value th.metric))
      else if str_eq th.stat "rate"
      then (if (reader.rate_data th.metric).1
          then measured_number (reader.rate_data th.metric).0
          else silent)
      else if str_eq th.stat "value"
      then measured_number (reader.last_gauge_value th.metric)
      else unreadable

  unfoldable pub observe : ThresholdConfig F → MetricReader F → Reading F
  unfolding observe_number
  observe th reader =
      if is_some (reader.metric_type th.metric)
      then (if is_duration_stat th.stat
          then (if is_zero (reader.merged_histogram_snapshot th.metric).count
              then silent
              else measured_duration
                  (statistic_of th.stat (reader.merged_histogram_snapshot th.metric)))
          else observe_number th reader)
      else silent

  -- Zero is measured as a duration or as a number.
  abbrev pub ZeroMeets : ThresholdConfig F → Bool → Type 0
  ZeroMeets th true = Related ltb_ℤ leb_ℤ (pos 0) th.target_duration th.operator
  ZeroMeets th false = Related ops.lt ops.le (ops.of_int (pos 0)) th.target_float th.operator

  -- When a reading meets a threshold.
  abbrev pub Meets : ThresholdConfig F → Reading F → Type 0
  Meets th silent =
      (one_of ("pass" ∷ "ignore" ∷ "skip" ∷ []) (resolve_on_no_data th) ≡ true)
      ⊎ ((resolve_on_no_data th ≡ "zero") × ZeroMeets th (is_duration_stat th.stat))
  Meets th (measured_duration d) = Related ltb_ℤ leb_ℤ d th.target_duration th.operator
  Meets th (measured_number x) = Related ops.lt ops.le x th.target_float th.operator
  Meets th unreadable = ⊥

  passes : ThresholdConfig F → Reading F → Bool
  passes th silent = (evaluate_no_data ops th (resolve_on_no_data th)).passed
  passes th (measured_duration d) = compare_duration d th.target_duration th.operator
  passes th (measured_number x) = compare_float ops x th.target_float th.operator
  passes th unreadable = false

  evaluate_threshold-passes :
      (th : ThresholdConfig F) (reader : MetricReader F)
      → (evaluate_threshold ops th reader).passed ≡ passes th (observe th reader)
  unfolding evaluate_threshold evaluate_duration evaluate_number observe observe_number passes
  evaluate_threshold-passes th reader =
      let named = stat_of_snapshot_lem th.stat (reader.merged_histogram_snapshot th.metric) in
      ground arith

  zero_lem :
      (th : ThresholdConfig F) (b : Bool)
      → ((if b
            then compare_duration (pos 0) th.target_duration th.operator
            else compare_float ops (ops.of_int (pos 0)) th.target_float th.operator)
          ≡ true)
        ↔ ZeroMeets th b
  unfolding compare_duration compare_float
  zero_lem th true = compare-Related ltb_ℤ leb_ℤ (pos 0) th.target_duration th.operator
  zero_lem th false = compare-Related ops.lt ops.le (ops.of_int (pos 0)) th.target_float th.operator

  no_data_meets :
      (th : ThresholdConfig F) (s : String)
      → ((one_of ("pass" ∷ "ignore" ∷ "skip" ∷ []) s ≡ true)
          ⊎ ((s ≡ "zero") × ZeroMeets th (is_duration_stat th.stat)))
      → (evaluate_no_data ops th s).passed ≡ true
  unfolding evaluate_no_data
  no_data_meets th s (inl e) = ground arith
  no_data_meets th s (inr (z, m)) =
      let (there, back) = zero_lem th (is_duration_stat th.stat) in
      let b = back m in rw z (ground arith)

  evaluate_no_data_lem :
      (th : ThresholdConfig F) (s : String)
      → ((evaluate_no_data ops th s).passed ≡ true) ↔ (
          (one_of ("pass" ∷ "ignore" ∷ "skip" ∷ []) s ≡ true)
          ⊎ ((s ≡ "zero") × ZeroMeets th (is_duration_stat th.stat)))
  unfolding evaluate_no_data
  evaluate_no_data_lem th s =
      let (there, back) = zero_lem th (is_duration_stat th.stat) in
      let (named, spelt) = eq_iff s "zero" in
      (
        λ h. elim (Bool-cases (one_of ("pass" ∷ "ignore" ∷ "skip" ∷ []) s)) [
          | inl e ↦ inl e
          | inr e ↦ inr (named (ground arith), there (ground arith))
        ],
        no_data_meets th s,
      )

  passes_lem : (th : ThresholdConfig F) (r : Reading F) → (passes th r ≡ true) ↔ Meets th r
  unfolding passes compare_duration compare_float
  passes_lem th silent = evaluate_no_data_lem th (resolve_on_no_data th)
  passes_lem th (measured_duration d) = compare-Related ltb_ℤ leb_ℤ d th.target_duration th.operator
  passes_lem th (measured_number x) = compare-Related ops.lt ops.le x th.target_float th.operator
  passes_lem th unreadable = (λ h. cc, λ h. absurd h)

  pub evaluate_threshold-Meets :
      (th : ThresholdConfig F) (reader : MetricReader F)
      → ((evaluate_threshold ops th reader).passed ≡ true) ↔ Meets th (observe th reader)
  evaluate_threshold-Meets th reader =
      rw (evaluate_threshold-passes th reader) (passes_lem th (observe th reader))

  -- For any float64 operations, any list of thresholds and any metrics: `all_passed` of the evaluation
  -- holds exactly when every threshold is met by what the metrics say about it. A measured value meets
  -- a threshold when the relation that the operator names holds between it and the parsed target. With
  -- no data (no such metric, an empty histogram, or a rate with no observation) a threshold is met
  -- when its on_no_data strategy is pass, ignore or skip, or is zero and zero is in the relation to
  -- the target. A stat that is none of the known ones is never met.
  pub all_passed-evaluate :
      (ths : List (ThresholdConfig F)) (reader : MetricReader F)
      → (all_passed (evaluate ops ths reader) ≡ true) ↔ All (λ th. Meets th (observe th reader)) ths
  unfolding all_passed evaluate
  all_passed-evaluate [] reader = (λ h. tt, λ h. refl)
  all_passed-evaluate (th ∷ ths) reader =
      let (there, back) = evaluate_threshold-Meets th reader in
      let (all_there, all_back) = all_passed-evaluate ths reader in
      (
        λ h. elim (Bool-cases (evaluate_threshold ops th reader).passed) [
          | inl e ↦ (there e, all_there (ground arith))
          | inr e ↦ absurd (ground arith)
        ],
        λ h. rw (back h.0) (all_back h.1),
      )
