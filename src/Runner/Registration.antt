-- ===== src/Runner/Registration.antt =====
-- internal/runner/runner.go: the types that the metrics of the thresholds get before the run.
use vuhive.Prelude.{
  String, List, [], ◌∷◌, Option, none, some, ◌≡◌, refl, Option-cases, inl, inr, lookup, ok, err,
  ◌∙◌, ap,
}
use vuhive.Config.Model.{ThresholdConfig}
use vuhive.Metric.Types.{MetricType}
use vuhive.Metric.Registry.{Registry, register, metric_type}
use vuhive.Metric.Registry.Order.{or_else, register_all, register_all-metric_type}
use vuhive.Runner.{required_type, pre_register_threshold_metrics}

-- The registrations that the thresholds ask for.
abbrev requested_one :
    {F : Type 0}
    → ThresholdConfig F
    → Option MetricType
    → List (String × MetricType)
    → List (String × MetricType)
requested_one th none rest = rest
requested_one th (some mt) rest = (th.metric, mt) ∷ rest

unfoldable pub requested : {F : Type 0} → List (ThresholdConfig F) → List (String × MetricType)
requested [] = []
requested (th ∷ ths) = requested_one th (required_type th) (requested ths)

registers :
    {F : Type 0} (ths : List (ThresholdConfig F)) (reg : Registry)
    → pre_register_threshold_metrics ths reg ≡ register_all (requested ths) reg
unfolding pre_register_threshold_metrics requested register_all
registers [] reg = refl
registers (th ∷ ths) reg = elim (Option-cases (required_type th)) [
  | inl nothing ↦ simp (pre_register_threshold_metrics, nothing) (registers ths reg)
  | inr (mt, asked) ↦
      simp (pre_register_threshold_metrics, asked)
        (registers ths (elim (register th.metric mt reg) [ ok r ↦ r | err e ↦ reg ]))
]

-- For any thresholds and registry: after the pre-registration a name has the type that it had, or else
-- the type that the first threshold with this metric and a known stat asks for (a duration for the
-- percentiles, the mean and the maximum, a counter for count, a rate for rate, a gauge for value).
pre_register-metric_type :
    {F : Type 0} (ths : List (ThresholdConfig F)) (reg : Registry) (name : String)
    → metric_type name (pre_register_threshold_metrics ths reg)
      ≡ or_else (metric_type name reg) (lookup name (requested ths))
pre_register-metric_type ths reg name =
    ap (metric_type name) (registers ths reg) ∙ register_all-metric_type (requested ths) reg name
