-- ===== src/Report/Lookups.antt =====
-- internal/report/summary.go and internal/runner/summary.go: what a lookup in the summary of a run
-- returns is what the metrics store holds.
use vuhive.Prelude.{
  String, List, [], ◌∷◌, Option, none, some, pos, false, str_eq, eq_iff, FloatOps, ◌≡◌, refl, sym,
  subst, ap, ◌∙◌, All, has, lookup, none≢some, some_inj, Bool-cases, Option-cases, inl, inr,
}
use vuhive.Metric.Types.{MetricType, counter_type, gauge_type, duration_type, rate_type}
use vuhive.Metric.Registry.{Registry, new_registry, metric_type}
use vuhive.Metric.Registry.Order.{register_all}
use vuhive.Metric.Registry.Names.{IsMap, register_all-IsMap, new_registry-IsMap}
use vuhive.Sla.{MetricReader}
use vuhive.Report.{
  MetricSummary, SummaryParams, metric_entry, metric_entries, build_summary_data, metric_in, metric,
  counter, rate, gauge,
}
use vuhive.Report.Entries.{
  metric_in-found, metric_in-missing, IsEntry, metric_entries-IsEntry, metric_entries-has,
}
use vuhive.Report.Found.{entry_for, count_for, rate_for, value_for, Found, entry_for-Found}

module _ {F : Type 0} (ops : FloatOps F) (reader : MetricReader F) where
  unregistered-has :
      (registry : Registry) (name : String) (ms : List (MetricSummary F))
      → lookup name registry ≡ none
      → All (IsEntry ops reader registry) ms
      → has (λ (m : MetricSummary F). str_eq m.name name) ms ≡ false
  unregistered-has registry name [] h hs = refl
  unregistered-has registry name (m ∷ ms) h hs = elim (Bool-cases (str_eq m.name name)) [
    | inl e ↦
        let (t, known, same) = hs.0 in
        let here = ap (λ (k : String). lookup k registry) ((eq_iff m.name name).0 e) in
        absurd (none≢some (sym h ∙ sym here ∙ known))
    | inr e ↦ rw e (unregistered-has registry name ms h hs.1)
  ]

  metric_in-entries :
      (registry : Registry)
      → IsMap registry
      → (name : String)
      → metric_in name (metric_entries ops (some (reader, registry)))
        ≡ entry_for ops reader name (lookup name registry)
  metric_in-entries registry h name =
      let ms = metric_entries ops (some (reader, registry)) in
      let entries = metric_entries-IsEntry ops reader registry h in
      elim (Option-cases (lookup name registry)) [
        | inl new ↦
            rw new (metric_in-missing name ms (unregistered-has registry name ms new entries))
        | inr (t, known) ↦
            let (m, found, same, (u, at, entry)) =
              metric_in-found (IsEntry ops reader registry) name ms entries
                (metric_entries-has ops reader registry t name known) in
            let type_of = ap (λ (k : String). lookup k registry) same in
            let typed : u ≡ t = some_inj (sym at ∙ type_of ∙ known) in
            rw (found, known)
              (ap some (
                entry
                ∙ ap (metric_entry ops reader u) same
                ∙ ap (λ (v : MetricType). metric_entry ops reader v name) typed))
      ]

  count_for_lem :
      (name : String) (o : Option MetricType)
      → (elim (entry_for ops reader name o) [ none ↦ pos 0 | some m ↦ m.count ])
        ≡ count_for ops reader name o
  unfolding metric_entry
  count_for_lem name none = refl
  count_for_lem name (some counter_type) = refl
  count_for_lem name (some gauge_type) = refl
  count_for_lem name (some duration_type) = refl
  count_for_lem name (some rate_type) = refl

  rate_for_lem :
      (name : String) (o : Option MetricType)
      → (elim (entry_for ops reader name o) [ none ↦ ops.of_int (pos 0) | some m ↦ m.rate ])
        ≡ rate_for ops reader name o
  unfolding metric_entry
  rate_for_lem name none = refl
  rate_for_lem name (some counter_type) = refl
  rate_for_lem name (some gauge_type) = refl
  rate_for_lem name (some duration_type) = refl
  rate_for_lem name (some rate_type) = refl

  value_for_lem :
      (name : String) (o : Option MetricType)
      → (elim (entry_for ops reader name o) [ none ↦ ops.of_int (pos 0) | some m ↦ m.value ])
        ≡ value_for ops reader name o
  unfolding metric_entry
  value_for_lem name none = refl
  value_for_lem name (some counter_type) = refl
  value_for_lem name (some gauge_type) = refl
  value_for_lem name (some duration_type) = refl
  value_for_lem name (some rate_type) = refl

  metric-build :
      (registry : Registry) (p : SummaryParams F)
      → IsMap registry
      → p.metrics_store ≡ some (reader, registry)
      → (name : String)
      → metric name (build_summary_data ops p) ≡ entry_for ops reader name (lookup name registry)
  unfolding metric build_summary_data
  metric-build registry p h store name =
      ap (λ (o : Option (MetricReader F × Registry)). metric_in name (metric_entries ops o)) store
      ∙ metric_in-entries registry h name

-- For any sequence of registrations of metrics, failing ones included, and any reader of the store: in
-- the summary that is built from them, a lookup by name finds an entry exactly when the name is
-- registered. That entry carries the name and the word for its type, and what the store holds: the value
-- of a counter as its count, of a gauge as its value, of a rate as its rate, and the count, min, mean,
-- p50, p90, p95, p99 and max of a duration's histogram, each under its own field, all the other numbers
-- being 0. Counter is the aggregated value of a counter, the number of samples of a duration, and 0 for
-- any other name; Rate and Gauge are the values of a rate and a gauge, and 0 for any other name.
pub metric-build_summary_data :
    {F : Type 0} (ops : FloatOps F) (reader : MetricReader F) (calls : List (String × MetricType))
    (p : SummaryParams F)
    → p.metrics_store ≡ some (reader, register_all calls new_registry)
    → (name : String)
    → Found ops reader name
        (metric_type name (register_all calls new_registry))
        (metric name (build_summary_data ops p))
      × (counter name (build_summary_data ops p)
          ≡ count_for ops reader name (metric_type name (register_all calls new_registry)))
      × (rate ops name (build_summary_data ops p)
          ≡ rate_for ops reader name (metric_type name (register_all calls new_registry)))
      × (gauge ops name (build_summary_data ops p)
          ≡ value_for ops reader name (metric_type name (register_all calls new_registry)))
unfolding metric_type counter rate gauge
metric-build_summary_data {F} ops reader calls p store name =
    let r = register_all calls new_registry in
    let found : metric name (build_summary_data ops p) ≡ entry_for ops reader name (lookup name r) =
      metric-build ops reader r p (register_all-IsMap calls new_registry new_registry-IsMap) store
        name in
    let zero : F = ops.of_int (pos 0) in
    (
      subst (Found ops reader name (lookup name r)) (sym found)
          (entry_for-Found ops reader name (lookup name r)),
      ap (λ (o : Option (MetricSummary F)). elim o [ none ↦ pos 0 | some m ↦ m.count ]) found
          ∙ count_for_lem ops reader name (lookup name r),
      ap (λ (o : Option (MetricSummary F)). elim o [ none ↦ zero | some m ↦ m.rate ]) found
          ∙ rate_for_lem ops reader name (lookup name r),
      ap (λ (o : Option (MetricSummary F)). elim o [ none ↦ zero | some m ↦ m.value ]) found
          ∙ value_for_lem ops reader name (lookup name r),
    )
