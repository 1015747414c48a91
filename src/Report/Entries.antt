-- ===== src/Report/Entries.antt =====
-- internal/report/summary.go and internal/runner/summary.go: the entries of the summary of a run.
use vuhive.Prelude.{
  String, List, [], ◌∷◌, ◌++◌, map, none, some, Bool, true, false, str_eq, eq_iff, if◌then◌else◌,
  FloatOps, ◌≡◌, refl, sym, ap, ◌∙◌, All, All-append, All-sort_by, has, has-append, has-sort_by,
  false≢true, lookup, Bool-cases, inl, inr, arith,
}
use vuhive.Metric.Types.{MetricType, counter_type, gauge_type, duration_type, rate_type}
use vuhive.Metric.Registry.{Registry, names_by_type}
use vuhive.Metric.Registry.Names.{IsMap, names_by_type-All, names_by_type-has}
use vuhive.Sla.{MetricReader}
use vuhive.Report.{MetricSummary, metric_entry, entries_of, metric_entries, metric_in}

module _ {F : Type 0} (P : MetricSummary F → Type 0) (name : String) where
  pub metric_in-found :
      (ms : List (MetricSummary F))
      → All P ms
      → has (λ (m : MetricSummary F). str_eq m.name name) ms ≡ true
      → (m : MetricSummary F) × (metric_in name ms ≡ some m) × (m.name ≡ name) × P m
  unfolding metric_in
  metric_in-found [] hs h = absurd (false≢true h)
  metric_in-found (m ∷ ms) hs h = elim (Bool-cases (str_eq m.name name)) [
    | inl e ↦ (m, rw e refl, (eq_iff m.name name).0 e, hs.0)
    | inr e ↦
        let (k, found, same, p) = metric_in-found ms hs.1 (sym (rw e refl) ∙ h) in
        (k, rw e found, same, p)
  ]

pub metric_in-missing :
    {F : Type 0} (name : String) (ms : List (MetricSummary F))
    → has (λ (m : MetricSummary F). str_eq m.name name) ms ≡ false
    → metric_in name ms ≡ none
unfolding metric_in
metric_in-missing name [] h = refl
metric_in-missing name (m ∷ ms) h = elim (Bool-cases (str_eq m.name name)) [
  | inl e ↦ absurd (false≢true (sym h ∙ rw e refl))
  | inr e ↦ rw e (metric_in-missing name ms (sym (rw e refl) ∙ h))
]

four_loops :
    (b : MetricType → Bool) (mt : MetricType)
    → b mt ≡ true
    → (if b duration_type
        then true
        else if b counter_type
        then true
        else if b gauge_type
        then true
        else b rate_type)
      ≡ true
four_loops b duration_type h = ground (arith, h)
four_loops b counter_type h = ground (arith, h)
four_loops b gauge_type h = ground (arith, h)
four_loops b rate_type h = ground (arith, h)

module _ {F : Type 0} (ops : FloatOps F) (reader : MetricReader F) where
  metric_entry-name :
      (mt : MetricType) (name : String) → (metric_entry ops reader mt name).name ≡ name
  unfolding metric_entry
  metric_entry-name counter_type name = refl
  metric_entry-name gauge_type name = refl
  metric_entry-name duration_type name = refl
  metric_entry-name rate_type name = refl

  -- The entry is that of its name, which is registered.
  abbrev pub IsEntry : Registry → MetricSummary F → Type 0
  IsEntry registry m =
      (t : MetricType) × (lookup m.name registry ≡ some t) × (m ≡ metric_entry ops reader t m.name)

  named-IsEntry :
      (registry : Registry) (mt : MetricType) (names : List String)
      → All (λ n. lookup n registry ≡ some mt) names
      → All (IsEntry registry) (map (metric_entry ops reader mt) names)
  named-IsEntry registry mt [] hs = tt
  named-IsEntry registry mt (n ∷ names) hs =
      let same = metric_entry-name mt n in
      (
        (
          mt,
          ap (λ (k : String). lookup k registry) same ∙ hs.0,
          ap (metric_entry ops reader mt) (sym same),
        ),
        named-IsEntry registry mt names hs.1,
      )

  named-has :
      (mt : MetricType) (name : String) (names : List String)
      → has (λ (m : MetricSummary F). str_eq m.name name) (map (metric_entry ops reader mt) names)
        ≡ has (λ n. str_eq n name) names
  named-has mt name [] = refl
  named-has mt name (n ∷ names) = rw (metric_entry-name mt n, named-has mt name names) refl

  entries_of-IsEntry :
      (registry : Registry)
      → IsMap registry
      → (mt : MetricType) → All (IsEntry registry) (entries_of ops reader registry mt)
  unfolding entries_of
  entries_of-IsEntry registry h mt =
      named-IsEntry registry mt (names_by_type mt registry) (names_by_type-All mt registry h)

  entries_of-has :
      (registry : Registry) (mt : MetricType) (name : String)
      → lookup name registry ≡ some mt
      → has (λ (m : MetricSummary F). str_eq m.name name) (entries_of ops reader registry mt) ≡ true
  unfolding entries_of
  entries_of-has registry mt name h =
      named-has mt name (names_by_type mt registry) ∙ names_by_type-has mt name registry h

  pub metric_entries-IsEntry :
      (registry : Registry)
      → IsMap registry
      → All (IsEntry registry) (metric_entries ops (some (reader, registry)))
  unfolding metric_entries
  metric_entries-IsEntry registry h =
      let P = IsEntry registry in
      let es = entries_of ops reader registry in
      let all_of = entries_of-IsEntry registry h in
      All-sort_by (λ (e : MetricSummary F). e.name) P
        (es duration_type ++ (es counter_type ++ (es gauge_type ++ es rate_type)))
        (All-append P (es duration_type) (es counter_type ++ (es gauge_type ++ es rate_type))
          (all_of duration_type)
          (All-append P (es counter_type) (es gauge_type ++ es rate_type) (all_of counter_type)
            (All-append P (es gauge_type) (es rate_type) (all_of gauge_type) (all_of rate_type))))

  any_of_four :
      (p : MetricSummary F → Bool) (ds cs gs rs : List (MetricSummary F))
      → has p (ds ++ (cs ++ (gs ++ rs))) ≡ (
          if has p ds then true else if has p cs then true else if has p gs then true else has p rs)
  any_of_four p ds cs gs rs =
      let a = has-append p ds (cs ++ (gs ++ rs)) in
      let b = has-append p cs (gs ++ rs) in let c = has-append p gs rs in ground (arith, a, b, c)

  pub metric_entries-has :
      (registry : Registry) (mt : MetricType) (name : String)
      → lookup name registry ≡ some mt
      → has
          (λ (m : MetricSummary F). str_eq m.name name)
          (metric_entries ops (some (reader, registry)))
        ≡ true
  unfolding metric_entries
  metric_entries-has registry mt name h =
      let p : MetricSummary F → Bool = λ m. str_eq m.name name in
      let es = entries_of ops reader registry in
      has-sort_by (λ (e : MetricSummary F). e.name) p
        (es duration_type ++ (es counter_type ++ (es gauge_type ++ es rate_type)))
      ∙ any_of_four p (es duration_type) (es counter_type) (es gauge_type) (es rate_type)
      ∙ four_loops (λ t. has p (es t)) mt (entries_of-has registry mt name h)
