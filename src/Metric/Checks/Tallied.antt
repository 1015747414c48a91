-- ===== src/Metric/Checks/Tallied.antt =====
-- internal/metric/aggregator.go: each check's summary has the sums of its two counters.
use vuhive.Prelude.{
  ℕ, ◌+◌, ◌%◌, String, List, [], ◌∷◌, map, Bool, true, false, ◌||◌, str_eq, is_empty, is_some,
  lookup, insert, if◌then◌else◌, wrap64, FloatOps, sort_by, All, All-sort_by, has, has-sort_by, ◌≡◌,
  refl, ap, ◌∙◌, Bool-cases, inl, inr, arith,
}
use vuhive.Metric.Registry.{metric_checks_passed, metric_checks_failed}
use vuhive.Metric.Keys.{MetricKey}
use vuhive.Metric.Collector.{Storage}
use vuhive.Metric.Checks.{
  check_name, Tally, bump, tally_counter, tally_counters, CheckSummary, summary_of, check_summaries,
}
use vuhive.Metric.Checks.Sums.{
  is_of, sum_of, tally_in, counted_passed, counted_failed, ignored, tally_counter-Effect,
  passed_sum, failed_sum,
}

-- Whether an entry is a counter of the named check.
abbrev pub counts_for : String → MetricKey × ℕ → Bool
counts_for name e = is_of metric_checks_passed name e.0 || is_of metric_checks_failed name e.0

known_after :
    (name : String)
    → is_empty name ≡ false
    → (s : Storage ℕ) (m : List (String × Tally))
    → is_some (lookup name (tally_counters s m))
      ≡ (if is_some (lookup name m) then true else has (counts_for name) s)
unfolding tally_counters
known_after name full [] m = ground arith
known_after name full ((key, v) ∷ s) m =
    let rec = known_after name full s (tally_counter key v m) in
    elim (tally_counter-Effect key v name m full) [
      | counted_passed p f e ↦ let known = ap is_some e in ground (arith, rec, known, p)
      | counted_failed p f e ↦ let known = ap is_some e in ground (arith, rec, known, p, f)
      | ignored p f e ↦ let known = ap is_some e in ground (arith, rec, known, p, f)
    ]

abbrev names : List (String × Tally) → List String
names m = map (λ (e : String × Tally). e.0) m

names-has :
    (name : String) (m : List (String × Tally))
    → has (λ n. str_eq n name) (names m) ≡ is_some (lookup name m)
names-has name [] = refl
names-has name ((k, t) ∷ m) = let rec = names-has name m in ground (arith, rec)

insert-nonempty :
    (k : String) (t : Tally) (m : List (String × Tally))
    → is_empty k ≡ false
    → All (λ n. is_empty n ≡ false) (names m)
    → All (λ n. is_empty n ≡ false) (names (insert k t m))
insert-nonempty k t [] h hs = (h, tt)
insert-nonempty k t ((j, u) ∷ m) h hs = elim (Bool-cases (str_eq j k)) [
  | inl e ↦ rw e (h, hs.1)
  | inr e ↦ rw e (hs.0, insert-nonempty k t m h hs.1)
]

tally_counter-nonempty :
    (key : MetricKey) (v : ℕ) (m : List (String × Tally))
    → All (λ n. is_empty n ≡ false) (names m)
    → All (λ n. is_empty n ≡ false) (names (tally_counter key v m))
unfolding tally_counter
tally_counter-nonempty key v m hs =
    elim (Bool-cases
      (str_eq key.name metric_checks_passed || str_eq key.name metric_checks_failed)) [
        | inr unknown ↦ rw unknown hs
        | inl known ↦ elim (Bool-cases (is_empty (check_name key))) [
          | inl e ↦ rw (known, e) hs
          | inr e ↦
              rw (known, e)
                (insert-nonempty (check_name key)
                  (bump (str_eq key.name metric_checks_passed) v (tally_in (check_name key) m)) m e
                  hs)
        ]
      ]

tally_counters-nonempty :
    (s : Storage ℕ) (m : List (String × Tally))
    → All (λ n. is_empty n ≡ false) (names m)
    → All (λ n. is_empty n ≡ false) (names (tally_counters s m))
unfolding tally_counters
tally_counters-nonempty [] m hs = hs
tally_counters-nonempty ((key, v) ∷ s) m hs =
    tally_counters-nonempty s (tally_counter key v m) (tally_counter-nonempty key v m hs)

module _ {F : Type 0} (ops : FloatOps F) (counters : Storage ℕ) where
  abbrev pub Accurate : CheckSummary F → Type 0
  Accurate s =
      (is_empty s.name ≡ false)
      × (s.passed ≡ wrap64 (sum_of metric_checks_passed s.name counters % 18446744073709551616))
      × (s.failed ≡ wrap64 (sum_of metric_checks_failed s.name counters % 18446744073709551616))
      × (s.total
          ≡ wrap64 (
              (sum_of metric_checks_passed s.name counters
                + sum_of metric_checks_failed s.name counters)
              % 18446744073709551616))

  summary-Accurate :
      (name : String)
      → is_empty name ≡ false
      → Accurate (summary_of ops name (tally_in name (tally_counters counters [])))
  unfolding summary_of
  summary-Accurate name full =
      let p = passed_sum name full counters [] (omega arith) in
      let f = failed_sum name full counters [] (omega arith) in
      (
        full,
        ap wrap64 (omega (arith, p)),
        ap wrap64 (omega (arith, f)),
        ap wrap64 (omega (arith, p, f)),
      )

  summaries-Accurate :
      (ns : List String)
      → All (λ n. is_empty n ≡ false) ns
      → All Accurate
          (map (λ name. summary_of ops name (tally_in name (tally_counters counters []))) ns)
  summaries-Accurate [] hs = tt
  summaries-Accurate (n ∷ ns) hs = (summary-Accurate n hs.0, summaries-Accurate ns hs.1)

  summaries-has :
      (name : String) (ns : List String)
      → has
          (λ (s : CheckSummary F). str_eq s.name name)
          (map (λ n. summary_of ops n (tally_in n (tally_counters counters []))) ns)
        ≡ has (λ n. str_eq n name) ns
  unfolding summary_of
  summaries-has name [] = refl
  summaries-has name (n ∷ ns) =
      ap (λ (b : Bool). if str_eq n name then true else b) (summaries-has name ns)

-- For any counters, in any order: each summary of CheckSummaries has a name that
-- is not empty, the sum of the passed counters of that check, the sum of its failed counters and the
-- sum of both, all in 64 bits; and a check with a name has a summary exactly when one of the two
-- metrics has a counter for it.
pub check_summaries_exact :
    {F : Type 0} (ops : FloatOps F) (counters : Storage ℕ) (name : String)
    → is_empty name ≡ false
    → All (Accurate ops counters) (check_summaries ops counters)
      × (has (λ (s : CheckSummary F). str_eq s.name name) (check_summaries ops counters)
          ≡ has (counts_for name) counters)
unfolding check_summaries
check_summaries_exact ops counters name full =
    let m = tally_counters counters [] in
    let id : String → String = λ n. n in
    (
      summaries-Accurate ops counters (sort_by id (names m)) (
          All-sort_by id (λ n. is_empty n ≡ false) (names m)
            (tally_counters-nonempty counters [] tt)),
      summaries-has ops counters name (sort_by id (names m))
          ∙ has-sort_by id (λ n. str_eq n name) (names m)
          ∙ names-has name m
          ∙ known_after name full counters [],
    )
