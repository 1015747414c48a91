-- ===== src/Metric/Checks/Sums.antt =====
-- internal/metric/aggregator.go: what CheckSummaries adds to the entry of a check.
use vuhive.Prelude.{
  ℕ, ◌+◌, ◌%◌, ◌<◌, String, List, [], ◌∷◌, some, Bool, true, false, ◌||◌, ◌&&◌, str_eq, eq_iff,
  is_empty, lookup, lookup-insert, if◌then◌else◌, ◌≡◌, refl, ap, ◌∙◌, Bool-cases, inl, inr, arith,
  str_eq_of_eq,
}
use vuhive.Metric.Registry.{metric_checks_passed, metric_checks_failed}
use vuhive.Metric.Keys.{MetricKey}
use vuhive.Metric.Collector.{Storage}
use vuhive.Metric.Checks.{check_name, Tally, entry_or_new, bump, tally_counter, tally_counters}

-- A counter of a metric for the named check.
abbrev pub is_of : String → String → MetricKey → Bool
is_of metric name key = str_eq key.name metric && str_eq (check_name key) name

abbrev pub sum_of : String → String → Storage ℕ → ℕ
sum_of metric name [] = 0
sum_of metric name ((key, v) ∷ rest) =
    (if is_of metric name key then v else 0) + sum_of metric name rest

passed_not_failed :
    (k : String) → str_eq k metric_checks_passed ≡ true → str_eq k metric_checks_failed ≡ false
passed_not_failed k h =
    str_eq_of_eq metric_checks_failed false ((eq_iff k metric_checks_passed).0 h) refl

-- What the map has for a check.
abbrev pub tally_in : String → List (String × Tally) → Tally
tally_in name m = entry_or_new (lookup name m)

-- What a counter does to the entry of a check.
pub data Effect (key : MetricKey) (v : ℕ) (name : String) (m m' : List (String × Tally))
    : Type 0 where
  counted_passed :
      is_of metric_checks_passed name key ≡ true
      → is_of metric_checks_failed name key ≡ false
      → lookup name m' ≡ some (bump true v (tally_in name m))
      → Effect key v name m m'
  counted_failed :
      is_of metric_checks_passed name key ≡ false
      → is_of metric_checks_failed name key ≡ true
      → lookup name m' ≡ some (bump false v (tally_in name m))
      → Effect key v name m m'
  ignored :
      is_of metric_checks_passed name key ≡ false
      → is_of metric_checks_failed name key ≡ false
      → lookup name m' ≡ lookup name m
      → Effect key v name m m'

module _ (key : MetricKey) (v : ℕ) (name : String) (m : List (String × Tally)) where
  -- The counter of another check.
  tally_counter_other :
      str_eq (check_name key) name ≡ false → lookup name (tally_counter key v m) ≡ lookup name m
  unfolding tally_counter
  tally_counter_other h =
      let put =
        lookup-insert (check_name key) name
          (bump (str_eq key.name metric_checks_passed) v (entry_or_new (lookup (check_name key) m)))
          m in
      ground (arith, put, h)

  -- A counter of this check.
  tally_counter_own :
      is_empty name ≡ false
      → str_eq (check_name key) name ≡ true
      → str_eq key.name metric_checks_passed || str_eq key.name metric_checks_failed ≡ true
      → lookup name (tally_counter key v m)
        ≡ some (bump (str_eq key.name metric_checks_passed) v (tally_in name m))
  unfolding tally_counter
  tally_counter_own full same known =
      let put =
        lookup-insert (check_name key) name
          (bump (str_eq key.name metric_checks_passed) v (entry_or_new (lookup (check_name key) m)))
          m in
      let own : check_name key ≡ name = (eq_iff (check_name key) name).0 same in
      let kept : is_empty (check_name key) ≡ false = ap is_empty own ∙ full in
      rw (known, kept, put, same)
        (ap (λ (k : String). some (bump (str_eq key.name metric_checks_passed) v (tally_in k m)))
          own)

  tally_counter_skip :
      str_eq key.name metric_checks_passed || str_eq key.name metric_checks_failed ≡ false
      → lookup name (tally_counter key v m) ≡ lookup name m
  unfolding tally_counter
  tally_counter_skip h = rw h refl

  pub tally_counter-Effect : is_empty name ≡ false → Effect key v name m (tally_counter key v m)
  tally_counter-Effect full = elim (Bool-cases (str_eq (check_name key) name)) [
    | inr other ↦
        ignored (ground (arith, other)) (ground (arith, other)) (tally_counter_other other)
    | inl same ↦ elim (Bool-cases (str_eq key.name metric_checks_passed)) [
      | inl p ↦
          let not_failed = passed_not_failed key.name p in
          counted_passed (ground (arith, p, same)) (ground (arith, not_failed)) (
            tally_counter_own full same (ground (arith, p))
            ∙ ap (λ (b : Bool). some (bump b v (tally_in name m))) p)
      | inr np ↦ elim (Bool-cases (str_eq key.name metric_checks_failed)) [
        | inl f ↦ counted_failed (ground (arith, np)) (ground (arith, f, same)) (
            tally_counter_own full same (ground (arith, f))
            ∙ ap (λ (b : Bool). some (bump b v (tally_in name m))) np)
        | inr nf ↦
            ignored (ground (arith, np)) (ground (arith, nf))
              (tally_counter_skip (ground (arith, np, nf)))
      ]
    ]
  ]

abbrev limit : ℕ
limit = 18446744073709551616

module _ (key : MetricKey) (v : ℕ) (name : String) (m m' : List (String × Tally)) where
  passed_step :
      (n : ℕ)
      → Effect key v name m m'
      → (tally_in name m).passed < limit
      → ((tally_in name m').passed < limit)
        × (((tally_in name m').passed + n) % limit
            ≡ ((tally_in name m).passed
                + ((if is_of metric_checks_passed name key then v else 0) + n))
              % limit)
  passed_step n (counted_passed p f e) small = rw (e, p) (omega arith, omega arith)
  passed_step n (counted_failed p f e) small = rw (e, p) (small, omega arith)
  passed_step n (ignored p f e) small = rw (e, p) (small, omega arith)

  failed_step :
      (n : ℕ)
      → Effect key v name m m'
      → (tally_in name m).failed < limit
      → ((tally_in name m').failed < limit)
        × (((tally_in name m').failed + n) % limit
            ≡ ((tally_in name m).failed
                + ((if is_of metric_checks_failed name key then v else 0) + n))
              % limit)
  failed_step n (counted_passed p f e) small = rw (e, f) (small, omega arith)
  failed_step n (counted_failed p f e) small = rw (e, f) (omega arith, omega arith)
  failed_step n (ignored p f e) small = rw (e, f) (small, omega arith)

module _ (name : String) (full : is_empty name ≡ false) where
  pub passed_sum :
      (s : Storage ℕ) (m : List (String × Tally))
      → (tally_in name m).passed < limit
      → (tally_in name (tally_counters s m)).passed
        ≡ ((tally_in name m).passed + sum_of metric_checks_passed name s) % limit
  unfolding tally_counters
  passed_sum [] m small = omega arith
  passed_sum ((key, v) ∷ s) m small =
      let m' = tally_counter key v m in
      let (small', step) =
        passed_step key v name m m' (sum_of metric_checks_passed name s)
          (tally_counter-Effect key v name m full) small in
      passed_sum s m' small' ∙ step

  pub failed_sum :
      (s : Storage ℕ) (m : List (String × Tally))
      → (tally_in name m).failed < limit
      → (tally_in name (tally_counters s m)).failed
        ≡ ((tally_in name m).failed + sum_of metric_checks_failed name s) % limit
  unfolding tally_counters
  failed_sum [] m small = omega arith
  failed_sum ((key, v) ∷ s) m small =
      let m' = tally_counter key v m in
      let (small', step) =
        failed_step key v name m m' (sum_of metric_checks_failed name s)
          (tally_counter-Effect key v name m full) small in
      failed_sum s m' small' ∙ step
