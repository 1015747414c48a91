-- ===== src/Engine/Context/Checks/Counted.antt =====
-- internal/engine/context.go: what the counters of the checks count.
use vuhive.Prelude.{
  ℕ, ◌+◌, ◌%◌, ◌≡◌, refl, sym, ◌∙◌, ap, subst, String, List, [], ◌∷◌, some, none, is_empty, Bool,
  true, false, pos, one_of, if◌then◌else◌, lookup, arith, Bool-cases, inl, inr, str_eq, eq_iff,
}
use vuhive.Metric.Registry.{metric_checks_passed, metric_checks_failed}
use vuhive.Metric.Keys.{MetricKey, make_key}
use vuhive.Metric.Collector.{add_through, add64, counter_total}
use vuhive.Metric.Collector.Sums.{total_lt}
use vuhive.Metric.Collector.Handles.{HasEntry, IsCounter, counter_lem, add_through_lem}
use vuhive.Engine.Context.Checks.{
  CheckCall, check, check_equal, check_true, check_no_error, judge, name_tags, CheckState, handles,
  record_check, run_check, run_checks,
}

-- Whether a check holds: Check of a function that gives no reason, or an empty one; CheckEqual of equal
-- values; CheckTrue of true; CheckNoError of no error.
abbrev pub has_passed : CheckCall → Bool
has_passed (check o) = elim o [ none ↦ true | some reason ↦ is_empty reason ]
has_passed (check_equal same actual expected) = same
has_passed (check_true condition reasons) = condition
has_passed (check_no_error o) = elim o [ none ↦ true | some e ↦ false ]

-- The results of the calls, and how many have a given one.
abbrev pub results : List (String × CheckCall) → List Bool
results [] = []
results ((name, call) ∷ calls) = has_passed call ∷ results calls

judge_lem : (call : CheckCall) → (judge call).0 ≡ has_passed call
unfolding judge
judge_lem (check none) = refl
judge_lem (check (some reason)) = refl
judge_lem (check_equal true actual expected) = refl
judge_lem (check_equal false actual expected) = refl
judge_lem (check_true true reasons) = refl
judge_lem (check_true false []) = refl
judge_lem (check_true false (reason ∷ more)) = refl
judge_lem (check_no_error none) = refl
judge_lem (check_no_error (some e)) = refl

abbrev pub count : Bool → List Bool → ℕ
count b [] = 0
count true (r ∷ rs) = (if r then 1 else 0) + count true rs
count false (r ∷ rs) = (if r then 0 else 1) + count false rs

abbrev passed_key : String → MetricKey
passed_key name = make_key metric_checks_passed (name_tags name)

abbrev failed_key : String → MetricKey
failed_key name = make_key metric_checks_failed (name_tags name)

sum_step :
    (t a n v : ℕ)
    → v ≡ (add64 t a + n) % 18446744073709551616
    → v ≡ (t + (a + n)) % 18446744073709551616
sum_step t a n v h = omega arith

module _ {F H : Type 0} where
  -- The two names are counters, and the cached handles are those of entries.
  pub record IsReady (c : CheckState F H) : Type 0 where
    pub passed : IsCounter metric_checks_passed c.metrics
    pub failed : IsCounter metric_checks_failed c.metrics
    pub cached :
        (name : String)
        → one_of c.check_cache name ≡ true
        → HasEntry (passed_key name) c.metrics.counters
          × HasEntry (failed_key name) c.metrics.counters

  abbrev total : String → CheckState F H → ℕ
  total n c = counter_total n c.metrics.counters

  handles_lem :
      (name : String) (c : CheckState F H)
      → IsReady c
      → (c' : CheckState F H) × (handles name c ≡ some c')
        × IsReady c'
        × HasEntry (passed_key name) c'.metrics.counters
        × HasEntry (failed_key name) c'.metrics.counters
        × ((n : String) → total n c' ≡ total n c)
  unfolding handles
  handles_lem name c ready = elim (Bool-cases (one_of c.check_cache name)) [
    | inl known ↦ (
      c,
      rw (handles, known) refl,
      ready,
      (ready.cached name known).0,
      (ready.cached name known).1,
      λ n. refl,
    )
    | inr new ↦
        let (m, made, keeps, entry) =
          counter_lem metric_checks_passed (name_tags name) c.metrics ready.passed in
        let (m', made', keeps', entry') =
          counter_lem metric_checks_failed (name_tags name) m
            (ap (lookup metric_checks_failed) keeps.registry ∙ ready.failed) in
        let mine : HasEntry (passed_key name) m'.counters =
          keeps'.entries (passed_key name) entry in
        (
          record { check_cache = name ∷ c.check_cache; metrics = m' },
          rw (handles, new, made, made') refl,
          record {
            passed =
                ap (lookup metric_checks_passed) (keeps'.registry ∙ keeps.registry) ∙ ready.passed;
            failed =
                ap (lookup metric_checks_failed) (keeps'.registry ∙ keeps.registry) ∙ ready.failed;
            cached = λ other h. elim (Bool-cases (str_eq other name)) [
              | inl same ↦
                  let e = (eq_iff other name).0 same in
                  subst
                    (λ k. HasEntry (passed_key k) m'.counters × HasEntry (failed_key k) m'.counters)
                    (sym e) (mine, entry')
              | inr apart ↦
                  let (p, f) = ready.cached other (
                    subst (λ b. (if b then true else one_of c.check_cache other) ≡ true) apart h) in
                  (
                    keeps'.entries (passed_key other) (keeps.entries (passed_key other) p),
                    keeps'.entries (failed_key other) (keeps.entries (failed_key other) f),
                  )
            ];
          },
          mine,
          entry',
          λ n. keeps'.totals n ∙ keeps.totals n,
        )
  ]

  -- A count through a handle keeps the context ready.
  add_through-IsReady :
      (c : CheckState F H) (metric_name name : String)
      → IsReady c
      → HasEntry (make_key metric_name (name_tags name)) c.metrics.counters
      → IsReady (record c {
        metrics = add_through (make_key metric_name (name_tags name)) (pos 1) c.metrics;
      })
  add_through-IsReady c metric_name name ready entry =
      let (counted, kept, same) =
        add_through_lem metric_name (name_tags name) (pos 1) c.metrics entry in
      record {
        passed = ap (lookup metric_checks_passed) same ∙ ready.passed;
        failed = ap (lookup metric_checks_failed) same ∙ ready.failed;
        cached = λ other h.
            let (p, f) = ready.cached other h in
            (kept (passed_key other) p, kept (failed_key other) f);
      }

  -- One result more.
  abbrev Recorded : Bool → CheckState F H → CheckState F H → Type 0
  Recorded passed c c' =
      IsReady c'
      × (total metric_checks_passed c'
          ≡ add64 (total metric_checks_passed c) (if passed then 1 else 0))
      × (total metric_checks_failed c'
          ≡ add64 (total metric_checks_failed c) (if passed then 0 else 1))

  record_check_lem :
      (name : String) (passed : Bool) (c : CheckState F H)
      → IsReady c
      → (c' : CheckState F H) × (record_check name passed c ≡ some (passed, c'))
        × Recorded passed c c'
  unfolding record_check
  record_check_lem name true c ready =
      let (h, made, still, entry, other, same) = handles_lem name c ready in
      let (counted, kept, reg) =
        add_through_lem metric_checks_passed (name_tags name) (pos 1) h.metrics entry in
      (
        record h { metrics = add_through (passed_key name) (pos 1) h.metrics },
        rw (record_check, made) refl,
        (
          add_through-IsReady h metric_checks_passed name still entry,
          counted metric_checks_passed ∙ ap (λ t. add64 t 1) (same metric_checks_passed),
          counted metric_checks_failed ∙ ap (λ t. add64 t 0) (same metric_checks_failed),
        ),
      )
  record_check_lem name false c ready =
      let (h, made, still, other, entry, same) = handles_lem name c ready in
      let (counted, kept, reg) =
        add_through_lem metric_checks_failed (name_tags name) (pos 1) h.metrics entry in
      (
        record h { metrics = add_through (failed_key name) (pos 1) h.metrics },
        rw (record_check, made) refl,
        (
          add_through-IsReady h metric_checks_failed name still entry,
          counted metric_checks_passed ∙ ap (λ t. add64 t 0) (same metric_checks_passed),
          counted metric_checks_failed ∙ ap (λ t. add64 t 1) (same metric_checks_failed),
        ),
      )

  -- For any sequence of checks of one context (Check, CheckEqual, CheckTrue and CheckNoError, under any
  -- names, repeated or not), from a collector in which the two built-in names are counters, and any
  -- cache of handles of that collector: no call panics, each returns whether its check holds (a nil
  -- function or no reason, equal values, a true condition, no error), and the sums over all tags of
  -- vuhive.checks.passed and vuhive.checks.failed grow, in 64 bits, by exactly the checks that hold and
  -- that do not.
  pub run_checks-Recorded :
      (calls : List (String × CheckCall)) (c : CheckState F H)
      → IsReady c
      → (c' : CheckState F H) × (run_checks calls c ≡ some (results calls, c'))
        × IsReady c'
        × (counter_total metric_checks_passed c'.metrics.counters
            ≡ (counter_total metric_checks_passed c.metrics.counters + count true (results calls))
              % 18446744073709551616)
        × (counter_total metric_checks_failed c'.metrics.counters
            ≡ (counter_total metric_checks_failed c.metrics.counters + count false (results calls))
              % 18446744073709551616)
  unfolding run_checks run_check
  run_checks-Recorded [] c ready = (
    c,
    refl,
    ready,
    ground (arith, total_lt metric_checks_passed c.metrics.counters),
    ground (arith, total_lt metric_checks_failed c.metrics.counters),
  )
  run_checks-Recorded ((name, call) ∷ calls) c ready =
      let (mid, one, (still, p, f)) = record_check_lem name (has_passed call) c ready in
      let judged : run_check name call c ≡ some (has_passed call, mid) =
        ap (λ (b : Bool). record_check name b c) (judge_lem call) ∙ one in
      let (last, rest, ready', ps, fs) = run_checks-Recorded calls mid still in
      (
        last,
        rw (run_checks, judged, rest) refl,
        ready',
        sum_step (total metric_checks_passed c) (if has_passed call then 1 else 0)
            (count true (results calls)) _
            (ps ∙ ap (λ t. (t + count true (results calls)) % 18446744073709551616) p),
        sum_step (total metric_checks_failed c) (if has_passed call then 0 else 1)
            (count false (results calls)) _
            (fs ∙ ap (λ t. (t + count false (results calls)) % 18446744073709551616) f),
      )
