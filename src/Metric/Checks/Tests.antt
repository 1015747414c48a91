-- ===== src/Metric/Checks/Tests.antt =====
-- The counters of two checks, and a counter that belongs to none.
use vuhive.Prelude.{ℕ, String, [], ◌∷◌, true, ℤ, ◌≡◌, refl, All, has, str_eq, milli}
use vuhive.Metric.Keys.{MetricKey}
use vuhive.Metric.Collector.{Storage}
use vuhive.Metric.Checks.{CheckSummary, check_name, check_summaries}
use vuhive.Metric.Checks.Tallied.{Accurate, check_summaries_exact}

abbrev key_of : String → String → MetricKey
key_of name tags = record { name = name; tags_key = tags }

abbrev counters : Storage ℕ
counters =
    (key_of "vuhive.checks.passed" "name=status", 3)
    ∷ (key_of "vuhive.checks.failed" "name=body", 1)
    ∷ (key_of "requests" "name=status", 9)
    ∷ (key_of "vuhive.checks.failed" "name=status", 2)
    ∷ []

trimmed : check_name (key_of "vuhive.checks.passed" "name=status") ≡ "status"
unfolding check_name
trimmed = refl

check_summaries_exact_example :
    All (Accurate milli counters) (check_summaries milli counters)
    × (has (λ (s : CheckSummary ℤ). str_eq s.name "status") (check_summaries milli counters) ≡ true)
unfolding check_name
check_summaries_exact_example = check_summaries_exact milli counters "status" refl
