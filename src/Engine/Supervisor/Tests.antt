-- ===== src/Engine/Supervisor/Tests.antt =====
-- internal/engine/supervisor.go: a hook that fails twice.
use vuhive.Prelude.{
  ℕ, ◌*◌, ◌≡◌, ◌≤◌, refl, Option, none, some, pos, String, ltb, if◌then◌else◌, arith,
}
use vuhive.Engine.Supervisor.{passed, Supervision, one_shl, backoff, retry, run_supervised_pretest}
use vuhive.Engine.Supervisor.Backoff.{backoff_exact}
use vuhive.Engine.Supervisor.Retries.{IsSupervised, run_supervised_pretest-IsSupervised}

abbrev flaky : ℕ → Option String
flaky attempt = if ltb attempt 2 then some "connection refused" else none

abbrev undisturbed : ℕ → Option String
undisturbed attempt = none

third_attempt_passes :
    run_supervised_pretest flaky undisturbed 4 (pos 3)
    ≡ some (record { exit = passed; attempts = 3; pretest_errors = 2; restarts_total = 2 })
unfolding run_supervised_pretest retry
third_attempt_passes = refl

run_supervised_pretest-IsSupervised_example :
    (r : Supervision String String) × (run_supervised_pretest flaky undisturbed 4 (pos 3) ≡ some r)
    × IsSupervised flaky undisturbed 3 r
run_supervised_pretest-IsSupervised_example =
    run_supervised_pretest-IsSupervised flaky undisturbed 4 (pos 3) (omega arith)

backoff_exact_example :
    (40 ≤ 6 → backoff 40 ≡ pos (10_000_000 * one_shl 40))
    × (7 ≤ 40 → backoff 40 ≡ pos 1_000_000_000)
backoff_exact_example = backoff_exact 40
