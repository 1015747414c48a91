-- ===== src/Engine/Worker/Tests.antt =====
-- internal/engine: a virtual user that passes its PreTest at the second attempt and runs twice.
use vuhive.Prelude.{
  ℕ, ◌≡◌, refl, none, some, pos, negsuc, true, false, List, [], ◌∷◌, String, ltb, if◌then◌else◌,
  arith,
}
use vuhive.Engine.Quorum.{released}
use vuhive.Engine.Supervisor.{passed, retry, run_supervised_pretest}
use vuhive.Engine.Iterations.{Iteration, returned}
use vuhive.Engine.Watchdog.{ExecutionWatchdog}
use vuhive.Engine.Worker.{
  gauge_add, registered, recorded_ready, begun, ran, ended, after_test, unregistered, VuSetting,
  supervised_pretest, round, iterate, synchronize, deferred, after_hook, run_goroutine,
  run_vu_goroutine, run_ramping_vu_goroutine, run_arrival_rate_worker_pool,
}
use vuhive.Engine.Worker.Lifecycle.{Lives, run_vu_goroutine-Lives}
use vuhive.Engine.Worker.Rounds.{Runs, number, run_vu_goroutine-Runs}
use vuhive.Engine.Worker.Watched.{LeavesNoTrace, run_vu_goroutine-LeavesNoTrace}

abbrev setting : VuSetting ℕ String String
setting = record {
  pre_test = some (λ attempt. if ltb attempt 1 then some "connection refused" else none);
  wait = λ attempt. none;
  max_pretest_retries = pos 3;
  has_after_test = true;
  gate = some released;
}

abbrev fine : Iteration
fine = record { run = returned false; scenario_done = false; deadline_exceeded = false }

abbrev failing : Iteration
failing = record { run = returned true; scenario_done = false; deadline_exceeded = false }

abbrev twice : List Iteration
twice = fine ∷ failing ∷ []

-- Of four tokens this worker gets two.
abbrev tokens : List (ℕ × Iteration)
tokens = (0, fine) ∷ (3, failing) ∷ []

whole_life :
    run_vu_goroutine 4 setting twice
    ≡ some (
        gauge_add (pos 1)
        ∷ registered
        ∷ recorded_ready
        ∷ begun 0
        ∷ ran 0 fine
        ∷ ended
        ∷ begun 1
        ∷ ran 1 failing
        ∷ ended
        ∷ after_test 0
        ∷ unregistered
        ∷ gauge_add (negsuc 0)
        ∷ [])
unfolding run_vu_goroutine run_goroutine supervised_pretest iterate round synchronize deferred
    after_hook run_supervised_pretest retry
whole_life = refl

passes : supervised_pretest 4 setting ≡ some passed
unfolding supervised_pretest run_supervised_pretest retry
passes = refl

run_vu_goroutine-Lives_example :
    Lives (run_vu_goroutine 4 setting twice) setting
    × Lives (run_ramping_vu_goroutine 4 setting twice) setting
    × Lives (run_arrival_rate_worker_pool 4 setting tokens) setting
run_vu_goroutine-Lives_example = run_vu_goroutine-Lives 4 setting twice tokens (omega arith)

run_vu_goroutine-Runs_example :
    Runs setting passed (run_vu_goroutine 4 setting twice) (number 0 twice)
    × Runs setting passed (run_ramping_vu_goroutine 4 setting twice) (number 0 twice)
    × Runs setting passed (run_arrival_rate_worker_pool 4 setting tokens) tokens
run_vu_goroutine-Runs_example = run_vu_goroutine-Runs 4 setting twice tokens passed passes

abbrev idle_watchdog : ExecutionWatchdog
idle_watchdog = record {
  trackers =
      record { vuid = 1; iteration = 7; start_nano = pos 5; active = true; stalled = false } ∷ [];
  stalled_iterations = 0;
}

run_vu_goroutine-LeavesNoTrace_example :
    LeavesNoTrace 2 (λ n. pos n) idle_watchdog (run_vu_goroutine 4 setting twice)
    × LeavesNoTrace 2 (λ n. pos n) idle_watchdog (run_ramping_vu_goroutine 4 setting twice)
    × LeavesNoTrace 2 (λ n. pos n) idle_watchdog (run_arrival_rate_worker_pool 4 setting tokens)
run_vu_goroutine-LeavesNoTrace_example =
    run_vu_goroutine-LeavesNoTrace 4 setting twice tokens 2 (λ n. pos n) idle_watchdog (omega arith)
      (refl, tt)
