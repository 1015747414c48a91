-- ===== src/Engine/Iterations/Tests.antt =====
-- internal/engine/iteration.go: a short run.
use vuhive.Prelude.{◌≡◌, refl, true, false, List, [], ◌∷◌}
use vuhive.Engine.Iterations.{
  zero_metrics, panicked, returned, Iteration, record_iteration_result_fast, execute_iteration,
  execute_all,
}
use vuhive.Engine.Iterations.Counters.{AreCounted, execute_all-AreCounted}

-- A success, a panic, a timeout, an error, and an iteration cut off by the end of the scenario.
abbrev five : List Iteration
five =
    record { run = returned false; scenario_done = false; deadline_exceeded = false }
    ∷ record { run = panicked; scenario_done = false; deadline_exceeded = false }
    ∷ record { run = returned true; scenario_done = false; deadline_exceeded = true }
    ∷ record { run = returned true; scenario_done = false; deadline_exceeded = false }
    ∷ record { run = returned true; scenario_done = true; deadline_exceeded = true }
    ∷ []

five_counted :
    execute_all five zero_metrics ≡ record { total = 4; failed = 3; timeout = 1; panics = 1 }
unfolding execute_all execute_iteration record_iteration_result_fast zero_metrics
five_counted = refl

execute_all-AreCounted_example : AreCounted five zero_metrics (execute_all five zero_metrics)
execute_all-AreCounted_example = execute_all-AreCounted five zero_metrics
