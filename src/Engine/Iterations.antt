-- ===== src/Engine/Iterations.antt =====
-- internal/engine/iteration.go and constant_vus.go: the built-in counters of the iterations. The number
-- of iterations of a run is far below 2 ^ 63, so the counters are natural numbers.
pub mod Counters
mod Tests
use vuhive.Prelude.{
  ℕ, suc, Bool, true, false, ℤ, pos, Option, none, some, is_pos, is_some, if◌then◌else◌, List, [],
  ◌∷◌,
}
use vuhive.Config.Model.{ScenarioConfig, default_guard_deadline}

pub record IterationMetrics : Type 0 where
  pub total : ℕ
  pub failed : ℕ
  pub timeout : ℕ
  pub panics : ℕ

pub zero_metrics : IterationMetrics
zero_metrics = record { total = 0; failed = 0; timeout = 0; panics = 0 }

-- What RunVU does: a panic, or a return with or without an error.
pub data RunVu : Type 0 where
  panicked : RunVu
  returned : Bool → RunVu

-- One iteration: how RunVU ends, whether the scenario's context is done by then, and whether the
-- deadline of the iteration has passed.
pub record Iteration : Type 0 where
  pub run : RunVu
  pub scenario_done : Bool
  pub deadline_exceeded : Bool

-- recordIterationResultFast; the first argument says whether err is not nil.
pub record_iteration_result_fast : Bool → Bool → Bool → IterationMetrics → IterationMetrics
record_iteration_result_fast failing scenario_done deadline_exceeded im =
    if scenario_done
    then (if failing then im else record im { total = suc im.total })
    else if deadline_exceeded
    then record im { timeout = suc im.timeout; failed = suc im.failed; total = suc im.total }
    else if failing
    then record im { failed = suc im.failed; total = suc im.total }
    else record im { total = suc im.total }

pub execute_iteration : Iteration → IterationMetrics → IterationMetrics
execute_iteration it im = elim it.run [
  | panicked ↦ record im { panics = suc im.panics; failed = suc im.failed; total = suc im.total }
  | returned failing ↦ record_iteration_result_fast failing it.scenario_done it.deadline_exceeded im
]

-- The iterations of all workers, in the order in which they are recorded.
pub execute_all : List Iteration → IterationMetrics → IterationMetrics
execute_all [] im = im
execute_all (it ∷ its) im = execute_all its (execute_iteration it im)

-- The timeout of an iteration, and whether there is one.
pub effective_vu_timeout : {F : Type 0} → ScenarioConfig F → ℤ × Bool
effective_vu_timeout cfg =
    if is_pos cfg.vu_timeout
    then (cfg.vu_timeout, true)
    else if cfg.allow_unbounded_iterations
    then (pos 0, false)
    else (default_guard_deadline, true)
