-- ===== src/Engine/Iterations/Counters.antt =====
-- internal/engine/iteration.go: what the counters count.
use vuhive.Prelude.{
  ℕ, suc, ◌+◌, ◌≡◌, refl, ◌≤◌, Bool, true, false, not, ◌&&◌, List, [], ◌∷◌, arith, if◌then◌else◌,
  is_pos, IsPositive,
}
use vuhive.Config.Model.{ScenarioConfig, default_guard_deadline}
use vuhive.Engine.Iterations.{
  IterationMetrics, zero_metrics, panicked, returned, Iteration, record_iteration_result_fast,
  execute_iteration, execute_all, effective_vu_timeout,
}

-- The iterations of a list that pass a test.
pub tally : (Iteration → Bool) → List Iteration → ℕ
tally p [] = 0
tally p (it ∷ its) = (if p it then 1 else 0) + tally p its

-- Interrupted by the end of the scenario: not counted at all.
abbrev pub is_interrupted : Iteration → Bool
is_interrupted it = elim it.run [
  | panicked ↦ false
  | returned failing ↦ failing && it.scenario_done
]

abbrev pub has_panicked : Iteration → Bool
has_panicked it = elim it.run [ panicked ↦ true | returned failing ↦ false ]

abbrev pub has_timed_out : Iteration → Bool
has_timed_out it = elim it.run [
  | panicked ↦ false
  | returned failing ↦ not it.scenario_done && it.deadline_exceeded
]

-- Returned an error within its deadline while the scenario was running.
abbrev pub has_errored : Iteration → Bool
has_errored it = elim it.run [
  | panicked ↦ false
  | returned failing ↦ failing && not it.scenario_done && not it.deadline_exceeded
]

pub record AreCounted (its : List Iteration) (before after : IterationMetrics) : Type 0 where
  pub total : after.total + tally is_interrupted its ≡ before.total + tally (λ _. true) its
  pub timeout : after.timeout ≡ before.timeout + tally has_timed_out its
  pub panics : after.panics ≡ before.panics + tally has_panicked its
  pub failed :
      after.failed
      ≡ before.failed + tally has_timed_out its + tally has_panicked its + tally has_errored its

abbrev one : Bool → ℕ
one b = if b then 1 else 0

execute_iteration_lem :
    (it : Iteration) (im : IterationMetrics)
    → ((execute_iteration it im).total + one (is_interrupted it) ≡ suc im.total)
      × ((execute_iteration it im).timeout ≡ im.timeout + one (has_timed_out it))
      × ((execute_iteration it im).panics ≡ im.panics + one (has_panicked it))
      × ((execute_iteration it im).failed
          ≡ im.failed + one (has_timed_out it) + one (has_panicked it) + one (has_errored it))
unfolding execute_iteration record_iteration_result_fast
execute_iteration_lem it im = ground arith

-- For any sequence of iterations of any workers, from any counters: the total grows by the iterations
-- that were not interrupted by the end of the scenario (an error returned after the scenario's context
-- was done), the timeouts by those that returned past their deadline while the scenario was running,
-- the panics by those that panicked, and the failures by the timeouts, the panics, and the errors
-- returned within the deadline while the scenario was running.
pub execute_all-AreCounted :
    (its : List Iteration) (im : IterationMetrics) → AreCounted its im (execute_all its im)
unfolding execute_all tally
execute_all-AreCounted [] im = record {
  total = refl;
  timeout = omega arith;
  panics = omega arith;
  failed = omega arith;
}
execute_all-AreCounted (it ∷ its) im =
    let (a, b, c, d) = execute_iteration_lem it im in
    let rec = execute_all-AreCounted its (execute_iteration it im) in
    record {
      total = omega (arith, a, rec.total);
      timeout = omega (arith, b, rec.timeout);
      panics = omega (arith, c, rec.panics);
      failed = omega (arith, d, rec.failed);
    }

abbrev IsOrdered : IterationMetrics → Type 0
IsOrdered im = (im.timeout + im.panics ≤ im.failed) × (im.failed ≤ im.total)

execute_iteration-IsOrdered :
    (it : Iteration) (im : IterationMetrics) → IsOrdered im → IsOrdered (execute_iteration it im)
unfolding execute_iteration record_iteration_result_fast
execute_iteration-IsOrdered it im h = ground arith

ordered_lem :
    (its : List Iteration) (im : IterationMetrics) → IsOrdered im → IsOrdered (execute_all its im)
unfolding execute_all
ordered_lem [] im h = h
ordered_lem (it ∷ its) im h =
    ordered_lem its (execute_iteration it im) (execute_iteration-IsOrdered it im h)

-- For any sequence of iterations, from counters at zero: the timeouts and the panics together are at
-- most the failures, and the failures are at most the total, so a failure rate never exceeds one.
execute_all_ordered :
    (its : List Iteration)
    → ((execute_all its zero_metrics).timeout + (execute_all its zero_metrics).panics
        ≤ (execute_all its zero_metrics).failed)
      × ((execute_all its zero_metrics).failed ≤ (execute_all its zero_metrics).total)
unfolding zero_metrics
execute_all_ordered its = ordered_lem its zero_metrics (omega arith, omega arith)

-- For any scenario: if an iteration has a timeout, it is positive, and it is vu_timeout wherever that is
-- positive and 30 seconds otherwise; it has none only if vu_timeout is not positive and
-- allow_unbounded_iterations is set.
effective_vu_timeout-IsPositive :
    {F : Type 0} (cfg : ScenarioConfig F)
    → ((effective_vu_timeout cfg).1 ≡ true
        → IsPositive (effective_vu_timeout cfg).0
          × (is_pos cfg.vu_timeout ≡ true → (effective_vu_timeout cfg).0 ≡ cfg.vu_timeout)
          × (is_pos cfg.vu_timeout ≡ false → (effective_vu_timeout cfg).0 ≡ default_guard_deadline))
      × ((effective_vu_timeout cfg).1 ≡ false
          → (is_pos cfg.vu_timeout ≡ false) × (cfg.allow_unbounded_iterations ≡ true))
unfolding effective_vu_timeout
effective_vu_timeout-IsPositive cfg = ground arith
