-- ===== src/Engine/Constant/Tests.antt =====
-- internal/engine/constant_vus.go: five virtual users that have to be cancelled by the drain.
use vuhive.Prelude.{◌≡◌, refl, ℤ, pos, true, false, [], ◌∷◌, none, milli, String}
use vuhive.Config.Model.{ScenarioConfig}
use vuhive.Config.Scenario.Tests.{steady}
use vuhive.Engine.Drain.{announced, cancelled, all_exited, warned, by_timer, drain_workers}
use vuhive.Engine.Constant.{
  spawned, stop_closed, draining, PacerInput, spawn_vus, spawn_interval, wind_down, after_spawning,
  leave, run_constant_vus,
}
use vuhive.Engine.Constant.Orderly.{IsOrderly, run_constant_vus-IsOrderly}

abbrev input : PacerInput String
input = record {
  cut = λ i. false;
  quorum = none;
  has_logger = true;
  active = pos 5;
  before_cancel = pos 2;
  pick = by_timer;
}

slow_drain : run_constant_vus milli steady input ≡ (
  spawned 1
      ∷ spawned 2
      ∷ spawned 3
      ∷ spawned 4
      ∷ spawned 5
      ∷ stop_closed
      ∷ draining (announced (pos 5))
      ∷ draining cancelled
      ∷ draining all_exited
      ∷ draining (warned (pos 2))
      ∷ [],
  none,
)
unfolding run_constant_vus spawn_vus leave after_spawning wind_down spawn_interval drain_workers
slow_drain = refl

-- The same, ramping up.
abbrev ramped : ScenarioConfig ℤ
ramped = record steady { ramp_up = pos 5_000_000_000 }

run_constant_vus-IsOrderly_example :
    IsOrderly milli ramped input (run_constant_vus milli ramped input)
run_constant_vus-IsOrderly_example = run_constant_vus-IsOrderly milli ramped input
