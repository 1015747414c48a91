-- ===== src/Engine/Ramping/Tests.antt =====
-- internal/engine/ramping_vus.go: runs of the pacer at concrete stages.
use vuhive.Prelude.{◌≡◌, Bool, true, [], ◌∷◌, some, pos, milli}
use vuhive.Engine.Ramping.{Pool, run_stages, run_ramping_vus, empty_pool, tick, timer}
use vuhive.Engine.Ramping.Workers.{empty_pool-Inv}
use vuhive.Engine.Ramping.Counts.{AllStopped}
use vuhive.Engine.Ramping.Stages.{Plan, PlanDone, run_stages-PlanDone, run_ramping_vus-AllStopped}

-- Up to four workers in a second, then down to one.
abbrev up_then_down : Plan milli
up_then_down =
    (
      record { duration = pos 1_000_000_000; target = pos 4 },
      tick (pos 500_000_000) ∷ tick (pos 750_000_000) ∷ timer ∷ [],
    )
    ∷ (
      record { duration = pos 1_000_000_000; target = pos 1 },
      tick (pos 500_000_000) ∷ tick (pos 1_000_000_001) ∷ [],
    )
    ∷ []

run_stages-PlanDone_example :
    (r : Bool × Pool) × (run_stages milli (pos 0) up_then_down empty_pool ≡ some r)
    × PlanDone milli up_then_down r
run_stages-PlanDone_example =
    run_stages-PlanDone milli (pos 0) up_then_down empty_pool empty_pool-Inv

run_ramping_vus-AllStopped_example :
    (r : Bool × Pool) × (run_ramping_vus milli (pos 500) true up_then_down ≡ some r)
    × AllStopped r.1
run_ramping_vus-AllStopped_example = run_ramping_vus-AllStopped milli (pos 500) true up_then_down
