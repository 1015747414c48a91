-- ===== src/Engine/Executor/Tests.antt =====
-- internal/engine/executor.go: lifecycles of a small scenario.
use vuhive.Prelude.{
  ℕ, ◌≡◌, ◌≢◌, refl, true, String, [], ◌∷◌, Option, none, some, Result, ok, err, Checked, milli,
  arith,
}
use vuhive.Config.Scenario.Valid.{constant}
use vuhive.Config.Scenario.Tests.{steady}
use vuhive.Engine.Executor.{
  PacingEngine, constant_vus_pacer, new_pacing_registry, new_executor, setup_called,
  monitor_started, pacer_run, teardown_called, unsupported, pacer_error, returned, torn_down,
  after_pacer, pace, execute,
}
use vuhive.Engine.Executor.Lifecycle.{outcome, IsLifecycle, execute-IsLifecycle}
use vuhive.Engine.Executor.Pacers.{execute-supported}

abbrev setup : Option (Result String (Option ℕ))
setup = some (ok (some 7))

abbrev teardown : Option (Option ℕ → Checked String)
teardown = some (λ state. err "connection lost")

abbrev refusing : PacingEngine ℕ → Option ℕ → Checked String
refusing pacer state = err "quorum"

failing_pacer :
    execute milli steady [] true refusing setup teardown (some constant_vus_pacer) ≡ record {
      calls = setup_called ∷ monitor_started ∷ pacer_run (some 7) ∷ teardown_called (some 7) ∷ [];
      ending = returned (err (pacer_error "quorum"));
      aborted = none;
    }
unfolding execute pace after_pacer torn_down
failing_pacer = refl

execute-IsLifecycle_example :
    IsLifecycle milli steady [] true teardown
      (outcome refusing setup (some constant_vus_pacer))
      (execute milli steady [] true refusing setup teardown (some constant_vus_pacer))
execute-IsLifecycle_example =
    execute-IsLifecycle milli steady [] true refusing setup teardown (some constant_vus_pacer)

execute-supported_example :
    (new_executor steady (new_pacing_registry {P = ℕ}) ≡ some constant_vus_pacer)
    × ((kind : String)
        → (execute milli steady [] true refusing setup teardown
            (new_executor steady (new_pacing_registry {P = ℕ}))).ending
          ≢ returned (err (unsupported kind)))
execute-supported_example =
    execute-supported milli steady [] true refusing setup teardown
      (constant refl (omega arith) (omega arith))
