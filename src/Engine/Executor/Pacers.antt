-- ===== src/Engine/Executor/Pacers.antt =====
-- internal/engine/pacer.go and executor.go: the pacer of a valid scenario.
use vuhive.Prelude.{
  lookup-insert, ◌≡◌, refl, sym, ap, ◌∙◌, inl, inr, Bool, String, List, Option, none, some, ◌≢◌,
  Result, ok, err, Checked, FloatOps, if◌then◌else◌, str_eq,
}
use vuhive.Config.Model.{
  ScenarioConfig, scenario_type_constant_vus, scenario_type_arrival_rate, scenario_type_ramping_vus,
}
use vuhive.Config.Scenario.Valid.{IsPacingValid, constant, arrival, ramping}
use vuhive.Engine.Abort.{Tick, Breach}
use vuhive.Engine.Executor.{
  PacingEngine, constant_vus_pacer, arrival_rate_pacer, ramping_vus_pacer, PacingRegistry,
  new_pacing_registry, register, get, new_executor, Ending, returned, unsupported, execute,
}
use vuhive.Engine.Executor.Lifecycle.{Paced, outcome, Ends, execute-IsLifecycle}

module _ {F S E R : Type 0} (ops : FloatOps F) (sc : ScenarioConfig F) (ticks : List (Tick F))
    (has_logger : Bool) (teardown : Option (Option S → Checked E)) where
  paced_lem :
      (state : Option S) (result : Checked R) (kind : String) {ending : Ending E R}
      (aborted : Option (Breach F))
      → Ends ops sc ticks has_logger teardown (Paced.paced state result) ending aborted
      → ending ≡ returned (err (unsupported kind))
      → ⊥
  paced_lem state (err e) kind aborted (h, quiet) u = cc
  paced_lem state (ok t) kind aborted (inl h, quiet) u = cc
  paced_lem state (ok t) kind aborted (inr (h, a, b, c, d), quiet) u = cc

  reached_lem :
      {P : Type 0} (setup : Option (Result E (Option S))) (pacer : PacingEngine P)
      (run : PacingEngine P → Option S → Checked R) (kind : String) {ending : Ending E R}
      (aborted : Option (Breach F))
      → Ends ops sc ticks has_logger teardown (outcome run setup (some pacer)) ending aborted
      → ending ≡ returned (err (unsupported kind))
      → ⊥
  reached_lem none pacer run kind aborted h u = paced_lem none (run pacer none) kind aborted h u
  reached_lem (some (err e)) pacer run kind aborted (h, quiet) u = cc
  reached_lem (some (ok state)) pacer run kind aborted h u =
      paced_lem state (run pacer state) kind aborted h u

module _ {P : Type 0} where
  -- For any registry: after a registration, Get finds the registered pacer under its type, also where it
  -- replaces another one, and what it found before under every other type. A new registry has the
  -- pacers of the three scenario types.
  get-register :
      (kind other : String) (pacer : PacingEngine P) (r : PacingRegistry P)
      → (get other (register kind pacer r)
          ≡ (if str_eq kind other then some pacer else get other r))
        × (get scenario_type_constant_vus (new_pacing_registry {P = P}) ≡ some constant_vus_pacer)
        × (get scenario_type_arrival_rate (new_pacing_registry {P = P}) ≡ some arrival_rate_pacer)
        × (get scenario_type_ramping_vus (new_pacing_registry {P = P}) ≡ some ramping_vus_pacer)
  unfolding get register new_pacing_registry
  get-register kind other pacer r = (lookup-insert kind other pacer r, refl, refl, refl)

  -- The pacer of a valid scenario, by its type.
  abbrev pub pacer_of : {F : Type 0} {sc : ScenarioConfig F} → IsPacingValid sc → PacingEngine P
  pacer_of (constant kind vus period) = constant_vus_pacer
  pacer_of (arrival kind tps max_vus period burst) = arrival_rate_pacer
  pacer_of (ramping kind some_stage stages) = ramping_vus_pacer

  new_executor-pacer_of :
      {F : Type 0} (sc : ScenarioConfig F) (valid : IsPacingValid sc)
      → new_executor sc (new_pacing_registry {P = P}) ≡ some (pacer_of valid)
  unfolding new_executor get new_pacing_registry
  new_executor-pacer_of sc (constant kind vus period) = rw kind refl
  new_executor-pacer_of sc (arrival kind tps max_vus period burst) = rw kind refl
  new_executor-pacer_of sc (ramping kind some_stage stages) = rw kind refl

  -- For a scenario with valid pacing, as every configuration has that passed validation: NewExecutor
  -- finds the built-in pacer of its type in a new registry (constant_vus, arrival_rate or ramping_vus),
  -- and Execute with it never ends with an unsupported type.
  pub execute-supported :
      {F S E R : Type 0} (ops : FloatOps F) (sc : ScenarioConfig F) (ticks : List (Tick F))
      (has_logger : Bool) (run : PacingEngine P → Option S → Checked R)
      (setup : Option (Result E (Option S))) (teardown : Option (Option S → Checked E))
      (valid : IsPacingValid sc)
      → (new_executor sc (new_pacing_registry {P = P}) ≡ some (pacer_of valid))
        × ((kind : String)
            → (execute ops sc ticks has_logger run setup teardown
                (new_executor sc (new_pacing_registry {P = P}))).ending
              ≢ returned (err (unsupported kind)))
  execute-supported ops sc ticks has_logger run setup teardown valid =
      let found = new_executor-pacer_of sc valid in
      let life =
        execute-IsLifecycle ops sc ticks has_logger run setup teardown (some (pacer_of valid)) in
      (
        found,
        λ kind e.
            reached_lem ops sc ticks has_logger teardown setup (pacer_of valid) run kind _ life.ends
              (ap (λ p. (execute ops sc ticks has_logger run setup teardown p).ending) (sym found)
                ∙ e),
      )
