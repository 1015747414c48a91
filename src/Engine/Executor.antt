-- ===== src/Engine/Executor.antt =====
-- internal/engine/executor.go and pacer.go: the lifecycle of a scenario, and the registry of pacers. The
-- hooks and the pacers are inputs, as what they return. The ticks of the abort monitor are those before
-- the `select` after the pacer. The copy of the global state has the entries of the original.
pub mod Lifecycle
pub mod Pacers
mod Tests
use vuhive.Prelude.{
  ℕ, Bool, true, false, String, List, [], ◌∷◌, ◌++◌, Option, none, some, is_some, Result, ok, err,
  Checked, lookup, insert, FloatOps, if◌then◌else◌,
}
use vuhive.Config.Model.{
  ScenarioConfig, scenario_type_constant_vus, scenario_type_arrival_rate, scenario_type_ramping_vus,
}
use vuhive.Engine.Abort.{Tick, Breach, monitor_abort_thresholds}

-- PacingEngine: the built-in ones, and those that a user registers.
pub data PacingEngine (P : Type 0) : Type 0 where
  constant_vus_pacer : PacingEngine P
  arrival_rate_pacer : PacingEngine P
  ramping_vus_pacer : PacingEngine P
  custom_pacer : P → PacingEngine P

abbrev pub PacingRegistry : Type 0 → Type 0
PacingRegistry P = List (String × PacingEngine P)

module _ {P : Type 0} where
  pub new_pacing_registry : PacingRegistry P
  new_pacing_registry =
      (scenario_type_constant_vus, constant_vus_pacer)
      ∷ (scenario_type_arrival_rate, arrival_rate_pacer)
      ∷ (scenario_type_ramping_vus, ramping_vus_pacer)
      ∷ []

  pub register : String → PacingEngine P → PacingRegistry P → PacingRegistry P
  register scenario_type pacer r = insert scenario_type pacer r

  pub get : String → PacingRegistry P → Option (PacingEngine P)
  get scenario_type r = lookup scenario_type r

  -- NewExecutor's pacer, from DefaultPacingRegistry; `none` is nil.
  pub new_executor : {F : Type 0} → ScenarioConfig F → PacingRegistry P → Option (PacingEngine P)
  unfolding get
  new_executor cfg r = get cfg.kind r

pub data Call (S : Type 0) : Type 0 where
  setup_called : Call S
  -- MonitorAbortThresholds
  monitor_started : Call S
  pacer_run : Option S → Call S
  teardown_called : Option S → Call S

pub data ExecuteError (E R : Type 0) : Type 0 where
  setup_error : E → ExecuteError E R
  unsupported : String → ExecuteError E R
  pacer_error : R → ExecuteError E R

-- How Execute ends: by a return, or by a panic on the nil logger.
pub data Ending (E R : Type 0) : Type 0 where
  returned : Checked (ExecuteError E R) → Ending E R
  nil_logger : Ending E R

-- What Execute did, and the fields Aborted and AbortReason of the executor, whose zero is `none`.
pub record Executed (F S E R : Type 0) : Type 0 where
  pub calls : List (Call S)
  pub ending : Ending E R
  pub aborted : Option (Breach F)

-- The hook is called with the state; its error is only logged, and only one of the two calls tests for
-- a logger.
pub torn_down : {S E : Type 0} → Option (Option S → Checked E) → Option S → List (Call S)
torn_down none state = []
torn_down (some hook) state = teardown_called state ∷ []

pub after_teardown : {S E R : Type 0} → Bool → Option (Option S → Checked E) → Option S → Ending E R
after_teardown has_logger none state = returned (ok tt)
after_teardown has_logger (some hook) state = elim (hook state) [
  | ok u ↦ returned (ok tt)
  | err e ↦ if has_logger then returned (ok tt) else nil_logger
]

-- The calls, with those before them.
abbrev pub after : {F S E R : Type 0} → List (Call S) → Executed F S E R → Executed F S E R
after calls x = record x { calls = calls ++ x.calls }

-- S is the global state, whose `none` is nil, and E an error of a hook. The hooks Setup and Teardown are
-- what they return, and `none` where they are missing.
module _ {F P S E R : Type 0} (ops : FloatOps F) (cfg : ScenarioConfig F) (ticks : List (Tick F))
    (has_logger : Bool) (run : PacingEngine P → Option S → Checked R) where
  pub after_pacer : Option (Option S → Checked E) → Option S → Checked R → Executed F S E R
  unfolding torn_down after_teardown
  after_pacer teardown state (err e) = record {
    calls = torn_down teardown state;
    ending = returned (err (pacer_error e));
    aborted = none;
  }
  after_pacer teardown state (ok u) = record {
    calls = torn_down teardown state;
    ending = after_teardown has_logger teardown state;
    aborted = monitor_abort_thresholds ops ticks cfg.thresholds;
  }

  pub pace : Option (Option S → Checked E) → Option (PacingEngine P) → Option S → Executed F S E R
  unfolding after_pacer
  pace teardown none state = record {
    calls = monitor_started ∷ [];
    ending = returned (err (unsupported cfg.kind));
    aborted = none;
  }
  pace teardown (some pacer) state =
      after (monitor_started ∷ pacer_run state ∷ []) (after_pacer teardown state (run pacer state))

  pub execute :
      Option (Result E (Option S))
      → Option (Option S → Checked E)
      → Option (PacingEngine P)
      → Executed F S E R
  unfolding pace
  execute none teardown pacer = pace teardown pacer none
  execute (some (err e)) teardown pacer = record {
    calls = setup_called ∷ [];
    ending = returned (err (setup_error e));
    aborted = none;
  }
  execute (some (ok state)) teardown pacer = after (setup_called ∷ []) (pace teardown pacer state)
