-- ===== src/Engine/Executor/Lifecycle.antt =====
-- internal/engine/executor.go: which hooks are called, with what, and how Execute ends.
use vuhive.Prelude.{
  ℕ, ◌≡◌, refl, ap, ◌∙◌, ◌⊎◌, inl, inr, Bool, true, false, List, [], ◌∷◌, Option, none, some,
  is_some, Result, ok, err, Checked, FloatOps, if◌then◌else◌, map, is_ok, arith, Result-cases,
  Bool-cases, subst, sym,
}
use vuhive.Config.Model.{ScenarioConfig}
use vuhive.Engine.Abort.{Tick, Breach, monitor_abort_thresholds}
use vuhive.Engine.Arrival.Tokens.{IsIncreasing}
use vuhive.Engine.Executor.{
  PacingEngine, Call, setup_called, monitor_started, pacer_run, teardown_called, setup_error,
  unsupported, pacer_error, Ending, returned, nil_logger, Executed, torn_down, after_teardown,
  after_pacer, after, pace, execute,
}

-- The place of a call in the lifecycle.
pub rank : {S : Type 0} → Call S → ℕ
rank setup_called = 0
rank monitor_started = 1
rank (pacer_run state) = 2
rank (teardown_called state) = 3

-- The state that the pacer was run with, and that which Teardown got.
pub pacer_state : {S : Type 0} → List (Call S) → Option (Option S)
pacer_state [] = none
pacer_state (pacer_run state ∷ calls) = some state
pacer_state (setup_called ∷ calls) = pacer_state calls
pacer_state (monitor_started ∷ calls) = pacer_state calls
pacer_state (teardown_called state ∷ calls) = pacer_state calls

pub teardown_state : {S : Type 0} → List (Call S) → Option (Option S)
teardown_state [] = none
teardown_state (teardown_called state ∷ calls) = some state
teardown_state (setup_called ∷ calls) = teardown_state calls
teardown_state (monitor_started ∷ calls) = teardown_state calls
teardown_state (pacer_run state ∷ calls) = teardown_state calls

-- What becomes of the pacer: it is not reached, there is none, or it returns.
pub data Paced (S E R : Type 0) : Type 0 where
  not_set_up : E → Paced S E R
  no_pacer : Paced S E R
  paced : Option S → Checked R → Paced S E R

module _ {P S E R : Type 0} (run : PacingEngine P → Option S → Checked R) where
  abbrev pub outcome : Option (Result E (Option S)) → Option (PacingEngine P) → Paced S E R
  outcome (some (err e)) pacer = Paced.not_set_up e
  outcome none none = Paced.no_pacer
  outcome none (some pacer) = Paced.paced none (run pacer none)
  outcome (some (ok state)) none = Paced.no_pacer
  outcome (some (ok state)) (some pacer) = Paced.paced state (run pacer state)

-- The state that the pacer has to be run with.
abbrev pub given : {S E R : Type 0} → Paced S E R → Option (Option S)
given (Paced.not_set_up e) = none
given Paced.no_pacer = none
given (Paced.paced state result) = some state

module _ {F S E R : Type 0} (ops : FloatOps F) (cfg : ScenarioConfig F) (ticks : List (Tick F))
    (has_logger : Bool) (teardown : Option (Option S → Checked E)) where
  -- A return without an error, or the panic of a failing Teardown that has no logger.
  abbrev pub EndsWell : Option S → Ending E R → Type 0
  EndsWell state ending =
      (ending ≡ returned (ok tt))
      ⊎ ((ending ≡ nil_logger)
          × (has_logger ≡ false)
          × (hook : Option S → Checked E) × (teardown ≡ some hook)
          × (is_ok (hook state) ≡ false))

  -- How Execute has to end, and what it has to say of an abort.
  abbrev pub Ends : Paced S E R → Ending E R → Option (Breach F) → Type 0
  Ends (Paced.not_set_up e) ending aborted =
      (ending ≡ returned (err (setup_error e))) × (aborted ≡ none)
  Ends Paced.no_pacer ending aborted =
      (ending ≡ returned (err (unsupported cfg.kind))) × (aborted ≡ none)
  Ends (Paced.paced state (err e)) ending aborted =
      (ending ≡ returned (err (pacer_error e))) × (aborted ≡ none)
  Ends (Paced.paced state (ok u)) ending aborted =
      EndsWell state ending × (aborted ≡ monitor_abort_thresholds ops ticks cfg.thresholds)

  pub record IsLifecycle (p : Paced S E R) (x : Executed F S E R) : Type 0 where
    pub ordered : IsIncreasing (map rank x.calls)
    pub seen : pacer_state x.calls ≡ given p
    pub torn : teardown_state x.calls ≡ (if is_some teardown then pacer_state x.calls else none)
    pub ends : Ends p x.ending x.aborted

if_same : {S : Type 0} (b : Bool) → ◌≡◌ {A = Option (Option S)} none (if b then none else none)
if_same true = refl
if_same false = refl

module _ {S E R : Type 0} where
  after_teardown_lem :
      (has_logger : Bool) (teardown : Option (Option S → Checked E)) (state : Option S)
      → (◌≡◌ {A = Ending E R} (after_teardown has_logger teardown state) (returned (ok tt)))
        ⊎ ((◌≡◌ {A = Ending E R} (after_teardown has_logger teardown state) nil_logger)
            × (has_logger ≡ false)
            × (hook : Option S → Checked E) × (teardown ≡ some hook)
            × (is_ok (hook state) ≡ false))
  unfolding after_teardown
  after_teardown_lem has_logger none state = inl refl
  after_teardown_lem has_logger (some hook) state = elim (Result-cases (hook state)) [
    | inl (u, fine) ↦ inl (rw (after_teardown, fine) refl)
    | inr (e, failed) ↦ elim (Bool-cases has_logger) [
      | inl logs ↦ inl (rw (after_teardown, failed, logs) refl)
      | inr silent ↦
          inr (rw (after_teardown, failed, silent) refl, silent, hook, refl, rw failed refl)
    ]
  ]

module _ {F P S E R : Type 0} (ops : FloatOps F) (cfg : ScenarioConfig F) (ticks : List (Tick F))
    (has_logger : Bool) (run : PacingEngine P → Option S → Checked R) where
  -- The calls of the run of a pacer, behind the start of the monitor.
  paced_calls :
      (teardown : Option (Option S → Checked E)) (state : Option S)
      → IsIncreasing
          (map rank (setup_called ∷ monitor_started ∷ pacer_run state ∷ torn_down teardown state))
        × (teardown_state (torn_down teardown state)
            ≡ (if is_some teardown then some state else none))
  unfolding rank torn_down teardown_state
  paced_calls none state = (omega arith, refl)
  paced_calls (some hook) state = (omega arith, refl)

  after_pacer_lem :
      (teardown : Option (Option S → Checked E)) (state : Option S) (result : Checked R)
      → ((after_pacer ops cfg ticks has_logger run teardown state result).calls
          ≡ torn_down teardown state)
        × Ends ops cfg ticks has_logger teardown
            (Paced.paced state result)
            (after_pacer ops cfg ticks has_logger run teardown state result).ending
            (after_pacer ops cfg ticks has_logger run teardown state result).aborted
  unfolding after_pacer
  after_pacer_lem teardown state (err e) = (refl, (refl, refl))
  after_pacer_lem teardown state (ok u) =
      (refl, (after_teardown_lem has_logger teardown state, refl))

  paced-IsLifecycle :
      (teardown : Option (Option S → Checked E)) (pacer : PacingEngine P) (state : Option S)
      → IsLifecycle ops cfg ticks has_logger teardown
          (Paced.paced state (run pacer state))
          (pace ops cfg ticks has_logger run teardown (some pacer) state)
        × IsLifecycle ops cfg ticks has_logger teardown (Paced.paced state (run pacer state)) (
            after
              (setup_called ∷ [])
              (pace ops cfg ticks has_logger run teardown (some pacer) state))
  unfolding pace pacer_state teardown_state rank
  paced-IsLifecycle teardown pacer state =
      let (calls, ends) = after_pacer_lem teardown state (run pacer state) in
      let (ordered, torn) = paced_calls teardown state in
      (
        record {
          ordered =
              subst (λ (l : List (Call S)). IsIncreasing (1 ∷ 2 ∷ map rank l)) (sym calls)
                ordered.1;
          seen = refl;
          torn = ap teardown_state calls ∙ torn;
          ends = ends;
        },
        record {
          ordered =
              subst (λ (l : List (Call S)). IsIncreasing (0 ∷ 1 ∷ 2 ∷ map rank l)) (sym calls)
                ordered;
          seen = refl;
          torn = ap teardown_state calls ∙ torn;
          ends = ends;
        },
      )

  -- For any hooks, pacer, ticks of the abort monitor, and with or without a logger: Setup, the start of
  -- the monitor, the pacer and Teardown come in this order, each at most once. The pacer is run exactly
  -- when Setup is missing or returned no error and there is a pacer, and with the state that Setup
  -- returned; Teardown is called, if there is one, exactly when the pacer was run, whether or not it
  -- failed, and with the same state. Execute returns Setup's error, the missing pacer or the pacer's
  -- error, each without marking an abort; after a pacer without an error it is marked as aborted exactly
  -- when the monitor saw a breach, with that breach as its reason, and it returns no error, or panics
  -- if there is no logger for an error of Teardown.
  pub execute-IsLifecycle :
      (setup : Option (Result E (Option S))) (teardown : Option (Option S → Checked E))
      (pacer : Option (PacingEngine P))
      → IsLifecycle ops cfg ticks has_logger teardown
          (outcome run setup pacer)
          (execute ops cfg ticks has_logger run setup teardown pacer)
  unfolding execute pace pacer_state teardown_state rank
  execute-IsLifecycle (some (err e)) teardown pacer = record {
    ordered = omega arith;
    seen = refl;
    torn = if_same (is_some teardown);
    ends = (refl, refl);
  }
  execute-IsLifecycle none teardown none = record {
    ordered = omega arith;
    seen = refl;
    torn = if_same (is_some teardown);
    ends = (refl, refl);
  }
  execute-IsLifecycle (some (ok state)) teardown none = record {
    ordered = omega arith;
    seen = refl;
    torn = if_same (is_some teardown);
    ends = (refl, refl);
  }
  execute-IsLifecycle none teardown (some pacer) = (paced-IsLifecycle teardown pacer none).0
  execute-IsLifecycle (some (ok state)) teardown (some pacer) =
      (paced-IsLifecycle teardown pacer state).1
