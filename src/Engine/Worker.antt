-- ===== src/Engine/Worker.antt =====
-- internal/engine/constant_vus.go, ramping_vus.go and arrival_rate.go: the goroutine of one virtual user.
-- It is the list of what it does to the shared gauge, the watchdog, the gate and the hooks. Inputs are
-- what the hooks and the gate answer, and the iterations that the loop gets to before the `select` at
-- its head returns; which of several ready branches a `select` takes is free.
pub mod Lifecycle
pub mod Watched
pub mod Rounds
mod Tests
use vuhive.Prelude.{
  ℕ, suc, Option, none, some, ℤ, pos, negsuc, Bool, true, false, List, [], ◌∷◌, ◌++◌, if◌then◌else◌,
}
use vuhive.Engine.Quorum.{Outcome, released, quorum_failed, cancelled}
use vuhive.Engine.Supervisor.{Exit, passed, exhausted, interrupted, run_supervised_pretest}
use vuhive.Engine.Iterations.{Iteration}

pub data Act (E I : Type 0) : Type 0 where
  -- activeGauge.Add
  gauge_add : ℤ → Act E I
  registered : Act E I
  recorded_ready : Act E I
  -- RecordFailed, with the error that runSupervisedPreTest returned.
  recorded_failed : Exit E I → Act E I
  -- tracker.Begin, the call of RunVU with the iteration that its context shows, and tracker.End.
  begun : ℕ → Act E I
  ran : ℕ → Iteration → Act E I
  ended : Act E I
  -- The call of AfterTest, with the iteration that its context shows.
  after_test : ℕ → Act E I
  unregistered : Act E I

-- The hooks and the gate that a goroutine is given; `none` is nil. The gate is what WaitReady returns.
pub record VuSetting (F E I : Type 0) : Type 0 where
  pub pre_test : Option (ℕ → Option E)
  pub wait : ℕ → Option I
  pub max_pretest_retries : ℤ
  pub has_after_test : Bool
  pub gate : Option (Outcome F E)

module _ {E I : Type 0} where
  -- One pass of the loop.
  pub round : ℕ → Iteration → List (Act E I)
  round n it = begun n ∷ ran n it ∷ ended ∷ []

  -- The loop of a constant or ramping virtual user, which numbers its iterations from `iteration`.
  pub iterate : ℕ → List Iteration → List (Act E I)
  iterate iteration [] = []
  iterate iteration (it ∷ its) = round iteration it ++ iterate (suc iteration) its

  -- The loop of a pool worker, which gets the number of each iteration with its token.
  pub serve : List (ℕ × Iteration) → List (Act E I)
  serve [] = []
  serve ((iteration, it) ∷ rest) = round iteration it ++ serve rest

  pub after_hook : Bool → List (Act E I)
  after_hook has_after_test = if has_after_test then after_test 0 ∷ [] else []

  abbrev pub farewell : List (Act E I)
  farewell = unregistered ∷ gauge_add (negsuc 0) ∷ []

  -- The deferred calls, the last one first.
  pub deferred : Bool → List (Act E I)
  deferred has_after_test = after_hook has_after_test ++ farewell

module _ {F E I : Type 0} where
  -- runSupervisedPreTest, with its test for a missing hook.
  pub supervised_pretest : ℕ → VuSetting F E I → Option (Exit E I)
  supervised_pretest fuel s = elim s.pre_test [
    | none ↦ some passed
    | some hook ↦ elim (run_supervised_pretest hook s.wait fuel s.max_pretest_retries) [
      | none ↦ none
      | some r ↦ some r.exit
    ]
  ]

  -- From the return of runSupervisedPreTest up to the loop.
  pub synchronize : Option (Outcome F E) → Exit E I → List (Act E I) → List (Act E I)
  synchronize none passed loop = loop
  synchronize none (exhausted e) loop = []
  synchronize none (interrupted i) loop = []
  synchronize (some released) passed loop = recorded_ready ∷ loop
  synchronize (some (quorum_failed e)) passed loop = recorded_ready ∷ []
  synchronize (some cancelled) passed loop = recorded_ready ∷ []
  synchronize (some answer) (exhausted e) loop = recorded_failed (exhausted e) ∷ []
  synchronize (some answer) (interrupted i) loop = recorded_failed (interrupted i) ∷ []

  -- A goroutine around its loop; `none` is a lack of fuel for the PreTest.
  pub run_goroutine : ℕ → VuSetting F E I → List (Act E I) → Option (List (Act E I))
  run_goroutine fuel s loop = elim (supervised_pretest fuel s) [
    | none ↦ none
    | some exit ↦ some (
        gauge_add (pos 1)
        ∷ registered
        ∷ (synchronize s.gate exit loop ++ deferred s.has_after_test))
  ]

  pub run_vu_goroutine : ℕ → VuSetting F E I → List Iteration → Option (List (Act E I))
  run_vu_goroutine fuel s its = run_goroutine fuel s (iterate 0 its)

  pub run_ramping_vu_goroutine : ℕ → VuSetting F E I → List Iteration → Option (List (Act E I))
  run_ramping_vu_goroutine fuel s its = run_goroutine fuel s (iterate 0 its)

  pub run_arrival_rate_worker_pool :
      ℕ → VuSetting F E I → List (ℕ × Iteration) → Option (List (Act E I))
  run_arrival_rate_worker_pool fuel s tokens = run_goroutine fuel s (serve tokens)
