-- ===== src/Engine/Abort.antt =====
-- internal/engine/abort.go: the monitor that ends a scenario when a threshold with abort_on_fail is
-- breached. A tick carries the time since the start and the metrics that it reads.
pub mod Breaches
mod Tests
use vuhive.Prelude.{
  String, List, [], ◌∷◌, Option, none, some, Bool, true, false, not, ℤ, ltb_ℤ, keep, if◌then◌else◌,
  FloatOps,
}
use vuhive.Config.Model.{ThresholdConfig}
use vuhive.Sla.{MetricReader, Actual, ThresholdResult, evaluate_threshold}

-- The reason, before it is printed: the threshold, and what was measured.
pub record Breach (F : Type 0) : Type 0 where
  pub threshold : ThresholdConfig F
  pub actual : Actual F

pub record Tick (F : Type 0) : Type 0 where
  pub elapsed : ℤ
  pub reader : MetricReader F

-- The thresholds with AbortOnFail.
abbrev pub abort_thresholds : {F : Type 0} → List (ThresholdConfig F) → List (ThresholdConfig F)
abort_thresholds ths = keep (λ th. th.abort_on_fail) ths

module _ {F : Type 0} (ops : FloatOps F) where
  -- The loop over the thresholds at one tick: the first breach past its warm-up.
  pub on_tick : Tick F → List (ThresholdConfig F) → Option (Breach F)
  on_tick t [] = none
  on_tick t (th ∷ ths) =
      let rest = on_tick t ths in
      if ltb_ℤ t.elapsed th.delay_abort_eval
      then rest
      else if (evaluate_threshold ops th t.reader).passed
      then rest
      else some (record { threshold = th; actual = (evaluate_threshold ops th t.reader).actual })

  -- The goroutine: it returns at the first breach, which cancels the scenario, and otherwise when the
  -- ticks end with the context.
  pub watch : List (Tick F) → List (ThresholdConfig F) → Option (Breach F)
  watch [] ths = none
  watch (t ∷ ticks) ths =
      let rest = watch ticks ths in
      let now = on_tick t ths in elim now [ some b ↦ some b | none ↦ rest ]

  -- Without such thresholds no goroutine is started.
  pub monitor_abort_thresholds : List (Tick F) → List (ThresholdConfig F) → Option (Breach F)
  monitor_abort_thresholds ticks ths = elim (abort_thresholds ths) [
    | [] ↦ none
    | th ∷ rest ↦ watch ticks (th ∷ rest)
  ]
