-- ===== src/Engine/Abort/Tests.antt =====
-- internal/engine/abort.go: a counter of errors that goes over its threshold after the warm-up.
use vuhive.Prelude.{List, [], ◌∷◌, some, ltb_ℤ, ℤ, pos, false, milli, ◌≡◌, refl}
use vuhive.Config.Model.{ThresholdConfig}
use vuhive.Sla.{evaluate_threshold}
use vuhive.Sla.Tests.{error_limit, counting, errors_breach}
use vuhive.Engine.Abort.{Breach, Tick, on_tick, watch, monitor_abort_thresholds}
use vuhive.Engine.Abort.Breaches.{IsWatched, monitor_abort_thresholds-IsWatched}

abbrev ticks : List (Tick ℤ)
ticks =
    record { elapsed = pos 500_000_000; reader = counting (pos 3) }
    ∷ record { elapsed = pos 1_500_000_000; reader = counting (pos 3) }
    ∷ []

monitor_abort_thresholds-IsWatched_example :
    IsWatched milli
      (error_limit ∷ [])
      ticks
      (monitor_abort_thresholds milli ticks (error_limit ∷ []))
monitor_abort_thresholds-IsWatched_example =
    monitor_abort_thresholds-IsWatched milli ticks (error_limit ∷ [])

on_tick_lem :
    (t : Tick ℤ) (th : ThresholdConfig ℤ)
    → ltb_ℤ t.elapsed th.delay_abort_eval ≡ false
    → (evaluate_threshold milli th t.reader).passed ≡ false
    → watch milli (t ∷ []) (th ∷ [])
      ≡ some (record { threshold = th; actual = (evaluate_threshold milli th t.reader).actual })
unfolding watch on_tick
on_tick_lem t th late failed = simp (watch, on_tick, late, failed) refl

abbrev breach : Breach ℤ
breach = record {
  threshold = error_limit;
  actual = (evaluate_threshold milli error_limit (counting (pos 3))).actual;
}

late_tick_aborts : monitor_abort_thresholds milli ticks (error_limit ∷ []) ≡ some breach
unfolding monitor_abort_thresholds watch on_tick
late_tick_aborts =
    on_tick_lem (record { elapsed = pos 1_500_000_000; reader = counting (pos 3) }) error_limit refl
      errors_breach
