-- ===== src/Engine/Watchdog/Threshold.antt =====
-- internal/engine/watchdog.go: the threshold of a stall.
use vuhive.Prelude.{◌≡◌, true, false, is_pos, IsPositive, ◌≤ℤ◌, arith}
use vuhive.Config.Model.{ScenarioConfig}
use vuhive.Metric.Types.{HistogramSnapshot}
use vuhive.Engine.Watchdog.{effective_threshold, static_threshold, watchdog_interval}

-- For any scenario and any statistics of the iterations: the threshold of the watchdog and the interval
-- of its checks are positive. A configured threshold is used as it is. Without one, and with a
-- timeout, the threshold is at most the timeout.
effective_threshold_bounds :
    {F : Type 0} (cfg : ScenarioConfig F) (snap : HistogramSnapshot)
    → IsPositive (effective_threshold cfg snap)
      × IsPositive (watchdog_interval cfg)
      × (is_pos cfg.watchdog_stall_threshold ≡ true
          → effective_threshold cfg snap ≡ cfg.watchdog_stall_threshold)
      × (is_pos cfg.watchdog_stall_threshold ≡ false
          → is_pos cfg.vu_timeout ≡ true
          → effective_threshold cfg snap ≤ℤ cfg.vu_timeout)
unfolding effective_threshold static_threshold watchdog_interval
effective_threshold_bounds cfg snap = ground arith
