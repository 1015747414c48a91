-- ===== src/Engine/Arrival/Buffer.antt =====
-- internal/engine/arrival_rate.go: the size of the pool and the capacity of the channel.
use vuhive.Prelude.{
  ℕ, ◌*◌, ◌≤◌, ◌<◌, ◌≡◌, ap, pos, pos_part, true, false, is_pos, wrap64, arith, IsPositive,
}
use vuhive.Config.Model.{ScenarioConfig}
use vuhive.Metric.Collector.{bits}
use vuhive.Engine.Arrival.{pool_size, burst_buffer}

double_lem : (tps : ℕ) → tps < 4611686018427387904 → wrap64 (2 * bits (pos tps)) ≡ pos (2 * tps)
double_lem tps h = ground arith

-- For any scenario: the pool has at least one worker and the channel holds at least one token; a
-- positive burst_buffer is the capacity of the channel; otherwise the channel holds a token for each
-- worker of the pool, and, for a target_tps from 0 to below 2 ^ 62, at least two seconds of tokens.
burst_buffer_bounds :
    {F : Type 0} (cfg : ScenarioConfig F)
    → (1 ≤ pool_size cfg)
      × IsPositive (burst_buffer cfg)
      × (is_pos cfg.burst_buffer ≡ true → burst_buffer cfg ≡ cfg.burst_buffer)
      × (is_pos cfg.burst_buffer ≡ false
          → (pool_size cfg ≤ pos_part (burst_buffer cfg))
            × ((tps : ℕ)
                → cfg.target_tps ≡ pos tps
                → tps < 4611686018427387904
                → 2 * tps ≤ pos_part (burst_buffer cfg)))
unfolding pool_size burst_buffer
burst_buffer_bounds cfg = (
  ground arith,
  ground arith,
  λ h. ground arith,
  λ h. (
    ground arith,
    λ tps e small.
        let exact = double_lem tps small in ground (arith, ap (λ t. wrap64 (2 * bits t)) e),
  ),
)
