-- ===== src/Engine/Quorum/Bounds.antt =====
-- NewStartupQuorumGate of internal/engine/quorum.go: the bounds of a new gate.
use vuhive.Prelude.{ℕ, ◌≤◌, ◌<◌, ◌≡◌, refl, false, none, arith, ℤ, pos, pos_part, FloatOps}
use vuhive.Engine.Quorum.{new_startup_quorum_gate, clamp_target, clamp_required}

clamp_target_pos : (t : ℤ) → 1 ≤ clamp_target t
unfolding clamp_target
clamp_target_pos t = ground arith

clamp_required_bounds :
    (t : ℕ) (r : ℤ) → 1 ≤ t → (1 ≤ clamp_required t r) × (clamp_required t r ≤ t)
unfolding clamp_required
clamp_required_bounds t r h = ground arith

module _ {F E : Type 0} where
  -- Whatever the ratio and the float arithmetic give, a new gate requires at least one and at most
  -- `target` workers, is neither open nor aborted, and has a positive grace period.
  pub new_startup_quorum_gate_bounds :
      (ops : FloatOps F) (target : ℤ) (ratio : F) (grace : ℤ)
      → let g = new_startup_quorum_gate {E = E} ops target ratio grace in
        (1 ≤ g.required)
        × (g.required ≤ g.target)
        × (g.opened ≡ false)
        × (g.abort_err ≡ none)
        × (0 < pos_part g.grace_period)
  unfolding new_startup_quorum_gate
  new_startup_quorum_gate_bounds ops target ratio grace =
      let t = clamp_target target in
      let (low, high) =
        clamp_required_bounds t (ops.ceil (ops.mul (ops.of_int (pos t)) ratio))
          (clamp_target_pos target) in
      (low, high, refl, refl, ground arith)
