-- ===== src/Engine/Constant.antt =====
-- internal/engine/constant_vus.go: the constant_vus pacer around its goroutines, which are in Worker. The
-- pacer is the list of what it does; what its `select`s receive, and the answer of the gate, are inputs.
pub mod Orderly
mod Tests
use vuhive.Prelude.{
  ℕ, zero, suc, ◌/◌, Bool, true, false, List, [], ◌∷◌, ◌++◌, map, Option, none, some, ℤ, pos,
  pos_part, is_pos, ltb, not, ◌&&◌, ◌==◌, if◌then◌else◌, FloatOps,
}
use vuhive.Config.Model.{ScenarioConfig}
use vuhive.Engine.Drain.{DrainAct, DrainPick, drain_workers}

pub data PacerAct : Type 0 where
  spawned : ℕ → PacerAct
  -- cancel(), before the drain.
  cancel_run : PacerAct
  -- close(stopCh)
  stop_closed : PacerAct
  draining : DrainAct → PacerAct

pub data PacerError (Q : Type 0) : Type 0 where
  -- runCtx.Err()
  run_done : PacerError Q
  no_quorum : Q → PacerError Q

pub record PacerInput (Q : Type 0) : Type 0 where
  -- Whether runCtx is done in the wait before a virtual user is spawned.
  pub cut : ℕ → Bool
  -- AwaitQuorum's error.
  pub quorum : Option Q
  pub has_logger : Bool
  -- The two readings of the gauge by the drain, and its branch.
  pub active : ℤ
  pub before_cancel : ℤ
  pub pick : DrainPick

-- cfg.RampUp / time.Duration(cfg.VUs)
unfoldable pub spawn_interval : {F : Type 0} → ScenarioConfig F → ℕ
spawn_interval cfg =
    if is_pos cfg.ramp_up && is_pos cfg.vus then pos_part cfg.ramp_up / pos_part cfg.vus else 0

-- The spawning loop from the i-th virtual user, and whether it was cut.
pub spawn_vus : (ℕ → Bool) → ℕ → ℕ → List PacerAct × Bool
spawn_vus cut zero i = ([], false)
spawn_vus cut (suc n) i =
    let (rest, was_cut) = spawn_vus cut n (suc i) in
    if cut i then ([], true) else (spawned i ∷ rest, was_cut)

-- close(stopCh) and the drain.
pub wind_down : {Q : Type 0} → PacerInput Q → List PacerAct
wind_down input =
    stop_closed
    ∷ map draining (drain_workers input.active input.before_cancel input.has_logger input.pick)

module _ {F Q : Type 0} (ops : FloatOps F) (cfg : ScenarioConfig F) (input : PacerInput Q) where
  -- After the loop: the gate, and the wait for the active duration or the end of the context.
  pub after_spawning : List PacerAct × Option (PacerError Q)
  unfolding wind_down
  after_spawning =
      let answer =
        (if ops.lt (ops.of_int (pos 0)) cfg.min_ready_ratio then input.quorum else none) in
      elim answer [
        | some e ↦ (cancel_run ∷ wind_down input, some (no_quorum e))
        | none ↦ (wind_down input, none)
      ]

  -- What follows the spawned users, and whether the loop was cut.
  pub leave : List PacerAct → Bool → List PacerAct × Option (PacerError Q)
  leave spawns true = (spawns ++ wind_down input, some run_done)
  leave spawns false = (spawns ++ after_spawning.0, after_spawning.1)

  -- The wait stands before every virtual user but the first, if there is an interval.
  pub run_constant_vus : List PacerAct × Option (PacerError Q)
  unfolding leave spawn_interval
  run_constant_vus =
      let waits = ltb 0 (spawn_interval cfg) in
      let (spawns, was_cut) =
        spawn_vus (λ i. ltb 1 i && waits && input.cut i) (pos_part cfg.vus) 1 in
      leave spawns was_cut
