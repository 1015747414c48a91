-- ===== src/Config/Scenario/Capacity.antt =====
-- internal/config/validate.go checks Little's law before it fills in the timeout, so a scenario whose
-- timeout is left out is not checked against the deadline that it runs with.
use vuhive.Prelude.{
  String, pos, false, ◌≡◌, ap, ◌∙◌, inl, inr, ok, Result-cases, FloatOps, is_ok, ◌<ℤ◌, ◌≤ℤ◌, arith,
}
use vuhive.Config.Model.{ScenarioConfig, default_guard_deadline, scenario_type_arrival_rate}
use vuhive.Config.Delays.{delay_validators}
use vuhive.Config.Thresholds.{Parsers}
use vuhive.Config.Scenario.{required_vus, validate_scenario}
use vuhive.Config.Scenario.Sound.{validate_scenario-IsScenarioValid, guarded_timeout}

module _ {F : Type 0} (ops : FloatOps F) (parsers : Parsers F) where
  -- An arrival_rate scenario that leaves its timeout out runs with the guard deadline. If it is accepted
  -- although max_vus is below what Little's law requires for that deadline, then the accepted
  -- configuration, validated again, is refused.
  pub capacity_unchecked :
      (name : String) (sc : ScenarioConfig F) {out : ScenarioConfig F}
      → sc.kind ≡ scenario_type_arrival_rate
      → sc.vu_timeout ≡ pos 0
      → sc.allow_unbounded_iterations ≡ false
      → validate_scenario ops parsers delay_validators name sc ≡ ok out
      → sc.max_vus <ℤ required_vus ops sc.target_tps default_guard_deadline
      → (out.vu_timeout ≡ default_guard_deadline)
        × (is_ok (validate_scenario ops parsers delay_validators name out) ≡ false)
  capacity_unchecked name sc {out} kind unset guarded accepted few =
      let (valid, capacity, same) =
        validate_scenario-IsScenarioValid ops parsers name sc accepted in
      let deadline : guarded_timeout ops parsers sc ≡ default_guard_deadline =
        ground (arith, unset, guarded) in
      let timed = ap (λ (c : ScenarioConfig F). c.vu_timeout) same ∙ deadline in
      (
        timed,
        elim (Result-cases (validate_scenario ops parsers delay_validators name out)) [
          | inr (e, failed) ↦ rw failed
          | inl (again, passed) ↦
              let (valid', law, same') =
                validate_scenario-IsScenarioValid ops parsers name out passed in
              let tps = ap (λ (c : ScenarioConfig F). c.target_tps) same in
              let cap' = ap (λ (c : ScenarioConfig F). c.max_vus) same in
              let enough : required_vus ops sc.target_tps default_guard_deadline ≤ℤ sc.max_vus =
                rw (← tps, ← cap', ← timed)
                  (law (ap (λ (c : ScenarioConfig F). c.kind) same ∙ kind)
                    (rw timed (omega arith))) in
              absurd (omega arith)
        ],
      )
