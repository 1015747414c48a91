-- ===== src/Config/Scenario/Rules.antt =====
-- internal/config/validate.go: the validation of a scenario keeps the rules of its thresholds.
use Prim.Native.String.{◌++◌}
use vuhive.Prelude.{String, [], ◌≡◌, ok, ok_inj, subst, ap, >>-eq-ok, >>=-eq-ok, is_neg, FloatOps}
use vuhive.Config.Model.{ScenarioConfig}
use vuhive.Config.Delays.{delay_validators}
use vuhive.Config.Thresholds.{Parsers, complain, validate_thresholds}
use vuhive.Config.Thresholds.Rules.{SameRules, validate_thresholds-SameRules}
use vuhive.Config.Delays.{validate_interaction_delay, validate_think_time}
use vuhive.Config.Scenario.{
  check_type, default_timeout, check_ranges, check_params, validate_http_config, check_clients,
  if_present, validate_scenario,
}

module _ {F : Type 0} (ops : FloatOps F) (parsers : Parsers F) where
  pub validate_scenario-SameRules :
      (name : String) (sc : ScenarioConfig F) {out : ScenarioConfig F}
      → validate_scenario ops parsers delay_validators name sc ≡ ok out
      → SameRules parsers sc.thresholds out.thresholds
  unfolding validate_scenario
  validate_scenario-SameRules name sc h =
      let p = "scenarios." ++ name in
      let (typed, h1) = >>-eq-ok (check_type ops p sc) _ h in
      let (timed, h2) =
        >>-eq-ok (complain (p ++ ".vu_timeout") "must be >= 0" (is_neg sc.vu_timeout)) _ h1 in
      let (ranged, h3) = >>-eq-ok (check_ranges ops p (default_timeout sc)) _ h2 in
      let (paramed, h4) = >>-eq-ok (check_params ops p sc.params) _ h3 in
      let (acted, h5) =
        >>-eq-ok (if_present sc.interaction_delay (validate_interaction_delay delay_validators p)) _
          h4 in
      let (thought, h6) =
        >>-eq-ok (if_present sc.think_time (validate_think_time delay_validators p)) _ h5 in
      let (served, h7) =
        >>-eq-ok (if_present sc.http (validate_http_config ops (p ++ ".http"))) _ h6 in
      let (named, h8) = >>-eq-ok (check_clients ops p sc.http_clients) _ h7 in
      let (ths, ruled, h9) = >>=-eq-ok (validate_thresholds parsers p 0 [] sc.thresholds) _ h8 in
      subst (SameRules parsers sc.thresholds)
        (ap (λ (c : ScenarioConfig F). c.thresholds) (ok_inj h9))
        (validate_thresholds-SameRules parsers p 0 [] sc.thresholds ruled)
