-- ===== src/Config/Thresholds/Rules.antt =====
-- internal/config/validate.go: the validation of a list of thresholds keeps the rules.
use vuhive.Prelude.{ℕ, suc, String, List, [], ◌∷◌, ◌≡◌, ok, ok_inj, subst, >>=-eq-ok, insert}
use vuhive.Config.Model.{ThresholdConfig}
use vuhive.Config.Stats.{inferred_metric_kind}
use vuhive.Config.Thresholds.{Parsers, validate_threshold, check_kind, validate_thresholds}
use vuhive.Config.Thresholds.Sound.{SameRule, validate_threshold-IsThresholdValid}

module _ {F : Type 0} (parsers : Parsers F) where
  -- The same rules, one by one and in the same order.
  abbrev pub SameRules : List (ThresholdConfig F) → List (ThresholdConfig F) → Type 0
  SameRules [] [] = Unit {0}
  SameRules [] (out ∷ outs) = ⊥
  SameRules (th ∷ ths) [] = ⊥
  SameRules (th ∷ ths) (out ∷ outs) = SameRule parsers th out × SameRules ths outs

  pub validate_thresholds-SameRules :
      (p : String) (i : ℕ) (kinds : List (String × String)) (ths : List (ThresholdConfig F))
      {outs : List (ThresholdConfig F)}
      → validate_thresholds parsers p i kinds ths ≡ ok outs
      → SameRules ths outs
  unfolding validate_thresholds
  validate_thresholds-SameRules p i kinds [] h = subst (SameRules []) (ok_inj h) tt
  validate_thresholds-SameRules p i kinds (th ∷ ths) h =
      let (out, first, h2) = >>=-eq-ok (validate_threshold parsers p i th) _ h in
      let (u, checked, h3) = >>=-eq-ok (check_kind p i kinds out) _ h2 in
      let (rest, later, h4) =
        >>=-eq-ok
          (validate_thresholds parsers p (suc i)
            (insert out.metric (inferred_metric_kind out.stat) kinds) ths)
          _ h3 in
      subst (SameRules (th ∷ ths)) (ok_inj h4) (
        (validate_threshold-IsThresholdValid parsers p i th first).1,
        validate_thresholds-SameRules p (suc i)
            (insert out.metric (inferred_metric_kind out.stat) kinds) ths later,
      )
