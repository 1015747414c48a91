-- ===== src/Config/Scenario/Sound.antt =====
-- internal/config/validate.go: validateScenario as a whole.
use Prim.Native.String.{◌++◌}
use vuhive.Prelude.{
  ap, String, List, [], Option, none, some, ℤ, Bool, true, false, not, is_neg, is_zero, ◌≡◌, refl,
  sym, ◌∙◌, subst, ◌&&◌, Result, ok, Checked, if◌then◌else◌, FloatOps, IsNonneg, IsPositive, All,
  arith, >>=-eq-ok, >>-eq-ok, ok_inj,
}
use vuhive.Config.Model.{
  ScenarioConfig, ThresholdConfig, ThinkTimeConfig, ValidationError, default_guard_deadline,
}
use vuhive.Config.Delays.{
  delay_validators, validate_interaction_delay, validate_think_time, validate_delay_config,
}
use vuhive.Config.Delays.Bounds.{IsDelayValid, validate_delay_config-IsDelayValid}
use vuhive.Config.Thresholds.{Parsers, complain, validate_thresholds}
use vuhive.Config.Thresholds.Kinds.{
  AreValid, validate_thresholds-AreValid, validate_thresholds-fixed,
}
use vuhive.Config.Scenario.{
  check_type, default_timeout, check_ranges, check_params, validate_http_config, check_clients,
  if_present, validate_scenario,
}
use vuhive.Config.Scenario.Valid.{
  IsPacingValid, constant, arrival, ramping, IsHttpValid, IsParamValid, IsClientValid, IfPresent,
  AreRangesValid, HasCapacity, ranges_iff, params_iff, http_iff, clients_iff, type_of_ok,
  type_complete,
}

neg_of_nonneg : (a : ℤ) → IsNonneg a → is_neg a ≡ false
neg_of_nonneg a h = ground arith

nonneg : (a : ℤ) → is_neg a ≡ false → IsNonneg a
nonneg a h = ground arith

module _ {F : Type 0} (ops : FloatOps F) (parsers : Parsers F) where
  pub record IsScenarioValid (sc : ScenarioConfig F) : Type 0 where
    pub pacing : IsPacingValid sc
    pub timeout_range : IsNonneg sc.vu_timeout
    pub guarded : sc.allow_unbounded_iterations ≡ false → IsPositive sc.vu_timeout
    pub ranges : AreRangesValid ops sc
    pub params : All IsParamValid sc.params
    pub interaction : IfPresent IsDelayValid sc.interaction_delay
    pub thinking : IfPresent IsDelayValid sc.think_time
    pub http : IfPresent IsHttpValid sc.http
    pub clients : All IsClientValid sc.http_clients
    pub thresholds : AreValid parsers [] sc.thresholds

  abbrev validate : String → ScenarioConfig F → Result (ValidationError F) (ScenarioConfig F)
  validate = validate_scenario ops parsers delay_validators

  if_present-ok :
      {A : Type 0} (P : A → Type 0) (o : Option A) (check : A → Checked (ValidationError F))
      → ((a : A) → check a ≡ ok tt → P a)
      → if_present o check ≡ ok tt
      → IfPresent P o
  if_present-ok P none check each h = tt
  if_present-ok P (some a) check each h = each a h

  if_present_complete :
      {A : Type 0} (P : A → Type 0) (o : Option A) (check : A → Checked (ValidationError F))
      → ((a : A) → P a → check a ≡ ok tt)
      → IfPresent P o
      → if_present o check ≡ ok tt
  if_present_complete P none check each h = refl
  if_present_complete P (some a) check each h = each a h

  -- A timeout that is left out is the guard deadline, unless iterations may be unbounded.
  abbrev pub guarded_timeout : ScenarioConfig F → ℤ
  guarded_timeout sc =
      if is_zero sc.vu_timeout && not sc.allow_unbounded_iterations
      then default_guard_deadline
      else sc.vu_timeout

  default_timeout-valid :
      (sc : ScenarioConfig F)
      → IsNonneg sc.vu_timeout
      → IsNonneg (guarded_timeout sc)
        × (sc.allow_unbounded_iterations ≡ false → IsPositive (guarded_timeout sc))
        × (default_timeout sc ≡ record sc { vu_timeout = guarded_timeout sc })
  unfolding default_timeout
  default_timeout-valid sc h = ground arith

  complain-ok : (f m : String) (bad : Bool) → complain {F = F} f m bad ≡ ok tt → bad ≡ false
  complain-ok f m true h = cc
  complain-ok f m false h = refl

  pacing_keep :
      (sc : ScenarioConfig F) (t : ℤ) (ths : List (ThresholdConfig F))
      → IsPacingValid sc
      → IsPacingValid (record sc { vu_timeout = t; thresholds = ths })
  pacing_keep sc t ths (constant k a b) = constant k a b
  pacing_keep sc t ths (arrival k a b c d) = arrival k a b c d
  pacing_keep sc t ths (ramping k a b) = ramping k a b

  ranges_keep :
      (sc : ScenarioConfig F) (t : ℤ) (ths : List (ThresholdConfig F))
      → AreRangesValid ops sc
      → AreRangesValid ops (record sc { vu_timeout = t; thresholds = ths })
  ranges_keep sc t ths v = ground arith

  ranges_back :
      (sc : ScenarioConfig F) (t : ℤ)
      → AreRangesValid ops (record sc { vu_timeout = t })
      → AreRangesValid ops sc
  ranges_back sc t v = ground arith

  delay-ok :
      (p : String) (d : ThinkTimeConfig)
      → validate_delay_config {F = F} delay_validators p d ≡ ok tt
      → IsDelayValid d
  delay-ok p d = (validate_delay_config-IsDelayValid {F = F} p d).0

  -- Validation of a scenario, with the delay validators of the package: what it returns is a valid
  -- scenario, an arrival_rate input with an explicit timeout has the capacity that Little's law asks
  -- for, and nothing is changed but the thresholds and a timeout that was left out.
  pub validate_scenario-IsScenarioValid :
      (name : String) (sc : ScenarioConfig F) {out : ScenarioConfig F}
      → validate_scenario ops parsers delay_validators name sc ≡ ok out
      → IsScenarioValid out
        × HasCapacity ops sc
        × (out ≡ record sc { vu_timeout = guarded_timeout sc; thresholds = out.thresholds })
  unfolding validate_scenario validate_interaction_delay validate_think_time
  validate_scenario-IsScenarioValid name sc {out} h =
      let p = "scenarios." ++ name in
      let (typed, h1) = >>-eq-ok (check_type ops p sc) _ h in
      let (timed, h2) =
        >>-eq-ok (complain (p ++ ".vu_timeout") "must be >= 0" (is_neg sc.vu_timeout)) _ h1 in
      let (ranged, h3) = >>-eq-ok (check_ranges ops p (default_timeout sc)) _ h2 in
      let (paramed, h4) = >>-eq-ok (check_params ops p sc.params) _ h3 in
      let (acted, h5) =
        >>-eq-ok (if_present sc.interaction_delay (validate_interaction_delay delay_validators p)) _
          h4 in
      let (thought, h6) =
        >>-eq-ok (if_present sc.think_time (validate_think_time delay_validators p)) _ h5 in
      let (served, h7) =
        >>-eq-ok (if_present sc.http (validate_http_config ops (p ++ ".http"))) _ h6 in
      let (named, h8) = >>-eq-ok (check_clients ops p sc.http_clients) _ h7 in
      let (ths, ruled, h9) = >>=-eq-ok (validate_thresholds parsers p 0 [] sc.thresholds) _ h8 in
      let (in_range, guarded, kept) =
        default_timeout-valid sc
          (nonneg sc.vu_timeout (complain-ok (p ++ ".vu_timeout") "must be >= 0" _ timed)) in
      let (pacing, capacity) = type_of_ok ops p sc typed in
      let t = guarded_timeout sc in
      let same : record sc { vu_timeout = t; thresholds = ths } ≡ out =
        ap (λ (c : ScenarioConfig F). record c { thresholds = ths }) (sym kept) ∙ ok_inj h9 in
      subst
        (λ o.
          IsScenarioValid o
          × HasCapacity ops sc
          × (o ≡ record sc { vu_timeout = t; thresholds = o.thresholds }))
        same
        (
          record {
            pacing = pacing_keep sc t ths pacing;
            timeout_range = in_range;
            guarded = guarded;
            ranges = ranges_keep sc t ths (
                ranges_back sc t (subst (AreRangesValid ops) kept ((ranges_iff ops p _).0 ranged)));
            params = (params_iff ops p sc.params).0 paramed;
            interaction =
                if_present-ok IsDelayValid sc.interaction_delay _
                  (λ d. delay-ok (p ++ ".interaction_delay") d) acted;
            thinking =
                if_present-ok IsDelayValid sc.think_time _ (λ d. delay-ok (p ++ ".think_time") d)
                  thought;
            http =
                if_present-ok IsHttpValid sc.http _ (λ c. (http_iff ops (p ++ ".http") c).0) served;
            clients = (clients_iff ops p sc.http_clients).0 named;
            thresholds = (validate_thresholds-AreValid parsers p 0 [] sc.thresholds ruled).0;
          },
          capacity,
          refl,
        )

  default_timeout-fixed :
      (sc : ScenarioConfig F)
      → (sc.allow_unbounded_iterations ≡ false → IsPositive sc.vu_timeout)
      → default_timeout sc ≡ sc
  unfolding default_timeout
  default_timeout-fixed sc h = ground arith

  -- A valid scenario with the capacity that Little's law asks for passes, and is returned as it is.
  pub validate_scenario-fixed :
      (name : String) (sc : ScenarioConfig F)
      → IsScenarioValid sc
      → HasCapacity ops sc
      → validate_scenario ops parsers delay_validators name sc ≡ ok sc
  unfolding validate_scenario validate_interaction_delay validate_think_time
  validate_scenario-fixed name sc v law =
      let p = "scenarios." ++ name in
      rw (
        type_complete ops p sc v.pacing law,
        neg_of_nonneg sc.vu_timeout v.timeout_range,
        default_timeout-fixed sc v.guarded,
        (ranges_iff ops p sc).1 v.ranges,
        (params_iff ops p sc.params).1 v.params,
        if_present_complete IsDelayValid sc.interaction_delay
            (λ d. validate_delay_config {F = F} delay_validators (p ++ ".interaction_delay") d)
            (λ d. (validate_delay_config-IsDelayValid {F = F} (p ++ ".interaction_delay") d).1)
            v.interaction,
        if_present_complete IsDelayValid sc.think_time
            (λ d. validate_delay_config {F = F} delay_validators (p ++ ".think_time") d)
            (λ d. (validate_delay_config-IsDelayValid {F = F} (p ++ ".think_time") d).1) v.thinking,
        if_present_complete IsHttpValid sc.http (validate_http_config ops (p ++ ".http"))
            (λ c. (http_iff ops (p ++ ".http") c).1) v.http,
        (clients_iff ops p sc.http_clients).1 v.clients,
        validate_thresholds-fixed parsers p 0 [] sc.thresholds v.thresholds,
      )
