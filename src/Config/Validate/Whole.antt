-- ===== src/Config/Validate/Whole.antt =====
-- internal/config/validate.go: what a configuration that Validate accepts satisfies.
use vuhive.Prelude.{
  ◌∙◌, String, List, [], ◌∷◌, true, false, ◌≡◌, ◌≢◌, refl, ap, subst, is_empty, is_some, ok, lookup,
  FloatOps, All, arith, eq_iff, >>=-eq-ok, >>-eq-ok, ok_inj,
}
use vuhive.Config.Model.{Config, ScenarioConfig}
use vuhive.Config.Delays.{delay_validators}
use vuhive.Config.Thresholds.{Parsers}
use vuhive.Config.Scenario.{validate_scenario}
use vuhive.Config.Scenario.Sound.{IsScenarioValid, validate_scenario-IsScenarioValid}
use vuhive.Config.Validate.{is_nil, validate_each, check_config, validate}

abbrev pub names : {V : Type 0} → List (String × V) → List String
names [] = []
names ((k, v) ∷ m) = k ∷ names m

lookup_same :
    {V W : Type 0} (k : String) (m : List (String × V)) (n : List (String × W))
    → names m ≡ names n
    → is_some (lookup k m) ≡ is_some (lookup k n)
lookup_same k [] [] e = refl
lookup_same k [] ((j, w) ∷ n) e = cc
lookup_same k ((i, v) ∷ m) [] e = cc
lookup_same k ((i, v) ∷ m) ((j, w) ∷ n) e =
    let tail : names m ≡ names n = cc in
    let head : i ≡ j = cc in rw head (ground (arith, lookup_same k m n tail))

names-ne-nil :
    {V W : Type 0} (m : List (String × V)) (n : List (String × W))
    → names m ≡ names n
    → is_nil n ≡ false
    → m ≢ []
unfolding is_nil
names-ne-nil [] [] e h p = cc
names-ne-nil [] ((j, w) ∷ n) e h p = cc
names-ne-nil ((i, v) ∷ m) n e h p = cc

module _ {F : Type 0} (ops : FloatOps F) (parsers : Parsers F) where
  pub record IsConfigValid (cfg : Config F) : Type 0 where
    pub version : cfg.version ≡ "1.0"
    pub some_scenario : cfg.scenarios ≢ []
    pub default_known :
        is_empty cfg.default_scenario ≡ false
        → is_some (lookup cfg.default_scenario cfg.scenarios) ≡ true
    pub scenarios :
        All
          (λ (entry : String × ScenarioConfig F). IsScenarioValid ops parsers entry.1)
          cfg.scenarios

  -- A chain of scenarios that passed, taken apart.
  pub validate_each-nil :
      {outs : List (String × ScenarioConfig F)}
      → validate_each ops parsers delay_validators [] ≡ ok outs
      → [] ≡ outs
  unfolding validate_each
  validate_each-nil h = ok_inj h

  pub validate_each-cons :
      (name : String) (sc : ScenarioConfig F) (rest : List (String × ScenarioConfig F))
      {outs : List (String × ScenarioConfig F)}
      → validate_each ops parsers delay_validators ((name, sc) ∷ rest) ≡ ok outs
      → (out : ScenarioConfig F) × (rest' : List (String × ScenarioConfig F)) × (validate_scenario
            ops parsers delay_validators name sc
          ≡ ok out)
        × (validate_each ops parsers delay_validators rest ≡ ok rest')
        × ((name, out) ∷ rest' ≡ outs)
  unfolding validate_each
  validate_each-cons name sc rest h =
      let (out, first, h1) =
        >>=-eq-ok (validate_scenario ops parsers delay_validators name sc) _ h in
      let (rest', later, h2) = >>=-eq-ok (validate_each ops parsers delay_validators rest) _ h1 in
      (out, rest', first, later, ok_inj h2)

  -- The scenarios of a configuration that passed are those of its chain.
  pub validate-parts :
      (cfg : Config F) {out : Config F}
      → validate ops parsers delay_validators cfg ≡ ok out
      → (scs : List (String × ScenarioConfig F)) × (validate_each ops parsers delay_validators
            cfg.scenarios
          ≡ ok scs)
        × (record cfg { scenarios = scs } ≡ out)
  unfolding validate
  validate-parts cfg h =
      let (checked, h1) = >>-eq-ok (check_config cfg) _ h in
      let (scs, each, h2) =
        >>=-eq-ok (validate_each ops parsers delay_validators cfg.scenarios) _ h1 in
      (scs, each, ok_inj h2)

  validate_each-valid :
      (scs : List (String × ScenarioConfig F)) {outs : List (String × ScenarioConfig F)}
      → validate_each ops parsers delay_validators scs ≡ ok outs
      → All (λ (entry : String × ScenarioConfig F). IsScenarioValid ops parsers entry.1) outs
        × (names outs ≡ names scs)
  validate_each-valid [] {outs} h =
      subst
        (λ o.
          All (λ (entry : String × ScenarioConfig F). IsScenarioValid ops parsers entry.1) o
          × (names o ≡ []))
        (validate_each-nil h) (tt, refl)
  validate_each-valid ((name, sc) ∷ scs) {outs} h =
      let (out, rest, first, later, e) = validate_each-cons name sc scs h in
      let (all, same) = validate_each-valid scs later in
      subst
        (λ o.
          All (λ (entry : String × ScenarioConfig F). IsScenarioValid ops parsers entry.1) o
          × (names o ≡ name ∷ names scs))
        e
        (((validate_scenario-IsScenarioValid ops parsers name sc first).0, all), ap (◌∷◌ name) same)

  check_config-ok :
      (cfg : Config F)
      → check_config cfg ≡ ok tt
      → (cfg.version ≡ "1.0")
        × (is_nil cfg.scenarios ≡ false)
        × (is_empty cfg.default_scenario ≡ false
            → is_some (lookup cfg.default_scenario cfg.scenarios) ≡ true)
  unfolding check_config
  check_config-ok cfg h = ground (arith, eq_iff cfg.version "1.0")

  -- A configuration that Validate returns has version 1.0, at least one scenario, a default scenario
  -- that is one of them if it names any, and only valid scenarios. Its scenarios are those of the
  -- input, by name and order.
  pub validate-IsConfigValid :
      (cfg : Config F) {out : Config F}
      → validate ops parsers delay_validators cfg ≡ ok out
      → IsConfigValid out × (names out.scenarios ≡ names cfg.scenarios)
  unfolding validate
  validate-IsConfigValid cfg {out} h =
      let (checked, h1) = >>-eq-ok (check_config cfg) _ h in
      let (scs, each, h2) =
        >>=-eq-ok (validate_each ops parsers delay_validators cfg.scenarios) _ h1 in
      let (all, same) = validate_each-valid cfg.scenarios each in
      let (v, n, d) = check_config-ok cfg checked in
      subst (λ o. IsConfigValid o × (names o.scenarios ≡ names cfg.scenarios)) (ok_inj h2)
        (
          record {
            version = v;
            some_scenario = names-ne-nil scs cfg.scenarios same n;
            default_known =
                λ named. lookup_same cfg.default_scenario scs cfg.scenarios same ∙ d named;
            scenarios = all;
          },
          same,
        )
