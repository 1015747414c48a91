-- ===== src/Config/Decoding/Loaded.antt =====
-- internal/config/loader.go and dto.go: what a loaded configuration is, next to the decoded one.
use vuhive.Prelude.{
  String, List, [], ◌∷◌, Option, none, some, ◌≡◌, refl, sym, ◌∙◌, ap, subst, ℤ, pos, is_zero, not,
  ◌&&◌, Result, ok, err, FloatOps, if◌then◌else◌, ok_inj, ◌⊎◌, Result-cases, inl, inr, arith,
}
use vuhive.Config.Model.{Config, ScenarioConfig, default_guard_deadline}
use vuhive.Config.Delays.{delay_validators}
use vuhive.Config.Thresholds.{Parsers}
use vuhive.Config.Scenario.Sound.{guarded_timeout, validate_scenario-IsScenarioValid}
use vuhive.Config.Thresholds.Rules.{SameRules}
use vuhive.Config.Scenario.Rules.{validate_scenario-SameRules}
use vuhive.Config.Validate.{validate_each, validate}
use vuhive.Config.Validate.Whole.{
  IsConfigValid, validate-IsConfigValid, validate_each-nil, validate_each-cons, validate-parts,
}
use vuhive.Config.Decoding.Fields.{
  ArePairs, IfSome, IsStageOf, IsThinkTimeOf, IsHttpOf, IsClientOf, IsThresholdOf,
  SameRules-ArePairs, each-ArePairs, if_some-IsThinkTimeOf, if_some-IsHttpOf, entries-ArePairs,
}
use vuhive.Config.Decoding.{
  ScenarioConfigDto, ConfigDto, each, entries, scenario_model, to_model, invalid, load_dto, load,
  load_from_file,
}

err≢ok : {E A : Type 0} {e : E} {a : A} → ◌≡◌ {A = Result E A} (err e) (ok a) → ⊥
err≢ok h = cc

module _ {F : Type 0} (ops : FloatOps F) (parsers : Parsers F) where
  -- A scenario, next to what was decoded.
  pub record IsFilledIn (d : ScenarioConfigDto F) (sc : ScenarioConfig F) : Type 0 where
    -- drain_period stands in for a missing drain.
    pub drain : sc.drain ≡ (if is_zero d.drain then d.drain_period else d.drain)
    pub retries_default : d.max_pretest_retries ≡ none → sc.max_pretest_retries ≡ pos 3
    pub retries : (n : ℤ) → d.max_pretest_retries ≡ some n → sc.max_pretest_retries ≡ n
    -- The guard deadline stands in for a missing deadline of bounded iterations.
    pub deadline : sc.vu_timeout ≡ (
        if is_zero d.vu_timeout && not d.allow_unbounded_iterations
        then default_guard_deadline
        else d.vu_timeout)
    pub kind : sc.kind ≡ d.kind
    pub vus : sc.vus ≡ d.vus
    pub target_tps : sc.target_tps ≡ d.target_tps
    pub max_vus : sc.max_vus ≡ d.max_vus
    pub burst_buffer : sc.burst_buffer ≡ d.burst_buffer
    pub ramp_up : sc.ramp_up ≡ d.ramp_up
    pub run_period : sc.run_period ≡ d.run_period
    pub ramp_down : sc.ramp_down ≡ d.ramp_down
    pub min_ready_ratio : sc.min_ready_ratio ≡ d.min_ready_ratio
    pub startup_grace_period : sc.startup_grace_period ≡ d.startup_grace_period
    pub allow_unbounded_iterations : sc.allow_unbounded_iterations ≡ d.allow_unbounded_iterations
    pub watchdog_stall_threshold : sc.watchdog_stall_threshold ≡ d.watchdog_stall_threshold
    pub watchdog_interval : sc.watchdog_interval ≡ d.watchdog_interval
    pub params : sc.params ≡ d.params
    pub strict_mode : sc.strict_mode ≡ d.strict
    pub stages : ArePairs IsStageOf d.stages sc.stages
    pub interaction_delay : IfSome IsThinkTimeOf d.interaction_delay sc.interaction_delay
    pub think_time : IfSome IsThinkTimeOf d.think_time sc.think_time
    pub thresholds : ArePairs IsThresholdOf d.thresholds sc.thresholds
    pub http : IfSome IsHttpOf d.http sc.http
    pub http_clients : ArePairs IsClientOf d.http_clients sc.http_clients

  pub AreFilledIn : List (String × ScenarioConfigDto F) → List (String × ScenarioConfig F) → Type 0
  AreFilledIn [] [] = Unit {0}
  AreFilledIn [] (b ∷ m) = ⊥
  AreFilledIn (a ∷ m) [] = ⊥
  AreFilledIn ((name, d) ∷ m) ((name', sc) ∷ n) = (name ≡ name') × IsFilledIn d sc × AreFilledIn m n

  scenario_model_lem :
      (d : ScenarioConfigDto F) {sc : ScenarioConfig F}
      → sc ≡ record (scenario_model ops d) {
        vu_timeout = guarded_timeout ops parsers (scenario_model ops d);
        thresholds = sc.thresholds;
      }
      → SameRules parsers (scenario_model ops d).thresholds sc.thresholds
      → IsFilledIn d sc
  unfolding scenario_model
  scenario_model_lem d {sc} e rules = record {
    thresholds = SameRules-ArePairs ops parsers d.thresholds sc.thresholds rules;
    drain = ap (λ (s : ScenarioConfig F). s.drain) e ∙ ground arith;
    retries_default = λ h. ap (λ (s : ScenarioConfig F). s.max_pretest_retries) e ∙ simp h refl;
    retries = λ n h. ap (λ (s : ScenarioConfig F). s.max_pretest_retries) e ∙ simp h refl;
    deadline = ap (λ (s : ScenarioConfig F). s.vu_timeout) e;
    kind = ap (λ (s : ScenarioConfig F). s.kind) e;
    vus = ap (λ (s : ScenarioConfig F). s.vus) e;
    target_tps = ap (λ (s : ScenarioConfig F). s.target_tps) e;
    max_vus = ap (λ (s : ScenarioConfig F). s.max_vus) e;
    burst_buffer = ap (λ (s : ScenarioConfig F). s.burst_buffer) e;
    ramp_up = ap (λ (s : ScenarioConfig F). s.ramp_up) e;
    run_period = ap (λ (s : ScenarioConfig F). s.run_period) e;
    ramp_down = ap (λ (s : ScenarioConfig F). s.ramp_down) e;
    min_ready_ratio = ap (λ (s : ScenarioConfig F). s.min_ready_ratio) e;
    startup_grace_period = ap (λ (s : ScenarioConfig F). s.startup_grace_period) e;
    allow_unbounded_iterations = ap (λ (s : ScenarioConfig F). s.allow_unbounded_iterations) e;
    watchdog_stall_threshold = ap (λ (s : ScenarioConfig F). s.watchdog_stall_threshold) e;
    watchdog_interval = ap (λ (s : ScenarioConfig F). s.watchdog_interval) e;
    params = ap (λ (s : ScenarioConfig F). s.params) e;
    strict_mode = ap (λ (s : ScenarioConfig F). s.strict_mode) e;
    stages =
        subst (ArePairs IsStageOf d.stages) (sym (ap (λ (s : ScenarioConfig F). s.stages) e))
          (each-ArePairs d.stages);
    interaction_delay =
        subst (IfSome IsThinkTimeOf d.interaction_delay)
          (sym (ap (λ (s : ScenarioConfig F). s.interaction_delay) e))
          (if_some-IsThinkTimeOf d.interaction_delay);
    think_time =
        subst (IfSome IsThinkTimeOf d.think_time)
          (sym (ap (λ (s : ScenarioConfig F). s.think_time) e))
          (if_some-IsThinkTimeOf d.think_time);
    http =
        subst (IfSome IsHttpOf d.http) (sym (ap (λ (s : ScenarioConfig F). s.http) e))
          (if_some-IsHttpOf d.http);
    http_clients =
        subst (ArePairs IsClientOf d.http_clients)
          (sym (ap (λ (s : ScenarioConfig F). s.http_clients) e)) (entries-ArePairs d.http_clients);
  }

  validate_each_lem :
      (m : List (String × ScenarioConfigDto F)) {outs : List (String × ScenarioConfig F)}
      → validate_each ops parsers delay_validators (entries (scenario_model ops) m) ≡ ok outs
      → AreFilledIn m outs
  unfolding AreFilledIn
  validate_each_lem [] h = subst (AreFilledIn []) (validate_each-nil ops parsers h) tt
  validate_each_lem ((name, d) ∷ m) h =
      let (out, rest, first, later, e) =
        validate_each-cons ops parsers name (scenario_model ops d) (entries (scenario_model ops) m)
          h in
      let (_, _, filled) =
        validate_scenario-IsScenarioValid ops parsers name (scenario_model ops d) first in
      subst (AreFilledIn ((name, d) ∷ m)) e (
        refl,
        scenario_model_lem d filled
            (validate_scenario-SameRules ops parsers name (scenario_model ops d) first),
        validate_each_lem m later,
      )

  -- A configuration that passes the validation is loaded.
  pub load-ok :
      {E : Type 0} (dto : ConfigDto F) {out : Config F}
      → validate ops parsers delay_validators (to_model ops dto) ≡ ok out
      → load {E = E} ops parsers delay_validators (ok tt) (ok dto) ≡ ok out
  unfolding load load_dto
  load-ok dto passed = simp (load_dto, passed) refl

  -- What it takes for a configuration to be loaded.
  pub record IsLoaded {E : Type 0} (read : Result E (Unit {0})) (decoded : Result E (ConfigDto F))
      (cfg : Config F) : Type 0 where
    pub dto : ConfigDto F
    pub was_read : read ≡ ok tt
    pub was_decoded : decoded ≡ ok dto
    pub valid : IsConfigValid ops parsers cfg
    pub version : cfg.version ≡ dto.version
    pub default_scenario : cfg.default_scenario ≡ dto.default_scenario
    pub filled_in : AreFilledIn dto.scenarios cfg.scenarios

  load_dto-IsLoaded :
      {E : Type 0} (path : Option String) (read : Result E (Unit {0}))
      (decoded : Result E (ConfigDto F)) {cfg : Config F}
      → load_dto ops parsers delay_validators path read decoded ≡ ok cfg
      → IsLoaded read decoded cfg
  unfolding load_dto to_model
  load_dto-IsLoaded path (err e) decoded h = cc
  load_dto-IsLoaded path (ok u) (err e) h = cc
  load_dto-IsLoaded path (ok u) (ok dto) {cfg} h =
      elim (Result-cases (validate ops parsers delay_validators (to_model ops dto))) [
        | inr (e, failed) ↦
            let run : load_dto ops parsers delay_validators path (ok u) (ok dto) ≡ err (invalid e) =
              simp (load_dto, failed) refl in
            absurd (err≢ok (sym run ∙ h))
        | inl (out, passed) ↦
            let run : load_dto ops parsers delay_validators path (ok u) (ok dto) ≡ ok out =
              simp (load_dto, passed) refl in
            let same : out ≡ cfg = ok_inj (sym run ∙ h) in
            let (scs, each, whole) = validate-parts ops parsers (to_model ops dto) passed in
            subst (IsLoaded (ok u) (ok dto)) (whole ∙ same) (record {
              dto = dto;
              was_read = refl;
              was_decoded = refl;
              valid =
                  subst (IsConfigValid ops parsers) (sym whole)
                    (validate-IsConfigValid ops parsers (to_model ops dto) passed).0;
              version = refl;
              default_scenario = refl;
              filled_in = validate_each_lem dto.scenarios each;
            })
      ]

  -- For any reader and any decoded configuration: what Load and LoadFromFile return without an error was
  -- read and decoded without one, and is a valid configuration of the version and the default scenario
  -- that were decoded, with the same scenarios by name and order. In each of them drain_period stands in
  -- for a missing drain, a missing max_pretest_retries is 3, a missing vu_timeout of a scenario without
  -- unbounded iterations is the guard deadline, and every other field, those of the stages, the delays,
  -- the HTTP clients and the thresholds included, is the decoded one, but for a missing on_no_data of a
  -- threshold and its parsed target.
  pub load-IsLoaded :
      {E : Type 0} (path : String) (read : Result E (Unit {0})) (decoded : Result E (ConfigDto F))
      {cfg : Config F}
      → (load ops parsers delay_validators read decoded ≡ ok cfg)
        ⊎ (load_from_file ops parsers delay_validators path read decoded ≡ ok cfg)
      → IsLoaded read decoded cfg
  unfolding load load_from_file
  load-IsLoaded path read decoded (inl h) = load_dto-IsLoaded none read decoded h
  load-IsLoaded path read decoded (inr h) = load_dto-IsLoaded (some path) read decoded h
