-- ===== src/Runner/Verdict.antt =====
-- internal/runner/runner.go and strict.go: when a run passes.
use vuhive.Prelude.{
  none, some, is_some, ◌⊎◌, false≢true, one_of, sym, ◌∙◌, IsPositive, pos, String, List, [], ◌∷◌,
  Bool, true, false, not, ◌&&◌, ◌≡◌, refl, ◌↔◌, inl, inr, is_empty, str_eq, Result, ok, All, arith,
  Bool-cases, FloatOps, eq_iff,
}
use vuhive.Config.Model.{Config, ScenarioConfig, ThresholdConfig, strict_mode_off}
use vuhive.Config.Stats.{is_duration_stat}
use vuhive.Engine.Context.{Params, unused_params}
use vuhive.Engine.Context.Unused.{unused_params-none}
use vuhive.Sla.{MetricReader}
use vuhive.Sla.Verdict.{Meets, observe, all_passed-evaluate}
use vuhive.Runner.{
  Flags, ResolvedScenario, resolved, resolve, Execution, SuiteResult, resolve_strict_mode,
  has_observed_data, evaluate_strict_diagnostics, param_diagnostics, threshold_diagnostics,
  no_diagnostics, conclude, run_suite,
}

module _ {F : Type 0} (ops : FloatOps F) where
  -- The metrics have observed data for the stat of a threshold.
  pub data IsObserved (th : ThresholdConfig F) (reader : MetricReader F) : Type 0 where
    some_sample :
        is_some (reader.metric_type th.metric) ≡ true
        → is_duration_stat th.stat ≡ true
        → IsPositive (reader.merged_histogram_snapshot th.metric).count
        → IsObserved th reader
    some_count :
        is_some (reader.metric_type th.metric) ≡ true
        → th.stat ≡ "count"
        → IsPositive (reader.aggregated_counter_value th.metric)
        → IsObserved th reader
    some_rate :
        is_some (reader.metric_type th.metric) ≡ true
        → th.stat ≡ "rate"
        → (reader.rate_data th.metric).1 ≡ true
        → IsObserved th reader
    some_value :
        is_some (reader.metric_type th.metric) ≡ true
        → th.stat ≡ "value"
        → ops.eq (reader.last_gauge_value th.metric) (ops.of_int (pos 0)) ≡ false
        → IsObserved th reader

  -- Every threshold that names a metric has observed data.
  abbrev pub AreObserved : List (ThresholdConfig F) → MetricReader F → Type 0
  AreObserved ths reader = All (λ th. (th.metric ≡ "") ⊎ IsObserved th reader) ths

  IsObserved-there :
      (th : ThresholdConfig F) (reader : MetricReader F)
      → has_observed_data ops th reader ≡ true
      → IsObserved th reader
  unfolding has_observed_data
  IsObserved-there th reader h = elim (Bool-cases (is_some (reader.metric_type th.metric))) [
    | inr missing ↦ absurd (ground arith)
    | inl known ↦ elim (Bool-cases (is_duration_stat th.stat)) [
      | inl d ↦ some_sample known d (ground arith)
      | inr nd ↦ elim (Bool-cases (str_eq th.stat "count")) [
        | inl c ↦ some_count known ((eq_iff th.stat "count").0 c) (ground arith)
        | inr nc ↦ elim (Bool-cases (str_eq th.stat "rate")) [
          | inl r ↦ some_rate known ((eq_iff th.stat "rate").0 r) (ground arith)
          | inr nr ↦ elim (Bool-cases (str_eq th.stat "value")) [
            | inl v ↦ some_value known ((eq_iff th.stat "value").0 v) (ground arith)
            | inr nv ↦ absurd (ground arith)
          ]
        ]
      ]
    ]
  ]

  observed_back :
      (th : ThresholdConfig F) (reader : MetricReader F)
      → IsObserved th reader
      → has_observed_data ops th reader ≡ true
  unfolding has_observed_data is_duration_stat
  observed_back th reader (some_sample known d n) = ground arith
  observed_back th reader (some_count known e n) = rw (known, e) (ground arith)
  observed_back th reader (some_rate known e n) = rw (known, e) n
  observed_back th reader (some_value known e n) = rw (known, e, n) refl

  threshold_diagnostics_none :
      (ths : List (ThresholdConfig F)) (reader : MetricReader F)
      → (no_diagnostics (threshold_diagnostics ops ths reader) ≡ true) ↔ AreObserved ths reader
  unfolding threshold_diagnostics no_diagnostics
  threshold_diagnostics_none [] reader = (λ h. tt, λ h. refl)
  threshold_diagnostics_none (th ∷ ths) reader =
      let (there, back) = threshold_diagnostics_none ths reader in
      elim (Bool-cases (is_empty th.metric)) [
        | inl unnamed ↦
            rw unnamed (λ h. (inl ((eq_iff th.metric "").0 unnamed), there h), λ h. back h.1)
        | inr named ↦ elim (Bool-cases (has_observed_data ops th reader)) [
          | inl seen ↦
              rw (named, seen)
                (λ h. (inr (IsObserved-there th reader seen), there h), λ h. back h.1)
          | inr missed ↦
              rw (named, missed)
                (
                  λ h. cc,
                  λ h. elim h.0 [
                    | inl e ↦ absurd (false≢true (sym named ∙ (eq_iff th.metric "").1 e))
                    | inr o ↦ absurd (false≢true (sym missed ∙ observed_back th reader o))
                  ],
                )
        ]
      ]

  evaluate_strict_diagnostics_none :
      (cfg : ScenarioConfig F) (unused : List String) (reader : MetricReader F)
      → (no_diagnostics (evaluate_strict_diagnostics ops cfg unused reader) ≡ true)
        ↔ ((unused ≡ []) × AreObserved cfg.thresholds reader)
  unfolding evaluate_strict_diagnostics param_diagnostics no_diagnostics
  evaluate_strict_diagnostics_none cfg [] reader =
      let (there, back) = threshold_diagnostics_none cfg.thresholds reader in
      (λ h. (refl, there h), λ h. back h.1)
  evaluate_strict_diagnostics_none cfg (key ∷ keys) reader = (λ h. cc, λ h. cc)

  -- Every declared parameter was asked for through the context, if it keeps track.
  abbrev pub AreUsed : Params → Type 0
  AreUsed p = elim p.accessed [
    | none ↦ Unit {0}
    | some keys ↦ All (λ (e : String × String). one_of keys e.0 ≡ true) p.declared
  ]

  -- The strict mode of a run is fatal: --strict-fatal is given, or neither flag is and the configuration
  -- says so.
  abbrev pub IsFatal : ResolvedScenario F → Type 0
  IsFatal r =
      (r.flags.strict_fatal ≡ true)
      ⊎ ((r.flags.strict ≡ false) × (r.scenario_cfg.strict_mode ≡ "fatal"))

  abbrev mode_of : ResolvedScenario F → String
  mode_of r = resolve_strict_mode r.flags.strict r.flags.strict_fatal r.scenario_cfg.strict_mode

  -- When a run passes.
  pub record IsPassing (r : ResolvedScenario F) (execution : Execution F) : Type 0 where
    pub met : All (λ th. Meets ops th (observe ops th execution.metrics)) r.scenario_cfg.thresholds
    pub completed : execution.aborted ≡ false
    pub strict :
        IsFatal r
        → AreUsed execution.setup_params × AreObserved r.scenario_cfg.thresholds execution.metrics

  fatal_lem :
      (strict strict_fatal : Bool) (yaml : String)
      → (str_eq (resolve_strict_mode strict strict_fatal yaml) "fatal" ≡ true)
        ↔ ((strict_fatal ≡ true) ⊎ ((strict ≡ false) × (yaml ≡ "fatal")))
  unfolding resolve_strict_mode
  fatal_lem strict true yaml = (λ h. inl refl, λ h. refl)
  fatal_lem true false yaml = (
    λ h. cc,
    λ h. elim h [ inl e ↦ absurd (false≢true e) | inr (e, f) ↦ absurd (false≢true (sym e)) ],
  )
  fatal_lem false false yaml = (
    λ h. inr (
      refl,
      elim (Bool-cases (not (is_empty yaml) && not (str_eq yaml strict_mode_off))) [
        | inl set ↦ (eq_iff yaml "fatal").0 (sym (rw set refl) ∙ h)
        | inr off ↦ absurd (false≢true (sym (rw off refl) ∙ h))
      ],
    ),
    λ h. elim h [ inl e ↦ absurd (false≢true e) | inr (e, f) ↦ rw f refl ],
  )

  IsFatal-there : (r : ResolvedScenario F) → (str_eq (mode_of r) "fatal" ≡ true) ↔ IsFatal r
  IsFatal-there r = fatal_lem r.flags.strict r.flags.strict_fatal r.scenario_cfg.strict_mode

  conclude-IsPassing :
      (r : ResolvedScenario F) (execution : Execution F)
      → (conclude ops r execution).passed ≡ true
      → IsPassing r execution
  unfolding conclude
  conclude-IsPassing r execution h =
      let (met, meets) = all_passed-evaluate ops r.scenario_cfg.thresholds execution.metrics in
      let (there, back) =
        evaluate_strict_diagnostics_none r.scenario_cfg (unused_params execution.setup_params)
          execution.metrics in
      let (used, listed) = unused_params-none execution.setup_params in
      record {
        met = met (ground arith);
        completed = ground arith;
        strict = λ fatal.
            let (none_unused, seen) = there (ground (arith, (IsFatal-there r).1 fatal)) in
            (used none_unused, seen);
      }

  conclude_aborted :
      (r : ResolvedScenario F) (execution : Execution F)
      → ((conclude ops r execution).aborted ≡ execution.aborted)
        × ((conclude ops r execution).abort_reason ≡ execution.abort_reason)
  unfolding conclude
  conclude_aborted r execution = (refl, refl)

  IsPassing-conclude :
      (r : ResolvedScenario F) (execution : Execution F)
      → IsPassing r execution
      → (conclude ops r execution).passed ≡ true
  unfolding conclude
  IsPassing-conclude r execution p =
      let (met, meets) = all_passed-evaluate ops r.scenario_cfg.thresholds execution.metrics in
      let (there, back) =
        evaluate_strict_diagnostics_none r.scenario_cfg (unused_params execution.setup_params)
          execution.metrics in
      let (used, listed) = unused_params-none execution.setup_params in
      let m = meets p.met in
      let c = p.completed in
      elim (Bool-cases (str_eq (mode_of r) "fatal")) [
        | inl f ↦
            let (all_used, seen) = p.strict ((IsFatal-there r).0 f) in
            let d = back (listed all_used, seen) in ground arith
        | inr f ↦ ground arith
      ]

-- For a scenario that resolves and an executor that reports without an error: `run_suite` returns a
-- result without an error, and it passes exactly when every threshold of the scenario is met by the
-- metrics, the execution was not aborted, and, if --strict-fatal is given, or neither flag is and
-- the configuration says fatal, every declared parameter was asked for through the context of Setup, and every threshold that
-- names a metric has observed data: a sample, a positive count, an observation of the rate or a gauge
-- that is not zero, by its stat. The result reports the abort of the execution and its reason.
pub run_suite-IsPassing :
    {F E : Type 0} (ops : FloatOps F) (flags : Result E Flags) (load : String → Result E (Config F))
    (registered : String → Bool) (execute : ResolvedScenario F → Result E (Execution F))
    {r : ResolvedScenario F} {execution : Execution F}
    → resolve flags load registered ≡ ok (resolved r)
    → execute r ≡ ok execution
    → (res : SuiteResult) × (run_suite ops flags load registered execute ≡ ok res)
      × ((res.passed ≡ true) ↔ IsPassing ops r execution)
      × (res.aborted ≡ execution.aborted)
      × (res.abort_reason ≡ execution.abort_reason)
unfolding run_suite
run_suite-IsPassing ops flags load registered execute {r = r} {execution = execution} found done = (
  conclude ops r execution,
  simp (run_suite, found, done) refl,
  (conclude-IsPassing ops r execution, IsPassing-conclude ops r execution),
  (conclude_aborted ops r execution).0,
  (conclude_aborted ops r execution).1,
)
