-- ===== src/Config/Scenario/Valid.antt =====
-- What a valid scenario configuration is, independently of the order of the checks in
-- internal/config/validate.go, and each check against its part.
use Prim.Native.String.{◌++◌}
use vuhive.Prelude.{
  differ, str_eq_of_eq, ℕ, suc, String, List, [], ◌∷◌, Option, none, some, pos, true, false, ◌≡◌,
  refl, ◌≢◌, ◌↔◌, inl, inr, is_empty, str_eq, ◌≤ℤ◌, ok, FloatOps, IsNonneg, IsPositive, All, arith,
  eq_iff, Bool-cases,
}
use vuhive.Config.Model.{
  ScenarioConfig, StageConfig, HttpConfig, scenario_type_constant_vus, scenario_type_arrival_rate,
  scenario_type_ramping_vus,
}
use vuhive.Config.Stats.{valid_strict_modes}
use vuhive.Config.Scenario.{
  required_vus, check_constant_vus, check_arrival_rate, check_stages, is_nil, check_ramping_vus,
  check_type, check_ranges, check_params, validate_http_config, check_client, check_clients,
}

abbrev pub IsStageValid : StageConfig → Type 0
IsStageValid st = IsNonneg st.target × IsPositive st.duration

pub data IsPacingValid {F : Type 0} (sc : ScenarioConfig F) : Type 0 where
  constant :
      sc.kind ≡ scenario_type_constant_vus
      → IsPositive sc.vus
      → IsPositive sc.run_period
      → IsPacingValid sc
  arrival :
      sc.kind ≡ scenario_type_arrival_rate
      → IsPositive sc.target_tps
      → IsPositive sc.max_vus
      → IsPositive sc.run_period
      → IsNonneg sc.burst_buffer
      → IsPacingValid sc
  ramping :
      sc.kind ≡ scenario_type_ramping_vus
      → sc.stages ≢ []
      → All IsStageValid sc.stages
      → IsPacingValid sc

abbrev pub IsHttpValid : HttpConfig → Type 0
IsHttpValid cfg =
    IsNonneg cfg.timeout
    × IsNonneg cfg.pool.max_idle_conns
    × IsNonneg cfg.pool.max_idle_conns_per_host
    × IsNonneg cfg.pool.idle_conn_timeout

abbrev pub IsParamValid : String × String → Type 0
IsParamValid (k, v) = (is_empty k ≡ false) × (is_empty v ≡ false)

abbrev pub IsClientValid : String × Option HttpConfig → Type 0
IsClientValid (name, none) = ⊥
IsClientValid (name, some cfg) = (is_empty name ≡ false) × IsHttpValid cfg

abbrev pub IfPresent : {A : Type 0} → (A → Type 0) → Option A → Type 0
IfPresent P none = Unit
IfPresent P (some a) = P a

is_nil_iff : (sts : List StageConfig) → (is_nil sts ≡ false) ↔ (sts ≢ [])
unfolding is_nil
is_nil_iff [] = (λ h. cc, λ h. absurd (h refl))
is_nil_iff (st ∷ sts) = (λ h e. cc, λ h. refl)

module _ {F : Type 0} (ops : FloatOps F) where
  pub record AreRangesValid (sc : ScenarioConfig F) : Type 0 where
    pub ramp_up : IsNonneg sc.ramp_up
    pub ramp_down : IsNonneg sc.ramp_down
    pub drain : IsNonneg sc.drain
    pub max_pretest_retries : IsNonneg sc.max_pretest_retries
    pub ratio_low : ops.lt sc.min_ready_ratio (ops.of_int (pos 0)) ≡ false
    pub ratio_high : ops.lt (ops.of_int (pos 1)) sc.min_ready_ratio ≡ false
    pub startup_grace_period : IsNonneg sc.startup_grace_period
    pub watchdog_stall_threshold : IsNonneg sc.watchdog_stall_threshold
    pub watchdog_interval : IsNonneg sc.watchdog_interval
    pub strict_mode : valid_strict_modes sc.strict_mode ≡ true

  -- Little's law, which only an arrival_rate scenario with an explicit timeout has to satisfy.
  abbrev pub HasCapacity : ScenarioConfig F → Type 0
  HasCapacity sc =
      sc.kind ≡ scenario_type_arrival_rate
      → IsPositive sc.vu_timeout
      → required_vus ops sc.target_tps sc.vu_timeout ≤ℤ sc.max_vus

  constant_iff :
      (p : String) (sc : ScenarioConfig F)
      → (check_constant_vus ops p sc ≡ ok tt) ↔ (IsPositive sc.vus × IsPositive sc.run_period)
  unfolding check_constant_vus
  constant_iff p sc = (λ h. ground arith, λ h. ground arith)

  arrival_iff :
      (p : String) (sc : ScenarioConfig F)
      → (check_arrival_rate ops p sc ≡ ok tt) ↔ (
          IsPositive sc.target_tps
          × IsPositive sc.max_vus
          × IsPositive sc.run_period
          × (IsPositive sc.vu_timeout → required_vus ops sc.target_tps sc.vu_timeout ≤ℤ sc.max_vus)
          × IsNonneg sc.burst_buffer)
  unfolding check_arrival_rate
  arrival_iff p sc = (λ h. ground arith, λ h. ground arith)

  stages_iff :
      (p : String) (i : ℕ) (sts : List StageConfig)
      → (check_stages ops p i sts ≡ ok tt) ↔ All IsStageValid sts
  unfolding check_stages
  stages_iff p i [] = (λ h. tt, λ h. refl)
  stages_iff p i (st ∷ sts) =
      let (there, back) = stages_iff p (suc i) sts in (λ h. ground arith, λ h. ground arith)

  ramping_iff :
      (p : String) (sc : ScenarioConfig F)
      → (check_ramping_vus ops p sc ≡ ok tt) ↔ ((sc.stages ≢ []) × All IsStageValid sc.stages)
  unfolding check_ramping_vus
  ramping_iff p sc =
      let (there, back) = stages_iff p 0 sc.stages in
      let (some_in, none_in) = is_nil_iff sc.stages in (λ h. ground arith, λ h. ground arith)

  pub ranges_iff :
      (p : String) (sc : ScenarioConfig F) → (check_ranges ops p sc ≡ ok tt) ↔ AreRangesValid sc
  unfolding check_ranges
  ranges_iff p sc = (λ h. ground arith, λ h. ground arith)

  pub params_iff :
      (p : String) (params : List (String × String))
      → (check_params ops p params ≡ ok tt) ↔ All IsParamValid params
  unfolding check_params
  params_iff p [] = (λ h. tt, λ h. refl)
  params_iff p ((k, v) ∷ params) =
      let (there, back) = params_iff p params in (λ h. ground arith, λ h. ground arith)

  pub http_iff :
      (p : String) (cfg : HttpConfig) → (validate_http_config ops p cfg ≡ ok tt) ↔ IsHttpValid cfg
  unfolding validate_http_config
  http_iff p cfg = (λ h. ground arith, λ h. ground arith)

  pub clients_iff :
      (p : String) (clients : List (String × Option HttpConfig))
      → (check_clients ops p clients ≡ ok tt) ↔ All IsClientValid clients
  unfolding check_clients check_client
  clients_iff p [] = (λ h. tt, λ h. refl)
  clients_iff p ((name, none) ∷ clients) = (λ h. ground arith, λ h. absurd h.0)
  clients_iff p ((name, some cfg) ∷ clients) =
      let (there, back) = clients_iff p clients in
      let (into, out) = http_iff (p ++ (".http_clients." ++ name)) cfg in
      (λ h. ground arith, λ h. ground arith)

  pub type_of_ok :
      (p : String) (sc : ScenarioConfig F)
      → check_type ops p sc ≡ ok tt
      → IsPacingValid sc × HasCapacity sc
  unfolding check_type
  type_of_ok p sc h = elim (Bool-cases (str_eq sc.kind scenario_type_constant_vus)) [
    | inl e ↦
        let k = (eq_iff sc.kind scenario_type_constant_vus).0 e in
        let (a, b) = (constant_iff p sc).0 (rw (e, check_type) at h) in
        (constant k a b, λ k'. absurd (differ refl k k'))
    | inr e ↦ elim (Bool-cases (str_eq sc.kind scenario_type_arrival_rate)) [
      | inl f ↦
          let k = (eq_iff sc.kind scenario_type_arrival_rate).0 f in
          let (a, b, c, law, d) = (arrival_iff p sc).0 (rw (e, f, check_type) at h) in
          (arrival k a b c d, λ _. law)
      | inr f ↦ elim (Bool-cases (str_eq sc.kind scenario_type_ramping_vus)) [
        | inl g ↦
            let k = (eq_iff sc.kind scenario_type_ramping_vus).0 g in
            let (a, b) = (ramping_iff p sc).0 (rw (e, f, g, check_type) at h) in
            (ramping k a b, λ k'. absurd (differ refl k k'))
        | inr g ↦ absurd (cc (rw (e, f, g, check_type) at h))
      ]
    ]
  ]

  pub type_complete :
      (p : String) (sc : ScenarioConfig F)
      → IsPacingValid sc
      → HasCapacity sc
      → check_type ops p sc ≡ ok tt
  unfolding check_type
  type_complete p sc (constant k a b) law =
      rw (str_eq_of_eq scenario_type_constant_vus true k refl, check_type)
        ((constant_iff p sc).1 (a, b))
  type_complete p sc (arrival k a b c d) law =
      rw
        (
          str_eq_of_eq scenario_type_constant_vus false k refl,
          str_eq_of_eq scenario_type_arrival_rate true k refl,
          check_type,
        )
        ((arrival_iff p sc).1 (a, b, c, law k, d))
  type_complete p sc (ramping k a b) law =
      rw
        (
          str_eq_of_eq scenario_type_constant_vus false k refl,
          str_eq_of_eq scenario_type_arrival_rate false k refl,
          str_eq_of_eq scenario_type_ramping_vus true k refl,
          check_type,
        )
        ((ramping_iff p sc).1 (a, b))
