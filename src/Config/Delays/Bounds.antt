-- ===== src/Config/Delays/Bounds.antt =====
-- internal/config/validate.go: what a delay that passes its validator satisfies.
use vuhive.Prelude.{
  ◌∙◌, sym, inl, inr, String, none, some, ◌≡◌, ◌⊎◌, ◌↔◌, refl, ◌≤ℤ◌, ok, IsNonneg, IsPositive,
  arith, eq_iff,
}
use vuhive.Config.Model.{ThinkTimeConfig}
use vuhive.Config.Delays.{
  validate_fixed_delay, validate_range_delay, validate_expo_delay, validate_gaussian_delay,
  delay_validators, get_delay_validator, validate_delay_config, DelayValidatorFunc,
}

-- The clamps of a delay are bounds, or off, and do not cross.
abbrev pub IsClampValid : ThinkTimeConfig → Type 0
IsClampValid d =
    IsNonneg d.min × IsNonneg d.max × (IsPositive d.min → IsPositive d.max → d.min ≤ℤ d.max)

-- What a delay must satisfy, by its type.
pub data IsDelayValid (d : ThinkTimeConfig) : Type 0 where
  fixed : d.kind ≡ "fixed" → IsPositive d.duration → IsDelayValid d
  range : d.kind ≡ "range" → IsNonneg d.min → IsPositive d.max → d.min ≤ℤ d.max → IsDelayValid d
  expo : d.kind ≡ "expo" → IsPositive d.mean → IsClampValid d → IsDelayValid d
  gaussian :
      d.kind ≡ "gaussian"
      → IsPositive d.mean
      → IsPositive d.std_dev
      → IsClampValid d
      → IsDelayValid d

module _ {F : Type 0} where
  fixed_iff :
      (p : String) (d : ThinkTimeConfig)
      → (validate_fixed_delay {F = F} p d ≡ ok tt) ↔ IsPositive d.duration
  unfolding validate_fixed_delay
  fixed_iff p d = (λ h. ground arith, λ h. ground arith)

  range_iff :
      (p : String) (d : ThinkTimeConfig)
      → (validate_range_delay {F = F} p d ≡ ok tt)
        ↔ (IsNonneg d.min × IsPositive d.max × d.min ≤ℤ d.max)
  unfolding validate_range_delay
  range_iff p d = (λ h. ground arith, λ h. ground arith)

  expo_iff :
      (p : String) (d : ThinkTimeConfig)
      → (validate_expo_delay {F = F} p d ≡ ok tt) ↔ (IsPositive d.mean × IsClampValid d)
  unfolding validate_expo_delay
  expo_iff p d = (λ h. ground arith, λ h. ground arith)

  gaussian_iff :
      (p : String) (d : ThinkTimeConfig)
      → (validate_gaussian_delay {F = F} p d ≡ ok tt)
        ↔ (IsPositive d.mean × IsPositive d.std_dev × IsClampValid d)
  unfolding validate_gaussian_delay
  gaussian_iff p d = (λ h. ground arith, λ h. ground arith)

  run_found :
      (p : String) (d : ThinkTimeConfig) {f : DelayValidatorFunc F}
      → get_delay_validator delay_validators d.kind ≡ some f
      → validate_delay_config delay_validators p d ≡ f p d
  unfolding validate_delay_config
  run_found p d e = rw (e, validate_delay_config)

  run_missing :
      (p : String) (d : ThinkTimeConfig)
      → get_delay_validator {F = F} delay_validators d.kind ≡ none
      → validate_delay_config {F = F} delay_validators p d ≡ ok tt
      → ⊥
  unfolding validate_delay_config
  run_missing p d e h = cc (rw (e, validate_delay_config) at h)

  -- The registry by cases on its four keys.
  get_cases :
      (k : String)
      → ((k ≡ "fixed")
          × (get_delay_validator {F = F} delay_validators k ≡ some validate_fixed_delay))
        ⊎ ((k ≡ "range")
            × (get_delay_validator {F = F} delay_validators k ≡ some validate_range_delay))
        ⊎ ((k ≡ "expo")
            × (get_delay_validator {F = F} delay_validators k ≡ some validate_expo_delay))
        ⊎ ((k ≡ "gaussian")
            × (get_delay_validator {F = F} delay_validators k ≡ some validate_gaussian_delay))
        ⊎ (get_delay_validator {F = F} delay_validators k ≡ none)
  unfolding get_delay_validator delay_validators
  get_cases k =
      ground (arith, eq_iff "fixed" k, eq_iff "range" k, eq_iff "expo" k, eq_iff "gaussian" k)

  IsDelayValid-of_ok :
      (p : String) (d : ThinkTimeConfig)
      → validate_delay_config {F = F} delay_validators p d ≡ ok tt
      → IsDelayValid d
  IsDelayValid-of_ok p d h = elim (get_cases d.kind) [
    | inl (k, e) ↦ fixed k ((fixed_iff p d).0 (sym (run_found p d e) ∙ h))
    | inr (inl (k, e)) ↦
        let (a, b, c) = (range_iff p d).0 (sym (run_found p d e) ∙ h) in range k a b c
    | inr (inr (inl (k, e))) ↦
        let (a, b) = (expo_iff p d).0 (sym (run_found p d e) ∙ h) in expo k a b
    | inr (inr (inr (inl (k, e)))) ↦
        let (a, b, c) = (gaussian_iff p d).0 (sym (run_found p d e) ∙ h) in gaussian k a b c
    | inr (inr (inr (inr e))) ↦ absurd (run_missing p d e h)
  ]

  get_at :
      {j k : String} (e : j ≡ k) {f : DelayValidatorFunc F}
      → get_delay_validator delay_validators k ≡ some f
      → get_delay_validator delay_validators j ≡ some f
  get_at e h = rw e h

  ok_of_IsDelayValid :
      (p : String) (d : ThinkTimeConfig)
      → IsDelayValid d
      → validate_delay_config {F = F} delay_validators p d ≡ ok tt
  unfolding get_delay_validator delay_validators
  ok_of_IsDelayValid p d (fixed k a) = run_found p d (get_at k refl) ∙ (fixed_iff p d).1 a
  ok_of_IsDelayValid p d (range k a b c) =
      run_found p d (get_at k refl) ∙ (range_iff p d).1 (a, b, c)
  ok_of_IsDelayValid p d (expo k a b) = run_found p d (get_at k refl) ∙ (expo_iff p d).1 (a, b)
  ok_of_IsDelayValid p d (gaussian k a b c) =
      run_found p d (get_at k refl) ∙ (gaussian_iff p d).1 (a, b, c)

  -- With the validators that the package registers, a delay passes exactly when it is one of the four
  -- types and its bounds are in order for that type.
  pub validate_delay_config-IsDelayValid :
      (p : String) (d : ThinkTimeConfig)
      → (validate_delay_config {F = F} delay_validators p d ≡ ok tt) ↔ IsDelayValid d
  validate_delay_config-IsDelayValid p d = (IsDelayValid-of_ok p d, ok_of_IsDelayValid p d)
