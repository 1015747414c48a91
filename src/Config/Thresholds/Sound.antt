-- ===== src/Config/Thresholds/Sound.antt =====
-- internal/config/validate.go: a threshold that validation returns is well formed, and validation
-- changes nothing else of it.
use vuhive.Prelude.{
  Result-cases, ℕ, String, true, false, is_empty, ◌≡◌, refl, inl, inr, str_eq, ◌||◌, ok, IsNonneg,
  arith, Bool-cases, >>=-eq-ok,
}
use vuhive.Config.Model.{ThresholdConfig}
use vuhive.Config.Stats.{is_duration_stat, valid_stats, valid_operators, valid_on_no_data}
use vuhive.Config.Thresholds.{
  Parsers, threshold_prefix, default_on_no_data, parse_target, check_threshold, validate_threshold,
}

module _ {F : Type 0} (parsers : Parsers F) where
  -- The parsed target is the one that the stat asks for.
  abbrev pub IsTargetParsed : ThresholdConfig F → Type 0
  IsTargetParsed th =
      (is_duration_stat th.stat ≡ true → parsers.parse_duration th.target ≡ ok th.target_duration)
      × (is_duration_stat th.stat ≡ false → parsers.parse_float th.target ≡ ok th.target_float)

  pub record IsThresholdValid (th : ThresholdConfig F) : Type 0 where
    pub metric : is_empty th.metric ≡ false
    pub stat : valid_stats th.stat ≡ true
    pub operator : valid_operators th.operator ≡ true
    pub on_no_data : valid_on_no_data th.on_no_data ≡ true
    pub resolved : is_empty th.on_no_data ≡ false
    pub warm_up : IsNonneg th.delay_abort_eval
    pub target : is_empty th.target ≡ false
    pub parsed : IsTargetParsed th

  check_threshold-ok :
      (p : String) (th : ThresholdConfig F)
      → check_threshold p th ≡ ok tt
      → (is_empty th.metric ≡ false)
        × (valid_stats th.stat ≡ true)
        × (valid_operators th.operator ≡ true)
        × (valid_on_no_data th.on_no_data ≡ true)
        × IsNonneg th.delay_abort_eval
        × (is_empty th.target ≡ false)
  unfolding check_threshold
  check_threshold-ok p th h = ground arith

  default_on_no_data_lem :
      (th : ThresholdConfig F)
      → valid_on_no_data th.on_no_data ≡ true
      → (valid_on_no_data (default_on_no_data th).on_no_data ≡ true)
        × (is_empty (default_on_no_data th).on_no_data ≡ false)
  unfolding default_on_no_data valid_on_no_data
  default_on_no_data_lem th h = elim (Bool-cases (is_empty th.on_no_data)) [
    | inr e ↦ rw (e, default_on_no_data) (h, e)
    | inl e ↦ elim (Bool-cases (str_eq th.stat "count" || str_eq th.stat "value")) [
      | inl f ↦ rw (e, f, default_on_no_data) (refl, refl)
      | inr f ↦ rw (e, f, default_on_no_data) (refl, refl)
    ]
  ]

  default_on_no_data_same :
      (th : ThresholdConfig F)
      → default_on_no_data th ≡ record th { on_no_data = (default_on_no_data th).on_no_data }
  unfolding default_on_no_data
  default_on_no_data_same th = ground arith

  parse_target-ok :
      (p : String) (th : ThresholdConfig F) {out : ThresholdConfig F}
      → parse_target parsers p th ≡ ok out
      → IsTargetParsed out
        × (out
            ≡ record th { target_duration = out.target_duration; target_float = out.target_float })
  unfolding parse_target
  parse_target-ok p th {out} h = elim (Bool-cases (is_duration_stat th.stat)) [
    | inl e ↦ elim (Result-cases (parsers.parse_duration th.target)) [
      | inl (d, f) ↦ ground arith
      | inr (msg, f) ↦ ground arith
    ]
    | inr e ↦ elim (Result-cases (parsers.parse_float th.target)) [
      | inl (d, f) ↦ ground arith
      | inr (msg, f) ↦ ground arith
    ]
  ]

  -- What validation may fill in: the policy for missing data and the parsed target.
  abbrev pub SameRule : ThresholdConfig F → ThresholdConfig F → Type 0
  SameRule th out =
      (out.metric ≡ th.metric)
      × (out.stat ≡ th.stat)
      × (out.operator ≡ th.operator)
      × (out.target ≡ th.target)
      × (out.abort_on_fail ≡ th.abort_on_fail)
      × (out.delay_abort_eval ≡ th.delay_abort_eval)
      × (is_empty th.on_no_data ≡ false → out.on_no_data ≡ th.on_no_data)

  default_on_no_data-kept :
      (th : ThresholdConfig F)
      → is_empty th.on_no_data ≡ false
      → (default_on_no_data th).on_no_data ≡ th.on_no_data
  unfolding default_on_no_data
  default_on_no_data-kept th e = rw (e, default_on_no_data)

  parse_target-SameRule :
      (p : String) (th : ThresholdConfig F) {out : ThresholdConfig F}
      → parse_target parsers p (default_on_no_data th) ≡ ok out
      → SameRule th out × (out.on_no_data ≡ (default_on_no_data th).on_no_data)
  parse_target-SameRule p th {out} h = ground (
    arith,
    (parse_target-ok p (default_on_no_data th) h).1,
    default_on_no_data_same th,
    default_on_no_data-kept th,
  )

  -- A threshold that validation returns is well formed: known words, a target parsed as its stat asks,
  -- and a policy for missing data. Of the rule itself validation changes nothing.
  pub validate_threshold-IsThresholdValid :
      (p : String) (i : ℕ) (th : ThresholdConfig F) {out : ThresholdConfig F}
      → validate_threshold parsers p i th ≡ ok out
      → IsThresholdValid out × SameRule th out
  unfolding validate_threshold
  validate_threshold-IsThresholdValid p i th {out} h =
      let (u, checked, parsed) = >>=-eq-ok (check_threshold (threshold_prefix p i) th) _ h in
      let facts = check_threshold-ok (threshold_prefix p i) th checked in
      let (rule, policy) = parse_target-SameRule (threshold_prefix p i) th parsed in
      let (policy_valid, resolved) = default_on_no_data_lem th facts.3 in
      (
        record {
          metric = ground (arith, rule, facts);
          stat = ground (arith, rule, facts);
          operator = ground (arith, rule, facts);
          on_no_data = rw policy policy_valid;
          resolved = rw policy resolved;
          warm_up = ground (arith, rule, facts);
          target = ground (arith, rule, facts);
          parsed = (parse_target-ok (threshold_prefix p i) (default_on_no_data th) parsed).0;
        },
        rule,
      )

  check_threshold_complete :
      (p : String) (th : ThresholdConfig F) → IsThresholdValid th → check_threshold p th ≡ ok tt
  unfolding check_threshold
  check_threshold_complete p th v = ground arith

  default_on_no_data-fixed :
      (th : ThresholdConfig F) → is_empty th.on_no_data ≡ false → default_on_no_data th ≡ th
  unfolding default_on_no_data
  default_on_no_data-fixed th e = rw (e, default_on_no_data)

  parse_target-fixed :
      (p : String) (th : ThresholdConfig F) → IsTargetParsed th → parse_target parsers p th ≡ ok th
  unfolding parse_target
  parse_target-fixed p th v = elim (Bool-cases (is_duration_stat th.stat)) [
    | inl e ↦ rw (e, v.0 e, parse_target)
    | inr e ↦ rw (e, v.1 e, parse_target)
  ]

  -- A well-formed threshold passes, and validation changes nothing of it.
  pub validate_threshold-fixed :
      (p : String) (i : ℕ) (th : ThresholdConfig F)
      → IsThresholdValid th
      → validate_threshold parsers p i th ≡ ok th
  unfolding validate_threshold
  validate_threshold-fixed p i th v = rw (
    check_threshold_complete (threshold_prefix p i) th v,
    default_on_no_data-fixed th v.resolved,
    parse_target-fixed (threshold_prefix p i) th v.parsed,
  )
