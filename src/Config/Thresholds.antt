-- ===== src/Config/Thresholds.antt =====
-- internal/config/validate.go: validateThreshold, and the loop of validateScenario over thresholds.
pub mod Sound
pub mod Kinds
pub mod Rules
mod Tests
use Prim.Native.String.{◌++◌}
use vuhive.Prelude.{
  ℕ, suc, String, List, [], ◌∷◌, Option, none, some, ℤ, pos, Bool, true, false, not, is_neg,
  is_empty, str_eq, ◌||◌, ◌&&◌, Result, ok, err, Checked, fail_if, ◌>>=◌, ◌>>◌, lookup, insert,
  itoa, if◌then◌else◌,
}
use vuhive.Config.Model.{ThresholdConfig, ValidationError, text, sprintf, str, int}
use vuhive.Config.Stats.{
  is_duration_stat, valid_stats, valid_operators, valid_on_no_data, inferred_metric_kind,
}

-- time.ParseDuration and strconv.ParseFloat; a failure gives the error's text.
pub record Parsers (F : Type 0) : Type 0 where
  pub parse_duration : String → Result String ℤ
  pub parse_float : String → Result String F

-- "%s.thresholds[%d]"
threshold_prefix : String → ℕ → String
threshold_prefix prefix i = prefix ++ (".thresholds[" ++ (itoa i ++ "]"))

module _ {F : Type 0} where
  abbrev pub complain : String → String → Bool → Checked (ValidationError F)
  complain field message bad = fail_if bad (record { field = field; message = text message })

  default_on_no_data : ThresholdConfig F → ThresholdConfig F
  default_on_no_data th =
      if is_empty th.on_no_data
      then record th {
        on_no_data = if str_eq th.stat "count" || str_eq th.stat "value" then "zero" else "fail";
      }
      else th

  -- The target by the type of the stat.
  parse_target :
      Parsers F → String → ThresholdConfig F → Result (ValidationError F) (ThresholdConfig F)
  parse_target parsers prefix th =
      if is_duration_stat th.stat
      then elim (parsers.parse_duration th.target) [
        | ok d ↦ ok (record th { target_duration = d })
        | err e ↦ err (record {
          field = prefix ++ ".target";
          message =
              sprintf "cannot parse %q as duration for stat %q: %s"
                (str th.target ∷ str th.stat ∷ str e ∷ []);
        })
      ]
      else elim (parsers.parse_float th.target) [
        | ok f ↦ ok (record th { target_float = f })
        | err e ↦ err (record {
          field = prefix ++ ".target";
          message =
              sprintf "cannot parse %q as float64 for stat %q: %s"
                (str th.target ∷ str th.stat ∷ str e ∷ []);
        })
      ]

  check_threshold : String → ThresholdConfig F → Checked (ValidationError F)
  check_threshold prefix th = do
    complain (prefix ++ ".metric") "must not be empty" (is_empty th.metric)
    fail_if (not (valid_stats th.stat)) (record {
      field = prefix ++ ".stat";
      message =
          sprintf "must be one of {p50, p90, p95, p99, mean, max, count, rate, value}, got %q"
            (str th.stat ∷ []);
    })
    fail_if (not (valid_operators th.operator)) (record {
      field = prefix ++ ".operator";
      message = sprintf "must be one of {<, <=, >, >=}, got %q" (str th.operator ∷ []);
    })
    complain (prefix ++ ".target") "must not be empty" (is_empty th.target)
    fail_if (not (valid_on_no_data th.on_no_data)) (record {
      field = prefix ++ ".on_no_data";
      message =
          sprintf "must be one of {zero, fail, pass, ignore, skip}, got %q"
            (str th.on_no_data ∷ []);
    })
    complain (prefix ++ ".delay_abort_eval") "must be >= 0" (is_neg th.delay_abort_eval)

  pub validate_threshold :
      Parsers F → String → ℕ → ThresholdConfig F → Result (ValidationError F) (ThresholdConfig F)
  validate_threshold parsers prefix i th = do
    check_threshold (threshold_prefix prefix i) th
    parse_target parsers (threshold_prefix prefix i) (default_on_no_data th)

  -- A metric has one kind: `metricKinds` maps the metrics seen so far.
  pub check_kind :
      String → ℕ → List (String × String) → ThresholdConfig F → Checked (ValidationError F)
  check_kind prefix i kinds th = elim (lookup th.metric kinds) [
    | none ↦ ok tt
    | some existing ↦ fail_if (not (str_eq existing (inferred_metric_kind th.stat))) (record {
      field = prefix ++ (".thresholds[" ++ (itoa i ++ "].metric"));
      message =
          sprintf "conflicting metric kind for metric %q: inferred %s, previously inferred %s"
            (str th.metric ∷ str (inferred_metric_kind th.stat) ∷ str existing ∷ []);
    })
  ]

  unfoldable pub validate_thresholds :
      Parsers F
      → String
      → ℕ
      → List (String × String)
      → List (ThresholdConfig F)
      → Result (ValidationError F) (List (ThresholdConfig F))
  validate_thresholds parsers prefix i kinds [] = ok []
  validate_thresholds parsers prefix i kinds (th ∷ ths) = do
    th' ← validate_threshold parsers prefix i th
    check_kind prefix i kinds th'
    rest ←
        validate_thresholds parsers prefix (suc i)
          (insert th'.metric (inferred_metric_kind th'.stat) kinds) ths
    ok (th' ∷ rest)
