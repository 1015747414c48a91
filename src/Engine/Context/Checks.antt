-- ===== src/Engine/Context/Checks.antt =====
-- internal/engine/context.go: the inline checks and their counters.
pub mod Counted
use Prim.Native.String.{◌++◌}
use vuhive.Prelude.{
  String, List, [], ◌∷◌, Option, none, some, Bool, true, false, ℤ, pos, is_empty, one_of,
  if◌then◌else◌,
}
use vuhive.Metric.Registry.{metric_checks_passed, metric_checks_failed}
use vuhive.Metric.Keys.{Tags, make_key}
use vuhive.Metric.Collector.{Collector, counter, add_through}

-- A call, by what the checks look at: the reason that the function returned, if there is one; whether
-- the values are equal, and how `%v` prints them; the condition and the reasons given; the error's text.
pub data CheckCall : Type 0 where
  check : Option String → CheckCall
  check_equal : Bool → String → String → CheckCall
  check_true : Bool → List String → CheckCall
  check_no_error : Option String → CheckCall

-- What is recorded: whether the check passed, and the reason.
pub judge : CheckCall → Bool × String
judge (check none) = (true, "")
judge (check (some reason)) = (is_empty reason, reason)
judge (check_equal true actual expected) = (true, "")
judge (check_equal false actual expected) =
    (false, "expected " ++ (expected ++ (", got " ++ actual)))
judge (check_true true reasons) = (true, "")
judge (check_true false []) = (false, "expected condition to be true")
judge (check_true false (reason ∷ more)) = (false, reason)
judge (check_no_error none) = (true, "")
judge (check_no_error (some e)) = (false, "unexpected error: " ++ e)

abbrev pub name_tags : String → Tags
name_tags name = ("name", name) ∷ []

-- The cache holds the names whose pair of handles was created.
pub record CheckState (F H : Type 0) : Type 0 where
  pub check_cache : List String
  pub metrics : Collector F H

module _ {F H : Type 0} where
  -- The pair of handles of a name; a panic of the registry is `none`.
  pub handles : String → CheckState F H → Option (CheckState F H)
  handles name c =
      if one_of c.check_cache name
      then some c
      else elim (counter metric_checks_passed (name_tags name) c.metrics) [
        | none ↦ none
        | some passed ↦ elim (counter metric_checks_failed (name_tags name) passed) [
          | none ↦ none
          | some failed ↦ some (record { check_cache = name ∷ c.check_cache; metrics = failed })
        ]
      ]

  -- recordCheck, where the context has metrics.
  pub record_check : String → Bool → CheckState F H → Option (Bool × CheckState F H)
  unfolding handles
  record_check name passed c = elim (handles name c) [
    | none ↦ none
    | some c' ↦
        let metric_name = if passed then metric_checks_passed else metric_checks_failed in
        some (
          passed,
          record c' {
            metrics = add_through (make_key metric_name (name_tags name)) (pos 1) c'.metrics;
          },
        )
  ]

  -- Check, CheckEqual, CheckTrue and CheckNoError.
  pub run_check : String → CheckCall → CheckState F H → Option (Bool × CheckState F H)
  unfolding record_check judge
  run_check name call c = record_check name (judge call).0 c

  -- A sequence of checks, with their results.
  pub run_checks : List (String × CheckCall) → CheckState F H → Option (List Bool × CheckState F H)
  run_checks [] c = some ([], c)
  run_checks ((name, call) ∷ calls) c = elim (run_check name call c) [
    | none ↦ none
    | some (result, c') ↦ elim (run_checks calls c') [
      | none ↦ none
      | some (results, last) ↦ some (result ∷ results, last)
    ]
  ]
