-- ===== src/Metric/Checks.antt =====
-- internal/metric/aggregator.go: CheckSummaries, over the counters of a store.
mod Sums
pub mod Tallied
mod Tests
use text.Mathlib.Text.{starts_with}
use Prim.Native.String.{slice, len}
use vuhive.Prelude.{
  ℕ, String, List, [], ◌∷◌, map, Option, none, some, Bool, true, false, not, ◌||◌, ℤ, pos, is_pos,
  str_eq, is_empty, lookup, insert, if◌then◌else◌, wrap64, FloatOps, sort_by,
}
use vuhive.Metric.Registry.{metric_checks_passed, metric_checks_failed}
use vuhive.Metric.Keys.{MetricKey}
use vuhive.Metric.Collector.{Storage, add64}

-- strings.TrimPrefix(key.tagsKey, "name=")
pub check_name : MetricKey → String
check_name key =
    if starts_with key.tags_key "name="
    then slice key.tags_key 5 (len key.tags_key)
    else key.tags_key

-- The bit patterns of Passed and Failed.
pub record Tally : Type 0 where
  pub passed : ℕ
  pub failed : ℕ

abbrev pub entry_or_new : Option Tally → Tally
entry_or_new none = record { passed = 0; failed = 0 }
entry_or_new (some t) = t

abbrev pub bump : Bool → ℕ → Tally → Tally
bump true v t = record t { passed = add64 t.passed v }
bump false v t = record t { failed = add64 t.failed v }

-- One counter.
pub tally_counter : MetricKey → ℕ → List (String × Tally) → List (String × Tally)
tally_counter key v m =
    let name = check_name key in
    let is_passed = str_eq key.name metric_checks_passed in
    if not (is_passed || str_eq key.name metric_checks_failed)
    then m
    else if is_empty name
    then m
    else insert name (bump is_passed v (entry_or_new (lookup name m))) m

pub tally_counters : Storage ℕ → List (String × Tally) → List (String × Tally)
unfolding tally_counter
tally_counters [] m = m
tally_counters ((key, v) ∷ rest) m = tally_counters rest (tally_counter key v m)

pub record CheckSummary (F : Type 0) : Type 0 where
  pub name : String
  pub passed : ℤ
  pub failed : ℤ
  pub total : ℤ
  pub pass_pct : F

module _ {F : Type 0} (ops : FloatOps F) where
  pub summary_of : String → Tally → CheckSummary F
  summary_of name t =
      let total = wrap64 (add64 t.passed t.failed) in
      record {
        name = name;
        passed = wrap64 t.passed;
        failed = wrap64 t.failed;
        total = total;
        pass_pct =
            if is_pos total
            then ops.mul (ops.div (ops.of_int (wrap64 t.passed)) (ops.of_int total))
                (ops.of_int (pos 100))
            else ops.of_int (pos 0);
      }

  pub check_summaries : Storage ℕ → List (CheckSummary F)
  unfolding summary_of tally_counters
  check_summaries counters =
      let m = tally_counters counters [] in
      map (λ name. summary_of name (entry_or_new (lookup name m)))
        (sort_by (λ name. name) (map (λ (e : String × Tally). e.0) m))
