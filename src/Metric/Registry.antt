-- ===== src/Metric/Registry.antt =====
-- internal/metric/registry.go: the types of the registered names. The map is an association list; the
-- write lock makes a registration one step.
pub mod Order
pub mod Names
use vuhive.Prelude.{
  String, List, [], ◌∷◌, Option, none, some, Bool, true, false, Result, ok, err, lookup, insert,
  if◌then◌else◌, sort_by,
}
use vuhive.Metric.Types.{MetricType, counter_type, same_type}

abbrev pub Registry : Type 0
Registry = List (String × MetricType)

pub record ErrTypeCollision : Type 0 where
  pub name : String
  pub existing : MetricType
  pub new : MetricType

abbrev pub metric_checks_passed : String
metric_checks_passed = "vuhive.checks.passed"

abbrev pub metric_checks_failed : String
metric_checks_failed = "vuhive.checks.failed"

unfoldable pub new_registry : Registry
new_registry = (metric_checks_passed, counter_type) ∷ (metric_checks_failed, counter_type) ∷ []

unfoldable pub metric_type : String → Registry → Option MetricType
metric_type name r = lookup name r

unfoldable pub register : String → MetricType → Registry → Result ErrTypeCollision Registry
register name mt r = elim (lookup name r) [
  | some existing ↦
      if same_type existing mt
      then ok r
      else err (record { name = name; existing = existing; new = mt })
  | none ↦ ok (insert name mt r)
]

-- A panic is `none`.
unfoldable pub must_register : String → MetricType → Registry → Option Registry
unfolding register
must_register name mt r = elim (register name mt r) [ ok r' ↦ some r' | err e ↦ none ]

-- NamesByType; nil is the empty list.
names_of : MetricType → Registry → List String
names_of mt [] = []
names_of mt ((name, t) ∷ rest) =
    if same_type t mt then name ∷ names_of mt rest else names_of mt rest

pub names_by_type : MetricType → Registry → List String
unfolding names_of
names_by_type mt r = sort_by (λ name. name) (names_of mt r)
