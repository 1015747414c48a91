-- ===== src/Metric/Collector/Entries.antt =====
-- internal/metric/collector.go: GetOrCreate, by its outcome.
use vuhive.Prelude.{[], ◌∷◌, ◌++◌, none, some, ◌≡◌, refl, ◌⊎◌, inl, inr, Option-cases}
use vuhive.Metric.Types.{MetricType}
use vuhive.Metric.Registry.{Registry, must_register}
use vuhive.Metric.Keys.{MetricKey}
use vuhive.Metric.Collector.{Storage, get, get_or_create}

pub get_or_create-cases :
    {V : Type 0} (key : MetricKey) (mt : MetricType) (fresh : V) (r : Registry) (s : Storage V)
    → (get_or_create key mt fresh r s ≡ none)
      ⊎ ((v : V) × (get key s ≡ some v) × (get_or_create key mt fresh r s ≡ some (r, s)))
      ⊎ ((r' : Registry) × (get key s ≡ none)
          × (must_register key.name mt r ≡ some r')
          × (get_or_create key mt fresh r s ≡ some (r', s ++ ((key, fresh) ∷ []))))
unfolding get_or_create
get_or_create-cases key mt fresh r s = elim (Option-cases (get key s)) [
  | inr (v, found) ↦ inr (inl (v, found, rw (get_or_create, found) refl))
  | inl missing ↦ elim (Option-cases (must_register key.name mt r)) [
    | inl clash ↦ inl (rw (get_or_create, missing, clash) refl)
    | inr (r', fine) ↦ inr (inr (r', missing, fine, rw (get_or_create, missing, fine) refl))
  ]
]
