-- ===== src/Metric/Registry/Order.antt =====
-- internal/metric/registry.go: the first registration of a name decides its type.
use vuhive.Prelude.{
  lookup-insert, String, List, [], ◌∷◌, Option, none, some, true, false, ok, err, lookup, insert,
  if◌then◌else◌, ◌≡◌, refl, ◌≢◌, str_eq, eq_iff, subst, arith, Option-cases, Bool-cases, ◌⊎◌, inl,
  inr, sym, ap, ◌∙◌,
}
use vuhive.Metric.Types.{MetricType, same_type}
use vuhive.Metric.Registry.{Registry, ErrTypeCollision, metric_type, register}

abbrev pub or_else : Option MetricType → Option MetricType → Option MetricType
or_else (some t) o = some t
or_else none o = o

-- Calls to Register whose errors are dropped.
unfoldable pub register_all : List (String × MetricType) → Registry → Registry
register_all [] r = r
register_all ((name, mt) ∷ calls) r =
    register_all calls (elim (register name mt r) [ ok r' ↦ r' | err e ↦ r ])

register_dropped :
    (name k : String) (mt : MetricType) (r : Registry)
    → lookup name (elim (register k mt r) [ ok r' ↦ r' | err e ↦ r ])
      ≡ or_else (lookup name r) (if str_eq k name then some mt else none)
unfolding register
register_dropped name k mt r = elim (Option-cases (lookup k r)) [
  | inl new ↦ elim (Bool-cases (str_eq k name)) [
    | inl f ↦
        let fresh : lookup name r ≡ none =
          subst (λ n. lookup n r ≡ none) ((eq_iff k name).0 f) new in
        rw (new, lookup-insert k name mt r, f, fresh) refl
    | inr f ↦ rw (new, lookup-insert k name mt r, f) (ground arith)
  ]
  | inr (t, old) ↦ elim (Bool-cases (str_eq k name)) [
    | inl f ↦
        let known : lookup name r ≡ some t =
          subst (λ n. lookup n r ≡ some t) ((eq_iff k name).0 f) old in
        rw old (ground arith)
    | inr f ↦ rw (old, f) (ground arith)
  ]
]

or_else_assoc : (a b c : Option MetricType) → or_else (or_else a b) c ≡ or_else a (or_else b c)
or_else_assoc (some t) b c = refl
or_else_assoc none b c = refl

or_else-lookup :
    (name k : String) (mt : MetricType) (calls : List (String × MetricType))
    → or_else (if str_eq k name then some mt else none) (lookup name calls)
      ≡ lookup name ((k, mt) ∷ calls)
or_else-lookup name k mt calls = ground arith

-- For any registry and any sequence of calls to `register`, in the order in which they get the lock,
-- failing ones included: afterwards a name has the type that it had before, or else the type of the
-- first call that names it, and no type if there is none. A later call with another type changes
-- nothing.
pub register_all-metric_type :
    (calls : List (String × MetricType)) (r : Registry) (name : String)
    → metric_type name (register_all calls r) ≡ or_else (metric_type name r) (lookup name calls)
unfolding metric_type register_all
register_all-metric_type [] r name = ground arith
register_all-metric_type ((k, mt) ∷ calls) r name =
    let rec =
      register_all-metric_type calls (elim (register k mt r) [ ok r' ↦ r' | err e ↦ r ]) name in
    rw (rec, register_dropped name k mt r)
      (or_else_assoc (lookup name r) (if str_eq k name then some mt else none) (lookup name calls)
        ∙ ap (or_else (lookup name r)) (or_else-lookup name k mt calls))

-- same_type decides the equality of types.
pub same_type_lem : (a b : MetricType) → same_type a b ≡ true → a ≡ b
same_type_lem a b h = ground arith

same_type_refl : (a : MetricType) → same_type a a ≡ true
same_type_refl a = ground arith

-- For any registry, name and type: `register` fails exactly when the name is registered with another
-- type, and the error names both types; when it succeeds, the name was
-- unregistered or had that type, it has that type afterwards, and every other name has the type that
-- it had.
pub register_lem :
    (name : String) (mt : MetricType) (r : Registry)
    → ((e : ErrTypeCollision) × (register name mt r ≡ err e)
        × (metric_type name r ≡ some e.existing)
        × (e.existing ≢ mt))
      ⊎ ((r' : Registry) × (register name mt r ≡ ok r')
          × ((metric_type name r ≡ none) ⊎ (metric_type name r ≡ some mt))
          × (metric_type name r' ≡ some mt)
          × ((other : String)
              → str_eq name other ≡ false
              → metric_type other r' ≡ metric_type other r))
unfolding metric_type register
register_lem name mt r = elim (Option-cases (lookup name r)) [
  | inl new ↦ inr (
    insert name mt r,
    rw (register, new) refl,
    inl new,
    rw (lookup-insert name name mt r, (eq_iff name name).1 refl) refl,
    λ other h. rw (lookup-insert name other mt r, h) refl,
  )
  | inr (t, old) ↦ elim (Bool-cases (same_type t mt)) [
    | inl same ↦
        let agreed : lookup name r ≡ some mt = rw (old, same_type_lem t mt same) refl in
        inr (r, rw (register, old, same) refl, inr agreed, agreed, λ other h. refl)
    | inr clash ↦ inl (
      record { name = name; existing = t; new = mt },
      rw (register, old, clash) refl,
      old,
      λ h. cc (sym clash ∙ subst (λ m. same_type t m ≡ true) h (same_type_refl t)),
    )
  ]
]
