-- ===== src/Metric/Registry/Names.antt =====
-- internal/metric/registry.go: NamesByType lists the names that are registered with a type.
use vuhive.Prelude.{
  String, List, [], ◌∷◌, none, some, true, lookup, insert, ok, err, ◌≡◌, refl, sym, ap, ◌∙◌, str_eq,
  eq_iff, lookup-insert, arith, All, All-sort_by, has, has-sort_by, Option-cases, Bool-cases, inl,
  inr, some_inj, none≢some, str_eq_sym,
}
use vuhive.Metric.Types.{MetricType, same_type}
use vuhive.Metric.Registry.{Registry, register, new_registry, names_of, names_by_type}
use vuhive.Metric.Registry.Order.{register_all, same_type_lem}

-- Each entry is the one that its name looks up, as in a map.
abbrev pub IsMap : Registry → Type 0
IsMap r = All (λ (e : String × MetricType). lookup e.0 r ≡ some e.1) r

names_of-All :
    (mt : MetricType) (r s : Registry)
    → All (λ (e : String × MetricType). lookup e.0 r ≡ some e.1) s
    → All (λ n. lookup n r ≡ some mt) (names_of mt s)
unfolding names_of
names_of-All mt r [] h = tt
names_of-All mt r ((name, t) ∷ s) h = elim (Bool-cases (same_type t mt)) [
  | inl e ↦ rw e (h.0 ∙ ap some (same_type_lem t mt e), names_of-All mt r s h.1)
  | inr e ↦ rw e (names_of-All mt r s h.1)
]

-- Every name that is listed has the type.
pub names_by_type-All :
    (mt : MetricType) (r : Registry)
    → IsMap r
    → All (λ n. lookup n r ≡ some mt) (names_by_type mt r)
unfolding names_by_type
names_by_type-All mt r h =
    All-sort_by (λ n. n) (λ n. lookup n r ≡ some mt) (names_of mt r) (names_of-All mt r r h)

same_type_of_eq : (a b : MetricType) → a ≡ b → same_type a b ≡ true
same_type_of_eq a b h = ground (arith, h)

names_of-has :
    (mt : MetricType) (name : String) (r : Registry)
    → lookup name r ≡ some mt
    → has (λ n. str_eq n name) (names_of mt r) ≡ true
unfolding names_of
names_of-has mt name [] h = absurd (none≢some h)
names_of-has mt name ((k, t) ∷ r) h = elim (Bool-cases (str_eq k name)) [
  | inl e ↦
      let here : t ≡ mt = some_inj (sym (rw e refl) ∙ h) in rw (same_type_of_eq t mt here, e) refl
  | inr e ↦
      let rec = names_of-has mt name r ((sym (rw e refl)) ∙ h) in
      elim (Bool-cases (same_type t mt)) [ inl m ↦ rw (m, e) rec | inr m ↦ rw m rec ]
]

-- Every name with the type is listed.
pub names_by_type-has :
    (mt : MetricType) (name : String) (r : Registry)
    → lookup name r ≡ some mt
    → has (λ n. str_eq n name) (names_by_type mt r) ≡ true
unfolding names_by_type
names_by_type-has mt name r h =
    has-sort_by (λ n. n) (λ n. str_eq n name) (names_of mt r) ∙ names_of-has mt name r h

-- A name that is new to the map, put into a part of it.
insert-entries :
    (name : String) (mt : MetricType) (r s : Registry)
    → lookup name r ≡ none
    → All (λ (e : String × MetricType). lookup e.0 r ≡ some e.1) s
    → lookup name s ≡ none
    → All (λ (e : String × MetricType). lookup e.0 (insert name mt r) ≡ some e.1) (insert name mt s)
insert-entries name mt r [] new h free =
    (lookup-insert name name mt r ∙ rw ((eq_iff name name).1 refl) refl, tt)
insert-entries name mt r ((k, t) ∷ s) new h free = elim (Bool-cases (str_eq k name)) [
  | inl e ↦ absurd (none≢some {a = t} (sym free ∙ rw e refl))
  | inr e ↦
      let kept : lookup k (insert name mt r) ≡ some t =
        lookup-insert name k mt r ∙ rw (str_eq_sym name k, e) h.0 in
      rw e (kept, insert-entries name mt r s new h.1 ((sym (rw e refl)) ∙ free))
]

dropped-IsMap :
    (name : String) (mt : MetricType) (r : Registry)
    → IsMap r
    → IsMap (elim (register name mt r) [ ok r' ↦ r' | err e ↦ r ])
unfolding register
dropped-IsMap name mt r h = elim (Option-cases (lookup name r)) [
  | inl new ↦ rw new (insert-entries name mt r r new h new)
  | inr (t, old) ↦ elim (Bool-cases (same_type t mt)) [
    | inl e ↦ rw (old, e) h
    | inr e ↦ rw (old, e) h
  ]
]

pub register_all-IsMap :
    (calls : List (String × MetricType)) (r : Registry) → IsMap r → IsMap (register_all calls r)
unfolding register_all
register_all-IsMap [] r h = h
register_all-IsMap ((name, mt) ∷ calls) r h =
    register_all-IsMap calls (elim (register name mt r) [ ok r' ↦ r' | err e ↦ r ])
      (dropped-IsMap name mt r h)

pub new_registry-IsMap : IsMap new_registry
unfolding new_registry
new_registry-IsMap = (refl, (refl, tt))
