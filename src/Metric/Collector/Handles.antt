-- ===== src/Metric/Collector/Handles.antt =====
-- internal/metric/collector.go and counter.go: a counter that is kept as a handle and counted through it.
use vuhive.Prelude.{
  false≢true, ℕ, ◌≡◌, refl, sym, subst, String, [], ◌∷◌, ◌++◌, some, is_some, ℤ, true, str_eq,
  if◌then◌else◌, Bool-cases, Option-cases, inl, inr, lookup,
}
use vuhive.Metric.Types.{counter_type}
use vuhive.Metric.Registry.{Registry, must_register, register}
use vuhive.Metric.Keys.{Tags, MetricKey, key_eq, make_key}
use vuhive.Metric.Collector.{
  Collector, Storage, bits, add64, get, get_or_create, update, counter, counter_total, add_through,
}
use vuhive.Metric.Collector.Sums.{
  share, update_total, append_total, get-append, of_key, make_key_name,
}

-- The handle of a key is an entry of the storage.
abbrev pub HasEntry : MetricKey → Storage ℕ → Type 0
HasEntry key s = is_some (get key s) ≡ true

HasEntry-append : (key : MetricKey) (s t : Storage ℕ) → HasEntry key s → HasEntry key (s ++ t)
HasEntry-append key [] t h = cc
HasEntry-append key ((j, v) ∷ s) t h = elim (Bool-cases (key_eq j key)) [
  | inl e ↦ rw e refl
  | inr e ↦
      let there : HasEntry key s =
        subst (λ b. is_some (if b then some v else get key s) ≡ true) e h in
      rw e (HasEntry-append key s t there)
]

HasEntry-update :
    (key other : MetricKey) (f : ℕ → ℕ) (s : Storage ℕ)
    → HasEntry key s
    → HasEntry key (update other f s)
HasEntry-update key other f [] h = h
HasEntry-update key other f ((j, v) ∷ s) h = elim (Bool-cases (key_eq j key)) [
  | inl mine ↦ elim (Bool-cases (key_eq j other)) [
    | inl hit ↦ rw (hit, mine) refl
    | inr miss ↦ rw (miss, mine) refl
  ]
  | inr not_mine ↦
      let there : HasEntry key s =
        subst (λ b. is_some (if b then some v else get key s) ≡ true) not_mine h in
      elim (Bool-cases (key_eq j other)) [
        | inl hit ↦ rw (hit, not_mine) there
        | inr miss ↦ rw (miss, not_mine) (HasEntry-update key other f s there)
      ]
]

registered_lem :
    (key : MetricKey) (name : String) (r : Registry)
    → key.name ≡ name
    → lookup name r ≡ some counter_type
    → must_register key.name counter_type r ≡ some r
unfolding must_register register
registered_lem key name r e known =
    subst (λ n. must_register n counter_type r ≡ some r) (sym e)
      (rw (must_register, register, known) refl)

module _ {F H : Type 0} where
  -- The name is registered as a counter.
  abbrev pub IsCounter : String → Collector F H → Type 0
  IsCounter name c = lookup name c.registry ≡ some counter_type

  -- What the creation of a handle leaves as it was.
  pub record Keeps (c c' : Collector F H) : Type 0 where
    pub totals : (n : String) → counter_total n c'.counters ≡ counter_total n c.counters
    pub entries : (key : MetricKey) → HasEntry key c.counters → HasEntry key c'.counters
    pub registry : c'.registry ≡ c.registry

  -- The handle of a counter whose name is registered as one is always obtained.
  pub counter_lem :
      (name : String) (tags : Tags) (c : Collector F H)
      → IsCounter name c
      → (c' : Collector F H) × (counter name tags c ≡ some c')
        × Keeps c c'
        × HasEntry (make_key name tags) c'.counters
  unfolding counter get_or_create
  counter_lem name tags c known =
      let key = make_key name tags in
      let fine = registered_lem key name c.registry (make_key_name name tags) known in
      elim (Option-cases (get key c.counters)) [
        | inr (v, found) ↦ (
          c,
          rw (counter, get_or_create, found) refl,
          record { totals = λ n. refl; entries = λ k h. h; registry = refl },
          rw found refl,
        )
        | inl missing ↦ (
          record c { counters = c.counters ++ ((key, 0) ∷ []) },
          rw (counter, get_or_create, missing, fine) refl,
          record {
            totals = λ n. append_total n key c.counters;
            entries = λ k h. HasEntry-append k c.counters ((key, 0) ∷ []) h;
            registry = refl;
          },
          rw (get-append key c.counters missing) refl,
        )
      ]

  -- An addition through a handle counts for its name, and no handle is lost.
  pub add_through_lem :
      (name : String) (tags : Tags) (d : ℤ) (c : Collector F H)
      → HasEntry (make_key name tags) c.counters
      → ((n : String)
          → counter_total n (add_through (make_key name tags) d c).counters
            ≡ add64 (counter_total n c.counters) (share (str_eq name n) d))
        × ((key : MetricKey)
            → HasEntry key c.counters
            → HasEntry key (add_through (make_key name tags) d c).counters)
        × ((add_through (make_key name tags) d c).registry ≡ c.registry)
  unfolding add_through
  add_through_lem name tags d c h = elim (Option-cases (get (make_key name tags) c.counters)) [
    | inl missing ↦ absurd (false≢true (subst (λ o. is_some o ≡ true) missing h))
    | inr (v, found) ↦ (
      λ n.
          of_key name tags n d (counter_total n c.counters)
            (update_total n (make_key name tags) d c.counters found),
      λ key k. HasEntry-update key (make_key name tags) (λ x. add64 x (bits d)) c.counters k,
      refl,
    )
  ]
