-- ===== src/Metric/Collector/Kinds.antt =====
-- internal/metric/collector.go: the storage of a handle agrees with the registered type of its name.
use vuhive.Prelude.{
  none≢some, some_inj, String, [], ◌∷◌, ◌++◌, Option, none, some, false, str_eq, eq_iff, ◌≡◌, refl,
  All, ◌⊎◌, inl, inr, subst, sym, ◌∙◌, Bool-cases, ok, err,
}
use vuhive.Metric.Types.{MetricType, counter_type, gauge_type, duration_type, rate_type}
use vuhive.Metric.Registry.{Registry, ErrTypeCollision, metric_type, must_register, register}
use vuhive.Metric.Registry.Order.{register_lem}
use vuhive.Metric.Keys.{Tags, MetricKey, make_key}
use vuhive.Metric.Collector.{Storage, Collector, get_or_create, counter, gauge, duration, rate}
use vuhive.Metric.Collector.Entries.{get_or_create-cases}

-- Every name of a storage is registered with its type.
abbrev pub Typed : {V : Type 0} → MetricType → Registry → Storage V → Type 0
Typed mt r s = All (λ e. metric_type e.0.name r ≡ some mt) s

-- What a registration keeps.
abbrev Extends : Registry → Registry → Type 0
Extends r r' =
    (name : String) (t : MetricType) → metric_type name r ≡ some t → metric_type name r' ≡ some t

must_register_panics :
    (name : String) (mt : MetricType) (r : Registry) {e : ErrTypeCollision}
    → register name mt r ≡ err e
    → must_register name mt r ≡ none
unfolding must_register
must_register_panics name mt r h = rw (must_register, h) refl

must_register_runs :
    (name : String) (mt : MetricType) (r : Registry) {out : Registry}
    → register name mt r ≡ ok out
    → must_register name mt r ≡ some out
unfolding must_register
must_register_runs name mt r h = rw (must_register, h) refl

extends_lem :
    (name : String) (mt : MetricType) (r out : Registry)
    → (metric_type name r ≡ none) ⊎ (metric_type name r ≡ some mt)
    → metric_type name out ≡ some mt
    → ((other : String) → str_eq name other ≡ false → metric_type other out ≡ metric_type other r)
    → Extends r out
extends_lem name mt r out before typed same n t h = elim (Bool-cases (str_eq name n)) [
  | inr other ↦ same n other ∙ h
  | inl e ↦
      let at : metric_type name r ≡ some t =
        subst (λ m. metric_type m r ≡ some t) (sym ((eq_iff name n).0 e)) h in
      elim before [
        | inl new ↦ absurd (none≢some (sym new ∙ at))
        | inr old ↦
            subst (λ m. metric_type m out ≡ some t) ((eq_iff name n).0 e) (typed ∙ sym old ∙ at)
      ]
]

must_register_lem :
    (name : String) (mt : MetricType) (r : Registry) {r' : Registry}
    → must_register name mt r ≡ some r'
    → (metric_type name r' ≡ some mt) × Extends r r'
must_register_lem name mt r h = elim (register_lem name mt r) [
  | inl (e, fails, known, clash) ↦
      absurd (none≢some (sym (must_register_panics name mt r fails) ∙ h))
  | inr (out, runs, before, typed, same) ↦
      subst (λ o. (metric_type name o ≡ some mt) × Extends r o)
        (some_inj (sym (must_register_runs name mt r runs) ∙ h))
        (typed, extends_lem name mt r out before typed same)
]

Typed-mono :
    {V : Type 0} (mt : MetricType) (r r' : Registry) (s : Storage V)
    → Extends r r'
    → Typed mt r s
    → Typed mt r' s
Typed-mono mt r r' [] up h = tt
Typed-mono mt r r' ((key, v) ∷ s) up h = (up key.name mt h.0, Typed-mono mt r r' s up h.1)

Typed-append :
    {V : Type 0} (mt : MetricType) (r : Registry) (s : Storage V) (key : MetricKey) (v : V)
    → Typed mt r s
    → metric_type key.name r ≡ some mt
    → Typed mt r (s ++ ((key, v) ∷ []))
Typed-append mt r [] key v h typed = (typed, tt)
Typed-append mt r (e ∷ s) key v h typed = (h.0, Typed-append mt r s key v h.1 typed)

get_or_create-Typed :
    {V : Type 0} (key : MetricKey) (mt : MetricType) (fresh : V) (r : Registry) (s : Storage V)
    → Typed mt r s
    → (get_or_create key mt fresh r s ≡ none)
      ⊎ ((out : Registry × Storage V) × (get_or_create key mt fresh r s ≡ some out)
          × Typed mt out.0 out.1
          × Extends r out.0)
get_or_create-Typed key mt fresh r s h = elim (get_or_create-cases key mt fresh r s) [
  | inl clash ↦ inl clash
  | inr (inl (v, found, run)) ↦ inr ((r, s), run, h, λ name t e. e)
  | inr (inr (r', missing, fine, run)) ↦
      let (typed, up) = must_register_lem key.name mt r fine in
      inr (
        (r', s ++ ((key, fresh) ∷ [])),
        run,
        Typed-append mt r' s key fresh (Typed-mono mt r r' s up h) typed,
        up,
      )
]

-- What a request for a handle asks for.
pub data Handle : Type 0 where
  a_counter : Handle
  a_gauge : Handle
  a_duration : Handle
  a_rate : Handle

module _ {F H : Type 0} where
  pub record AllTyped (c : Collector F H) : Type 0 where
    pub counters : Typed counter_type c.registry c.counters
    pub gauges : Typed gauge_type c.registry c.gauges
    pub histograms : Typed duration_type c.registry c.histograms
    pub rates : Typed rate_type c.registry c.rates

  abbrev pub request : F → H → Handle → String → Tags → Collector F H → Option (Collector F H)
  request zero_value new_histogram a_counter name tags c = counter name tags c
  request zero_value new_histogram a_gauge name tags c = gauge zero_value name tags c
  request zero_value new_histogram a_duration name tags c = duration new_histogram name tags c
  request zero_value new_histogram a_rate name tags c = rate name tags c

  pub request-AllTyped :
      (zero_value : F) (new_histogram : H) (handle : Handle) (name : String) (tags : Tags)
      (c : Collector F H)
      → AllTyped c
      → (request zero_value new_histogram handle name tags c ≡ none)
        ⊎ ((c' : Collector F H) × (request zero_value new_histogram handle name tags c ≡ some c')
            × AllTyped c')
  unfolding counter gauge duration rate
  request-AllTyped zero_value new_histogram a_counter name tags c h =
      elim (get_or_create-Typed (make_key name tags) counter_type 0 c.registry c.counters
        h.counters) [
          | inl clash ↦ inl (rw (counter, clash) refl)
          | inr ((r, s), run, typed, up) ↦ inr (
            record c { registry = r; counters = s },
            rw (counter, run) refl,
            record {
              counters = typed;
              gauges = Typed-mono gauge_type c.registry r c.gauges up h.gauges;
              histograms = Typed-mono duration_type c.registry r c.histograms up h.histograms;
              rates = Typed-mono rate_type c.registry r c.rates up h.rates;
            },
          )
        ]
  request-AllTyped zero_value new_histogram a_gauge name tags c h =
      elim (get_or_create-Typed (make_key name tags) gauge_type zero_value c.registry c.gauges
        h.gauges) [
          | inl clash ↦ inl (rw (gauge, clash) refl)
          | inr ((r, s), run, typed, up) ↦ inr (
            record c { registry = r; gauges = s },
            rw (gauge, run) refl,
            record {
              counters = Typed-mono counter_type c.registry r c.counters up h.counters;
              gauges = typed;
              histograms = Typed-mono duration_type c.registry r c.histograms up h.histograms;
              rates = Typed-mono rate_type c.registry r c.rates up h.rates;
            },
          )
        ]
  request-AllTyped zero_value new_histogram a_duration name tags c h =
      elim (get_or_create-Typed (make_key name tags) duration_type new_histogram c.registry
        c.histograms h.histograms) [
          | inl clash ↦ inl (rw (duration, clash) refl)
          | inr ((r, s), run, typed, up) ↦ inr (
            record c { registry = r; histograms = s },
            rw (duration, run) refl,
            record {
              counters = Typed-mono counter_type c.registry r c.counters up h.counters;
              gauges = Typed-mono gauge_type c.registry r c.gauges up h.gauges;
              histograms = typed;
              rates = Typed-mono rate_type c.registry r c.rates up h.rates;
            },
          )
        ]
  request-AllTyped zero_value new_histogram a_rate name tags c h =
      elim (get_or_create-Typed (make_key name tags) rate_type
        (record { numerator = 0; denominator = 0 }) c.registry c.rates h.rates) [
          | inl clash ↦ inl (rw (rate, clash) refl)
          | inr ((r, s), run, typed, up) ↦ inr (
            record c { registry = r; rates = s },
            rw (rate, run) refl,
            record {
              counters = Typed-mono counter_type c.registry r c.counters up h.counters;
              gauges = Typed-mono gauge_type c.registry r c.gauges up h.gauges;
              histograms = Typed-mono duration_type c.registry r c.histograms up h.histograms;
              rates = typed;
            },
          )
        ]
