-- ===== src/Metric/Collector.antt =====
-- internal/metric/collector.go, counter.go, rate.go, gauge.go and aggregator.go: the handles, what they
-- accumulate, and the sums over the tag variants of a name. A handle is the entry of its key: an entry
-- is never replaced. An atomic.Int64 is its bit pattern; `wrap64` reads it as a signed number.
pub mod Entries
pub mod Sums
pub mod Totals
pub mod Kinds
pub mod Histories
pub mod Handles
mod Tests
use vuhive.Prelude.{
  ℕ, ◌+◌, ◌-◌, ◌%◌, String, List, [], ◌∷◌, ◌++◌, Option, none, some, ℤ, pos, negsuc, pos_part,
  neg_part, is_pos, is_neg, Bool, true, false, not, str_eq, if◌then◌else◌, FloatOps, wrap64,
  is_zero,
}
use vuhive.Metric.Types.{
  MetricType, HistogramSnapshot, zero_snapshot, counter_type, gauge_type, duration_type, rate_type,
}
use vuhive.Metric.Registry.{Registry, new_registry, must_register, metric_type}
use vuhive.Sla.{MetricReader}
use vuhive.Metric.Keys.{Tags, MetricKey, key_eq, make_key}

-- The bit pattern of a signed number.
abbrev pub bits : ℤ → ℕ
bits (pos n) = n % 18446744073709551616
bits (negsuc n) = 18446744073709551615 - n % 18446744073709551616

-- atomic.Int64.Add
abbrev pub add64 : ℕ → ℕ → ℕ
add64 a b = (a + b) % 18446744073709551616

pub record Rate : Type 0 where
  pub numerator : ℕ
  pub denominator : ℕ

-- rate.Add
pub rate_add : ℤ → ℤ → Rate → Rate
rate_add numerator denominator r = if not (is_pos denominator) then r else record {
  numerator = add64 r.numerator (if is_neg numerator then 0 else bits numerator);
  denominator = add64 r.denominator (bits denominator);
}

-- A syncStorage: the entries in the order of their creation.
abbrev pub Storage : Type 0 → Type 0
Storage V = List (MetricKey × V)

abbrev pub get : {V : Type 0} → MetricKey → Storage V → Option V
get key [] = none
get key ((j, v) ∷ rest) = if key_eq j key then some v else get key rest

-- A write through the handle of a key.
abbrev pub update : {V : Type 0} → MetricKey → (V → V) → Storage V → Storage V
update key f [] = []
update key f ((j, v) ∷ rest) = if key_eq j key then (j, f v) ∷ rest else (j, v) ∷ update key f rest

-- GetOrCreate: `beforeCreate` registers the name, and a panic there is `none`.
pub get_or_create :
    {V : Type 0} → MetricKey → MetricType → V → Registry → Storage V → Option (Registry × Storage V)
get_or_create key mt fresh registry storage = elim (get key storage) [
  | some v ↦ some (registry, storage)
  | none ↦ elim (must_register key.name mt registry) [
    | none ↦ none
    | some registry' ↦ some (registry', storage ++ ((key, fresh) ∷ []))
  ]
]

-- The values of the counters that share a name, summed. The sum does not depend on the order in which
-- Go visits the map.
pub counter_total : String → Storage ℕ → ℕ
counter_total name [] = 0
counter_total name ((key, v) ∷ rest) =
    if str_eq key.name name then add64 v (counter_total name rest) else counter_total name rest

-- The sums over the rates that share a name.
rate_totals : String → Storage Rate → ℕ × ℕ
rate_totals name [] = (0, 0)
rate_totals name ((key, r) ∷ rest) =
    let (num, den) = rate_totals name rest in
    if str_eq key.name name then (add64 r.numerator num, add64 r.denominator den) else (num, den)

-- A histogram is the parameter H: it belongs to the HdrHistogram library.
pub record Collector (F H : Type 0) : Type 0 where
  pub registry : Registry
  pub counters : Storage ℕ
  pub gauges : Storage F
  pub histograms : Storage H
  pub rates : Storage Rate

module _ {F H : Type 0} where
  pub new_collector : Collector F H
  new_collector = record {
    registry = new_registry;
    counters = [];
    gauges = [];
    histograms = [];
    rates = [];
  }

  pub counter : String → Tags → Collector F H → Option (Collector F H)
  counter name tags c =
      elim (get_or_create (make_key name tags) counter_type 0 c.registry c.counters) [
        | none ↦ none
        | some (r, s) ↦ some (record c { registry = r; counters = s })
      ]

  pub gauge : F → String → Tags → Collector F H → Option (Collector F H)
  gauge zero_value name tags c =
      elim (get_or_create (make_key name tags) gauge_type zero_value c.registry c.gauges) [
        | none ↦ none
        | some (r, s) ↦ some (record c { registry = r; gauges = s })
      ]

  pub duration : H → String → Tags → Collector F H → Option (Collector F H)
  duration new_histogram name tags c =
      elim (get_or_create (make_key name tags) duration_type new_histogram c.registry
        c.histograms) [
          | none ↦ none
          | some (r, s) ↦ some (record c { registry = r; histograms = s })
        ]

  pub rate : String → Tags → Collector F H → Option (Collector F H)
  rate name tags c =
      elim (get_or_create (make_key name tags) rate_type (record { numerator = 0; denominator = 0 })
        c.registry c.rates) [
          | none ↦ none
          | some (r, s) ↦ some (record c { registry = r; rates = s })
        ]

  -- c.Counter(name, tags).Add(delta)
  pub count_event : String → Tags → ℤ → Collector F H → Option (Collector F H)
  count_event name tags delta c = elim (counter name tags c) [
    | none ↦ none
    | some c' ↦ some (record c' {
      counters = update (make_key name tags) (λ v. add64 v (bits delta)) c'.counters;
    })
  ]

  -- Add, through the handle of a counter.
  pub add_through : MetricKey → ℤ → Collector F H → Collector F H
  add_through key delta c = record c {
    counters = update key (λ v. add64 v (bits delta)) c.counters;
  }

  pub aggregated_counter_value : String → Collector F H → ℤ
  aggregated_counter_value name c = wrap64 (counter_total name c.counters)

last_gauge : {F : Type 0} → String → Storage F → Option F
last_gauge name [] = none
last_gauge name ((key, v) ∷ rest) = if str_eq key.name name then some v else last_gauge name rest

named_histograms : {H : Type 0} → String → Storage H → List H
named_histograms name [] = []
named_histograms name ((key, h) ∷ rest) =
    if str_eq key.name name then h ∷ named_histograms name rest else named_histograms name rest

module _ {F H : Type 0} (ops : FloatOps F) where
  pub rate_data : String → Collector F H → F × Bool
  rate_data name c =
      let (num, den) = rate_totals name c.rates in
      if is_zero (wrap64 den)
      then (ops.of_int (pos 0), false)
      else (ops.div (ops.of_int (wrap64 num)) (ops.of_int (wrap64 den)), true)

  -- Of several tag variants, that of the entry that Go visits first.
  pub last_gauge_value : String → Collector F H → F
  last_gauge_value name c = elim (last_gauge name c.gauges) [
    | some v ↦ v
    | none ↦ ops.of_int (pos 0)
  ]

  -- The Store as the evaluator reads it; `snapshot` merges histograms.
  pub store_reader : (List H → HistogramSnapshot) → Collector F H → MetricReader F
  store_reader snapshot c = record {
    metric_type = λ name. metric_type name c.registry;
    merged_histogram_snapshot = λ name. (elim (named_histograms name c.histograms) [
      | [] ↦ zero_snapshot
      | h ∷ hs ↦ snapshot (h ∷ hs)
    ]);
    aggregated_counter_value = λ name. aggregated_counter_value name c;
    rate_data = λ name. rate_data name c;
    last_gauge_value = λ name. last_gauge_value name c;
  }
