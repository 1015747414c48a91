-- ===== src/Metric/Collector/Histories.antt =====
-- internal/metric/collector.go: what holds after any history of requests for handles.
use vuhive.Prelude.{String, List, [], ◌∷◌, Option, none, some, inl, inr}
use vuhive.Metric.Keys.{Tags}
use vuhive.Metric.Collector.{Collector, new_collector}
use vuhive.Metric.Collector.Kinds.{Handle, AllTyped, request, request-AllTyped}

-- The store after a request: one that panics changes nothing.
after : {F H : Type 0} → Collector F H → Option (Collector F H) → Collector F H
after c none = c
after c (some c') = c'

module _ {F H : Type 0} where
  pub request_all : F → H → List (Handle × String × Tags) → Collector F H → Collector F H
  request_all zero_value new_histogram [] c = c
  request_all zero_value new_histogram ((handle, name, tags) ∷ rest) c =
      request_all zero_value new_histogram rest
        (after c (request zero_value new_histogram handle name tags c))

  requests_lem :
      (zero_value : F) (new_histogram : H) (requests : List (Handle × String × Tags))
      (c : Collector F H)
      → AllTyped c
      → AllTyped (request_all zero_value new_histogram requests c)
  unfolding request_all after
  requests_lem zero_value new_histogram [] c h = h
  requests_lem zero_value new_histogram ((handle, name, tags) ∷ rest) c h =
      elim (request-AllTyped zero_value new_histogram handle name tags c h) [
        | inl clash ↦ rw clash (requests_lem zero_value new_histogram rest c h)
        | inr (c', run, typed) ↦ rw run (requests_lem zero_value new_histogram rest c' typed)
      ]

  -- For any sequence of requests for counter, gauge, duration and rate handles, on a new store and in
  -- any interleaving, the ones that panic on a type collision included: afterwards every name in the
  -- storage of the counters is registered as a counter, and likewise for the gauges, the durations and
  -- the rates, so no name has handles of two kinds.
  pub request_all-AllTyped :
      (zero_value : F) (new_histogram : H) (requests : List (Handle × String × Tags))
      → AllTyped (request_all zero_value new_histogram requests new_collector)
  unfolding new_collector
  request_all-AllTyped zero_value new_histogram requests =
      requests_lem zero_value new_histogram requests new_collector
        (record { counters = tt; gauges = tt; histograms = tt; rates = tt })
