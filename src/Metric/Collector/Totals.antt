-- ===== src/Metric/Collector/Totals.antt =====
-- internal/metric/collector.go and aggregator.go: counting events and reading their sum.
use vuhive.Prelude.{
  none≢some, some_inj, ℕ, ◌≡◌, refl, String, List, [], ◌∷◌, ◌++◌, Option, none, some, ℤ, str_eq,
  arith, inl, inr, ◌⊎◌, wrap64, subst, sym, ◌∙◌, ap, ◌<◌,
}
use vuhive.Metric.Types.{counter_type}
use vuhive.Metric.Collector.Entries.{get_or_create-cases}
use vuhive.Metric.Keys.{Tags, make_key}
use vuhive.Metric.Collector.{
  Collector, bits, add64, update, counter, count_event, new_collector, counter_total,
  aggregated_counter_value,
}
use vuhive.Metric.Collector.Sums.{
  add64_assoc, add64_zero, share, total_lt, update_total, created_total, of_key,
}

-- What one counted event does to the totals.
abbrev Counted : {F H : Type 0} → String → ℤ → Collector F H → Collector F H → Type 0
Counted name d c c' =
    (n : String)
    → counter_total n c'.counters ≡ add64 (counter_total n c.counters) (share (str_eq name n) d)

module _ {F H : Type 0} where
  count_event-cases :
      (name : String) (tags : Tags) (d : ℤ) (c : Collector F H)
      → (count_event name tags d c ≡ none)
        ⊎ ((c' : Collector F H) × (count_event name tags d c ≡ some c') × Counted name d c c')
  unfolding count_event counter
  count_event-cases name tags d c =
      elim (get_or_create-cases (make_key name tags) counter_type 0 c.registry c.counters) [
        | inl clash ↦ inl (rw (count_event, counter, clash) refl)
        | inr (inl (v, found, run)) ↦ inr (
          record c { counters = update (make_key name tags) (λ x. add64 x (bits d)) c.counters },
          rw (count_event, counter, run) refl,
          λ n.
              of_key name tags n d (counter_total n c.counters)
                (update_total n (make_key name tags) d c.counters found),
        )
        | inr (inr (r', missing, fine, run)) ↦ inr (
          record c {
            registry = r';
            counters =
                update (make_key name tags) (λ x. add64 x (bits d))
                  (c.counters ++ ((make_key name tags, 0) ∷ []));
          },
          rw (count_event, counter, run) refl,
          λ n.
              of_key name tags n d (counter_total n c.counters)
                (created_total n (make_key name tags) d c.counters missing),
        )
      ]

-- c.Counter(name, tags).Add(delta) for each event; a type collision panics.
unfoldable pub count_all :
    {F H : Type 0} → List (String × Tags × ℤ) → Collector F H → Option (Collector F H)
count_all [] c = some c
count_all ((name, tags, d) ∷ events) c = elim (count_event name tags d c) [
  | none ↦ none
  | some c' ↦ count_all events c'
]

-- The deltas of a name, whatever their tags, added in 64 bits.
pub sum_for : String → List (String × Tags × ℤ) → ℕ
sum_for n [] = 0
sum_for n ((name, tags, d) ∷ events) = add64 (share (str_eq name n) d) (sum_for n events)

count_all_hit :
    {F H : Type 0} (name : String) (tags : Tags) (d : ℤ) (events : List (String × Tags × ℤ))
    (c : Collector F H) {mid : Collector F H}
    → count_event name tags d c ≡ some mid
    → count_all ((name, tags, d) ∷ events) c ≡ count_all events mid
unfolding count_all
count_all_hit name tags d events c run = rw (count_all, run) refl

count_all_miss :
    {F H : Type 0} (name : String) (tags : Tags) (d : ℤ) (events : List (String × Tags × ℤ))
    (c : Collector F H)
    → count_event name tags d c ≡ none
    → count_all ((name, tags, d) ∷ events) c ≡ none
unfolding count_all
count_all_miss name tags d events c run = rw (count_all, run) refl

count_all_lem :
    {F H : Type 0} (events : List (String × Tags × ℤ)) (c : Collector F H) {c' : Collector F H}
    → count_all events c ≡ some c'
    → (n : String)
    → counter_total n c'.counters ≡ add64 (counter_total n c.counters) (sum_for n events)
unfolding count_all sum_for
count_all_lem [] c {c' = c'} h n =
    subst (λ o. counter_total n o.counters ≡ add64 (counter_total n c.counters) 0) (some_inj h)
      (sym (add64_zero (counter_total n c.counters) (total_lt n c.counters)))
count_all_lem ((name, tags, d) ∷ events) c h n = elim (count_event-cases name tags d c) [
  | inl clash ↦ absurd (none≢some (sym (count_all_miss name tags d events c clash) ∙ h))
  | inr (mid, run, counted) ↦
      let rec = count_all_lem events mid (sym (count_all_hit name tags d events c run) ∙ h) n in
      rw (rec, counted n)
        (sym
          (add64_assoc (counter_total n c.counters) (share (str_eq name n) d) (sum_for n events)))
]

add64_none : (t : ℕ) → t < 18446744073709551616 → add64 0 t ≡ t
add64_none t h = omega arith

sum_for_lt :
    (n : String) (events : List (String × Tags × ℤ)) → sum_for n events < 18446744073709551616
unfolding sum_for
sum_for_lt n [] = omega arith
sum_for_lt n ((name, tags, d) ∷ events) = ground arith

-- For any sequence of increments `collector.Counter(name, tags).Add(delta)` on a new store, in any
-- interleaving, if none of them panics on a type collision: the aggregated value of a name is the sum
-- of the deltas of the increments under that name, whatever their tags, as int64 addition gives it
-- (with its wrap-around).
pub aggregated_counter_value_sum :
    {F H : Type 0} (events : List (String × Tags × ℤ)) {c : Collector F H}
    → count_all events new_collector ≡ some c
    → (name : String) → aggregated_counter_value name c ≡ wrap64 (sum_for name events)
unfolding aggregated_counter_value new_collector counter_total
aggregated_counter_value_sum events {c = c} h name =
    let total = count_all_lem events new_collector h name in
    ap wrap64 (total ∙ add64_none (sum_for name events) (sum_for_lt name events))
