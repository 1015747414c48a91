-- ===== src/Metric/Collector/Sums.antt =====
-- internal/metric/collector.go and aggregator.go: the sum of the counters of a name, through one write.
use vuhive.Prelude.{
  ℕ, ◌≡◌, refl, String, [], ◌∷◌, ◌++◌, Option, none, some, ℤ, pos, Bool, true, false, str_eq,
  eq_iff, if◌then◌else◌, arith, Bool-cases, inl, inr, subst, sym, ◌<◌, negsuc,
}
use vuhive.Metric.Keys.{Tags, MetricKey, key_eq, make_key}
use vuhive.Metric.Collector.{Storage, bits, add64, get, update, counter_total}

pub make_key_name : (name : String) (tags : Tags) → (make_key name tags).name ≡ name
unfolding make_key
make_key_name name [] = refl
make_key_name name (e ∷ []) = refl
make_key_name name (e ∷ f ∷ rest) = refl

bits_lt : (d : ℤ) → bits d < 18446744073709551616
bits_lt (pos n) = ground arith
bits_lt (negsuc n) = ground arith

pub total_lt : (name : String) (s : Storage ℕ) → counter_total name s < 18446744073709551616
unfolding counter_total
total_lt name [] = omega arith
total_lt name ((key, v) ∷ rest) = let rec = total_lt name rest in ground arith

some≢none : {x : ℕ} → ◌≡◌ {A = Option ℕ} (some x) none → ⊥
some≢none h = cc

-- What one write adds to a total.
abbrev pub share : Bool → ℤ → ℕ
share true d = bits d
share false d = 0

add64_swap : (x b t : ℕ) → add64 (add64 x b) t ≡ add64 (add64 x t) b
add64_swap x b t = omega arith

pub add64_assoc : (x t b : ℕ) → add64 x (add64 t b) ≡ add64 (add64 x t) b
add64_assoc x t b = omega arith

pub add64_zero : (t : ℕ) → t < 18446744073709551616 → add64 t 0 ≡ t
add64_zero t h = omega arith

key_eq-name : (j key : MetricKey) → key_eq j key ≡ true → j.name ≡ key.name
key_eq-name j key h = (eq_iff j.name key.name).0 (ground arith)

pub update_total :
    (name : String) (key : MetricKey) (d : ℤ) (s : Storage ℕ) {v : ℕ}
    → get key s ≡ some v
    → counter_total name (update key (λ x. add64 x (bits d)) s)
      ≡ add64 (counter_total name s) (share (str_eq key.name name) d)
unfolding counter_total
update_total name key d [] h = cc
update_total name key d ((j, x) ∷ rest) {v = v} h = elim (Bool-cases (key_eq j key)) [
  | inl e ↦ elim (Bool-cases (str_eq key.name name)) [
    | inl f ↦ rw (e, key_eq-name j key e, f) (add64_swap x (bits d) (counter_total name rest))
    | inr f ↦
        rw (e, key_eq-name j key e, f)
          (sym (add64_zero (counter_total name rest) (total_lt name rest)))
  ]
  | inr e ↦
      let found : get key rest ≡ some v =
        subst (λ b. (if b then some x else get key rest) ≡ some v) e h in
      let rec = update_total name key d rest {v = v} found in
      elim (Bool-cases (str_eq j.name name)) [
        | inl f ↦
            rw (e, f, rec)
              (add64_assoc x (counter_total name rest) (share (str_eq key.name name) d))
        | inr f ↦ rw (e, f) rec
      ]
]

pub append_total :
    (name : String) (key : MetricKey) (s : Storage ℕ)
    → counter_total name (s ++ ((key, 0) ∷ [])) ≡ counter_total name s
unfolding counter_total
append_total name key [] = ground arith
append_total name key ((j, x) ∷ rest) = let rec = append_total name key rest in ground arith

pub get-append :
    (key : MetricKey) (s : Storage ℕ) → get key s ≡ none → get key (s ++ ((key, 0) ∷ [])) ≡ some 0
get-append key [] h =
    rw ((eq_iff key.name key.name).1 refl, (eq_iff key.tags_key key.tags_key).1 refl) refl
get-append key ((j, x) ∷ rest) h = elim (Bool-cases (key_eq j key)) [
  | inl e ↦ absurd (some≢none (subst (λ b. (if b then some x else get key rest) ≡ none) e h))
  | inr e ↦
      rw e (get-append key rest (subst (λ b. (if b then some x else get key rest) ≡ none) e h))
]

pub created_total :
    (n : String) (key : MetricKey) (d : ℤ) (s : Storage ℕ)
    → get key s ≡ none
    → counter_total n (update key (λ x. add64 x (bits d)) (s ++ ((key, 0) ∷ [])))
      ≡ add64 (counter_total n s) (share (str_eq key.name n) d)
created_total n key d s missing =
    subst
      (λ t.
        counter_total n (update key (λ x. add64 x (bits d)) (s ++ ((key, 0) ∷ [])))
        ≡ add64 t (share (str_eq key.name n) d))
      (append_total n key s)
      (update_total n key d (s ++ ((key, 0) ∷ [])) (get-append key s missing))

pub of_key :
    (name : String) (tags : Tags) (n : String) (d : ℤ) (t : ℕ) {u : ℕ}
    → u ≡ add64 t (share (str_eq (make_key name tags).name n) d)
    → u ≡ add64 t (share (str_eq name n) d)
of_key name tags n d t {u = u} h =
    subst (λ m. u ≡ add64 t (share (str_eq m n) d)) (make_key_name name tags) h
