-- ===== src/Data/Queue.antt =====
-- pkg/vuhive/data/dataset.go: the shared queue against a queue that gives each record once.
use vuhive.Prelude.{
  ℕ, zero, suc, ◌+◌, ◌≤◌, ◌<◌, ◌≡◌, refl, sym, ◌∙◌, ap, List, [], ◌∷◌, Option, some, pos, leb_ℤ,
  true, false, length, get_elem?, wrap64, arith, ◌⊎◌, inl, inr,
}
use vuhive.Metric.Collector.{add64}
use vuhive.Data.{
  DataSet, new_data_set, shared_queue, Next, selected, exhausted, ContextAccessor, at, queue_record,
  select, next, next_all,
}

wrap_small : (n : ℕ) → n < 9223372036854775808 → wrap64 n ≡ pos n
wrap_small n h = ground arith

next_small : (n : ℕ) → n < 9223372036854775808 → add64 n 1 ≡ suc n
next_small n h = omega arith

module _ {R : Type 0} where
  -- What k calls get from a queue.
  unfoldable pub served : ℕ → List R → List (Next R)
  served zero rs = []
  served (suc k) [] = exhausted ∷ served k []
  served (suc k) (r ∷ rs) = selected r ∷ served k rs

  abbrev drop : ℕ → List R → List R
  drop zero rs = rs
  drop (suc n) [] = []
  drop (suc n) (r ∷ rs) = drop n rs

  drop-cases :
      (n : ℕ) (rs : List R)
      → ((drop n rs ≡ []) × (drop (suc n) rs ≡ []) × (length rs ≤ n))
        ⊎ ((r : R) × (drop n rs ≡ r ∷ drop (suc n) rs)
            × (get_elem? rs n ≡ some r)
            × (n < length rs))
  drop-cases zero [] = inl (refl, refl, omega arith)
  drop-cases zero (r ∷ rs) = inr (r, refl, refl, omega arith)
  drop-cases (suc n) [] = inl (refl, refl, omega arith)
  drop-cases (suc n) (r ∷ rs) = elim (drop-cases n rs) [
    | inl (a, b, c) ↦ inl (a, b, omega arith)
    | inr (x, a, b, c) ↦ inr (x, a, b, omega arith)
  ]

  queue_of : List R → ℕ → DataSet R
  queue_of rs n = record { records = rs; strategy = shared_queue; cursor = n }

  queue_record-cases :
      (n : ℕ) (rs : List R)
      → n < 9223372036854775808
      → ((drop n rs ≡ []) × (drop (suc n) rs ≡ []) × (queue_record (wrap64 n) rs ≡ exhausted))
        ⊎ ((r : R) × (drop n rs ≡ r ∷ drop (suc n) rs) × (queue_record (wrap64 n) rs ≡ selected r))
  unfolding queue_record at
  queue_record-cases n rs h = elim (drop-cases n rs) [
    | inl (a, b, past) ↦
        let over : leb_ℤ (pos (length rs)) (pos n) ≡ true = ground arith in
        inl (a, b, rw (queue_record, wrap_small n h, over) refl)
    | inr (r, a, found, inside) ↦
        let under : leb_ℤ (pos (length rs)) (pos n) ≡ false = ground arith in
        inr (r, a, rw (queue_record, at, wrap_small n h, under, found) refl)
  ]

  queue_lem :
      (calls : List (Option ContextAccessor × ℕ)) (r : R) (rs : List R) (n : ℕ)
      → n + length calls ≤ 9223372036854775808
      → next_all calls (queue_of (r ∷ rs) n) ≡ served (length calls) (drop n (r ∷ rs))
  unfolding next_all next select served queue_of
  queue_lem [] r rs n h = refl
  queue_lem ((ctx, draw) ∷ calls) r rs n h =
      let small : n < 9223372036854775808 = omega arith in
      let rest = queue_lem calls r rs (suc n) (omega arith) in
      let moved = ap (λ c. next_all calls (queue_of (r ∷ rs) c)) (next_small n small) ∙ rest in
      elim (queue_record-cases n (r ∷ rs) small) [
        | inl (a, b, out) ↦
            (λ i. out i ∷ moved i)
            ∙ ap (λ l. exhausted ∷ served (length calls) l) b
            ∙ sym (ap (served (suc (length calls))) a)
        | inr (x, a, out) ↦ (λ i. out i ∷ moved i) ∙ sym (ap (served (suc (length calls))) a)
      ]

  empty_lem :
      (calls : List (Option ContextAccessor × ℕ)) (n : ℕ)
      → next_all calls (queue_of [] n) ≡ served (length calls) []
  unfolding next_all next served queue_of
  empty_lem [] n = refl
  empty_lem ((ctx, draw) ∷ calls) n = ap (λ l. exhausted ∷ l) (empty_lem calls n)

  -- For any records and fewer than 2 ^ 63 calls of Next on a shared queue, by any contexts and in any
  -- order of their atomic steps: the calls get the records in order, each exactly once, and every call
  -- after the last record gets ErrDatasetExhausted. No call is out of range.
  pub next_all-served :
      (calls : List (Option ContextAccessor × ℕ)) (rs : List R)
      → length calls < 9223372036854775808
      → next_all calls (new_data_set rs shared_queue) ≡ served (length calls) rs
  unfolding new_data_set
  next_all-served calls [] h = unfold queue_of in empty_lem calls 0
  next_all-served calls (r ∷ rs) h = unfold queue_of in queue_lem calls r rs 0 (omega arith)
