-- ===== src/Metric/Histogram/Counted.antt =====
-- internal/metric/histogram.go: no sample is lost.
use vuhive.Prelude.{
  ℕ, zero, suc, ◌+◌, ◌%◌, ◌≤◌, ◌<◌, List, [], ◌∷◌, ◌++◌, map, ℤ, pos, negsuc, ◌≡◌, refl, ap, ◌∙◌,
  length, ltb_ℤ, ◌==◌, Bool-cases, inl, inr, true, arith,
}
use vuhive.Metric.Histogram.{
  HdrOps, HdrLaws, Histogram, clamped, at_least_1, at_most_60s, microseconds, change_at, copies,
  new_histogram, observe, add_histogram, Call, observed, added, run_call, run_calls, filled,
  merge_all, statistics, snapshot, gathered, merged_histogram_snapshot,
}

at_least_1_lem : (us : ℤ) → (n : ℕ) × (at_least_1 us ≡ pos n) × (1 ≤ n)
at_least_1_lem (pos n) = elim (Bool-cases (ltb_ℤ (pos n) (pos 1))) [
  | inl e ↦ (1, rw e refl, omega arith)
  | inr e ↦ (n, rw e refl, ground arith)
]
at_least_1_lem (negsuc n) =
    let below : ltb_ℤ (negsuc n) (pos 1) ≡ true = ground arith in (1, rw below refl, omega arith)

at_most_60s_lem :
    (n : ℕ) → 1 ≤ n → (k : ℕ) × (at_most_60s (pos n) ≡ pos k) × (1 ≤ k) × (k ≤ 60_000_000)
at_most_60s_lem n h = elim (Bool-cases (ltb_ℤ (pos 60_000_000) (pos n))) [
  | inl e ↦ (60_000_000, rw e refl, omega arith, omega arith)
  | inr e ↦ (n, rw e refl, h, ground arith)
]

-- A clamped sample is in the range of the histograms.
clamped_bounds : (d : ℤ) → (n : ℕ) × (clamped d ≡ pos n) × (1 ≤ n) × (n ≤ 60_000_000)
unfolding clamped
clamped_bounds d =
    let (n, low, one) = at_least_1_lem (microseconds d) in
    let (k, high, lo, hi) = at_most_60s_lem n one in (k, ap at_most_60s low ∙ high, lo, hi)

module _ {H : Type 0} (hdr : HdrOps H) where
  -- The samples of several histograms.
  unfoldable sum_counts : List H → ℕ
  sum_counts [] = 0
  sum_counts (h ∷ hs) = hdr.total_count h + sum_counts hs

  sum_counts-append : (xs ys : List H) → sum_counts (xs ++ ys) ≡ sum_counts xs + sum_counts ys
  unfolding sum_counts
  sum_counts-append [] ys = omega arith
  sum_counts-append (x ∷ xs) ys = omega (arith, sum_counts-append xs ys)

  sum_counts-filled : (hs : List H) → sum_counts (filled hdr hs) ≡ sum_counts hs
  unfolding sum_counts filled
  sum_counts-filled [] = refl
  sum_counts-filled (h ∷ hs) = let rec = sum_counts-filled hs in ground (arith, rec)

  length-change_at : (i : ℕ) (f : H → H) (hs : List H) → length (change_at i f hs) ≡ length hs
  length-change_at i f [] = refl
  length-change_at zero f (h ∷ hs) = refl
  length-change_at (suc i) f (h ∷ hs) = ap suc (length-change_at i f hs)

  sum_counts-change_at :
      (i : ℕ) (f : H → H) (hs : List H)
      → i < length hs
      → ((h : H) → hdr.total_count (f h) ≡ suc (hdr.total_count h))
      → sum_counts (change_at i f hs) ≡ suc (sum_counts hs)
  unfolding sum_counts
  sum_counts-change_at i f [] h one = absurd (omega (arith, h))
  sum_counts-change_at zero f (x ∷ hs) h one = omega (arith, one x)
  sum_counts-change_at (suc i) f (x ∷ hs) h one =
      omega (arith, sum_counts-change_at i f hs (omega arith) one)

  -- The samples that a histogram holds.
  samples : Histogram H → ℕ
  samples h = sum_counts h.shards + sum_counts h.histograms

  -- What a call adds.
  abbrev pub weight : Call H → ℕ
  weight (observed d) = 1
  weight (added h) = hdr.total_count h

  abbrev pub weights : List (Call H) → ℕ
  weights [] = 0
  weights (c ∷ cs) = weight c + weights cs

  abbrev pub made : List (List (Call H)) → List (Histogram H)
  made = map (λ cs. run_calls hdr cs (new_histogram hdr))

  abbrev pub all_weights : List (List (Call H)) → ℕ
  all_weights [] = 0
  all_weights (cs ∷ rest) = weights cs + all_weights rest

  module _ (laws : HdrLaws hdr) where
    observe_lem :
        (d : ℤ) (h : Histogram H)
        → length h.shards ≡ 16
        → (length (observe hdr d h).shards ≡ 16)
          × (sum_counts (observe hdr d h).shards ≡ suc (sum_counts h.shards))
          × ((observe hdr d h).histograms ≡ h.histograms)
    unfolding observe
    observe_lem d h wide =
        let (n, is, lo, hi) = clamped_bounds d in
        let i : ℕ = (h.seq + 1) % 4294967296 % 16 in
        let one : (x : H)
            → hdr.total_count (hdr.record_value (clamped d) x) ≡ suc (hdr.total_count x) =
          λ x.
            ap (λ (v : ℤ). hdr.total_count (hdr.record_value v x)) is ∙ laws.record_lem n x lo hi in
        (
          length-change_at i (hdr.record_value (clamped d)) h.shards ∙ wide,
          sum_counts-change_at i (hdr.record_value (clamped d)) h.shards (omega arith) one,
          refl,
        )

    run_call_lem :
        (c : Call H) (h : Histogram H)
        → length h.shards ≡ 16
        → (length (run_call hdr c h).shards ≡ 16)
          × (samples (run_call hdr c h) ≡ weight c + samples h)
    unfolding run_call add_histogram samples sum_counts
    run_call_lem (observed d) h wide =
        let (wide', more, same) = observe_lem d h wide in
        let held = ap sum_counts same in (wide', omega (arith, more, held))
    run_call_lem (added g) h wide =
        let more = sum_counts-append h.histograms (g ∷ []) in (wide, omega (arith, more))

    run_calls_lem :
        (cs : List (Call H)) (h : Histogram H)
        → length h.shards ≡ 16
        → samples (run_calls hdr cs h) ≡ weights cs + samples h
    unfolding run_calls
    run_calls_lem [] h wide = omega arith
    run_calls_lem (c ∷ cs) h wide =
        let (wide', more) = run_call_lem c h wide in
        let rec = run_calls_lem cs (run_call hdr c h) wide' in omega (arith, more, rec)

    merge_all_lem :
        (m : H) (hs : List H)
        → hdr.total_count (merge_all hdr m hs) ≡ hdr.total_count m + sum_counts hs
    unfolding merge_all sum_counts
    merge_all_lem m [] = omega arith
    merge_all_lem m (h ∷ hs) = omega (arith, laws.merge_lem m h, merge_all_lem (hdr.merge m h) hs)

    sum_counts-copies : (n : ℕ) → sum_counts (copies n hdr.new) ≡ 0
    unfolding sum_counts
    sum_counts-copies zero = refl
    sum_counts-copies (suc n) = omega (arith, laws.new_lem, sum_counts-copies n)

    new_wide : length (new_histogram hdr).shards ≡ 16
    unfolding new_histogram
    new_wide = refl

    new_samples : samples (new_histogram hdr) ≡ 0
    unfolding samples new_histogram sum_counts
    new_samples = omega (arith, sum_counts-copies 16)

    statistics_count : (m : H) → (statistics hdr m).count ≡ pos (hdr.total_count m)
    unfolding statistics
    statistics_count m = elim (Bool-cases (hdr.total_count m == 0)) [
      | inl e ↦ rw e (ap pos (ground arith))
      | inr e ↦ rw e refl
    ]

    snapshot_count : (h : Histogram H) → (snapshot hdr h).count ≡ pos (samples h)
    unfolding snapshot samples
    snapshot_count h =
        let shards = merge_all_lem hdr.new (filled hdr h.shards) in
        let whole = merge_all_lem (merge_all hdr hdr.new (filled hdr h.shards)) h.histograms in
        statistics_count (merge_all hdr (merge_all hdr hdr.new (filled hdr h.shards)) h.histograms)
        ∙ ap pos (omega (arith, shards, whole, sum_counts-filled h.shards, laws.new_lem))

    abbrev all_samples : List (Histogram H) → ℕ
    all_samples [] = 0
    all_samples (h ∷ hs) = samples h + all_samples hs

    gathered_lem : (hs : List (Histogram H)) → sum_counts (gathered hdr hs) ≡ all_samples hs
    unfolding gathered samples sum_counts
    gathered_lem [] = refl
    gathered_lem (h ∷ hs) =
        let a = sum_counts-append (filled hdr h.shards) (h.histograms ++ gathered hdr hs) in
        let b = sum_counts-append h.histograms (gathered hdr hs) in
        omega (arith, a, b, sum_counts-filled h.shards, gathered_lem hs)

    fresh_lem :
        (gs : List H) → samples (record (new_histogram hdr) { histograms = gs }) ≡ sum_counts gs
    unfolding samples new_histogram
    fresh_lem gs = omega (arith, sum_counts-copies 16)

    merged_lem :
        (hs : List (Histogram H)) → (merged_histogram_snapshot hdr hs).count ≡ pos (all_samples hs)
    unfolding merged_histogram_snapshot
    merged_lem [] = refl
    merged_lem (h ∷ []) = snapshot_count h ∙ ap pos (omega arith)
    merged_lem (h ∷ g ∷ hs) =
        snapshot_count (record (new_histogram hdr) { histograms = gathered hdr (h ∷ g ∷ hs) })
        ∙ ap pos (fresh_lem (gathered hdr (h ∷ g ∷ hs)) ∙ gathered_lem (h ∷ g ∷ hs))

    made_samples :
        (variants : List (List (Call H))) → all_samples (made variants) ≡ all_weights variants
    made_samples [] = refl
    made_samples (cs ∷ rest) =
        let one = run_calls_lem cs (new_histogram hdr) new_wide in
        omega (arith, one, new_samples, made_samples rest)

    -- Where the histogram library counts as its documentation says: for any calls of Observe, with any
    -- durations, negative ones and those above 60 seconds included, and of AddHistogram, on the
    -- histograms of any number of tag variants of a name, the merged snapshot counts each observed
    -- duration once, and all the samples of each added histogram.
    pub merged_histogram_snapshot_total :
        (variants : List (List (Call H)))
        → (merged_histogram_snapshot hdr (made variants)).count ≡ pos (all_weights variants)
    merged_histogram_snapshot_total variants =
        merged_lem (made variants) ∙ ap pos (made_samples variants)
