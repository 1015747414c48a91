-- ===== src/Metric/Histogram/Tests.antt =====
-- Histograms that are lists of samples.
use vuhive.Prelude.{List, [], ◌∷◌, ◌++◌, ℤ, pos, negsuc, length, length-append, ◌≡◌, refl}
use vuhive.Metric.Histogram.{
  HdrOps, HdrLaws, Call, observed, added, clamped, merged_histogram_snapshot,
}
use vuhive.Metric.Histogram.Counted.{made, merged_histogram_snapshot_total}

abbrev first_or : ℤ → List ℤ → ℤ
first_or d [] = d
first_or d (x ∷ xs) = x

abbrev lists : HdrOps (List ℤ)
lists = record {
  new = [];
  record_value = λ v h. v ∷ h;
  merge = λ a b. a ++ b;
  total_count = λ h. length h;
  min = λ h. first_or (pos 0) h;
  max = λ h. first_or (pos 0) h;
  mean = λ h. first_or (pos 0) h;
  value_at_percentile = λ p h. first_or (pos 0) h;
}

lists-HdrLaws : HdrLaws lists
lists-HdrLaws = record {
  new_lem = refl;
  record_lem = λ n h lo hi. refl;
  merge_lem = λ a b. length-append a b;
}

clamps : (clamped (negsuc 7000) ≡ pos 1) × (clamped (pos 90_000_000_000) ≡ pos 60_000_000)
unfolding clamped
clamps = (refl, refl)

-- Two samples and a histogram with two under one tag, and one sample under another.
abbrev two_variants : List (List (Call (List ℤ)))
two_variants =
    (observed (pos 5_000_000) ∷ added (pos 1 ∷ pos 2 ∷ []) ∷ observed (negsuc 3) ∷ [])
    ∷ (observed (pos 7) ∷ [])
    ∷ []

merged_histogram_snapshot_total_example :
    (merged_histogram_snapshot lists (made lists two_variants)).count ≡ pos 5
merged_histogram_snapshot_total_example =
    merged_histogram_snapshot_total lists lists-HdrLaws two_variants
