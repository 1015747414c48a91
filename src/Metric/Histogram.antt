-- ===== src/Metric/Histogram.antt =====
-- internal/metric/histogram.go, and MergedHistogramSnapshot of aggregator.go: the durations of a name.
-- HdrOps is the HdrHistogram library, with the laws that the code relies on in HdrLaws. A sample
-- changes one shard under its lock, so it is one step.
pub mod Counted
mod Tests
use vuhive.Prelude.{
  ℕ, zero, suc, ◌+◌, ◌*◌, ◌/◌, ◌%◌, ◌≤◌, List, [], ◌∷◌, ◌++◌, ℤ, pos, negsuc, ltb_ℤ, ◌*ℤ◌, sub_ℕ,
  pos_part, neg_part, ltb, ◌==◌, if◌then◌else◌, ◌≡◌,
}
use vuhive.Metric.Types.{HistogramSnapshot, zero_snapshot}

-- Merge and RecordValue give the changed histogram; RecordValue leaves it as it is when it fails.
pub record HdrOps (H : Type 0) : Type 0 where
  pub new : H
  pub record_value : ℤ → H → H
  pub merge : H → H → H
  pub total_count : H → ℕ
  pub min : H → ℤ
  pub max : H → ℤ
  -- The mean, cut to an integer.
  pub mean : H → ℤ
  pub value_at_percentile : ℕ → H → ℤ

-- The counts, for the range from 1 to 60,000,000 that the histograms are made with.
pub record HdrLaws {H : Type 0} (hdr : HdrOps H) : Type 0 where
  pub new_lem : hdr.total_count hdr.new ≡ 0
  pub record_lem :
      (n : ℕ) (h : H)
      → 1 ≤ n
      → n ≤ 60_000_000
      → hdr.total_count (hdr.record_value (pos n) h) ≡ suc (hdr.total_count h)
  pub merge_lem :
      (a b : H) → hdr.total_count (hdr.merge a b) ≡ hdr.total_count a + hdr.total_count b

abbrev pub hist_shards : ℕ
hist_shards = 16

-- The histogram: 16 shards, an atomic uint32 that chooses one, and the histograms of single users.
pub record Histogram (H : Type 0) : Type 0 where
  pub shards : List H
  pub seq : ℕ
  pub histograms : List H

-- Duration.Microseconds, which cuts towards 0.
abbrev pub microseconds : ℤ → ℤ
microseconds d = sub_ℕ (pos_part d / 1000) (neg_part d / 1000)

-- The two clamps of Observe.
abbrev pub at_least_1 : ℤ → ℤ
at_least_1 us = if ltb_ℤ us (pos 1) then pos 1 else us

abbrev pub at_most_60s : ℤ → ℤ
at_most_60s us = if ltb_ℤ (pos 60_000_000) us then pos 60_000_000 else us

unfoldable pub clamped : ℤ → ℤ
clamped d = at_most_60s (at_least_1 (microseconds d))

abbrev pub change_at : {H : Type 0} → ℕ → (H → H) → List H → List H
change_at i f [] = []
change_at zero f (h ∷ hs) = f h ∷ hs
change_at (suc i) f (h ∷ hs) = h ∷ change_at i f hs

abbrev pub copies : {H : Type 0} → ℕ → H → List H
copies zero h = []
copies (suc n) h = h ∷ copies n h

pub data Call (H : Type 0) : Type 0 where
  observed : ℤ → Call H
  added : H → Call H

module _ {H : Type 0} (hdr : HdrOps H) where
  pub new_histogram : Histogram H
  new_histogram = record { shards = copies hist_shards hdr.new; seq = 0; histograms = [] }

  pub observe : ℤ → Histogram H → Histogram H
  unfolding clamped
  observe d h =
      let seq = (h.seq + 1) % 4294967296 in
      record h {
        shards = change_at (seq % hist_shards) (hdr.record_value (clamped d)) h.shards;
        seq = seq;
      }

  pub add_histogram : H → Histogram H → Histogram H
  add_histogram h g = record g { histograms = g.histograms ++ h ∷ [] }

  -- The calls of Observe and AddHistogram, in the order of the locks.
  pub run_call : Call H → Histogram H → Histogram H
  unfolding observe add_histogram
  run_call (observed d) h = observe d h
  run_call (added g) h = add_histogram g h

  pub run_calls : List (Call H) → Histogram H → Histogram H
  unfolding run_call
  run_calls [] h = h
  run_calls (c ∷ cs) h = run_calls cs (run_call c h)

  -- The shards that hold a sample.
  unfoldable pub filled : List H → List H
  filled [] = []
  filled (h ∷ hs) = if ltb 0 (hdr.total_count h) then h ∷ filled hs else filled hs

  unfoldable pub merge_all : H → List H → H
  merge_all merged [] = merged
  merge_all merged (h ∷ hs) = merge_all (hdr.merge merged h) hs

  abbrev pub nanoseconds : ℤ → ℤ
  nanoseconds us = us *ℤ pos 1000

  unfoldable pub statistics : H → HistogramSnapshot
  statistics merged = if hdr.total_count merged == 0 then zero_snapshot else record {
    count = pos (hdr.total_count merged);
    min = nanoseconds (hdr.min merged);
    max = nanoseconds (hdr.max merged);
    mean = nanoseconds (hdr.mean merged);
    p50 = nanoseconds (hdr.value_at_percentile 50 merged);
    p90 = nanoseconds (hdr.value_at_percentile 90 merged);
    p95 = nanoseconds (hdr.value_at_percentile 95 merged);
    p99 = nanoseconds (hdr.value_at_percentile 99 merged);
  }

  pub snapshot : Histogram H → HistogramSnapshot
  unfolding filled merge_all statistics
  snapshot h = statistics (merge_all (merge_all hdr.new (filled h.shards)) h.histograms)

  -- The histograms of every tag variant.
  gathered : List (Histogram H) → List H
  unfolding filled
  gathered [] = []
  gathered (h ∷ hs) = filled h.shards ++ (h.histograms ++ gathered hs)

  -- MergedHistogramSnapshot, of the histograms that have the name.
  pub merged_histogram_snapshot : List (Histogram H) → HistogramSnapshot
  unfolding snapshot gathered new_histogram
  merged_histogram_snapshot [] = zero_snapshot
  merged_histogram_snapshot (h ∷ []) = snapshot h
  merged_histogram_snapshot (h ∷ g ∷ hs) =
      snapshot (record new_histogram { histograms = gathered (h ∷ g ∷ hs) })
