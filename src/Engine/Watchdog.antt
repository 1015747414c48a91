-- ===== src/Engine/Watchdog.antt =====
-- internal/engine/watchdog.go: the trackers of the iterations in flight and the check for stalled ones.
-- Times are in nanoseconds; a tracker is found by the id of its virtual user, of which each has one.
pub mod Stalls
pub mod Threshold
pub mod Trackers
mod Tests
use vuhive.Prelude.{
  ℕ, suc, ◌+◌, List, [], ◌∷◌, ◌++◌, Bool, true, false, not, ◌&&◌, ℤ, pos, is_pos, is_zero, leb_ℤ,
  ltb_ℤ, ◌-ℤ◌, ◌*ℤ◌, ◌==◌, if◌then◌else◌,
}
use vuhive.Config.Model.{ScenarioConfig, default_guard_deadline, default_watchdog_interval}
use vuhive.Metric.Types.{HistogramSnapshot}

pub record VuTracker : Type 0 where
  pub vuid : ℕ
  pub iteration : ℕ
  pub start_nano : ℤ
  pub active : Bool
  pub stalled : Bool

-- The trackers, and what the counter of the stalled iterations has counted.
pub record ExecutionWatchdog : Type 0 where
  pub trackers : List VuTracker
  pub stalled_iterations : ℕ

-- RegisterVU
pub register_vu : ℕ → ExecutionWatchdog → ExecutionWatchdog
register_vu vuid ew = record ew {
  trackers =
      ew.trackers
      ++ (record { vuid = vuid; iteration = 0; start_nano = pos 0; active = false; stalled = false }
          ∷ []);
}

-- A write through the pointer to a tracker.
pub at_vu : ℕ → (VuTracker → VuTracker) → List VuTracker → List VuTracker
at_vu vuid f [] = []
at_vu vuid f (t ∷ ts) = if t.vuid == vuid then f t ∷ ts else t ∷ at_vu vuid f ts

pub begin : ℕ → ℕ → ℤ → ExecutionWatchdog → ExecutionWatchdog
begin vuid iteration now ew = record ew {
  trackers =
      at_vu vuid
        (λ t. record t { iteration = iteration; start_nano = now; stalled = false; active = true })
        ew.trackers;
}

pub end : ℕ → ExecutionWatchdog → ExecutionWatchdog
end vuid ew = record ew { trackers = at_vu vuid (λ t. record t { active = false }) ew.trackers }

-- unregisterVU removes the tracker itself.
pub without_vu : ℕ → List VuTracker → List VuTracker
without_vu vuid [] = []
without_vu vuid (t ∷ ts) = if t.vuid == vuid then ts else t ∷ without_vu vuid ts

pub unregister_vu : ℕ → ExecutionWatchdog → ExecutionWatchdog
unregister_vu vuid ew = record ew { trackers = without_vu vuid ew.trackers }

-- The interval of the checks, from the configuration.
pub watchdog_interval : {F : Type 0} → ScenarioConfig F → ℤ
watchdog_interval cfg =
    if is_pos cfg.watchdog_interval then cfg.watchdog_interval else default_watchdog_interval

-- The static threshold, which NewExecutionWatchdog sets.
pub static_threshold : {F : Type 0} → ScenarioConfig F → ℤ
static_threshold cfg =
    if is_pos cfg.watchdog_stall_threshold
    then cfg.watchdog_stall_threshold
    else if is_pos cfg.vu_timeout
    then cfg.vu_timeout
    else default_guard_deadline

-- Without a configured threshold, three times the 99th percentile of the iterations, capped by the
-- timeout. A percentile is at most 60 seconds, so its triple does not wrap.
pub effective_threshold : {F : Type 0} → ScenarioConfig F → HistogramSnapshot → ℤ
effective_threshold cfg snap =
    let dyn = pos 3 *ℤ snap.p99 in
    if not (is_pos cfg.watchdog_stall_threshold) && is_pos snap.count && is_pos snap.p99
    then (if is_pos cfg.vu_timeout && ltb_ℤ cfg.vu_timeout dyn
        then cfg.vu_timeout
        else if is_pos dyn
        then dyn
        else static_threshold cfg)
    else static_threshold cfg

-- Running for at least the threshold.
pub is_overdue : ℤ → ℤ → VuTracker → Bool
is_overdue threshold now t =
    t.active && not (is_zero t.start_nano) && leb_ℤ threshold (now -ℤ t.start_nano)

-- The loop over the trackers, with the counter.
pub check_trackers : ℤ → ℤ → List VuTracker → ℕ → List VuTracker × ℕ
check_trackers threshold now [] count = ([], count)
check_trackers threshold now (t ∷ ts) count =
    let due = is_overdue threshold now t && not t.stalled in
    let (rest, total) = check_trackers threshold now ts (if due then suc count else count) in
    ((if due then record t { stalled = true } else t) ∷ rest, total)

pub check_stalled_iterations : ℤ → ℤ → ExecutionWatchdog → ExecutionWatchdog
check_stalled_iterations threshold now ew =
    let (trackers, count) = check_trackers threshold now ew.trackers ew.stalled_iterations in
    record { trackers = trackers; stalled_iterations = count }
