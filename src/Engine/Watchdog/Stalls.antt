-- ===== src/Engine/Watchdog/Stalls.antt =====
-- internal/engine/watchdog.go: which iterations are reported, and how often.
use vuhive.Prelude.{
  ℕ, suc, ◌+◌, ◌≤◌, ◌≡◌, refl, List, [], ◌∷◌, ◌++◌, true, false, not, ◌&&◌, ℤ, pos, if◌then◌else◌,
  arith, Bool-cases, inl, inr,
}
use vuhive.Engine.Watchdog.{
  VuTracker, ExecutionWatchdog, register_vu, at_vu, begin, end, without_vu, unregister_vu,
  is_overdue, check_trackers, check_stalled_iterations,
}

-- The iterations that can still be reported: in flight and not reported yet.
pub open_count : List VuTracker → ℕ
open_count [] = 0
open_count (t ∷ ts) = (if t.active && not t.stalled then 1 else 0) + open_count ts

pub overdue_count : ℤ → ℤ → List VuTracker → ℕ
overdue_count threshold now [] = 0
overdue_count threshold now (t ∷ ts) =
    (if is_overdue threshold now t && not t.stalled then 1 else 0) + overdue_count threshold now ts

check_trackers_counts :
    (threshold now : ℤ) (ts : List VuTracker) (count : ℕ)
    → (check_trackers threshold now ts count).1 ≡ count + overdue_count threshold now ts
unfolding check_trackers overdue_count
check_trackers_counts threshold now [] count = omega arith
check_trackers_counts threshold now (t ∷ ts) count =
    elim (Bool-cases (is_overdue threshold now t && not t.stalled)) [
      | inl due ↦
          let rec = check_trackers_counts threshold now ts (suc count) in
          rw due (omega (arith, rec))
      | inr fine ↦
          let rec = check_trackers_counts threshold now ts count in rw fine (omega (arith, rec))
    ]

-- After a check, what was overdue is marked.
check_trackers_marks :
    (threshold now : ℤ) (ts : List VuTracker) (count : ℕ)
    → open_count (check_trackers threshold now ts count).0 + overdue_count threshold now ts
      ≡ open_count ts
unfolding check_trackers overdue_count open_count is_overdue
check_trackers_marks threshold now [] count = omega arith
check_trackers_marks threshold now (t ∷ ts) count =
    let due = is_overdue threshold now t && not t.stalled in
    let rec = check_trackers_marks threshold now ts (if due then suc count else count) in
    ground (arith, rec)

check_trackers_settled :
    (threshold now : ℤ) (ts : List VuTracker) (count : ℕ)
    → overdue_count threshold now (check_trackers threshold now ts count).0 ≡ 0
unfolding check_trackers overdue_count is_overdue
check_trackers_settled threshold now [] count = refl
check_trackers_settled threshold now (t ∷ ts) count =
    let due = is_overdue threshold now t && not t.stalled in
    let rec = check_trackers_settled threshold now ts (if due then suc count else count) in
    ground (arith, rec)

-- For any trackers, threshold and time: a check counts exactly the trackers that are in flight, overdue
-- and not reported yet, and a second check at the same time counts none.
check_stalled_iterations_once :
    (threshold now : ℤ) (ew : ExecutionWatchdog)
    → ((check_stalled_iterations threshold now ew).stalled_iterations
        ≡ ew.stalled_iterations + overdue_count threshold now ew.trackers)
      × ((check_stalled_iterations threshold now
            (check_stalled_iterations threshold now ew)).stalled_iterations
          ≡ (check_stalled_iterations threshold now ew).stalled_iterations)
unfolding check_stalled_iterations
check_stalled_iterations_once threshold now ew =
    let counted = check_trackers_counts threshold now ew.trackers ew.stalled_iterations in
    let again =
      check_trackers_counts threshold now
        (check_trackers threshold now ew.trackers ew.stalled_iterations).0
        (check_trackers threshold now ew.trackers ew.stalled_iterations).1 in
    let settled = check_trackers_settled threshold now ew.trackers ew.stalled_iterations in
    (counted, omega (arith, again, settled))

-- What the pacer and the ticker do to the watchdog.
pub data Event : Type 0 where
  registered : ℕ → Event
  begun : ℕ → ℕ → ℤ → Event
  ended : ℕ → Event
  unregistered : ℕ → Event
  checked : ℤ → ℤ → Event

unfoldable pub step : Event → ExecutionWatchdog → ExecutionWatchdog
step (registered vuid) ew = register_vu vuid ew
step (begun vuid iteration now) ew = begin vuid iteration now ew
step (ended vuid) ew = end vuid ew
step (unregistered vuid) ew = unregister_vu vuid ew
step (checked threshold now) ew = check_stalled_iterations threshold now ew

unfoldable pub run : List Event → ExecutionWatchdog → ExecutionWatchdog
run [] ew = ew
run (e ∷ events) ew = run events (step e ew)

-- The iterations that a history begins.
pub begins : List Event → ℕ
begins [] = 0
begins (begun vuid iteration now ∷ events) = suc (begins events)
begins (registered vuid ∷ events) = begins events
begins (ended vuid ∷ events) = begins events
begins (unregistered vuid ∷ events) = begins events
begins (checked threshold now ∷ events) = begins events

open_at :
    (vuid : ℕ) (f : VuTracker → VuTracker) (ts : List VuTracker)
    → open_count (at_vu vuid f ts) ≤ suc (open_count ts)
unfolding at_vu open_count
open_at vuid f [] = omega arith
open_at vuid f (t ∷ ts) = let rec = open_at vuid f ts in ground (arith, rec)

open_end :
    (vuid : ℕ) (ts : List VuTracker)
    → open_count (at_vu vuid (λ t. record t { active = false }) ts) ≤ open_count ts
unfolding at_vu open_count
open_end vuid [] = omega arith
open_end vuid (t ∷ ts) = let rec = open_end vuid ts in ground (arith, rec)

open_without : (vuid : ℕ) (ts : List VuTracker) → open_count (without_vu vuid ts) ≤ open_count ts
unfolding without_vu open_count
open_without vuid [] = omega arith
open_without vuid (t ∷ ts) = let rec = open_without vuid ts in ground (arith, rec)

open_append :
    (ts : List VuTracker) (t : VuTracker)
    → t.active ≡ false
    → open_count (ts ++ (t ∷ [])) ≡ open_count ts
unfolding open_count
open_append [] t idle = rw idle (omega arith)
open_append (u ∷ ts) t idle = let rec = open_append ts t idle in omega (arith, rec)

-- What is reported, with what can still be.
abbrev load : ExecutionWatchdog → ℕ
load ew = ew.stalled_iterations + open_count ew.trackers

step-load : (e : Event) (ew : ExecutionWatchdog) → load (step e ew) ≤ load ew + begins (e ∷ [])
unfolding step begins register_vu begin end unregister_vu check_stalled_iterations
step-load (registered vuid) ew = omega (
  arith,
  open_append ew.trackers
      (record { vuid = vuid; iteration = 0; start_nano = pos 0; active = false; stalled = false })
      refl,
)
step-load (begun vuid iteration now) ew = omega (
  arith,
  open_at vuid
      (λ t. record t { iteration = iteration; start_nano = now; stalled = false; active = true })
      ew.trackers,
)
step-load (ended vuid) ew = omega (arith, open_end vuid ew.trackers)
step-load (unregistered vuid) ew = omega (arith, open_without vuid ew.trackers)
step-load (checked threshold now) ew = omega (
  arith,
  check_trackers_counts threshold now ew.trackers ew.stalled_iterations,
  check_trackers_marks threshold now ew.trackers ew.stalled_iterations,
)

begins_cons :
    (e : Event) (events : List Event) → begins (e ∷ events) ≡ begins (e ∷ []) + begins events
unfolding begins
begins_cons (registered vuid) events = omega arith
begins_cons (begun vuid iteration now) events = omega arith
begins_cons (ended vuid) events = omega arith
begins_cons (unregistered vuid) events = omega arith
begins_cons (checked threshold now) events = omega arith

run-load :
    (events : List Event) (ew : ExecutionWatchdog) → load (run events ew) ≤ load ew + begins events
unfolding run
run-load [] ew = omega arith
run-load (e ∷ events) ew =
    omega (arith, run-load events (step e ew), step-load e ew, begins_cons e events)

-- For any history of registrations, begun and ended iterations, removals and checks (at any times and
-- thresholds), from a watchdog without trackers: the counter of stalled iterations, together with the
-- iterations in flight that are not reported, is at most the number of iterations begun. So an
-- iteration is counted as stalled at most once.
run_stalled_bound :
    (events : List Event)
    → (run events (record { trackers = []; stalled_iterations = 0 })).stalled_iterations
        + open_count (run events (record { trackers = []; stalled_iterations = 0 })).trackers
      ≤ begins events
unfolding open_count
run_stalled_bound events =
    omega (arith, run-load events (record { trackers = []; stalled_iterations = 0 }))
