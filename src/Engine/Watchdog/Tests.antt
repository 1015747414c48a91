-- ===== src/Engine/Watchdog/Tests.antt =====
-- internal/engine/watchdog.go: one virtual user, stalled once.
use vuhive.Prelude.{◌≡◌, refl, List, [], ◌∷◌, pos, ◌-ℤ◌}
use vuhive.Engine.Watchdog.{
  ExecutionWatchdog, register_vu, at_vu, begin, end, check_trackers, check_stalled_iterations,
  is_overdue,
}
use vuhive.Engine.Watchdog.Stalls.{Event, registered, begun, ended, checked, step, run}

abbrev none_yet : ExecutionWatchdog
none_yet = record { trackers = []; stalled_iterations = 0 }

-- Two checks see the first iteration overdue, and one sees the second.
abbrev history : List Event
history =
    registered 1
    ∷ begun 1 0 (pos 1000)
    ∷ checked (pos 500) (pos 1400)
    ∷ checked (pos 500) (pos 1600)
    ∷ checked (pos 500) (pos 1700)
    ∷ ended 1
    ∷ begun 1 1 (pos 2000)
    ∷ checked (pos 500) (pos 2600)
    ∷ []

stalled_twice : (run history none_yet).stalled_iterations ≡ 2
unfolding run step register_vu at_vu begin end check_trackers check_stalled_iterations is_overdue
    ◌-ℤ◌
stalled_twice = refl
