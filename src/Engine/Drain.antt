-- ===== src/Engine/Drain.antt =====
-- internal/engine/drain.go: the drain of the workers. The branch that a `select` takes, and the gauge of
-- active users at the moment of the cancellation, are inputs.
use vuhive.Prelude.{List, [], ◌∷◌, ◌++◌, ℤ, Bool, is_pos, ◌&&◌, if◌then◌else◌}

-- What the `select` receives from; `by_default` is its default branch, without a timeout.
pub data DrainPick : Type 0 where
  by_exit : DrainPick
  by_timer : DrainPick
  by_context : DrainPick
  by_default : DrainPick

pub data DrainAct : Type 0 where
  -- "draining scenario in-flight workers", with the active users.
  announced : ℤ → DrainAct
  cancelled : DrainAct
  -- The receipt from waitCh: every worker has returned.
  all_exited : DrainAct
  -- "drain phase timed out with active workers remaining"
  warned : ℤ → DrainAct

abbrev pub warn_if : Bool → ℤ → List DrainAct
warn_if b active = if b then warned active ∷ [] else []

-- The two readings of the gauge, whether there is a logger, and the branch. Which branches a `select` has
-- depends on the sign of the timeout: the default stands only where it is not positive, and the timer and
-- the context only where it is. Any branch is allowed here, so what holds of all of them holds of those.
unfoldable pub drain_workers : ℤ → ℤ → Bool → DrainPick → List DrainAct
drain_workers active before_cancel has_logger pick =
    (if has_logger then announced active ∷ [] else []) ++ (elim pick [
      | by_exit ↦ all_exited ∷ []
      | by_timer ↦ cancelled ∷ all_exited ∷ warn_if has_logger before_cancel
      | by_context ↦ cancelled ∷ all_exited ∷ warn_if has_logger before_cancel
      | by_default ↦
          cancelled ∷ all_exited ∷ warn_if (has_logger && is_pos before_cancel) before_cancel
    ])
