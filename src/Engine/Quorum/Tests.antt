-- ===== src/Engine/Quorum/Tests.antt =====
-- Runs of the startup quorum gate, and the theorems about it at concrete inputs.
use vuhive.Prelude.{ℕ, ◌≡◌, refl, true, false, [], none, arith, pos, ℤ, milli, is_some, ◌∷◌}
use vuhive.Engine.Quorum.{
  StartupQuorumGate, new_startup_quorum_gate, record_ready, record_failed, add_ready, add_failed,
  Outcome, released,
}
use vuhive.Engine.Quorum.System.{
  System, Reach, start, next, count_ready, count_failed, failed_seen, settle, here, ready_seen,
  initial, decide, WaitReady, by_ready,
}
use vuhive.Engine.Quorum.Decision.{Explained, WaitReady-Explained, Reach-exclusive, Reach-decided}

-- min_ready_ratio 0.75 of 3 workers: all three are required.
abbrev small : StartupQuorumGate ℤ ℕ
small = new_startup_quorum_gate milli (pos 3) (pos 750) (pos 0)

small_requires : small.required ≡ 3
unfolding new_startup_quorum_gate
small_requires = refl

one_failure_aborts : is_some (record_failed 7 (record_ready small)).abort_err ≡ true
unfolding new_startup_quorum_gate record_failed record_ready
one_failure_aborts = refl

-- Two workers, of which one is required: one fails, and the report of the other is settled.
abbrev pair : System ℤ ℕ
pair = initial milli (pos 2) (pos 500) (pos 0)

abbrev counted : System ℤ ℕ
unfolding initial
counted = record pair { gate = record pair.gate { ready_count = 1 }; pending = ready_seen 1 ∷ [] }

abbrev released_pair : System ℤ ℕ
unfolding initial decide
released_pair = record counted { gate = record counted.gate { opened = true }; pending = [] }

pair-counted : Reach pair counted
unfolding initial decide add_ready
pair-counted = next start (count_ready pair (omega arith))

pair-released : Reach pair released_pair
unfolding initial decide
pair-released = next pair-counted (settle counted (ready_seen 1) [] here)

WaitReady-Explained_example : Explained released_pair false released
unfolding initial decide
WaitReady-Explained_example =
    WaitReady-Explained milli (pos 2) (pos 500) (pos 0) false released pair-released (by_ready refl)

Reach-exclusive_example : released_pair.gate.abort_err ≡ none
unfolding initial decide
Reach-exclusive_example = Reach-exclusive milli (pos 2) (pos 500) (pos 0) pair-released refl refl

abbrev dropped_pair : System ℤ ℕ
unfolding initial decide
dropped_pair = record released_pair {
  gate = record released_pair.gate { failed_count = 1 };
  pending = failed_seen 1 7 ∷ [];
}

abbrev settled_pair : System ℤ ℕ
unfolding initial decide
settled_pair = record dropped_pair { pending = [] }

pair-settled : Reach pair settled_pair
unfolding initial decide add_failed
pair-settled =
    next (next pair-released (count_failed released_pair 7 (omega arith)))
      (settle dropped_pair (failed_seen 1 7) [] here)

Reach-decided_example : (o : Outcome ℤ ℕ) × WaitReady settled_pair.gate false o
unfolding initial decide
Reach-decided_example = Reach-decided milli (pos 2) (pos 500) (pos 0) pair-settled refl refl
