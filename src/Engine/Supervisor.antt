-- ===== src/Engine/Supervisor.antt =====
-- internal/engine/supervisor.go: the retries of the PreTest hook. What the hook returns at each attempt,
-- what ends a wait before its timer, and what the random generator draws, are inputs.
pub mod Backoff
pub mod Retries
mod Tests
use vuhive.Prelude.{
  ℕ, zero, suc, ◌+◌, ◌-◌, ◌*◌, ◌/◌, ◌%◌, Option, none, some, ℤ, pos, pos_part, Bool, true, false,
  ltb, leb, not, is_pos, ltb_ℤ, ◌||◌, if◌then◌else◌, wrap64,
}

-- 1 << attempt, before it is cut to 64 bits.
pub one_shl : ℕ → ℕ
one_shl zero = 1
one_shl (suc n) = 2 * one_shl n

-- baseBackoff * (1 << attempt) in 64 bits, and maxBackoff where that exceeds it or is not positive.
pub backoff : ℕ → ℤ
backoff attempt =
    let delay = wrap64 (10_000_000 * one_shl attempt) in
    if ltb_ℤ (pos 1_000_000_000) delay || not (is_pos delay) then pos 1_000_000_000 else delay

-- rand.Int64N(n), where the generator draws any number.
abbrev int64_n : ℕ → ℕ → ℕ
int64_n draw zero = 0
int64_n draw (suc n) = draw % suc n

-- Up to half of the delay, and the two together.
pub sleep_duration : ℕ → ℕ → ℕ
sleep_duration attempt draw =
    let delay = pos_part (backoff attempt) in delay + int64_n draw (suc (delay / 2))

-- How runSupervisedPreTest ends: E is an error of the hook, and I the reason that ends a wait.
pub data Exit (E I : Type 0) : Type 0 where
  passed : Exit E I
  exhausted : E → Exit E I
  interrupted : I → Exit E I

-- The counters MetricVUPretestErrors and MetricVURestartsTotal, and the calls of the hook.
pub record Supervision (E I : Type 0) : Type 0 where
  pub exit : Exit E I
  pub attempts : ℕ
  pub pretest_errors : ℕ
  pub restarts_total : ℕ

module _ {E I : Type 0} (pre_test : ℕ → Option E) (wait : ℕ → Option I) where
  -- The endless loop, on fuel: `none` when it runs out.
  unfoldable pub retry : ℕ → ℕ → ℕ → ℕ → ℕ → Option (Supervision E I)
  retry zero max_retries attempt errors restarts = none
  retry (suc fuel) max_retries attempt errors restarts =
      let rest = retry fuel max_retries (suc attempt) (suc errors) (suc restarts) in
      elim (pre_test attempt) [
        | none ↦ some (record {
          exit = passed;
          attempts = suc attempt;
          pretest_errors = errors;
          restarts_total = restarts;
        })
        | some e ↦
            if leb max_retries attempt
            then some (record {
              exit = exhausted e;
              attempts = suc attempt;
              pretest_errors = suc errors;
              restarts_total = restarts;
            })
            else elim (wait attempt) [
              | some i ↦ some (record {
                exit = interrupted i;
                attempts = suc attempt;
                pretest_errors = suc errors;
                restarts_total = suc restarts;
              })
              | none ↦ rest
            ]
      ]

  -- A negative cfg.MaxPreTestRetries is 0.
  unfoldable pub run_supervised_pretest : ℕ → ℤ → Option (Supervision E I)
  run_supervised_pretest fuel max_pretest_retries = retry fuel (pos_part max_pretest_retries) 0 0 0
