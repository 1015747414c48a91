-- ===== src/Engine/Supervisor/Retries.antt =====
-- internal/engine/supervisor.go: how the supervised PreTest ends, and what its counters say.
use vuhive.Prelude.{
  ℕ, zero, suc, ◌+◌, ◌-◌, ◌≤◌, ◌<◌, ◌≡◌, refl, Option, none, some, ℤ, pos_part, true, is_some, leb,
  arith, Option-cases, Bool-cases, inl, inr, subst,
}
use vuhive.Engine.Supervisor.{
  Exit, passed, exhausted, interrupted, Supervision, retry, run_supervised_pretest,
}

module _ {E I : Type 0} (pre_test : ℕ → Option E) (wait : ℕ → Option I) where
  -- What each way to end says of the last attempt and of the counters.
  abbrev pub IsAccounted : ℕ → Exit E I → ℕ → ℕ → ℕ → Type 0
  IsAccounted max_retries passed last errors restarts =
      (pre_test last ≡ none) × (errors ≡ last) × (restarts ≡ last)
  IsAccounted max_retries (exhausted e) last errors restarts =
      (pre_test last ≡ some e) × (last ≡ max_retries) × (errors ≡ suc last) × (restarts ≡ last)
  IsAccounted max_retries (interrupted i) last errors restarts =
      (wait last ≡ some i)
      × (is_some (pre_test last) ≡ true)
      × (last < max_retries)
      × (errors ≡ suc last)
      × (restarts ≡ suc last)

  pub record IsSupervised (max_retries : ℕ) (r : Supervision E I) : Type 0 where
    pub some_attempt : 1 ≤ r.attempts
    pub bounded : r.attempts ≤ suc max_retries
    -- Every attempt before the last one failed.
    pub failed : (k : ℕ) → suc k < r.attempts → is_some (pre_test k) ≡ true
    -- And no wait before the last attempt was interrupted.
    pub waited : (k : ℕ) → suc k < r.attempts → wait k ≡ none
    pub accounted :
        IsAccounted max_retries r.exit (r.attempts - 1) r.pretest_errors r.restarts_total

  -- The attempts so far all failed, and the waits after them all passed.
  abbrev AllFailed : ℕ → Type 0
  AllFailed attempt = (k : ℕ) → k < attempt → (is_some (pre_test k) ≡ true) × (wait k ≡ none)

  failed_suc :
      (attempt : ℕ) {e : E}
      → AllFailed attempt
      → pre_test attempt ≡ some e
      → wait attempt ≡ none
      → AllFailed (suc attempt)
  failed_suc attempt {e = e} before now over k h = elim (Bool-cases (leb attempt k)) [
    | inl late ↦
        let same : attempt ≡ k = ground arith in
        subst (λ n. (is_some (pre_test n) ≡ true) × (wait n ≡ none)) same (rw now refl, over)
    | inr early ↦ before k (ground arith)
  ]

  minus_one : (n : ℕ) → suc n - 1 ≡ n
  minus_one n = omega arith

  retry_lem :
      (fuel max_retries attempt : ℕ)
      → attempt ≤ max_retries
      → max_retries < attempt + fuel
      → AllFailed attempt
      → (r : Supervision E I) × (retry pre_test wait fuel max_retries attempt attempt attempt
          ≡ some r)
        × IsSupervised max_retries r
  unfolding retry
  retry_lem zero max_retries attempt h1 h2 before = absurd (omega arith)
  retry_lem (suc fuel) max_retries attempt h1 h2 before = elim (Option-cases (pre_test attempt)) [
    | inl fine ↦ (
      record {
        exit = passed;
        attempts = suc attempt;
        pretest_errors = attempt;
        restarts_total = attempt;
      },
      rw (retry, fine) refl,
      record {
        some_attempt = omega arith;
        bounded = omega arith;
        failed = λ k h. (before k (omega arith)).0;
        waited = λ k h. (before k (omega arith)).1;
        accounted = rw (minus_one attempt) (fine, refl, refl);
      },
    )
    | inr (e, fails) ↦ elim (Bool-cases (leb max_retries attempt)) [
      | inl over ↦ (
        record {
          exit = exhausted e;
          attempts = suc attempt;
          pretest_errors = suc attempt;
          restarts_total = attempt;
        },
        rw (retry, fails, over) refl,
        record {
          some_attempt = omega arith;
          bounded = omega arith;
          failed = λ k h. (before k (omega arith)).0;
          waited = λ k h. (before k (omega arith)).1;
          accounted = rw (minus_one attempt) (fails, ground arith, refl, refl);
        },
      )
      | inr more ↦ elim (Option-cases (wait attempt)) [
        | inr (i, cut) ↦ (
          record {
            exit = interrupted i;
            attempts = suc attempt;
            pretest_errors = suc attempt;
            restarts_total = suc attempt;
          },
          rw (retry, fails, more, cut) refl,
          record {
            some_attempt = omega arith;
            bounded = omega arith;
            failed = λ k h. (before k (omega arith)).0;
            waited = λ k h. (before k (omega arith)).1;
            accounted = rw (minus_one attempt) (cut, rw fails refl, ground arith, refl, refl);
          },
        )
        | inl waited ↦
            let (r, run, done) =
              retry_lem fuel max_retries (suc attempt) (ground arith) (ground arith)
                (failed_suc attempt before fails waited) in
            (r, rw (retry, fails, more, waited) run, done)
      ]
    ]
  ]

  -- For any PreTest hook, any interruptions and any max_pretest_retries (a negative one counts as 0),
  -- with fuel for max_pretest_retries + 1 attempts: the loop ends, with at least one and at most
  -- max_pretest_retries + 1 attempts, of which all but the last failed and were waited for without an
  -- interruption. It passes only on an attempt
  -- that the hook passed, with an error and a restart counted for each earlier attempt; it is exhausted
  -- only on attempt number max_pretest_retries + 1, with an error counted for each attempt and a
  -- restart for each but the last; and it is interrupted only in the wait after a failed attempt that
  -- was not the last one allowed, with an error and a restart counted for each attempt.
  pub run_supervised_pretest-IsSupervised :
      (fuel : ℕ) (max_pretest_retries : ℤ)
      → pos_part max_pretest_retries < fuel
      → (r : Supervision E I) × (run_supervised_pretest pre_test wait fuel max_pretest_retries
          ≡ some r)
        × IsSupervised (pos_part max_pretest_retries) r
  unfolding run_supervised_pretest
  run_supervised_pretest-IsSupervised fuel max_pretest_retries h =
      retry_lem fuel (pos_part max_pretest_retries) 0 (omega arith) (omega arith)
        (λ k early. absurd (omega arith))
