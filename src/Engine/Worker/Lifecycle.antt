-- ===== src/Engine/Worker/Lifecycle.antt =====
-- internal/engine: the order of a virtual user's life, as an automaton, and that every goroutine keeps it.
use vuhive.Prelude.{
  eq_self, ℕ, zero, suc, ◌<◌, ◌≡◌, ◌∙◌, refl, Option, none, some, Option-cases, inl, inr, pos,
  negsuc, pos_part, Bool, true, false, List, [], ◌∷◌, ◌++◌, if◌then◌else◌, ◌==◌, is_some, ◌||◌,
  ◌&&◌,
}
use vuhive.Engine.Quorum.{Outcome, released, quorum_failed, cancelled}
use vuhive.Engine.Supervisor.{Exit, passed, exhausted, interrupted}
use vuhive.Engine.Supervisor.Retries.{run_supervised_pretest-IsSupervised}
use vuhive.Engine.Iterations.{Iteration}
use vuhive.Engine.Worker.{
  Act, gauge_add, registered, recorded_ready, recorded_failed, begun, ran, ended, after_test,
  unregistered, after_hook, VuSetting, supervised_pretest, round, iterate, serve, synchronize,
  deferred, run_goroutine, run_vu_goroutine, run_ramping_vu_goroutine, run_arrival_rate_worker_pool,
}

pub data Phase : Type 0 where
  absent : Phase
  counted : Phase
  -- Known to the watchdog; the PreTest goes on.
  testing : Phase
  -- Between two iterations.
  idle : Phase
  -- Begun, but RunVU not called; and RunVU called, but not ended.
  starting : ℕ → Phase
  finishing : Phase
  -- Reported as failed.
  refused : Phase
  -- AfterTest has been called.
  rested : Phase
  leaving : Phase
  gone : Phase

module _ {E I : Type 0} (gated has_after_test : Bool) where
  -- What may follow: with a gate no iteration before the report; RunVU only between Begin and End, with
  -- the same number; AfterTest, where there is one, after the last iteration and before the removal.
  pub advance : Phase → Act E I → Option Phase
  advance absent (gauge_add (pos (suc zero))) = some counted
  advance counted registered = some testing
  advance testing recorded_ready = if gated then some idle else none
  advance testing (recorded_failed e) = if gated then some refused else none
  advance testing (begun n) = if gated then none else some (starting n)
  advance testing (after_test n) = if has_after_test && n == 0 then some rested else none
  advance testing unregistered = if gated || has_after_test then none else some leaving
  advance idle (begun n) = some (starting n)
  advance idle (after_test n) = if has_after_test && n == 0 then some rested else none
  advance idle unregistered = if has_after_test then none else some leaving
  advance (starting n) (ran m it) = if n == m then some finishing else none
  advance finishing ended = some idle
  advance refused (after_test n) = if has_after_test && n == 0 then some rested else none
  advance refused unregistered = if has_after_test then none else some leaving
  advance rested unregistered = some leaving
  advance leaving (gauge_add (negsuc zero)) = some gone
  advance phase act = none

  pub advance_all : Phase → List (Act E I) → Option Phase
  advance_all phase [] = some phase
  advance_all phase (act ∷ acts) = elim (advance phase act) [
    | none ↦ none
    | some phase' ↦ advance_all phase' acts
  ]

module _ (E I : Type 0) where
  deferred_idle :
      (gated after : Bool)
      → advance_all gated after idle (deferred {E = E} {I = I} after) ≡ some gone
  unfolding advance_all advance deferred after_hook
  deferred_idle gated true = refl
  deferred_idle gated false = refl

  deferred_refused :
      (gated after : Bool)
      → advance_all gated after refused (deferred {E = E} {I = I} after) ≡ some gone
  unfolding advance_all advance deferred after_hook
  deferred_refused gated true = refl
  deferred_refused gated false = refl

  deferred_testing :
      (after : Bool) → advance_all false after testing (deferred {E = E} {I = I} after) ≡ some gone
  unfolding advance_all advance deferred after_hook
  deferred_testing true = refl
  deferred_testing false = refl

module _ {E I : Type 0} where
  -- Zero or more whole rounds.
  pub data IsLoop : List (Act E I) → Type 0 where
    stopped : IsLoop []
    another :
        (n : ℕ) (it : Iteration) {acts : List (Act E I)} → IsLoop acts → IsLoop (round n it ++ acts)

  pub iterate-IsLoop : (n : ℕ) (its : List Iteration) → IsLoop (iterate n its)
  unfolding iterate
  iterate-IsLoop n [] = IsLoop.stopped
  iterate-IsLoop n (it ∷ its) = IsLoop.another n it (iterate-IsLoop (suc n) its)

  pub serve-IsLoop : (tokens : List (ℕ × Iteration)) → IsLoop (serve tokens)
  unfolding serve
  serve-IsLoop [] = IsLoop.stopped
  serve-IsLoop ((n, it) ∷ rest) = IsLoop.another n it (serve-IsLoop rest)

  round_lem :
      (gated after : Bool) (n : ℕ) (it : Iteration) (rest : List (Act E I))
      → advance_all gated after (starting n) (ran n it ∷ ended ∷ rest)
        ≡ advance_all gated after idle rest
  unfolding advance_all advance
  round_lem gated after n it rest = rw (advance_all, eq_self n) refl

  begun_lem :
      (gated after : Bool) (n : ℕ) (it : Iteration) (rest : List (Act E I))
      → advance_all gated after idle (begun n ∷ ran n it ∷ ended ∷ rest)
        ≡ advance_all gated after idle rest
  unfolding advance_all advance
  begun_lem gated after n it rest = round_lem gated after n it rest

  first_lem :
      (after : Bool) (n : ℕ) (it : Iteration) (rest : List (Act E I))
      → advance_all false after testing (begun n ∷ ran n it ∷ ended ∷ rest)
        ≡ advance_all false after idle rest
  unfolding advance_all advance
  first_lem after n it rest = round_lem false after n it rest

  loop_idle :
      (gated after : Bool) {acts : List (Act E I)} (rest : List (Act E I))
      → IsLoop acts
      → advance_all gated after idle (acts ++ rest) ≡ advance_all gated after idle rest
  unfolding round
  loop_idle gated after rest IsLoop.stopped = refl
  loop_idle gated after rest (IsLoop.another n it {acts = acts} l) =
      begun_lem gated after n it (acts ++ rest) ∙ loop_idle gated after rest l

  -- Without a gate the loop starts from the PreTest.
  ungated_lem :
      (after : Bool) {loop : List (Act E I)}
      → IsLoop loop
      → advance_all false after testing (loop ++ deferred after) ≡ some gone
  unfolding round
  ungated_lem after IsLoop.stopped = deferred_testing E I after
  ungated_lem after (IsLoop.another n it {acts = acts} l) =
      first_lem after n it (acts ++ deferred after)
      ∙ loop_idle false after (deferred after) l
      ∙ deferred_idle E I false after

  gated_lem :
      (after : Bool) {loop : List (Act E I)}
      → IsLoop loop
      → advance_all true after idle (loop ++ deferred after) ≡ some gone
  gated_lem after l = loop_idle true after (deferred after) l ∙ deferred_idle E I true after

module _ {F E I : Type 0} where
  synchronize_lem :
      (gate : Option (Outcome F E)) (exit : Exit E I) (after : Bool) {loop : List (Act E I)}
      → IsLoop loop
      → advance_all (is_some gate) after testing (synchronize gate exit loop ++ deferred after)
        ≡ some gone
  unfolding synchronize advance_all advance
  synchronize_lem none passed after l = ungated_lem after l
  synchronize_lem none (exhausted e) after l = deferred_testing E I after
  synchronize_lem none (interrupted i) after l = deferred_testing E I after
  synchronize_lem (some released) passed after l = gated_lem after l
  synchronize_lem (some (quorum_failed e)) passed after l = deferred_idle E I true after
  synchronize_lem (some cancelled) passed after l = deferred_idle E I true after
  synchronize_lem (some answer) (exhausted e) after l = deferred_refused E I true after
  synchronize_lem (some answer) (interrupted i) after l = deferred_refused E I true after

  pub supervised_pretest_total :
      (fuel : ℕ) (s : VuSetting F E I)
      → pos_part s.max_pretest_retries < fuel
      → (exit : Exit E I) × (supervised_pretest fuel s ≡ some exit)
  unfolding supervised_pretest
  supervised_pretest_total fuel s h = elim (Option-cases s.pre_test) [
    | inl missing ↦ (passed, simp (supervised_pretest, missing) refl)
    | inr (hook, present) ↦
        let (r, run, good) =
          run_supervised_pretest-IsSupervised hook s.wait fuel s.max_pretest_retries h in
        (r.exit, simp (supervised_pretest, present, run) refl)
  ]

  -- The automaton's run over a whole goroutine.
  abbrev pub Lives : Option (List (Act E I)) → VuSetting F E I → Type 0
  Lives out s =
      (acts : List (Act E I)) × (out ≡ some acts)
      × (advance_all (is_some s.gate) s.has_after_test absent acts ≡ some gone)

  run_goroutine-Lives :
      (fuel : ℕ) (s : VuSetting F E I) {loop : List (Act E I)}
      → pos_part s.max_pretest_retries < fuel
      → IsLoop loop
      → Lives (run_goroutine fuel s loop) s
  unfolding run_goroutine
  run_goroutine-Lives fuel s {loop = loop} h l =
      let (exit, done) = supervised_pretest_total fuel s h in
      (
        gauge_add (pos 1)
            ∷ registered
            ∷ (synchronize s.gate exit loop ++ deferred s.has_after_test),
        simp (run_goroutine, done) refl,
        unfold advance_all advance in synchronize_lem s.gate exit s.has_after_test l,
      )

  -- For any hooks, gate, iterations and tokens, with fuel for max_pretest_retries + 1 attempts of the
  -- PreTest hook: the goroutines of all three pacing engines end, and each keeps the order of a virtual
  -- user's life. It counts itself in the gauge and registers with the watchdog first. With a gate it
  -- reports to it exactly once, and calls RunVU only after it has reported itself ready. Each call of
  -- RunVU stands between Begin and End of the same number. AfterTest, if there is one, is called
  -- exactly once, with iteration 0, after the last iteration, whether or not the PreTest hook and the
  -- gate let it run; then the goroutine leaves the watchdog and the gauge.
  pub run_vu_goroutine-Lives :
      (fuel : ℕ) (s : VuSetting F E I) (its : List Iteration) (tokens : List (ℕ × Iteration))
      → pos_part s.max_pretest_retries < fuel
      → Lives (run_vu_goroutine fuel s its) s
        × Lives (run_ramping_vu_goroutine fuel s its) s
        × Lives (run_arrival_rate_worker_pool fuel s tokens) s
  unfolding run_vu_goroutine run_ramping_vu_goroutine run_arrival_rate_worker_pool
  run_vu_goroutine-Lives fuel s its tokens h = (
    run_goroutine-Lives fuel s h (iterate-IsLoop 0 its),
    run_goroutine-Lives fuel s h (iterate-IsLoop 0 its),
    run_goroutine-Lives fuel s h (serve-IsLoop tokens),
  )
