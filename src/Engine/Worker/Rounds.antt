-- ===== src/Engine/Worker/Rounds.antt =====
-- internal/engine: the calls of RunVU that a goroutine makes.
use vuhive.Prelude.{
  ℕ, suc, ◌≡◌, refl, ◌∙◌, ap, subst, Option, none, some, pos, Bool, true, false, List, [], ◌∷◌,
  ◌++◌, if◌then◌else◌,
}
use mathlib.Core.List.{append-nil}
use vuhive.Engine.Quorum.{Outcome, released, quorum_failed, cancelled}
use vuhive.Engine.Supervisor.{Exit, passed, exhausted, interrupted}
use vuhive.Engine.Iterations.{Iteration}
use vuhive.Engine.Worker.{
  Act, gauge_add, registered, recorded_ready, recorded_failed, begun, ran, ended, after_test,
  unregistered, after_hook, VuSetting, supervised_pretest, round, iterate, serve, synchronize,
  deferred, run_goroutine, run_vu_goroutine, run_ramping_vu_goroutine, run_arrival_rate_worker_pool,
}

module _ {E I : Type 0} where
  pub runs : List (Act E I) → List (ℕ × Iteration)
  runs [] = []
  runs (ran n it ∷ acts) = (n, it) ∷ runs acts
  runs (act ∷ acts) = runs acts

-- The iterations, numbered from n.
abbrev pub number : ℕ → List Iteration → List (ℕ × Iteration)
number n [] = []
number n (it ∷ its) = (n, it) ∷ number (suc n) its

-- The PreTest hook and the gate let the loop begin.
abbrev pub admits : {F E I : Type 0} → Option (Outcome F E) → Exit E I → Bool
admits none passed = true
admits (some released) passed = true
admits gate exit = false

module _ {E I : Type 0} where
  runs-append : (xs ys : List (Act E I)) → runs (xs ++ ys) ≡ runs xs ++ runs ys
  unfolding runs
  runs-append [] ys = refl
  runs-append (ran n it ∷ xs) ys = ap (λ l. (n, it) ∷ l) (runs-append xs ys)
  runs-append (gauge_add d ∷ xs) ys = runs-append xs ys
  runs-append (registered ∷ xs) ys = runs-append xs ys
  runs-append (recorded_ready ∷ xs) ys = runs-append xs ys
  runs-append (recorded_failed e ∷ xs) ys = runs-append xs ys
  runs-append (begun n ∷ xs) ys = runs-append xs ys
  runs-append (ended ∷ xs) ys = runs-append xs ys
  runs-append (after_test n ∷ xs) ys = runs-append xs ys
  runs-append (unregistered ∷ xs) ys = runs-append xs ys

module _ (E I : Type 0) where
  runs-iterate :
      (n : ℕ) (its : List Iteration) → runs (iterate {E = E} {I = I} n its) ≡ number n its
  unfolding runs iterate round
  runs-iterate n [] = refl
  runs-iterate n (it ∷ its) = ap (λ l. (n, it) ∷ l) (runs-iterate (suc n) its)

  runs-serve : (tokens : List (ℕ × Iteration)) → runs (serve {E = E} {I = I} tokens) ≡ tokens
  unfolding runs serve round
  runs-serve [] = refl
  runs-serve ((n, it) ∷ rest) = ap (λ l. (n, it) ∷ l) (runs-serve rest)

  runs-deferred : (after : Bool) → runs (deferred {E = E} {I = I} after) ≡ []
  unfolding runs deferred after_hook
  runs-deferred true = refl
  runs-deferred false = refl

module _ {F E I : Type 0} where
  runs-synchronize :
      (gate : Option (Outcome F E)) (exit : Exit E I) (loop : List (Act E I))
      → runs (synchronize gate exit loop) ≡ (if admits gate exit then runs loop else [])
  unfolding runs synchronize
  runs-synchronize none passed loop = refl
  runs-synchronize none (exhausted e) loop = refl
  runs-synchronize none (interrupted i) loop = refl
  runs-synchronize (some released) passed loop = refl
  runs-synchronize (some (quorum_failed e)) passed loop = refl
  runs-synchronize (some cancelled) passed loop = refl
  runs-synchronize (some released) (exhausted e) loop = refl
  runs-synchronize (some released) (interrupted i) loop = refl
  runs-synchronize (some (quorum_failed q)) (exhausted e) loop = refl
  runs-synchronize (some (quorum_failed q)) (interrupted i) loop = refl
  runs-synchronize (some cancelled) (exhausted e) loop = refl
  runs-synchronize (some cancelled) (interrupted i) loop = refl

  -- What a goroutine calls RunVU for, once the PreTest has ended by `exit`.
  abbrev pub Runs :
      VuSetting F E I → Exit E I → Option (List (Act E I)) → List (ℕ × Iteration) → Type 0
  Runs s exit out calls =
      (acts : List (Act E I)) × (out ≡ some acts)
      × (runs acts ≡ (if admits s.gate exit then calls else []))

  run_goroutine-Runs :
      (fuel : ℕ) (s : VuSetting F E I) (exit : Exit E I) (loop : List (Act E I))
      → supervised_pretest fuel s ≡ some exit
      → Runs s exit (run_goroutine fuel s loop) (runs loop)
  unfolding run_goroutine
  run_goroutine-Runs fuel s exit loop done = (
    gauge_add (pos 1) ∷ registered ∷ (synchronize s.gate exit loop ++ deferred s.has_after_test),
    simp (run_goroutine, done) refl,
    unfold runs in
        runs-append (synchronize s.gate exit loop) (deferred s.has_after_test)
        ∙ ap (λ l. runs (synchronize s.gate exit loop) ++ l) (runs-deferred E I s.has_after_test)
        ∙ append-nil (runs (synchronize s.gate exit loop))
        ∙ runs-synchronize s.gate exit loop,
  )

  -- For any hooks, gate, iterations and tokens, once the supervised PreTest has ended (it is missing,
  -- passed, exhausted or interrupted): if it is missing or passed, and there is no gate or the gate is
  -- released, a constant or a ramping virtual user calls RunVU for each of the iterations that its
  -- loop gets to, in order and numbered from 0, and a pool worker for each token that it receives,
  -- in order and under the token's number. Otherwise RunVU is never called.
  pub run_vu_goroutine-Runs :
      (fuel : ℕ) (s : VuSetting F E I) (its : List Iteration) (tokens : List (ℕ × Iteration))
      (exit : Exit E I)
      → supervised_pretest fuel s ≡ some exit
      → Runs s exit (run_vu_goroutine fuel s its) (number 0 its)
        × Runs s exit (run_ramping_vu_goroutine fuel s its) (number 0 its)
        × Runs s exit (run_arrival_rate_worker_pool fuel s tokens) tokens
  unfolding run_vu_goroutine run_ramping_vu_goroutine run_arrival_rate_worker_pool
  run_vu_goroutine-Runs fuel s its tokens exit done =
      let constant : Runs s exit (run_goroutine fuel s (iterate 0 its)) (number 0 its) =
        subst (Runs s exit (run_goroutine fuel s (iterate 0 its))) (runs-iterate E I 0 its)
          (run_goroutine-Runs fuel s exit (iterate 0 its) done) in
      (
        constant,
        constant,
        subst (Runs s exit (run_goroutine fuel s (serve tokens))) (runs-serve E I tokens)
            (run_goroutine-Runs fuel s exit (serve tokens) done),
      )
