-- ===== src/Engine/Worker/Watched.antt =====
-- internal/engine: what one goroutine leaves behind in the gauge of active users and in the watchdog.
use vuhive.Prelude.{
  false≢true, ℕ, ◌<◌, pos_part, ◌≡◌, refl, Option, none, some, inl, inr, ℤ, pos, ◌+ℤ◌, Bool, true,
  false, List, [], ◌∷◌, ◌++◌, if◌then◌else◌, all, arith, Bool-cases, subst,
}
use mathlib.Core.List.{append_assoc}
use vuhive.Engine.Quorum.{Outcome, released, quorum_failed, cancelled}
use vuhive.Engine.Supervisor.{Exit, passed, exhausted, interrupted}
use vuhive.Engine.Iterations.{Iteration}
use vuhive.Engine.Watchdog.{ExecutionWatchdog, register_vu, begin, end, unregister_vu}
use vuhive.Engine.Watchdog.Trackers.{
  Untracked, Tracked, register_vu-Tracked, begin-Tracked, end-Tracked, unregister_vu-Tracked,
}
use vuhive.Engine.Worker.{
  Act, gauge_add, registered, recorded_ready, recorded_failed, begun, ran, ended, after_test,
  unregistered, after_hook, farewell, VuSetting, round, synchronize, deferred, run_goroutine,
  run_vu_goroutine, run_ramping_vu_goroutine, run_arrival_rate_worker_pool,
}
use vuhive.Engine.Worker.Lifecycle.{supervised_pretest_total, IsLoop, iterate-IsLoop, serve-IsLoop}

module _ {E I : Type 0} where
  -- What the watchdog gets to know; `clock` is the time of the Begin with a number.
  pub watch_act : ℕ → (ℕ → ℤ) → Act E I → ExecutionWatchdog → ExecutionWatchdog
  watch_act vuid clock registered ew = register_vu vuid ew
  watch_act vuid clock (begun n) ew = begin vuid n (clock n) ew
  watch_act vuid clock ended ew = end vuid ew
  watch_act vuid clock unregistered ew = unregister_vu vuid ew
  watch_act vuid clock act ew = ew

  pub watch_all : ℕ → (ℕ → ℤ) → List (Act E I) → ExecutionWatchdog → ExecutionWatchdog
  watch_all vuid clock [] ew = ew
  watch_all vuid clock (act ∷ acts) ew = watch_all vuid clock acts (watch_act vuid clock act ew)

  -- What the acts add to the gauge.
  pub gauge_total : List (Act E I) → ℤ
  gauge_total [] = pos 0
  gauge_total (gauge_add d ∷ acts) = d +ℤ gauge_total acts
  gauge_total (act ∷ acts) = gauge_total acts

-- As it was before.
abbrev pub Settled : ExecutionWatchdog → ExecutionWatchdog → Type 0
Settled old ew = (ew.trackers ≡ old.trackers) × (ew.stalled_iterations ≡ old.stalled_iterations)

module _ {E I : Type 0} where
  -- What stands between the registration and the removal.
  is_inner : Act E I → Bool
  is_inner (gauge_add d) = false
  is_inner registered = false
  is_inner unregistered = false
  is_inner act = true

  gauge-inner :
      (acts rest : List (Act E I))
      → all is_inner acts ≡ true
      → gauge_total (acts ++ rest) ≡ gauge_total rest
  unfolding gauge_total is_inner
  gauge-inner [] rest h = refl
  gauge-inner (recorded_ready ∷ acts) rest h = gauge-inner acts rest h
  gauge-inner (recorded_failed e ∷ acts) rest h = gauge-inner acts rest h
  gauge-inner (begun n ∷ acts) rest h = gauge-inner acts rest h
  gauge-inner (ran n it ∷ acts) rest h = gauge-inner acts rest h
  gauge-inner (ended ∷ acts) rest h = gauge-inner acts rest h
  gauge-inner (after_test n ∷ acts) rest h = gauge-inner acts rest h
  gauge-inner (gauge_add d ∷ acts) rest h = cc
  gauge-inner (registered ∷ acts) rest h = cc
  gauge-inner (unregistered ∷ acts) rest h = cc

  module _ (vuid : ℕ) (clock : ℕ → ℤ) (old : ExecutionWatchdog)
      (fresh : Untracked vuid old.trackers) where
    watch_act-Tracked :
        (act : Act E I) (ew : ExecutionWatchdog)
        → is_inner act ≡ true
        → Tracked vuid old ew
        → Tracked vuid old (watch_act vuid clock act ew)
    unfolding watch_act is_inner
    watch_act-Tracked (gauge_add d) ew h w = cc
    watch_act-Tracked registered ew h w = cc
    watch_act-Tracked unregistered ew h w = cc
    watch_act-Tracked recorded_ready ew h w = w
    watch_act-Tracked (recorded_failed e) ew h w = w
    watch_act-Tracked (ran n it) ew h w = w
    watch_act-Tracked (after_test n) ew h w = w
    watch_act-Tracked (begun n) ew h w = begin-Tracked vuid old fresh w n (clock n)
    watch_act-Tracked ended ew h w = end-Tracked vuid old fresh w

    watch_all-Settled :
        (acts : List (Act E I)) (ew : ExecutionWatchdog)
        → all is_inner acts ≡ true
        → Tracked vuid old ew
        → Settled old (watch_all vuid clock (acts ++ farewell) ew)
    unfolding watch_all
    watch_all-Settled [] ew h w = unfold watch_act in unregister_vu-Tracked vuid old fresh w
    watch_all-Settled (act ∷ acts) ew h w = elim (Bool-cases (is_inner act)) [
      | inl e ↦
          watch_all-Settled acts (watch_act vuid clock act ew)
            (subst (λ b. (if b then all is_inner acts else false) ≡ true) e h)
            (watch_act-Tracked act ew e w)
      | inr e ↦
          absurd (false≢true (subst (λ b. (if b then all is_inner acts else false) ≡ true) e h))
    ]

  all_inner-append :
      (xs ys : List (Act E I))
      → all is_inner xs ≡ true
      → all is_inner ys ≡ true
      → all is_inner (xs ++ ys) ≡ true
  all_inner-append [] ys h k = k
  all_inner-append (x ∷ xs) ys h k = let rec = all_inner-append xs ys in ground (arith, rec)

  all_inner-loop : {loop : List (Act E I)} → IsLoop loop → all is_inner loop ≡ true
  unfolding round is_inner
  all_inner-loop IsLoop.stopped = refl
  all_inner-loop (IsLoop.another n it l) = all_inner-loop l

module _ (E I : Type 0) where
  all_inner-after : (after : Bool) → all is_inner (after_hook {E = E} {I = I} after) ≡ true
  unfolding after_hook is_inner
  all_inner-after true = refl
  all_inner-after false = refl

module _ {F E I : Type 0} where
  all_inner-synchronize :
      (gate : Option (Outcome F E)) (exit : Exit E I) {loop : List (Act E I)}
      → IsLoop loop
      → all is_inner (synchronize gate exit loop) ≡ true
  unfolding synchronize is_inner
  all_inner-synchronize none passed l = all_inner-loop l
  all_inner-synchronize none (exhausted e) l = refl
  all_inner-synchronize none (interrupted i) l = refl
  all_inner-synchronize (some released) passed l = all_inner-loop l
  all_inner-synchronize (some (quorum_failed e)) passed l = refl
  all_inner-synchronize (some cancelled) passed l = refl
  all_inner-synchronize (some answer) (exhausted e) l = refl
  all_inner-synchronize (some answer) (interrupted i) l = refl

module _ {E I : Type 0} where
  -- The gauge and the watchdog after a goroutine.
  abbrev pub LeavesNoTrace : ℕ → (ℕ → ℤ) → ExecutionWatchdog → Option (List (Act E I)) → Type 0
  LeavesNoTrace vuid clock old out =
      (acts : List (Act E I)) × (out ≡ some acts)
      × Settled old (watch_all vuid clock acts old)
      × (gauge_total acts ≡ pos 0)

  whole_lem :
      (vuid : ℕ) (clock : ℕ → ℤ) (old : ExecutionWatchdog) (inner : List (Act E I))
      → Untracked vuid old.trackers
      → all is_inner inner ≡ true
      → Settled old
          (watch_all vuid clock (gauge_add (pos 1) ∷ registered ∷ (inner ++ farewell)) old)
        × (gauge_total (gauge_add (pos 1) ∷ registered ∷ (inner ++ farewell)) ≡ pos 0)
  unfolding watch_all watch_act gauge_total ◌+ℤ◌
  whole_lem vuid clock old inner fresh h = (
    watch_all-Settled vuid clock old fresh inner (register_vu vuid old) h
        (register_vu-Tracked vuid old),
    rw (gauge-inner inner farewell h) refl,
  )

module _ {F E I : Type 0} where
  run_goroutine-LeavesNoTrace :
      (fuel : ℕ) (s : VuSetting F E I) (vuid : ℕ) (clock : ℕ → ℤ) (old : ExecutionWatchdog)
      {loop : List (Act E I)}
      → pos_part s.max_pretest_retries < fuel
      → Untracked vuid old.trackers
      → IsLoop loop
      → LeavesNoTrace vuid clock old (run_goroutine fuel s loop)
  unfolding run_goroutine deferred
  run_goroutine-LeavesNoTrace fuel s vuid clock old {loop = loop} enough fresh l =
      let (exit, done) = supervised_pretest_total fuel s enough in
      let sync : List (Act E I) = synchronize s.gate exit loop in
      let hook : List (Act E I) = after_hook s.has_after_test in
      let inner : all is_inner (sync ++ hook) ≡ true =
        all_inner-append sync hook (all_inner-synchronize s.gate exit l)
          (all_inner-after E I s.has_after_test) in
      let (settled, level) = whole_lem vuid clock old (sync ++ hook) fresh inner in
      (
        gauge_add (pos 1) ∷ registered ∷ ((sync ++ hook) ++ farewell),
        simp (run_goroutine, done, append_assoc) refl,
        settled,
        level,
      )

  -- For any hooks, gate, iterations, tokens and times, with fuel for max_pretest_retries + 1 attempts of
  -- the PreTest hook, and any watchdog that does not know the virtual user: the goroutines of all three
  -- pacing engines end, whatever the hooks and the gate answer, with the trackers and the stalled
  -- iterations of the watchdog as before, and with what they added to the gauge of active users at 0.
  pub run_vu_goroutine-LeavesNoTrace :
      (fuel : ℕ) (s : VuSetting F E I) (its : List Iteration) (tokens : List (ℕ × Iteration))
      (vuid : ℕ) (clock : ℕ → ℤ) (old : ExecutionWatchdog)
      → pos_part s.max_pretest_retries < fuel
      → Untracked vuid old.trackers
      → LeavesNoTrace vuid clock old (run_vu_goroutine fuel s its)
        × LeavesNoTrace vuid clock old (run_ramping_vu_goroutine fuel s its)
        × LeavesNoTrace vuid clock old (run_arrival_rate_worker_pool fuel s tokens)
  unfolding run_vu_goroutine run_ramping_vu_goroutine run_arrival_rate_worker_pool
  run_vu_goroutine-LeavesNoTrace fuel s its tokens vuid clock old enough fresh = (
    run_goroutine-LeavesNoTrace fuel s vuid clock old enough fresh (iterate-IsLoop 0 its),
    run_goroutine-LeavesNoTrace fuel s vuid clock old enough fresh (iterate-IsLoop 0 its),
    run_goroutine-LeavesNoTrace fuel s vuid clock old enough fresh (serve-IsLoop tokens),
  )
