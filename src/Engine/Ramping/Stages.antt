-- ===== src/Engine/Ramping/Stages.antt =====
-- internal/engine/ramping_vus.go: the loop over the stages, for any float64 operations and any sequence
-- of what the timers deliver.
use vuhive.Prelude.{
  ℕ, ◌≡◌, ◌≤◌, ◌<◌, refl, Bool, true, false, List, [], ◌∷◌, some, ℤ, pos, pos_part, leb_ℤ, length,
  FloatOps, arith, inl, inr, Bool-cases, ◌&&◌, not,
}
use vuhive.Config.Model.{StageConfig}
use vuhive.Engine.Ramping.{
  Pool, ◌>>=◌, adjust_workers, stop_all, empty_pool, StageEvent, tick, timer, desired_count,
  run_stage, run_stages, is_gated, startup, run_ramping_vus, tick_interval,
}
use vuhive.Engine.Ramping.Workers.{adjust_workers-Adjusted, stop_all_lem, empty_pool-Inv}
use vuhive.Engine.Ramping.Counts.{Inv, AllStopped}

-- For every stage duration, zero and negative ones included: the tick interval is positive and at most
-- 50 milliseconds.
tick_interval-IsPositive :
    (duration : ℤ)
    → (0 < pos_part (tick_interval duration)) × (pos_part (tick_interval duration) ≤ 50_000_000)
unfolding tick_interval
tick_interval-IsPositive duration = ground arith

module _ {F : Type 0} (ops : FloatOps F) where
  -- A stage that runs to its end leaves exactly its target of workers.
  abbrev pub StageDone : StageConfig → Bool × Pool → Type 0
  StageDone stage r = Inv r.1 × (r.0 ≡ true → length r.1.workers ≡ pos_part stage.target)

  last_lem :
      (target : ℤ) (p : Pool)
      → Inv p
      → (r : Bool × Pool) × ((adjust_workers target p >>= λ q. some (true, q)) ≡ some r)
        × Inv r.1
        × (length r.1.workers ≡ pos_part target)
  last_lem target p inv =
      let (q, run, (inv', size, oldest)) = adjust_workers-Adjusted target p inv in
      ((true, q), rw run, inv', size)

  run_stage_lem :
      (start_vu : ℤ) (stage : StageConfig) (events : List StageEvent) (p : Pool)
      → Inv p
      → (r : Bool × Pool) × (run_stage ops start_vu stage events p ≡ some r) × StageDone stage r
  unfolding run_stage
  run_stage_lem start_vu stage [] p inv = ((false, p), refl, (inv, λ h. cc))
  run_stage_lem start_vu stage (timer ∷ events) p inv =
      let (r, run, inv', size) = last_lem stage.target p inv in (r, run, (inv', λ h. size))
  run_stage_lem start_vu stage (tick elapsed ∷ events) p inv =
      elim (Bool-cases (leb_ℤ stage.duration elapsed)) [
        | inl over ↦
            let (r, run, inv', size) = last_lem stage.target p inv in
            (r, rw over run, (inv', λ h. size))
        | inr before ↦
            let (q, grown, (inv', size, oldest)) =
              adjust_workers-Adjusted (desired_count ops start_vu stage elapsed) p inv in
            let (r, run, done) = run_stage_lem start_vu stage events q inv' in
            (r, rw (before, grown) run, done)
      ]

  abbrev pub Plan : Type 0
  Plan = List (StageConfig × List StageEvent)

  -- The size that the last stage asks for.
  abbrev pub SizedBy : Plan → ℕ → Type 0
  SizedBy [] n = Unit
  SizedBy ((stage, events) ∷ []) n = n ≡ pos_part stage.target
  SizedBy (s ∷ t ∷ rest) n = SizedBy (t ∷ rest) n

  abbrev pub PlanDone : Plan → Bool × Pool → Type 0
  PlanDone plan r = Inv r.1 × (r.0 ≡ true → SizedBy plan (length r.1.workers))

  -- For any float64 operations, any starting count, any stages with any sequence of ticks (at any
  -- elapsed times) and stage timers, and every pool in which each worker spawned so far is active or
  -- stopped once: the loop over the stages never closes a closed channel nor indexes out of range,
  -- the pool that it leaves satisfies the same invariant, and if every stage ran to its end, the pool
  -- has exactly as many workers as the target of the last stage (none for a negative target).
  pub run_stages-PlanDone :
      (start_vu : ℤ) (plan : Plan) (p : Pool)
      → Inv p
      → (r : Bool × Pool) × (run_stages ops start_vu plan p ≡ some r) × PlanDone plan r
  unfolding run_stages
  run_stages-PlanDone start_vu [] p inv = ((true, p), refl, (inv, λ h. tt))
  run_stages-PlanDone start_vu ((stage, events) ∷ []) p inv =
      let (r, run, (inv', size)) = run_stage_lem start_vu stage events p inv in
      elim (Bool-cases r.0) [
        | inl over ↦ ((true, r.1), rw (run, over), (inv', λ h. size over))
        | inr cut ↦ ((false, r.1), rw (run, cut), (inv', λ h. cc))
      ]
  run_stages-PlanDone start_vu ((stage, events) ∷ t ∷ rest) p inv =
      let (r, run, (inv', size)) = run_stage_lem start_vu stage events p inv in
      elim (Bool-cases r.0) [
        | inl over ↦
            let (s, more, done) = run_stages-PlanDone stage.target (t ∷ rest) r.1 inv' in
            (s, rw (run, over) more, done)
        | inr cut ↦ ((false, r.1), rw (run, cut), (inv', λ h. cc))
      ]

  startup_lem :
      (min_ready_ratio : F) (plan : Plan)
      → (p : Pool) × (startup ops min_ready_ratio plan ≡ some p) × Inv p
  unfolding startup
  startup_lem min_ready_ratio [] = (empty_pool, refl, empty_pool-Inv)
  startup_lem min_ready_ratio ((stage, events) ∷ rest) =
      elim (Bool-cases (is_gated ops min_ready_ratio ((stage, events) ∷ rest))) [
        | inl gated ↦
            let (q, run, (inv, size, oldest)) =
              adjust_workers-Adjusted stage.target empty_pool empty_pool-Inv in
            (q, rw gated run, inv)
        | inr free ↦ (empty_pool, rw free, empty_pool-Inv)
      ]

  finish_lem :
      (r : Bool × Pool)
      → Inv r.1
      → (s : Bool × Pool) × ((stop_all r.1 >>= λ q. some (r.0, q)) ≡ some s)
        × (s.0 ≡ r.0)
        × AllStopped s.1
  finish_lem r inv = let (q, run, done) = stop_all_lem r.1 inv in ((r.0, q), rw run, refl, done)

  -- For any float64 operations, any min_ready_ratio, either outcome of the startup quorum and any
  -- stages with any sequence of ticks and stage timers, cut off by cancellation at any point: the
  -- pacer returns without closing a closed channel or indexing out of range, no worker is left in its
  -- list, and the stop channel of every worker that it spawned was closed exactly once.
  pub run_ramping_vus-AllStopped :
      (min_ready_ratio : F) (quorum : Bool) (plan : Plan)
      → (r : Bool × Pool) × (run_ramping_vus ops min_ready_ratio quorum plan ≡ some r)
        × AllStopped r.1
  unfolding run_ramping_vus
  run_ramping_vus-AllStopped min_ready_ratio quorum plan =
      let (p, start, inv) = startup_lem min_ready_ratio plan in
      elim (Bool-cases (is_gated ops min_ready_ratio plan && not quorum)) [
        | inl aborted ↦
            let (s, run, same, done) = finish_lem (false, p) inv in
            (s, rw (start, aborted) run, done)
        | inr free ↦
            let (r, more, (inv', size)) = run_stages-PlanDone (pos 0) plan p inv in
            let (s, run, same, done) = finish_lem r inv' in (s, rw (start, free, more) run, done)
      ]
