-- ===== src/Engine/Ramping.antt =====
-- internal/engine/ramping_vus.go: the worker list of the ramping_vus pacer and its stages. A worker is
-- its id; `stopped` holds the ids whose stopCh is closed. Closing a closed channel, and indexing out
-- of range, panic: `none`. What a `select` receives is an event of the stage, and where the events of a
-- stage end, runCtx is done. The waits of
-- ramp_down and of the drain, which do not change the list, are left out.
pub mod Counts
pub mod Workers
pub mod Stages
mod Tests
use vuhive.Prelude.{
  ℕ, zero, suc, ◌+◌, ◌-◌, ◌/◌, ◌≡◌, Bool, true, false, List, [], ◌∷◌, ◌++◌, Option, none, some, ℤ,
  pos, negsuc, pos_part, neg_part, sub_ℕ, leb_ℤ, is_pos, is_neg, ltb, leb, ◌==◌, if◌then◌else◌,
  length, get_elem?, take, FloatOps, ◌-ℤ◌, ◌&&◌, not,
}
use vuhive.Config.Model.{StageConfig}

pub record Pool : Type 0 where
  pub workers : List ℕ
  pub vuid_seq : ℕ
  pub stopped : List ℕ

abbrev pub count : ℕ → List ℕ → ℕ
count id [] = 0
count id (x ∷ xs) = (if id == x then 1 else 0) + count id xs

infixl 5 ◌>>=◌
abbrev pub ◌>>=◌ : {A B : Type 0} → Option A → (A → Option B) → Option B
none >>= f = none
some a >>= f = f a

-- close(w.stopCh)
pub close : List ℕ → ℕ → Option (List ℕ)
close stopped id = if count id stopped == 0 then some (id ∷ stopped) else none

-- The spawning loop; each round starts one goroutine.
pub spawn : ℕ → Pool → Pool
spawn zero p = p
spawn (suc n) p =
    spawn n (record p { workers = p.workers ++ (suc p.vuid_seq ∷ []); vuid_seq = suc p.vuid_seq })

-- for i := currentCount - 1; i >= currentCount - toStop; i-- { close(workers[i].stopCh) }: the rounds
-- left, and i + 1.
pub stop_last : List ℕ → ℕ → ℕ → List ℕ → Option (List ℕ)
stop_last workers zero k stopped = some stopped
stop_last workers (suc n) zero stopped = none
stop_last workers (suc n) (suc i) stopped = do
  id ← get_elem? workers i
  stopped' ← close stopped id
  stop_last workers n i stopped'

pub adjust_workers : ℤ → Pool → Option Pool
adjust_workers desired p =
    let want = pos_part desired in
    let current = length p.workers in
    let shrunk : Option Pool = (do
      stopped' ← stop_last p.workers (current - want) current p.stopped
      some (record p { workers = take want p.workers; stopped = stopped' })) in
    if ltb current want
    then some (spawn (want - current) p)
    else if ltb want current
    then shrunk
    else some p

-- for _, w := range workers { close(w.stopCh) }
pub close_all : List ℕ → List ℕ → Option (List ℕ)
close_all [] stopped = some stopped
close_all (id ∷ ids) stopped = do stopped' ← close stopped id; close_all ids stopped'

-- ... and workers = nil
pub stop_all : Pool → Option Pool
stop_all p = do
  stopped' ← close_all p.workers p.stopped
  some (record p { workers = []; stopped = stopped' })

pub empty_pool : Pool
empty_pool = record { workers = []; vuid_seq = 0; stopped = [] }

-- 50 * time.Millisecond, or a quarter of a short stage, and never 0.
pub tick_interval : ℤ → ℤ
tick_interval duration =
    if leb_ℤ duration (pos 50_000_000)
    then (if ltb 0 (pos_part duration / 4) then pos (pos_part duration / 4) else pos 1_000_000)
    else pos 50_000_000

-- What the inner `select` of a stage receives.
pub data StageEvent : Type 0 where
  tick : ℤ → StageEvent
  timer : StageEvent

module _ {F : Type 0} (ops : FloatOps F) where
  -- int(math.Round(float64(startVU) + progress*float64(targetVU-startVU)))
  pub desired_count : ℤ → StageConfig → ℤ → ℤ
  desired_count start_vu stage elapsed = ops.round (
      ops.add (ops.of_int start_vu) (
        ops.mul (ops.div (ops.of_int elapsed) (ops.of_int stage.duration))
          (ops.of_int (stage.target -ℤ start_vu))))

  -- One stage: whether it ran to its end, with the pool that it leaves.
  pub run_stage : ℤ → StageConfig → List StageEvent → Pool → Option (Bool × Pool)
  run_stage start_vu stage [] p = some (false, p)
  run_stage start_vu stage (timer ∷ events) p = do q ← adjust_workers stage.target p; some (true, q)
  run_stage start_vu stage (tick elapsed ∷ events) p =
      let last : Option (Bool × Pool) = adjust_workers stage.target p >>= λ q. some (true, q) in
      let more : Option (Bool × Pool) =
        adjust_workers (desired_count start_vu stage elapsed) p >>= λ q.
        run_stage start_vu stage events q in
      if leb_ℤ stage.duration elapsed then last else more

  -- The loop over the stages, each with its events; a cancelled stage is the last.
  pub run_stages : ℤ → List (StageConfig × List StageEvent) → Pool → Option (Bool × Pool)
  run_stages start_vu [] p = some (true, p)
  run_stages start_vu ((stage, events) ∷ rest) p = run_stage start_vu stage events p >>= λ r.
      if r.0 then run_stages stage.target rest r.1 else some (false, r.1)

  -- cfg.MinReadyRatio > 0 && len(cfg.Stages) > 0 && cfg.Stages[0].Target > 0
  pub is_gated : F → List (StageConfig × List StageEvent) → Bool
  is_gated min_ready_ratio [] = false
  is_gated min_ready_ratio ((stage, events) ∷ rest) =
      ops.lt (ops.of_int (pos 0)) min_ready_ratio && is_pos stage.target

  -- The workers that wait at the gate.
  pub startup : F → List (StageConfig × List StageEvent) → Option Pool
  startup min_ready_ratio [] = some empty_pool
  startup min_ready_ratio ((stage, events) ∷ rest) =
      if is_gated min_ready_ratio ((stage, events) ∷ rest)
      then adjust_workers stage.target empty_pool
      else some empty_pool

  -- The whole pacer: whether AwaitQuorum returns nil is an input. The result says whether every stage
  -- ran to its end.
  pub run_ramping_vus : F → Bool → List (StageConfig × List StageEvent) → Option (Bool × Pool)
  run_ramping_vus min_ready_ratio quorum plan = startup min_ready_ratio plan >>= λ p.
      (if is_gated min_ready_ratio plan && not quorum
        then some (false, p)
        else run_stages (pos 0) plan p)
      >>= λ r. stop_all r.1 >>= λ q. some (r.0, q)
